-- ===== src/Yara.antt =====
-- src/ai_reverse_agent/yara_gen.py: the names and literals of a YARA rule. The choice of strings is
-- in Yara/Strings, the rule in Yara/Rule.
pub mod Escape
pub mod Strings
pub mod Rule
pub mod Names
use ai_reverse_agent.Prelude.{
  ℕ, zero, suc, ◌+◌, ◌/◌, ◌%◌, Bool, true, false, not, ◌&&◌, ◌||◌, List, [], ◌∷◌, ◌++◌, ltb, leb,
  ◌==◌, if◌then◌else◌, take,
}
use ai_reverse_agent.Text.{Text, codes, is_alpha, is_digit, strip, strip_by}
use ai_reverse_agent.Result.{Result, ok, err, ◌>>=◌}
use ai_reverse_agent.Text.Utf8.{UnicodeEncodeError, encode_char}
use ai_reverse_agent.Bytes.{Bytes, hex_digit}

-- The characters that _IDENTIFIER_RE leaves.
unfoldable pub is_word : ℕ → Bool
unfolding is_alpha is_digit
is_word c = is_alpha c || is_digit c || c == b'_'

-- _IDENTIFIER_RE.sub("_", text); `after` tells that a run of other characters goes on.
unfoldable pub underscored : Bool → Text → Text
unfolding is_word
underscored after [] = []
underscored after (c ∷ cs) =
    let rest = underscored (not (is_word c)) cs in
    if is_word c then c ∷ rest else if after then rest else b'_' ∷ rest

abbrev pub or_binary : Text → Text
or_binary [] = codes "binary"
or_binary (c ∷ cs) = c ∷ cs

abbrev pub after_digit : Text → Text
unfolding is_digit
after_digit [] = []
after_digit (c ∷ cs) = if is_digit c then codes "sample_" ++ c ∷ cs else c ∷ cs

-- sanitize_rule_name
unfoldable pub sanitize_rule_name : Text → Text
unfolding strip strip_by underscored after_digit
sanitize_rule_name value =
    take 128 (after_digit (or_binary (strip_by (λ c. c == b'_') (underscored false (strip value)))))

-- f"\\x{byte:02x}"
unfoldable pub hex_escape : ℕ → Text
hex_escape b = b'\\' ∷ b'x' ∷ hex_digit (b / 16) ∷ hex_digit (b % 16) ∷ []

unfoldable pub hex_escapes : Bytes → Text
unfolding hex_escape
hex_escapes [] = []
hex_escapes (b ∷ bs) = hex_escape b ++ hex_escapes bs

-- One round of the loop of escape_yara_string.
unfoldable pub escape_char : ℕ → Result UnicodeEncodeError Text
unfolding hex_escapes encode_char
escape_char c =
    if c == b'\\'
    then ok (b'\\' ∷ b'\\' ∷ [])
    else if c == b'"'
    then ok (b'\\' ∷ b'"' ∷ [])
    else if c == 10
    then ok (b'\\' ∷ b'n' ∷ [])
    else if c == 13
    then ok (b'\\' ∷ b'r' ∷ [])
    else if c == 9
    then ok (b'\\' ∷ b't' ∷ [])
    else if leb 0x20 c && leb c 0x7E
    then ok (c ∷ [])
    else (encode_char c >>= λ encoded. ok (hex_escapes encoded))

-- escape_yara_string
unfoldable pub escape_yara_string : Text → Result UnicodeEncodeError Text
unfolding escape_char
escape_yara_string [] = ok []
escape_yara_string (c ∷ cs) = do
  first ← escape_char c
  rest ← escape_yara_string cs
  ok (first ++ rest)
