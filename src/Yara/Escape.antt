-- ===== src/Yara/Escape.antt =====
-- `escape_yara_string` against the reading of a quoted YARA string.
use ai_reverse_agent.Prelude.{
  ℕ, ◌+◌, ◌*◌, ◌/◌, ◌%◌, ◌<◌, ◌≡◌, refl, sym, Bool, true, false, not, ◌&&◌, ◌||◌, inl, inr, ◌⊎◌,
  ◌∙◌, [], ◌∷◌, ◌++◌, Option, none, some, arith, leb, All, append_assoc, Bool-cases, ◌==◌,
  if◌then◌else◌,
}
use native.Mathlib.Nat.{div-add-mod}
use ai_reverse_agent.Text.{Text}
use ai_reverse_agent.Result.{Result, ok, err, ◌>>=◌}
use ai_reverse_agent.Text.Utf8.{
  UnicodeEncodeError, surrogates_not_allowed, is_surrogate, encode_scalar, encode_char, encode_utf8,
}
use ai_reverse_agent.Bytes.{Bytes, IsBytes, hex_digit}
use ai_reverse_agent.Instruction.{digit_value}
use ai_reverse_agent.Instruction.Hex.{hex_digit_lem}
use ai_reverse_agent.Yara.{hex_escape, hex_escapes, escape_char, escape_yara_string}

-- Where the reader of a quoted string is: between characters, behind a backslash, or at the first
-- or the second digit of a byte.
pub data Reader : Type 0 where
  plain escaped first_digit : Reader
  second_digit : ℕ → Reader

abbrev pub prefixed : Bytes → Option Bytes → Option Bytes
prefixed bs none = none
prefixed bs (some cs) = some (bs ++ cs)

-- The bytes that stand for themselves: printable, and neither a quote nor a backslash.
unfoldable pub is_literal : ℕ → Bool
is_literal c = leb 0x20 c && leb c 0x7E && not (c == b'"') && not (c == b'\\')

abbrev pub escape_value : ℕ → Option ℕ
escape_value c =
    if c == b'\\' || c == b'"'
    then some c
    else if c == b'n'
    then some 10
    else if c == b'r'
    then some 13
    else if c == b't'
    then some 9
    else none

-- The bytes that the text between two quotes stands for, if it is well formed.
unfoldable pub read_string : Reader → Text → Option Bytes
unfolding is_literal digit_value
read_string plain [] = some []
read_string _ [] = none
read_string plain (c ∷ cs) = elim (c == b'\\') [
  | true ↦ read_string escaped cs
  | false ↦ elim (is_literal c) [ true ↦ prefixed (c ∷ []) (read_string plain cs) | false ↦ none ]
]
read_string escaped (c ∷ cs) = elim (c == b'x') [
  | true ↦ read_string first_digit cs
  | false ↦ elim (escape_value c) [
    | none ↦ none
    | some b ↦ prefixed (b ∷ []) (read_string plain cs)
  ]
]
read_string first_digit (c ∷ cs) = elim (digit_value 16 c) [
  | none ↦ none
  | some d ↦ read_string (second_digit d) cs
]
read_string (second_digit d) (c ∷ cs) = elim (digit_value 16 c) [
  | none ↦ none
  | some e ↦ prefixed ((d * 16 + e) ∷ []) (read_string plain cs)
]

read_first_digit :
    (c d : ℕ) (cs : Text)
    → digit_value 16 c ≡ some d
    → read_string first_digit (c ∷ cs) ≡ read_string (second_digit d) cs
unfolding read_string
read_first_digit c d cs h = rw (read_string, h) refl

read_second_digit :
    (c d e : ℕ) (cs : Text)
    → digit_value 16 c ≡ some e
    → read_string (second_digit d) (c ∷ cs) ≡ prefixed ((d * 16 + e) ∷ []) (read_string plain cs)
unfolding read_string
read_second_digit c d e cs h = rw (read_string, h) refl

read_literal :
    (c : ℕ) (cs : Text)
    → (c == b'\\') ≡ false
    → is_literal c ≡ true
    → read_string plain (c ∷ cs) ≡ prefixed (c ∷ []) (read_string plain cs)
unfolding read_string
read_literal c cs h k = rw (read_string, h, k) refl

hex_escape_lem :
    (b : ℕ) (rest : Text)
    → b < 256
    → read_string plain (hex_escape b ++ rest) ≡ prefixed (b ∷ []) (read_string plain rest)
unfolding read_string hex_escape
hex_escape_lem b rest h =
    let (p, q) = hex_digit_lem (b / 16) (omega (arith, h)) in
    let (r, s) = hex_digit_lem (b % 16) (omega arith) in
    let whole : b / 16 * 16 + b % 16 ≡ b = omega (arith, div-add-mod b 16) in
    rw
      (
        read_first_digit (hex_digit (b / 16)) (b / 16) (hex_digit (b % 16) ∷ rest) q,
        read_second_digit (hex_digit (b % 16)) (b / 16) (b % 16) rest s,
        whole,
      )
      refl

prefixed-append : (a b : Bytes) (o : Option Bytes) → prefixed a (prefixed b o) ≡ prefixed (a ++ b) o
prefixed-append a b none = refl
prefixed-append a b (some c) = rw (append_assoc a b c) refl

prefixed_nil : (o : Option Bytes) → prefixed [] o ≡ o
prefixed_nil none = refl
prefixed_nil (some c) = refl

hex_escapes_lem :
    (bs : Bytes) (rest : Text)
    → IsBytes bs
    → read_string plain (hex_escapes bs ++ rest) ≡ prefixed bs (read_string plain rest)
unfolding hex_escapes
hex_escapes_lem [] rest h = sym (prefixed_nil (read_string plain rest))
hex_escapes_lem (b ∷ bs) rest h =
    rw
      (
        append_assoc (hex_escape b) (hex_escapes bs) rest,
        hex_escape_lem b (hex_escapes bs ++ rest) h.0,
        hex_escapes_lem bs rest h.1,
      )
      (prefixed-append (b ∷ []) bs (read_string plain rest))

-- Code points.
abbrev pub IsPoints : Text → Type 0
IsPoints = All (λ c. c < 0x110000)

encode_scalar-IsBytes : (c : ℕ) → c < 0x110000 → IsBytes (encode_scalar c)
unfolding encode_scalar
encode_scalar-IsBytes c h = ground (arith, div-add-mod c 262144)

-- What is written for a character is read as these bytes.
abbrev pub IsWritten : Text → Bytes → Type 0
IsWritten written encoded =
    (rest : Text) → read_string plain (written ++ rest) ≡ prefixed encoded (read_string plain rest)

-- A character has no encoding and is refused, or is written and read as its encoding.
abbrev pub IsEscaped : ℕ → Type 0
IsEscaped c =
    ((encode_char c ≡ err surrogates_not_allowed) × (escape_char c ≡ err surrogates_not_allowed))
    ⊎ ((written : Text) × (encoded : Bytes) × (encode_char c ≡ ok encoded)
        × (escape_char c ≡ ok written)
        × IsWritten written encoded)

-- The characters that the loop writes by a case of their own, and the others that are ASCII.
escape_printable :
    (c : ℕ)
    → (c == b'\\') ≡ false
    → (c == b'"') ≡ false
    → (leb 0x20 c && leb c 0x7E) ≡ true
    → IsEscaped c
unfolding escape_char encode_char encode_scalar is_surrogate is_literal
escape_printable c h k p =
    inr (c ∷ [], c ∷ [], ground arith, ground arith, λ rest. read_literal c rest h (ground arith))

escape_encoded :
    (c : ℕ)
    → c < 0x110000
    → escape_char c ≡ (encode_char c >>= λ encoded. ok (hex_escapes encoded))
    → IsEscaped c
unfolding encode_char
escape_encoded c h e = elim (Bool-cases (is_surrogate c)) [
  | inl s ↦ inl (rw (encode_char, s) refl, e ∙ rw (encode_char, s) refl)
  | inr s ↦ inr (
    hex_escapes (encode_scalar c),
    encode_scalar c,
    rw (encode_char, s) refl,
    e ∙ rw (encode_char, s) refl,
    λ rest. hex_escapes_lem (encode_scalar c) rest (encode_scalar-IsBytes c h),
  )
]

escape_char-IsEscaped : (c : ℕ) → c < 0x110000 → IsEscaped c
unfolding escape_char encode_char encode_scalar is_surrogate is_literal read_string
escape_char-IsEscaped c h = elim (Bool-cases (c == b'\\')) [
  | inl e ↦ let same : c ≡ b'\\' = ground arith in rw same (inr (_, _, refl, refl, λ rest. refl))
  | inr e ↦ elim (Bool-cases (c == b'"')) [
    | inl e' ↦ let same : c ≡ b'"' = ground arith in rw same (inr (_, _, refl, refl, λ rest. refl))
    | inr e' ↦ elim (Bool-cases (c == 10)) [
      | inl f ↦ let same : c ≡ 10 = ground arith in rw same (inr (_, _, refl, refl, λ rest. refl))
      | inr f ↦ elim (Bool-cases (c == 13)) [
        | inl f' ↦
            let same : c ≡ 13 = ground arith in rw same (inr (_, _, refl, refl, λ rest. refl))
        | inr f' ↦ elim (Bool-cases (c == 9)) [
          | inl g ↦
              let same : c ≡ 9 = ground arith in rw same (inr (_, _, refl, refl, λ rest. refl))
          | inr g ↦ elim (Bool-cases (leb 0x20 c && leb c 0x7E)) [
            | inl g' ↦ escape_printable c e e' g'
            | inr g' ↦ escape_encoded c h (rw (escape_char, e, e', f, f', g, g') refl)
          ]
        ]
      ]
    ]
  ]
]

-- A character that is written goes in front of what is written behind it.
behind :
    (written : Text) (encoded : Bytes) (literal : Result UnicodeEncodeError Text)
    (others : Result UnicodeEncodeError Bytes)
    → IsWritten written encoded
    → (literal >>= λ l. ok (read_string plain l)) ≡ (others >>= λ b. ok (some b))
    → ((literal >>= λ l. ok (written ++ l)) >>= λ l. ok (read_string plain l))
      ≡ ((others >>= λ b. ok (encoded ++ b)) >>= λ b. ok (some b))
behind written encoded (ok l) (ok b) r h =
    let same : read_string plain l ≡ some b = cc in rw (r l, same) refl
behind written encoded (ok l) (err e) r h = absurd (cc)
behind written encoded (err e) (ok b) r h = absurd (cc)
behind written encoded (err e) (err d) r h = let same : e ≡ d = cc in rw same refl

-- For a text of code points, writing its literal raises exactly where the UTF-8 encoding of the
-- text does, which is at a surrogate. Otherwise the literal is a well-formed quoted string, and
-- stands for the UTF-8 bytes of the text.
pub read_string-escape_yara_string :
    (t : Text)
    → IsPoints t
    → (escape_yara_string t >>= λ literal. ok (read_string plain literal))
      ≡ (encode_utf8 t >>= λ encoded. ok (some encoded))
unfolding escape_yara_string encode_utf8 read_string
read_string-escape_yara_string [] h = refl
read_string-escape_yara_string (c ∷ cs) h = elim (escape_char-IsEscaped c h.0) [
  | inl (p, q) ↦ rw (q, p) refl
  | inr (written, encoded, p, q, r) ↦
      rw (q, p)
        (behind written encoded (escape_yara_string cs) (encode_utf8 cs) r
          (read_string-escape_yara_string cs h.1))
]
