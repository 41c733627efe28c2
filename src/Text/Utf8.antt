-- ===== src/Text/Utf8.antt =====
-- UTF-8 as Python decodes and encodes it: bytes.decode("utf-8"), which is strict: no overlong form, no surrogate, nothing above U+10FFFF;
-- and str.encode("utf-8"), which raises on surrogates.
use ai_reverse_agent.Result.{Result, ok, err, ◌>>=◌}
use ai_reverse_agent.Prelude.{
  ℕ, zero, suc, ◌+◌, ◌-◌, ◌*◌, ◌/◌, ◌%◌, ◌++◌, Bool, ◌&&◌, List, [], ◌∷◌, Option, none, some, ltb,
  leb, ◌==◌, if◌then◌else◌,
}

-- What a first byte announces: how many bytes follow, its own bits, and the bounds of the next one.
pub record Lead : Type 0 where
  pub pending : ℕ
  pub bits : ℕ
  pub low : ℕ
  pub high : ℕ

abbrev pub announces : ℕ → ℕ → ℕ → ℕ → Option Lead
announces pending bits low high =
    some (record { pending = pending; bits = bits; low = low; high = high })

unfoldable pub lead : ℕ → Option Lead
lead c =
    if ltb c 0x80
    then announces 0 c 0 0
    else if ltb c 0xC2
    then none
    else if ltb c 0xE0
    then announces 1 (c - 0xC0) 0x80 0xBF
    else if c == 0xE0
    then announces 2 0 0xA0 0xBF
    else if c == 0xED
    then announces 2 0xD 0x80 0x9F
    else if ltb c 0xF0
    then announces 2 (c - 0xE0) 0x80 0xBF
    else if c == 0xF0
    then announces 3 0 0x90 0xBF
    else if ltb c 0xF4
    then announces 3 (c - 0xF0) 0x80 0xBF
    else if c == 0xF4
    then announces 3 4 0x80 0x8F
    else none

abbrev pub prepend : Bool → ℕ → Option (List ℕ) → Option (List ℕ)
prepend t c none = none
prepend t c (some cs) = some (if t then c ∷ cs else cs)

-- Within a character of which `pending` bytes are to come, with the bits read so far.
unfoldable pub decode_from : ℕ → ℕ → ℕ → ℕ → List ℕ → Option (List ℕ)
unfolding lead
decode_from zero bits low high [] = some []
decode_from (suc pending) bits low high [] = none
decode_from zero bits low high (c ∷ cs) = elim (lead c) [
  | none ↦ none
  | some l ↦ prepend (l.pending == 0) c (decode_from l.pending l.bits l.low l.high cs)
]
decode_from (suc pending) bits low high (c ∷ cs) =
    let wider = bits * 64 + (c - 0x80) in
    let rest = decode_from pending wider 0x80 0xBF cs in
    if leb low c && leb c high then prepend (pending == 0) wider rest else none

unfoldable pub decode_utf8 : List ℕ → Option (List ℕ)
unfolding decode_from
decode_utf8 = decode_from 0 0 0 0

-- The encoder refuses the surrogates.
pub data UnicodeEncodeError : Type 0 where
  surrogates_not_allowed : UnicodeEncodeError

unfoldable pub is_surrogate : ℕ → Bool
is_surrogate c = leb 0xD800 c && leb c 0xDFFF

-- The bytes of one character that is no surrogate.
unfoldable pub encode_scalar : ℕ → List ℕ
encode_scalar c =
    if ltb c 0x80
    then c ∷ []
    else if ltb c 0x800
    then (0xC0 + c / 64) ∷ (0x80 + c % 64) ∷ []
    else if ltb c 0x10000
    then (0xE0 + c / 4096) ∷ (0x80 + c / 64 % 64) ∷ (0x80 + c % 64) ∷ []
    else (0xF0 + c / 262144) ∷ (0x80 + c / 4096 % 64) ∷ (0x80 + c / 64 % 64) ∷ (0x80 + c % 64) ∷ []

-- chr(c).encode("utf-8")
unfoldable pub encode_char : ℕ → Result UnicodeEncodeError (List ℕ)
unfolding is_surrogate encode_scalar
encode_char c = if is_surrogate c then err surrogates_not_allowed else ok (encode_scalar c)

-- t.encode("utf-8")
unfoldable pub encode_utf8 : List ℕ → Result UnicodeEncodeError (List ℕ)
unfolding encode_char
encode_utf8 [] = ok []
encode_utf8 (c ∷ cs) = do first ← encode_char c; rest ← encode_utf8 cs; ok (first ++ rest)
