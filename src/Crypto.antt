-- ===== src/Crypto.antt =====
-- src/ai_reverse_agent/crypto_id.py: known constants of ciphers and hashes in binary data.
pub mod Patterns
pub mod Scan
use ai_reverse_agent.Prelude.{
  ℕ, zero, suc, ◌+◌, ◌-◌, ◌/◌, ◌%◌, Bool, true, false, not, ◌&&◌, ◌||◌, List, [], ◌∷◌, ◌++◌, Option,
  none, some, length, take, ltb, ◌==◌, if◌then◌else◌,
}
use ai_reverse_agent.Prelude.Sorts.{sort_by}
use mathlib.Core.Option
use ai_reverse_agent.Text.{Text, text_eq}
use ai_reverse_agent.Text.Order.{text_ltb}
use ai_reverse_agent.Bytes.{Bytes, hex}
use ai_reverse_agent.Bytes.Search.{find}
use ai_reverse_agent.Crypto.Patterns.{KnownPattern, known_patterns}

pub record CryptoDetection : Type 0 where
  pub algorithm : Text
  pub constant : Text
  pub offset : ℕ
  pub size : ℕ
  pub endianness : Option Text
  pub evidence_hex : Text

-- What the loop appends for an offset.
abbrev pub detection : KnownPattern → ℕ → CryptoDetection
detection p o = record {
  algorithm = p.algorithm;
  constant = p.constant;
  offset = o;
  size = length p.bytes;
  endianness = p.endianness;
  evidence_hex = hex (take 32 p.bytes);
}

-- The inner loop; `none` means that the fuel ran out.
unfoldable pub find_pattern : ℕ → KnownPattern → Bytes → ℕ → Option (List CryptoDetection)
unfolding find
find_pattern zero p b start = none
find_pattern (suc fuel) p b start = elim (find p.bytes b start) [
  | none ↦ some []
  | some o ↦ Option.map (λ rest. detection p o ∷ rest) (find_pattern fuel p b (o + 1))
]

abbrev join :
    Option (List CryptoDetection) → Option (List CryptoDetection) → Option (List CryptoDetection)
join none later = none
join (some now) later = Option.map (λ rest. now ++ rest) later

-- The outer loop. At most one offset for each byte is found, and one more behind the last.
unfoldable pub find_patterns : List KnownPattern → Bytes → Option (List CryptoDetection)
unfolding find_pattern
find_patterns [] b = some []
find_patterns (p ∷ ps) b = join (find_pattern (length b + 2) p b 0) (find_patterns ps b)

-- endianness or ""
abbrev pub or_empty : Option Text → Text
or_empty none = []
or_empty (some t) = t

-- The order of the sort keys, which are tuples.
unfoldable pub key_ltb : CryptoDetection → CryptoDetection → Bool
key_ltb d e =
    if not (d.offset == e.offset)
    then ltb d.offset e.offset
    else if not (text_eq d.algorithm e.algorithm)
    then text_ltb d.algorithm e.algorithm
    else text_ltb (or_empty d.endianness) (or_empty e.endianness)

unfoldable pub key_leb : CryptoDetection → CryptoDetection → Bool
unfolding key_ltb
key_leb d e = not (key_ltb e d)

-- identify_crypto, over the patterns given
unfoldable pub identify_with : List KnownPattern → Bytes → Option (List CryptoDetection)
unfolding find_patterns key_leb sort_by
identify_with ps b = Option.map (sort_by key_leb) (find_patterns ps b)

unfoldable pub identify_crypto : Bytes → Option (List CryptoDetection)
unfolding identify_with
identify_crypto = identify_with known_patterns
