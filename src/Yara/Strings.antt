-- ===== src/Yara/Strings.antt =====
-- The strings of a YARA rule: `_string_score` and `_select_strings` of yara_gen.py. What
-- find_xor_strings recovers is an argument. `casefold` is that of ASCII.
pub mod Selection
use Prim.Native.Nat.{min}
use ai_reverse_agent.Prelude.{
  ℕ, zero, suc, ◌+◌, ◌*◌, Bool, true, false, not, ◌&&◌, ◌||◌, List, [], ◌∷◌, ◌++◌, map, Option,
  none, some, ltb, leb, ◌==◌, if◌then◌else◌, length,
}
use ai_reverse_agent.Prelude.Int.{pos}
use ai_reverse_agent.Prelude.Sorts.{sort_by}
use ai_reverse_agent.Bytes.{Bytes}
use ai_reverse_agent.Bytes.Search.{find}
use ai_reverse_agent.Text.{
  Text, codes, text_eq, one_of, starts_with, is_digit, is_alpha, is_lower, is_upper, lower, strip,
  drop_while,
}
use ai_reverse_agent.Text.Order.{text_ltb}
use ai_reverse_agent.Text.Numbers.{decimal, padded}
use ai_reverse_agent.Imports.{ImportedSymbol}

pub data Provenance : Type 0 where
  decoded_xor import_name ascii : Provenance

pub record YaraString : Type 0 where
  pub identifier : Text
  pub value : Text
  pub offset : ℕ
  pub provenance : Provenance

-- A tuple of `candidates`.
pub record Candidate : Type 0 where
  pub score : ℕ
  pub offset : ℕ
  pub value : Text
  pub provenance : Provenance

abbrev pub noisy_strings : List Text
noisy_strings =
    codes "this program cannot be run in dos mode."
    ∷ codes "rich"
    ∷ codes ".text"
    ∷ codes ".data"
    ∷ codes ".rdata"
    ∷ codes ".reloc"
    ∷ []

abbrev pub section_names : List Text
section_names =
    codes ".text"
    ∷ codes ".data"
    ∷ codes ".rdata"
    ∷ codes ".idata"
    ∷ codes ".reloc"
    ∷ codes ".bss"
    ∷ codes ".rsrc"
    ∷ []

-- t.endswith(suffix)
unfoldable pub ends_with : Text → Text → Bool
unfolding text_eq
ends_with [] suffix = text_eq [] suffix
ends_with (c ∷ cs) suffix = text_eq (c ∷ cs) suffix || ends_with cs suffix

unfoldable pub holds_char : ℕ → Text → Bool
holds_char c [] = false
holds_char c (x ∷ xs) = x == c || holds_char c xs

-- len(set(t))
unfoldable pub distinct : Text → ℕ
unfolding holds_char
distinct [] = 0
distinct (c ∷ cs) = if holds_char c cs then distinct cs else suc (distinct cs)

-- sum(test(character) for character in t)
unfoldable pub count : (ℕ → Bool) → Text → ℕ
count p [] = 0
count p (c ∷ cs) = (if p c then 1 else 0) + count p cs

abbrev pub times : ℕ → Bool → ℕ
times n t = if t then n else 0

abbrev pub separators : Text
separators = codes "._-:/@="

-- _string_score
unfoldable pub string_score : Text → ℕ
unfolding lower strip one_of ends_with distinct count holds_char is_digit is_alpha is_lower is_upper
string_score value =
    let lowered = strip (lower value) in
    if ltb (length value) 6 || ltb 120 (length value)
    then 0
    else if one_of lowered noisy_strings
        || ends_with lowered (codes ".dll")
        || ends_with lowered (codes ".sys")
        || ends_with lowered (codes ".ocx")
    then 0
    else if ltb (distinct lowered) 4
    then 0
    else if ltb (count is_alpha value) 3
    then 0
    else min (length value) 48
      + min (distinct value) 16
      + times 12 (not (count (λ c. holds_char c separators) value == 0))
      + times 8 (not (count is_digit value == 0))
      + times 6 (not (count is_upper value == 0) && not (count is_lower value == 0))

-- The strings that find_xor_strings recovers.
unfoldable pub decoded_candidates : List (ℕ × Text) → List Candidate
unfolding string_score
decoded_candidates [] = []
decoded_candidates ((offset, value) ∷ rest) =
    record {
      score = 1000 + string_score value;
      offset = offset;
      value = value;
      provenance = decoded_xor;
    }
    ∷ decoded_candidates rest

-- The offset of a name in the data, or 0 where it does not stand there.
unfoldable pub name_offset : Bytes → Text → ℕ
unfolding find
name_offset b [] = 0
name_offset b (c ∷ cs) = elim (find (c ∷ cs) b 0) [ none ↦ 0 | some o ↦ o ]

-- name.encode("ascii", errors="ignore")
unfoldable pub ascii_only : Text → Bytes
ascii_only [] = []
ascii_only (c ∷ cs) = let rest = ascii_only cs in if ltb c 128 then c ∷ rest else rest

unfoldable pub has_score : Text → Bool
unfolding string_score
has_score t = not (string_score t == 0)

unfoldable pub import_candidates : Bytes → List ImportedSymbol → List Candidate
unfolding string_score name_offset ascii_only has_score
import_candidates b [] = []
import_candidates b (s ∷ ss) =
    let rest = import_candidates b ss in
    if has_score s.name
    then record {
      score = 800 + string_score s.name;
      offset = name_offset b (ascii_only s.name);
      value = s.name;
      provenance = import_name;
    }
      ∷ rest
    else rest

-- import_names
unfoldable pub import_names : List ImportedSymbol → List Text
unfolding has_score lower
import_names [] = []
import_names (s ∷ ss) =
    let rest = import_names ss in if has_score s.name then lower s.name ∷ rest else rest

-- Does the text go on behind one of these names?
unfoldable pub extends_one : Text → List Text → Bool
unfolding text_eq starts_with
extends_one t [] = false
extends_one t (n ∷ ns) = (not (text_eq t n) && starts_with t n) || extends_one t ns

unfoldable pub starts_with_one : Text → List Text → Bool
unfolding starts_with
starts_with_one t [] = false
starts_with_one t (n ∷ ns) = starts_with t n || starts_with_one t ns

-- What is skipped of the strings of the file.
unfoldable pub is_skipped : List Text → Text → Bool
unfolding lower strip extends_one starts_with_one drop_while holds_char
is_skipped names value =
    let lowered = strip (lower value) in
    extends_one lowered names
    || starts_with_one (drop_while (λ c. holds_char c (codes "`@_ ")) lowered) section_names

unfoldable pub ascii_candidates : List Text → List (ℕ × Text) → List Candidate
unfolding is_skipped has_score string_score
ascii_candidates names [] = []
ascii_candidates names ((offset, value) ∷ rest) =
    let others = ascii_candidates names rest in
    if is_skipped names value || not (has_score value)
    then others
    else record { score = string_score value; offset = offset; value = value; provenance = ascii }
      ∷ others

-- The order of the keys (-score, offset, value.lower()).
unfoldable pub candidate_ltb : Candidate → Candidate → Bool
unfolding text_ltb lower
candidate_ltb c d =
    if not (c.score == d.score)
    then ltb d.score c.score
    else if not (c.offset == d.offset)
    then ltb c.offset d.offset
    else text_ltb (lower c.value) (lower d.value)

unfoldable pub candidate_leb : Candidate → Candidate → Bool
unfolding candidate_ltb
candidate_leb c d = not (candidate_ltb d c)

unfoldable pub chosen_string : ℕ → Candidate → YaraString
unfolding padded
chosen_string index c = record {
  identifier = b's' ∷ decimal (pos index);
  value = c.value;
  offset = c.offset;
  provenance = c.provenance;
}

-- The loop that fills `selected`, with the number of strings `taken` so far. The bound is tested
-- behind the append.
unfoldable pub select_from : ℕ → ℕ → List Text → List Candidate → List YaraString
unfolding lower one_of chosen_string
select_from max_strings taken seen [] = []
select_from max_strings taken seen (c ∷ cs) = elim (one_of (lower c.value) seen) [
  | true ↦ select_from max_strings taken seen cs
  | false ↦ chosen_string (taken + 1) c ∷ elim (leb max_strings (taken + 1)) [
    | true ↦ []
    | false ↦ select_from max_strings (taken + 1) (lower c.value ∷ seen) cs
  ]
]

-- features.file, as far as the choice reads it
pub record FileStrings : Type 0 where
  pub bytes : Bytes
  pub decoded : List (ℕ × Text)
  pub imports : List ImportedSymbol
  pub strings : List (ℕ × Text)

unfoldable pub candidates : FileStrings → List Candidate
unfolding decoded_candidates import_candidates ascii_candidates import_names candidate_leb sort_by
candidates f = sort_by candidate_leb (
    decoded_candidates f.decoded
    ++ import_candidates f.bytes f.imports
    ++ ascii_candidates (import_names f.imports) f.strings)

-- _select_strings
unfoldable pub select_strings : FileStrings → ℕ → List YaraString
unfolding candidates select_from
select_strings f max_strings = select_from max_strings 0 [] (candidates f)
