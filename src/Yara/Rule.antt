-- ===== src/Yara/Rule.antt =====
-- `generate_yara_rule` and `_render_rule` of yara_gen.py. SHA-256 is a parameter; the name and the
-- stem of the source file's path are arguments.
pub mod Encodable
pub mod Generation
use Prim.Native.Nat.{min, max}
use ai_reverse_agent.Prelude.{
  ℕ, ◌+◌, ◌*◌, ◌/◌, Bool, true, false, not, ◌&&◌, ◌||◌, List, [], ◌∷◌, ◌++◌, Option, none, some,
  ltb, leb, if◌then◌else◌, length, take,
}
use ai_reverse_agent.Prelude.Int.{pos}
use ai_reverse_agent.Prelude.Sorts.{sort_by}
use ai_reverse_agent.Result.{Result, ok, err, ◌>>=◌}
use ai_reverse_agent.Bytes.{Bytes}
use ai_reverse_agent.Text.{join_lines, Text, codes, text_eq}
use ai_reverse_agent.Text.Utf8.{UnicodeEncodeError}
use ai_reverse_agent.Imports.{ImportedSymbol}
use ai_reverse_agent.Text.Order.{text_ltb}
use ai_reverse_agent.Text.Numbers.{decimal, hexadecimal, padded}
use ai_reverse_agent.Yara.{sanitize_rule_name, escape_yara_string}
use ai_reverse_agent.Yara.Strings.{
  YaraString, Provenance, decoded_xor, import_name, ascii, FileStrings, select_strings,
}

-- What generate_yara_rule raises: a YaraGenerationError, by its reasons, or what the encoding of a
-- literal raises.
pub data RuleError : Type 0 where
  bad_max_strings empty_binary not_enough_features : RuleError
  not_encodable : UnicodeEncodeError → RuleError

-- str | int
pub data MetaValue : Type 0 where
  text_value : Text → MetaValue
  number_value : ℕ → MetaValue

abbrev pub Metadata : Type 0
Metadata = List (Text × MetaValue)

pub record GeneratedYaraRule : Type 0 where
  pub name : Text
  pub text : Text
  pub imports : List Text
  pub metadata : Metadata
  pub strings : List YaraString
  pub condition : Text

-- features.file
pub record Features : Type 0 where
  pub found : FileStrings
  pub container : Text
  pub backend : Text
  pub architecture : Text
  pub import_set_hash : Option Text
  pub pe_imphash : Option Text

-- The keyword arguments; `stem` and `source_name` are those of the path.
pub record Request : Type 0 where
  pub stem : Text
  pub source_name : Text
  pub rule_name : Option Text
  pub max_strings : ℕ
  pub exact_fallback : Bool

-- isinstance(t, str) and t
abbrev pub non_empty : Option Text → Option Text
non_empty none = none
non_empty (some []) = none
non_empty (some (c ∷ cs)) = some (c ∷ cs)

unfoldable pub provenance_text : Provenance → Text
provenance_text decoded_xor = codes "decoded-xor"
provenance_text import_name = codes "import"
provenance_text ascii = codes "ascii"

abbrev pub is_decoded : Provenance → Bool
is_decoded decoded_xor = true
is_decoded _ = false

-- sum(item.provenance == "decoded-xor" for item in strings)
unfoldable pub decoded_count : List YaraString → ℕ
decoded_count [] = 0
decoded_count (s ∷ ss) = (if is_decoded s.provenance then 1 else 0) + decoded_count ss

abbrev pub optional : Text → Option Text → Metadata
optional key none = []
optional key (some t) = (key, text_value t) ∷ []

-- The hash of the imports, where there are any.
abbrev pub hash_entry : List ImportedSymbol → Option Text → Metadata
hash_entry [] import_set_hash = []
hash_entry (s ∷ ss) import_set_hash = optional (codes "import_set_hash") (non_empty import_set_hash)

unfoldable pub metadata_of : Features → Request → Text → List YaraString → Metadata
unfolding decoded_count
metadata_of f q digest strings =
    (codes "author", text_value (codes "longyuanai"))
      ∷ (codes "generated_by", text_value (codes "005-ai-reverse-agent"))
      ∷ (codes "source_name", text_value q.source_name)
      ∷ (codes "source_sha256", text_value digest)
      ∷ (codes "source_size", number_value (length f.found.bytes))
      ∷ (codes "container", text_value f.container)
      ∷ (codes "backend", text_value f.backend)
      ∷ (codes "architecture", text_value f.architecture)
      ∷ hash_entry f.found.imports f.import_set_hash
    ++ optional (codes "pe_imphash") (non_empty f.pe_imphash)
    ++ (codes "decoded_xor_strings", number_value (decoded_count strings)) ∷ []

abbrev pub lower_size : ℕ → ℕ
lower_size n = max 1 (n * 3 / 4)

abbrev pub upper_size : ℕ → ℕ
upper_size n = min (100 * 1024 * 1024) (max (lower_size n) (n * 5 / 4))

-- What a rule's condition needs: the modules that it imports, and its clauses.
abbrev pub Clauses : Type 0
Clauses = List Text × List Text

unfoldable pub pe_clauses : Text → List YaraString → Clauses
pe_clauses imphash strings = (
  codes "pe" ∷ [],
  codes "pe.is_pe"
      ∷ (codes "pe.imphash() == \"" ++ imphash ++ codes "\"")
      ∷ (if leb 1 (length strings) then codes "1 of ($s*)" ∷ [] else []),
)

unfoldable pub size_clauses : ℕ → Clauses
unfolding padded
size_clauses n = (
  [],
  (codes "filesize >= " ++ decimal (pos (lower_size n)))
      ∷ (codes "filesize <= " ++ decimal (pos (upper_size n)))
      ∷ codes "2 of ($s*)"
      ∷ [],
)

abbrev pub exact_clauses : Text → Clauses
exact_clauses digest =
    (codes "hash" ∷ [], (codes "hash.sha256(0, filesize) == \"" ++ digest ++ codes "\"") ∷ [])

-- The PE imphash that a rule can use.
unfoldable pub usable_imphash : Features → Option Text
unfolding text_eq
usable_imphash f = if text_eq f.container (codes "pe") then non_empty f.pe_imphash else none

unfoldable pub file_clauses : Features → Request → Text → List YaraString → Result RuleError Clauses
unfolding size_clauses
file_clauses f q digest strings =
    if leb 2 (length strings)
    then ok (size_clauses (length f.found.bytes))
    else if q.exact_fallback
    then ok (exact_clauses digest)
    else err not_enough_features

unfoldable pub clauses_of : Features → Request → Text → List YaraString → Result RuleError Clauses
unfolding usable_imphash pe_clauses file_clauses
clauses_of f q digest strings = elim (usable_imphash f) [
  | some imphash ↦ ok (pe_clauses imphash strings)
  | none ↦ file_clauses f q digest strings
]

-- " and ".join(clauses)
unfoldable pub join_and : List Text → Text
join_and [] = []
join_and (c ∷ []) = c
join_and (c ∷ d ∷ cs) = c ++ codes " and " ++ join_and (d ∷ cs)

unfoldable pub import_lines : List Text → List Text
import_lines [] = []
import_lines (m ∷ ms) = (codes "import \"" ++ m ++ codes "\"") ∷ import_lines ms

-- if lines: lines.append("")
abbrev pub with_blank : List Text → List Text
with_blank [] = []
with_blank (l ∷ ls) = l ∷ ls ++ [] ∷ []

unfoldable pub meta_text : MetaValue → Result UnicodeEncodeError Text
unfolding padded escape_yara_string
meta_text (number_value n) = ok (decimal (pos n))
meta_text (text_value t) = do
  escaped ← escape_yara_string t
  ok (codes "\"" ++ escaped ++ codes "\"")

unfoldable pub meta_lines : Metadata → Result UnicodeEncodeError (List Text)
unfolding meta_text
meta_lines [] = ok []
meta_lines ((key, value) ∷ rest) = do
  written ← meta_text value
  lines ← meta_lines rest
  ok ((codes "        " ++ key ++ codes " = " ++ written) ∷ lines)

-- sorted(metadata): by key
unfoldable pub entry_leb : Text × MetaValue → Text × MetaValue → Bool
unfolding text_ltb
entry_leb e d = not (text_ltb d.0 e.0)

unfoldable pub string_lines : List YaraString → Result UnicodeEncodeError (List Text)
unfolding escape_yara_string padded provenance_text
string_lines [] = ok []
string_lines (s ∷ ss) = do
  escaped ← escape_yara_string s.value
  lines ← string_lines ss
  ok (
      (codes "        $"
        ++ s.identifier
        ++ codes " = \""
        ++ escaped
        ++ codes "\" ascii wide // 0x"
        ++ hexadecimal (pos s.offset)
        ++ codes " "
        ++ provenance_text s.provenance)
      ∷ lines)

abbrev pub with_strings : List Text → List Text
with_strings [] = []
with_strings (l ∷ ls) = codes "    strings:" ∷ l ∷ ls

-- _render_rule
unfoldable pub render_rule :
    Text → List Text → Metadata → List YaraString → Text → Result UnicodeEncodeError Text
unfolding import_lines meta_lines entry_leb sort_by string_lines join_lines
render_rule name imports metadata strings condition = do
  entries ← meta_lines (sort_by entry_leb metadata)
  literals ← string_lines strings
  ok (
      join_lines (
        with_blank (import_lines imports)
        ++ (codes "rule " ++ name ++ codes " : generated reverse")
          ∷ codes "{"
          ∷ codes "    meta:"
          ∷ entries
        ++ with_strings literals
        ++ codes "    condition:" ∷ (codes "        " ++ condition) ∷ codes "}" ∷ [])
      ++ 10 ∷ [])

-- The error passes through generate_yara_rule.
abbrev pub as_rule_error {ℓ} : {A : Type ℓ} → Result UnicodeEncodeError A → Result RuleError A
as_rule_error (ok a) = ok a
as_rule_error (err e) = err (not_encodable e)

-- hashlib.sha256(data).hexdigest() is `sha256` of the bytes.
module _ (sha256 : Bytes → Text) where
  -- rule_name or f"longyuanai_..."
  abbrev pub wanted_name : Features → Request → Text
  wanted_name f q = elim (non_empty q.rule_name) [
    | some name ↦ name
    | none ↦ codes "longyuanai_" ++ q.stem ++ codes "_" ++ take 12 (sha256 f.found.bytes)
  ]

  unfoldable pub make_rule :
      Features → Request → List YaraString → Clauses → Result UnicodeEncodeError GeneratedYaraRule
  unfolding sanitize_rule_name metadata_of join_and render_rule
  make_rule f q strings clauses = do
    let name = sanitize_rule_name (wanted_name f q)
    let metadata = metadata_of f q (sha256 f.found.bytes) strings
    let condition = join_and clauses.1
    text ← render_rule name clauses.0 metadata strings condition
    ok (record {
      name = name;
      text = text;
      imports = clauses.0;
      metadata = metadata;
      strings = strings;
      condition = condition;
    })

  -- generate_yara_rule
  unfoldable pub generate_yara_rule : Features → Request → Result RuleError GeneratedYaraRule
  unfolding select_strings clauses_of make_rule
  generate_yara_rule f q =
      let strings = select_strings f.found q.max_strings in
      if not (leb 1 q.max_strings && leb q.max_strings 64)
      then err bad_max_strings
      else if ltb (length f.found.bytes) 1
      then err empty_binary
      else clauses_of f q (sha256 f.found.bytes) strings >>= λ clauses.
          as_rule_error (make_rule f q strings clauses)
