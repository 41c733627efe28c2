-- ===== src/Yara/Rule/Generation.antt =====
-- When `generate_yara_rule` gives a rule, and what rule it gives.
use ai_reverse_agent.Prelude.{
  ℕ, zero, suc, All, All-append, [], ◌∷◌, ◌≤◌, ◌<◌, ◌≡◌, refl, true, false, ◌&&◌, inl, inr, List,
  Option, none, some, arith, ltb, leb, length, Bool-cases,
}
use ai_reverse_agent.Result.{ok, Returns, bind_ok}
use ai_reverse_agent.Imports.{ImportedSymbol}
use ai_reverse_agent.Yara.{sanitize_rule_name}
use ai_reverse_agent.Bytes.{Bytes}
use ai_reverse_agent.Text.{Text, codes}
use ai_reverse_agent.Yara.Names.{IsIdentifier, sanitize_rule_name-IsIdentifier}
use ai_reverse_agent.Yara.Strings.{YaraString, candidates, select_strings}
use ai_reverse_agent.Yara.Rule.Encodable.{
  IsEncodable, IsEncodableFile, IsWritable, is_encodable, render_rule-Returns, chosen-HasText,
}
use ai_reverse_agent.Text.Utf8.{is_surrogate}
use ai_reverse_agent.Yara.Strings.Selection.{
  IsChosen, IsDistinct, at_least_one, folded, select_strings_lem,
}
use ai_reverse_agent.Yara.Rule.{
  Features, Request, optional, hash_entry, non_empty, Clauses, join_and, metadata_of,
  GeneratedYaraRule, clauses_of, file_clauses, pe_clauses, usable_imphash, make_rule, wanted_name,
  generate_yara_rule,
}

-- With the fallback there is always a condition.
file_clauses-Returns :
    (f : Features) (q : Request) (digest : Text) (strings : List YaraString)
    → q.exact_fallback ≡ true
    → Returns (file_clauses f q digest strings)
unfolding file_clauses
file_clauses-Returns f q digest strings h = elim (Bool-cases (leb 2 (length strings))) [
  | inl e ↦ rw e (_, refl)
  | inr e ↦ rw (e, h) (_, refl)
]

clauses_of-Returns :
    (f : Features) (q : Request) (digest : Text) (strings : List YaraString)
    → q.exact_fallback ≡ true
    → Returns (clauses_of f q digest strings)
unfolding clauses_of
clauses_of-Returns f q digest strings h = go (usable_imphash f)
  where
    go :
        (o : Option Text)
        → Returns (elim o [
          | some imphash ↦ ok (pe_clauses imphash strings)
          | none ↦ file_clauses f q digest strings
        ])
    go none = file_clauses-Returns f q digest strings h
    go (some imphash) = (_, refl)

-- An optional text without surrogates, if it is there.
abbrev pub IsEncodableOption : Option Text → Type 0
IsEncodableOption none = Unit
IsEncodableOption (some t) = IsEncodable t

-- No text that the rule quotes has a surrogate.
pub record IsEncodableRequest (sha256 : Bytes → Text) (f : Features) (q : Request) : Type 0 where
  pub found : IsEncodableFile f.found
  pub source_name : IsEncodable q.source_name
  pub digest : IsEncodable (sha256 f.found.bytes)
  pub container : IsEncodable f.container
  pub backend : IsEncodable f.backend
  pub architecture : IsEncodable f.architecture
  pub import_set_hash : IsEncodableOption f.import_set_hash
  pub pe_imphash : IsEncodableOption f.pe_imphash

optional-IsWritable :
    (key : Text) (o : Option Text)
    → IsEncodableOption o
    → All IsWritable (optional key (non_empty o))
optional-IsWritable key none h = tt
optional-IsWritable key (some []) h = tt
optional-IsWritable key (some (c ∷ cs)) h = (h, tt)

hash_entry-IsWritable :
    (ss : List ImportedSymbol) (o : Option Text)
    → IsEncodableOption o
    → All IsWritable (hash_entry ss o)
hash_entry-IsWritable [] o h = tt
hash_entry-IsWritable (s ∷ ss) o h = optional-IsWritable (codes "import_set_hash") o h

metadata_of-IsWritable :
    (sha256 : Bytes → Text) (f : Features) (q : Request) (strings : List YaraString)
    → IsEncodableRequest sha256 f q
    → All IsWritable (metadata_of f q (sha256 f.found.bytes) strings)
unfolding metadata_of is_encodable is_surrogate
metadata_of-IsWritable sha256 f q strings h =
    let imported = hash_entry-IsWritable f.found.imports f.import_set_hash h.import_set_hash in
    let hashed =
      All-append IsWritable (hash_entry f.found.imports f.import_set_hash) _ imported
        (optional-IsWritable (codes "pe_imphash") f.pe_imphash h.pe_imphash) in
    let last = All-append IsWritable _ _ hashed (tt, tt) in
    (
      refl,
      (refl, (h.source_name, (h.digest, (tt, (h.container, (h.backend, (h.architecture, last))))))),
    )

make_rule-Returns :
    (sha256 : Bytes → Text) (f : Features) (q : Request) (strings : List YaraString)
    (clauses : Clauses)
    → IsEncodableRequest sha256 f q
    → All (IsChosen (candidates f.found)) strings
    → (r : GeneratedYaraRule) × (make_rule sha256 f q strings clauses ≡ ok r)
      × (r.name ≡ sanitize_rule_name (wanted_name sha256 f q))
      × (r.strings ≡ strings)
unfolding make_rule
make_rule-Returns sha256 f q strings clauses h k =
    let (text, e) =
      render_rule-Returns (sanitize_rule_name (wanted_name sha256 f q)) clauses.0
        (metadata_of f q (sha256 f.found.bytes) strings) strings (join_and clauses.1)
        (metadata_of-IsWritable sha256 f q strings h) (chosen-HasText f.found strings h.found k) in
    (_, bind_ok _ _ e refl, refl, refl)

at_least_one_lem : (m : ℕ) → 1 ≤ m → at_least_one m ≡ m
at_least_one_lem zero h = absurd (omega (arith, h))
at_least_one_lem (suc m) h = refl

-- With the fallback, of every file that is not empty and for every limit from 1 to 64, a rule is
-- generated if none of the texts that it may quote has a surrogate: the name of the source, the
-- digests, the container, the backend, the architecture, and the strings and names found in the
-- file. Its name is an identifier, and its strings are at most as many as the limit, no two of
-- them the same text up to case.
pub generate_yara_rule_returns :
    (sha256 : Bytes → Text) (f : Features) (q : Request)
    → 1 ≤ q.max_strings
    → q.max_strings ≤ 64
    → 0 < length f.found.bytes
    → q.exact_fallback ≡ true
    → IsEncodableRequest sha256 f q
    → (r : GeneratedYaraRule) × (generate_yara_rule sha256 f q ≡ ok r)
      × IsIdentifier r.name
      × (length r.strings ≤ q.max_strings)
      × IsDistinct (folded r.strings)
unfolding generate_yara_rule
generate_yara_rule_returns sha256 f q low high some_bytes fallback encodable =
    let strings = select_strings f.found q.max_strings in
    let (clauses, e) = clauses_of-Returns f q (sha256 f.found.bytes) strings fallback in
    let within : leb 1 q.max_strings && leb q.max_strings 64 ≡ true = ground (arith, low, high) in
    let filled : ltb (length f.found.bytes) 1 ≡ false = ground (arith, some_bytes) in
    let (bounded, chosen, distinct, complete) = select_strings_lem f.found q.max_strings in
    let (r, made, name, selected) = make_rule-Returns sha256 f q strings clauses encodable chosen in
    (
      r,
      rw (within, filled, e, made) refl,
      rw name (sanitize_rule_name-IsIdentifier (wanted_name sha256 f q)),
      rw selected (omega (arith, bounded, at_least_one_lem q.max_strings low)),
      rw selected distinct,
    )
