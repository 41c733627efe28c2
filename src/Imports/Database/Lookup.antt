-- ===== src/Imports/Database/Lookup.antt =====
-- The database of imphashes against its specification, a map from keys to records.
use ai_reverse_agent.Prelude.{
  ℕ, ◌≡◌, refl, sym, ◌∙◌, true, false, inl, inr, List, [], ◌∷◌, map, Option, none, some, arith,
  Bool-cases, length, if◌then◌else◌,
}
use ai_reverse_agent.Result.{Result, ok, ◌>>=◌, bind_inversion, ok_unique}
use ai_reverse_agent.Text.{Text, codes}
use ai_reverse_agent.Text.Equality.{text_eq_iff, text_eq_refl}
use ai_reverse_agent.Imports.{ImportedSymbol, imported, lowered}
use ai_reverse_agent.Imports.Hash.{compute_pe_imphash}
use ai_reverse_agent.Imports.Database.{
  Sample, MalwareImphashMatch, DatabaseError, Defaults, match_of, Key, key_of, key_eq, Records, put,
  get_record, add_samples, make_database, lookup, trusted, Finding, finding_of, chosen, report,
  imphash_finding,
}

-- The specification: what a key means. A new record changes the meaning of its own key alone.
abbrev pub Meaning : Type 0
Meaning = Key → Option MalwareImphashMatch

abbrev pub nothing_known : Meaning
nothing_known k = none

abbrev pub learn : MalwareImphashMatch → Meaning → Meaning
learn m known k = if key_eq (key_of m) k then some m else known k

-- The meaning after all samples, or none where one of them is invalid.
abbrev pub meaning : Defaults → List Sample → Meaning → Result DatabaseError Meaning
meaning d [] known = ok known
meaning d (s ∷ ss) known = match_of d s >>= λ m. meaning d ss (learn m known)

key_eq_refl : (k : Key) → key_eq k k ≡ true
unfolding key_eq
key_eq_refl k = rw (text_eq_refl k.0, text_eq_refl k.1) refl

pub key_eq_sound : (k j : Key) → key_eq k j ≡ true → k ≡ j
unfolding key_eq
key_eq_sound (a, b) (c, d) h =
    let p : a ≡ c = (text_eq_iff a c).0 (ground arith) in
    let q : b ≡ d = (text_eq_iff b d).0 (ground arith) in rw (p, q) refl

key_eq_other : (k j i : Key) → k ≡ j → key_eq j i ≡ false → key_eq k i ≡ false
key_eq_other k j i e h = rw e h

get_record-put :
    (m : MalwareImphashMatch) (k : Key) (ns : Records)
    → get_record k (put m ns) ≡ learn m (λ j. get_record j ns) k
unfolding get_record put
get_record-put m k [] = refl
get_record-put m k (n ∷ ns) = elim (Bool-cases (key_eq (key_of n) (key_of m))) [
  | inl e ↦ elim (Bool-cases (key_eq (key_of m) k)) [
    | inl f ↦ rw (e, f) refl
    | inr f ↦
        let g = key_eq_other (key_of n) (key_of m) k (key_eq_sound (key_of n) (key_of m) e) f in
        rw (e, f, g) refl
  ]
  | inr e ↦ elim (Bool-cases (key_eq (key_of n) k)) [
    | inl g ↦ elim (Bool-cases (key_eq (key_of m) k)) [
      | inl f ↦
          let same = key_eq_sound (key_of n) k g ∙ sym (key_eq_sound (key_of m) k f) in
          absurd (
            let h = key_eq_refl (key_of m) in
            let h' = key_eq_other (key_of m) (key_of n) (key_of m) (sym same) e in cc)
      | inr f ↦ rw (e, g, f) refl
    ]
    | inr g ↦ rw (e, g) (get_record-put m k ns)
  ]
]

learn_again :
    (m : MalwareImphashMatch) (known known' : Meaning) (k : Key)
    → known k ≡ known' k
    → learn m known k ≡ learn m known' k
learn_again m known known' k h = rw h refl

-- What the records mean stays what the specification says of the samples so far.
add_samples-meaning :
    (d : Defaults) (ss : List Sample) (ns records : Records) (known : Meaning)
    → ((k : Key) → get_record k ns ≡ known k)
    → add_samples d ss ns ≡ ok records
    → (after : Meaning) × (meaning d ss known ≡ ok after)
      × ((k : Key) → get_record k records ≡ after k)
unfolding add_samples
add_samples-meaning d [] ns records known r h =
    let same : ns ≡ records = ok_unique _ refl h in (known, refl, λ k. rw (← same) (r k))
add_samples-meaning d (s ∷ ss) ns records known r h =
    let (m, p, q) = bind_inversion (match_of d s) _ h in
    let (after, e, f) =
      add_samples-meaning d ss (put m ns) records (learn m known)
        (λ k. get_record-put m k ns ∙ learn_again m (λ j. get_record j ns) known k (r k)) q in
    (after, rw p e, f)

-- A database that is built of samples finds, for every text that a digest and an algorithm are
-- given as, what the specification knows of their trimmed lower-case forms: the last of the
-- samples with this key, or nothing.
pub lookup-make_database :
    (d : Defaults) (ss : List Sample) (records : Records)
    → make_database d ss ≡ ok records
    → (known : Meaning) × (meaning d ss nothing_known ≡ ok known)
      × ((imphash algorithm : Text)
          → lookup records imphash algorithm ≡ known (lowered algorithm, lowered imphash))
unfolding make_database lookup get_record
lookup-make_database d ss records h =
    let (known, e, f) = add_samples-meaning d ss [] records nothing_known (λ k. nothing k) h in
    (known, e, λ imphash algorithm. f (lowered algorithm, lowered imphash))
  where
    nothing : (k : Key) → get_record k [] ≡ none
    nothing k = refl

-- What is reported of some imports is a trusted record of the database that was chosen, found
-- under the PE imphash of these imports and the standard algorithm.
pub imphash_finding_lem :
    (md5 : Text → Text) (default : Records) (imports : List ImportedSymbol) (host : Option Text)
    (database : Option Records) (f : Finding)
    → imphash_finding md5 default imports host database ≡ ok (some f)
    → (digest : Text) × (compute_pe_imphash md5 (map imported imports) ≡ ok digest)
      × ((m : MalwareImphashMatch) × (lookup
              (chosen database default)
              digest
              (codes "pe-imphash-v1")
            ≡ some m)
          × (trusted m ≡ true)
          × (f ≡ finding_of digest host (length imports) m))
unfolding imphash_finding report
imphash_finding_lem md5 default imports host database f h =
    let (digest, p, q) = bind_inversion (compute_pe_imphash md5 (map imported imports)) _ h in
    let (m, e, t, g) =
      report_inversion digest host (length imports)
        (lookup (chosen database default) digest (codes "pe-imphash-v1")) f (ok_unique _ refl q) in
    (digest, p, (m, e, t, g))
  where
    report_inversion :
        (digest : Text) (host : Option Text) (count : ℕ) (found : Option MalwareImphashMatch)
        (f : Finding)
        → report digest host count found ≡ some f
        → (m : MalwareImphashMatch) × (found ≡ some m)
          × (trusted m ≡ true)
          × (f ≡ finding_of digest host count m)
    report_inversion digest host count none f h = absurd (cc)
    report_inversion digest host count (some m) f h = elim (Bool-cases (trusted m)) [
      | inl e ↦ (
        m,
        refl,
        e,
        let g : finding_of digest host count m ≡ f = (let h' = rw e at h in cc) in sym g,
      )
      | inr e ↦ absurd (let h' = rw e at h in cc)
    ]
