-- ===== src/Imports/Database/Reports.antt =====
-- `imphash_finding` of findings.py over a database that is built of samples.
use ai_reverse_agent.Prelude.{
  ◌≡◌, ◌∙◌, refl, sym, ap, Bool, ◌⊎◌, inl, inr, true, false, List, [], ◌∷◌, map, Option, none, some,
  Member, length, if◌then◌else◌,
}
use mathlib.Core.Path.{subst}
use ai_reverse_agent.Result.{ok, bind_inversion, ok_unique}
use ai_reverse_agent.Text.{Text, codes}
use ai_reverse_agent.Imports.{ImportedSymbol, imported, lowered}
use ai_reverse_agent.Imports.Hash.{compute_pe_imphash}
use ai_reverse_agent.Imports.Database.{
  Sample, MalwareImphashMatch, Defaults, match_of, Key, key_of, key_eq, Records, make_database,
  trusted, Finding, finding_of, chosen, imphash_finding,
}
use ai_reverse_agent.Imports.Database.Lookup.{
  Meaning, nothing_known, learn, meaning, key_eq_sound, lookup-make_database, imphash_finding_lem,
}

-- One of the samples has this record.
abbrev pub ComesFrom : Defaults → List Sample → MalwareImphashMatch → Type 0
ComesFrom d ss m = (s : Sample) × Member s ss × (match_of d s ≡ ok m)

-- What is known of a key is a record with this key, of a sample or known before.
meaning-ComesFrom :
    (d : Defaults) (ss : List Sample) (known after : Meaning) (k : Key) (m : MalwareImphashMatch)
    → meaning d ss known ≡ ok after
    → after k ≡ some m
    → (known k ≡ some m) ⊎ ((key_of m ≡ k) × ComesFrom d ss m)
meaning-ComesFrom d [] known after k m h e =
    inl (subst (λ (f : Meaning). f k ≡ some m) (ok_unique _ h refl) e)
meaning-ComesFrom d (s ∷ ss) known after k m h e =
    let (n, p, q) = bind_inversion (match_of d s) _ h in
    elim (meaning-ComesFrom d ss (learn n known) after k m q e) [
      | inl f ↦ learned n p (key_eq (key_of n) k) refl f
      | inr (same, (t, i, r)) ↦ inr (same, (t, inr i, r))
    ]
  where
    learned :
        (n : MalwareImphashMatch)
        → match_of d s ≡ ok n
        → (b : Bool) → key_eq (key_of n) k ≡ b
        → (if b then some n else known k) ≡ some m
        → (known k ≡ some m) ⊎ ((key_of m ≡ k) × ComesFrom d (s ∷ ss) m)
    learned n p true g f =
        let same : n ≡ m = cc in
        inr (rw (← same) (key_eq_sound (key_of n) k g), (s, inl refl, rw (← same) p))
    learned n p false g f = inl f

-- What is reported of some imports over a default database that was built of samples comes from
-- one of the samples: its record is trusted, has the trimmed lower-case form of the PE imphash of
-- the imports as its digest and the standard algorithm, and is what the finding tells.
pub imphash_finding-ComesFrom :
    (md5 : Text → Text) (d : Defaults) (ss : List Sample) (records : Records)
    (imports : List ImportedSymbol) (host : Option Text) (f : Finding)
    → make_database d ss ≡ ok records
    → imphash_finding md5 records imports host none ≡ ok (some f)
    → (digest : Text) × (compute_pe_imphash md5 (map imported imports) ≡ ok digest)
      × ((m : MalwareImphashMatch) × ComesFrom d ss m
          × (m.digest ≡ lowered digest)
          × (m.algorithm ≡ lowered (codes "pe-imphash-v1"))
          × (trusted m ≡ true)
          × (f ≡ finding_of digest host (length imports) m))
unfolding chosen
imphash_finding-ComesFrom md5 d ss records imports host f h k =
    let (digest, p, (m, e, t, g)) = imphash_finding_lem md5 records imports host none f k in
    let (known, q, r) = lookup-make_database d ss records h in
    let here : known (lowered (codes "pe-imphash-v1"), lowered digest) ≡ some m =
      sym (r digest (codes "pe-imphash-v1")) ∙ e in
    elim (meaning-ComesFrom d ss nothing_known known _ m q here) [
      | inl e ↦ absurd (cc)
      | inr (same, from) ↦
          (digest, p, (m, from, ap (λ (j : Key). j.1) same, ap (λ (j : Key). j.0) same, t, g))
    ]
