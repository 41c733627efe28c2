-- ===== src/Crypto/Scan.antt =====
-- `identify_crypto` of crypto_id.py against the data.
use ai_reverse_agent.Prelude.{
  ℕ, zero, suc, ◌+◌, ◌≤◌, ◌≡◌, refl, true, false, List, [], ◌∷◌, ◌++◌, Option, none, some, arith,
  Bool-cases, length, inl, inr, Member, Member-append_left, Member-append_right,
  Member-append_split, ltb, ◌==◌,
}
use ai_reverse_agent.Prelude.Sorts.{
  sort_by, IsSorted, Member-sort, Member-sort_inversion, sort-IsSorted,
}
use ai_reverse_agent.Text.{text_eq_iff}
use ai_reverse_agent.Text.Order.{text_ltb_asym}
use ai_reverse_agent.Bytes.{Bytes}
use ai_reverse_agent.Bytes.Search.{find, occurs_at, find-some, find-none, find_first}
use ai_reverse_agent.Crypto.Patterns.{KnownPattern, known_patterns}
use ai_reverse_agent.Crypto.{
  CryptoDetection, detection, or_empty, find_pattern, find_patterns, key_ltb, key_leb,
  identify_with, identify_crypto,
}

-- A detection of a pattern that stands in the data at an offset from `start` on.
pub IsOccurrence : KnownPattern → Bytes → ℕ → CryptoDetection → Type 0
IsOccurrence p b start d =
    (o : ℕ) × (d ≡ detection p o) × (start ≤ o) × (o ≤ length b) × (occurs_at p.bytes b o ≡ true)

find_pattern_stop :
    (fuel : ℕ) (p : KnownPattern) (b : Bytes) (start : ℕ)
    → find p.bytes b start ≡ none
    → find_pattern (suc fuel) p b start ≡ some []
unfolding find_pattern
find_pattern_stop fuel p b start e = rw (find_pattern, e) refl

find_pattern_step :
    (fuel : ℕ) (p : KnownPattern) (b : Bytes) (start o : ℕ) (out : List CryptoDetection)
    → find p.bytes b start ≡ some o
    → find_pattern fuel p b (o + 1) ≡ some out
    → find_pattern (suc fuel) p b start ≡ some (detection p o ∷ out)
unfolding find_pattern
find_pattern_step fuel p b start o out e f = rw (find_pattern, e, f) refl

-- What the inner loop returns from `start` on.
record Found (p : KnownPattern) (b : Bytes) (start : ℕ) (out : List CryptoDetection) : Type 0 where
  sound : (d : CryptoDetection) → Member d out → IsOccurrence p b start d
  complete : (d : CryptoDetection) → IsOccurrence p b start d → Member d out

Found-none :
    (p : KnownPattern) (b : Bytes) (start : ℕ) → find p.bytes b start ≡ none → Found p b start []
unfolding IsOccurrence
Found-none p b start e = record {
  sound = λ d m. elim m [ ];
  complete = λ d h. let (o, q, l, k, t) = h in absurd (cc (find-none p.bytes b start o e l k, t));
}

Found-some_complete :
    (p : KnownPattern) (b : Bytes) (start o o' : ℕ) (out : List CryptoDetection)
    (d : CryptoDetection)
    → find p.bytes b start ≡ some o
    → Found p b (o + 1) out
    → d ≡ detection p o'
    → start ≤ o'
    → o' ≤ length b
    → occurs_at p.bytes b o' ≡ true
    → Member d (detection p o ∷ out)
unfolding IsOccurrence
Found-some_complete p b start o o' out d e f q l k t = elim (Bool-cases (ltb o' o)) [
  | inl before ↦ absurd (cc (find_first p.bytes b start o o' e l (ground (arith, before)), t))
  | inr after ↦ elim (Bool-cases (o' == o)) [
    | inl same ↦ let here : o' ≡ o = ground (arith, same) in inl (rw here at q)
    | inr apart ↦ inr (f.complete d (o', q, ground (arith, after, apart), k, t))
  ]
]

Found-some :
    (p : KnownPattern) (b : Bytes) (start o : ℕ) (out : List CryptoDetection)
    → find p.bytes b start ≡ some o
    → Found p b (o + 1) out
    → Found p b start (detection p o ∷ out)
unfolding IsOccurrence
Found-some p b start o out e f =
    let (lo, hi, here) = find-some p.bytes b start o e in
    record {
      sound = λ d m. elim m [
        | inl q ↦ (o, q, lo, hi, here)
        | inr n ↦ let (o', q, l, k, t) = f.sound d n in (o', q, omega arith, k, t)
      ];
      complete =
          λ d h. let (o', q, l, k, t) = h in Found-some_complete p b start o o' out d e f q l k t;
    }

find_pattern_returns :
    (fuel : ℕ) (p : KnownPattern) (b : Bytes) (start : ℕ)
    → length b + 2 ≤ fuel + start
    → start ≤ length b + 1
    → (out : List CryptoDetection) × (find_pattern fuel p b start ≡ some out) × Found p b start out
find_pattern_returns zero p b start h k = absurd (omega arith)
find_pattern_returns (suc fuel) p b start h k =
    go (λ c. find_pattern_returns fuel p b c) (find p.bytes b start) refl
  where
    go :
        ((c : ℕ)
          → length b + 2 ≤ fuel + c
          → c ≤ length b + 1
          → (out : List CryptoDetection) × (find_pattern fuel p b c ≡ some out) × Found p b c out)
        → (f : Option ℕ) → find p.bytes b start ≡ f
        → (out : List CryptoDetection) × (find_pattern (suc fuel) p b start ≡ some out)
          × Found p b start out
    go again none e = ([], find_pattern_stop fuel p b start e, Found-none p b start e)
    go again (some o) e =
        let (lo, hi, here) = find-some p.bytes b start o e in
        let (out, q, f) = again (o + 1) (omega arith) (omega arith) in
        (
          detection p o ∷ out,
          find_pattern_step fuel p b start o out e q,
          Found-some p b start o out e f,
        )

-- A detection of one of the patterns, which stands in the data.
pub IsKnown : List KnownPattern → Bytes → CryptoDetection → Type 0
IsKnown ps b d = (p : KnownPattern) × Member p ps × IsOccurrence p b 0 d

find_patterns_returns :
    (ps : List KnownPattern) (b : Bytes)
    → (out : List CryptoDetection) × (find_patterns ps b ≡ some out)
      × ((d : CryptoDetection) → Member d out → IsKnown ps b d)
      × ((d : CryptoDetection) → IsKnown ps b d → Member d out)
unfolding find_patterns IsKnown
find_patterns_returns [] b = ([], refl, λ d m. elim m [ ], λ d h. elim h.1 [ ])
find_patterns_returns (p ∷ ps) b =
    let (now, q, f) = find_pattern_returns (length b + 2) p b 0 (omega arith) (omega arith) in
    let (later, r, sound, complete) = find_patterns_returns ps b in
    (
      now ++ later,
      rw (q, r) refl,
      λ d m. elim (Member-append_split d now later m) [
        | inl n ↦ (p, inl refl, f.sound d n)
        | inr n ↦ let (p', i, h) = sound d n in (p', inr i, h)
      ],
      λ d h.
          let (p', i, occurrence) = h in
          elim i [
            | inl e ↦ Member-append_left d now later (f.complete d (rw e at occurrence))
            | inr i' ↦ Member-append_right d now later (complete d (p', i', occurrence))
          ],
    )

key_leb_total : (d e : CryptoDetection) → key_leb d e ≡ false → key_leb e d ≡ true
unfolding key_leb key_ltb
key_leb_total d e h = ground (
  arith,
  text_eq_iff d.algorithm e.algorithm,
  text_eq_iff e.algorithm d.algorithm,
  text_ltb_asym e.algorithm d.algorithm,
  text_ltb_asym (or_empty e.endianness) (or_empty d.endianness),
)

-- The scan always ends. It reports, sorted by offset, algorithm and byte order, each known
-- pattern at each offset of the data where the pattern stands, overlaps included, and nothing
-- else.
pub identify_crypto_lem :
    (b : Bytes)
    → (out : List CryptoDetection) × (identify_crypto b ≡ some out)
      × ((d : CryptoDetection) → Member d out → IsKnown known_patterns b d)
      × ((d : CryptoDetection) → IsKnown known_patterns b d → Member d out)
      × IsSorted key_leb out
unfolding identify_crypto
identify_crypto_lem b =
    let (found, q, sound, complete) = find_patterns_returns known_patterns b in
    (
      sort_by key_leb found,
      rw (identify_with, q) refl,
      λ d m. sound d (Member-sort_inversion key_leb d found m),
      λ d h. Member-sort key_leb d found (complete d h),
      sort-IsSorted key_leb key_leb_total found,
    )
