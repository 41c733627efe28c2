-- ===== src/Bytes/Search.antt =====
-- bytes.find
use ai_reverse_agent.Prelude.{
  drop-drop, ℕ, zero, suc, ◌+◌, ◌-◌, ◌≤◌, ◌<◌, ◌≡◌, inl, inr, Bool, true, false, [], ◌∷◌, Option,
  none, some, arith, length, drop, length-drop, ltb, if◌then◌else◌, Bool-cases,
}
use ai_reverse_agent.Bytes.{Bytes, starts_with}

-- The first suffix that begins with the needle, by its offset; `at` is that of the whole list.
unfoldable pub find_suffix : Bytes → Bytes → ℕ → Option ℕ
unfolding starts_with
find_suffix needle [] at = if starts_with [] needle then some at else none
find_suffix needle (b ∷ bs) at =
    let later = find_suffix needle bs (at + 1) in
    if starts_with (b ∷ bs) needle then some at else later

-- data.find(needle, start), where -1 is none
unfoldable pub find : Bytes → Bytes → ℕ → Option ℕ
unfolding find_suffix
find needle b start = if ltb (length b) start then none else find_suffix needle (drop start b) start

-- The needle stands in the data at this offset.
abbrev pub occurs_at : Bytes → Bytes → ℕ → Bool
occurs_at needle b o = starts_with (drop o b) needle

find_suffix-some :
    (needle b : Bytes) (k o : ℕ)
    → find_suffix needle b k ≡ some o
    → (d : ℕ) × (o ≡ k + d) × (d ≤ length b) × (starts_with (drop d b) needle ≡ true)
unfolding find_suffix
find_suffix-some needle [] k o h = (0, ground (arith, h), omega arith, ground (arith, h))
find_suffix-some needle (b ∷ bs) k o h = elim (Bool-cases (starts_with (b ∷ bs) needle)) [
  | inl e ↦ (0, ground (arith, h, e), omega arith, e)
  | inr e ↦
      let (d, p, q, r) = find_suffix-some needle bs (k + 1) o (rw e at h) in
      (suc d, omega arith, omega arith, r)
]

find_suffix_first :
    (needle b : Bytes) (k o d : ℕ)
    → find_suffix needle b k ≡ some o
    → k + d < o
    → starts_with (drop d b) needle ≡ false
unfolding find_suffix
find_suffix_first needle [] k o d h l = absurd (ground (arith, h))
find_suffix_first needle (b ∷ bs) k o zero h l = ground (arith, h)
find_suffix_first needle (b ∷ bs) k o (suc d) h l =
    elim (Bool-cases (starts_with (b ∷ bs) needle)) [
      | inl e ↦ absurd (ground (arith, h, e))
      | inr e ↦ find_suffix_first needle bs (k + 1) o d (rw e at h) (omega arith)
    ]

find_suffix-none :
    (needle b : Bytes) (k d : ℕ)
    → find_suffix needle b k ≡ none
    → d ≤ length b
    → starts_with (drop d b) needle ≡ false
unfolding find_suffix
find_suffix-none needle [] k zero h l = ground (arith, h)
find_suffix-none needle [] k (suc d) h l = absurd (omega arith)
find_suffix-none needle (b ∷ bs) k zero h l = ground (arith, h)
find_suffix-none needle (b ∷ bs) k (suc d) h l = elim (Bool-cases (starts_with (b ∷ bs) needle)) [
  | inl e ↦ absurd (ground (arith, h, e))
  | inr e ↦ find_suffix-none needle bs (k + 1) d (rw e at h) (omega arith)
]

-- An offset that is found lies at or behind the start, and is the first occurrence there.
pub find-some :
    (needle b : Bytes) (start o : ℕ)
    → find needle b start ≡ some o
    → (start ≤ o) × (o ≤ length b) × (occurs_at needle b o ≡ true)
unfolding find
find-some needle b start o h = elim (Bool-cases (ltb (length b) start)) [
  | inl e ↦ absurd (ground (arith, h, e))
  | inr e ↦
      let (d, p, q, r) = find_suffix-some needle (drop start b) start o (rw e at h) in
      (omega arith, ground (arith, length-drop start b), rw (p, ← drop-drop d start b) r)
]

-- Where nothing is found, the needle occurs nowhere from the start on.
pub find-none :
    (needle b : Bytes) (start o : ℕ)
    → find needle b start ≡ none
    → start ≤ o
    → o ≤ length b
    → occurs_at needle b o ≡ false
unfolding find
find-none needle b start o h l k =
    let e : ltb (length b) start ≡ false = ground arith in
    let there : starts_with (drop (o - start) (drop start b)) needle ≡ false =
      find_suffix-none needle (drop start b) start (o - start) (rw e at h)
        (omega (arith, length-drop start b)) in
    let sum : start + (o - start) ≡ o = omega arith in
    rw (drop-drop (o - start) start b, sum) at there

pub find_first :
    (needle b : Bytes) (start o p : ℕ)
    → find needle b start ≡ some o
    → start ≤ p
    → p < o
    → occurs_at needle b p ≡ false
unfolding find
find_first needle b start o p h l k = elim (Bool-cases (ltb (length b) start)) [
  | inl e ↦ absurd (ground (arith, h, e))
  | inr e ↦
      let there : starts_with (drop (p - start) (drop start b)) needle ≡ false =
        find_suffix_first needle (drop start b) start o (p - start) (rw e at h) (omega arith) in
      let sum : start + (p - start) ≡ p = omega arith in
      rw (drop-drop (p - start) start b, sum) at there
]
