-- ===== src/Prelude/Sorts.antt =====
-- `list.sort` and `sorted` with a key, which are stable: an insertion sort by a test on the keys.
use ai_reverse_agent.Prelude.Tests.{if◌then◌else◌, Bool-cases}
use ai_reverse_agent.Prelude.Membership.{Member}
use mathlib.Core.Path.{◌≡◌}
use mathlib.Core.Logic.{◌⊎◌, inl, inr}
use mathlib.Core.Bool.{Bool, true, false}
use mathlib.Core.List.{List, [], ◌∷◌}

module _ {A : Type 0} where
  unfoldable pub insert_by : (A → A → Bool) → A → List A → List A
  insert_by le a [] = a ∷ []
  insert_by le a (b ∷ bs) = if le a b then a ∷ b ∷ bs else b ∷ insert_by le a bs

  unfoldable pub sort_by : (A → A → Bool) → List A → List A
  unfolding insert_by
  sort_by le [] = []
  sort_by le (a ∷ xs) = insert_by le a (sort_by le xs)

  -- What the head of a sorted list is to the next element.
  abbrev pub Precedes : (A → A → Bool) → A → List A → Type 0
  Precedes le a [] = Unit
  Precedes le a (b ∷ bs) = le a b ≡ true

  abbrev pub IsSorted : (A → A → Bool) → List A → Type 0
  IsSorted le [] = Unit
  IsSorted le (a ∷ xs) = Precedes le a xs × IsSorted le xs

  Member-insert :
      (le : A → A → Bool) (a x : A) (bs : List A)
      → (x ≡ a) ⊎ Member x bs
      → Member x (insert_by le a bs)
  unfolding insert_by
  Member-insert le a x [] h = h
  Member-insert le a x (b ∷ bs) h = elim (Bool-cases (le a b)) [
    | inl e ↦ rw e h
    | inr e ↦ rw e (elim h [
      | inl p ↦ inr (Member-insert le a x bs (inl p))
      | inr (inl p) ↦ inl p
      | inr (inr m) ↦ inr (Member-insert le a x bs (inr m))
    ])
  ]

  Member-insert_inversion :
      (le : A → A → Bool) (a x : A) (bs : List A)
      → Member x (insert_by le a bs)
      → (x ≡ a) ⊎ Member x bs
  unfolding insert_by
  Member-insert_inversion le a x [] h = h
  Member-insert_inversion le a x (b ∷ bs) h = elim (Bool-cases (le a b)) [
    | inl e ↦ rw e at h
    | inr e ↦ elim (rw e at h) [
      | inl p ↦ inr (inl p)
      | inr m ↦ elim (Member-insert_inversion le a x bs m) [ inl p ↦ inl p | inr n ↦ inr (inr n) ]
    ]
  ]

  pub Member-sort :
      (le : A → A → Bool) (x : A) (xs : List A) → Member x xs → Member x (sort_by le xs)
  unfolding sort_by
  Member-sort le x [] h = h
  Member-sort le x (a ∷ xs) (inl p) = Member-insert le a x (sort_by le xs) (inl p)
  Member-sort le x (a ∷ xs) (inr m) =
      Member-insert le a x (sort_by le xs) (inr (Member-sort le x xs m))

  pub Member-sort_inversion :
      (le : A → A → Bool) (x : A) (xs : List A) → Member x (sort_by le xs) → Member x xs
  unfolding sort_by
  Member-sort_inversion le x [] h = h
  Member-sort_inversion le x (a ∷ xs) h = elim (Member-insert_inversion le a x (sort_by le xs) h) [
    | inl p ↦ inl p
    | inr m ↦ inr (Member-sort_inversion le x xs m)
  ]

  Precedes-insert :
      (le : A → A → Bool) (a b : A) (bs : List A)
      → le b a ≡ true
      → Precedes le b bs
      → Precedes le b (insert_by le a bs)
  unfolding insert_by
  Precedes-insert le a b [] h p = h
  Precedes-insert le a b (c ∷ cs) h p = elim (Bool-cases (le a c)) [
    | inl e ↦ rw e h
    | inr e ↦ rw e p
  ]

  insert-IsSorted :
      (le : A → A → Bool) (total : (a b : A) → le a b ≡ false → le b a ≡ true) (a : A) (bs : List A)
      → IsSorted le bs
      → IsSorted le (insert_by le a bs)
  unfolding insert_by
  insert-IsSorted le total a [] h = (tt, tt)
  insert-IsSorted le total a (b ∷ bs) h = elim (Bool-cases (le a b)) [
    | inl e ↦ rw e (e, h)
    | inr e ↦ rw e (Precedes-insert le a b bs (total a b e) h.0, insert-IsSorted le total a bs h.1)
  ]

  -- A test that is total sorts.
  pub sort-IsSorted :
      (le : A → A → Bool) (total : (a b : A) → le a b ≡ false → le b a ≡ true) (xs : List A)
      → IsSorted le (sort_by le xs)
  unfolding sort_by
  sort-IsSorted le total [] = tt
  sort-IsSorted le total (a ∷ xs) =
      insert-IsSorted le total a (sort_by le xs) (sort-IsSorted le total xs)
