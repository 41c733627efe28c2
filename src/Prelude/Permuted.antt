-- ===== src/Prelude/Permuted.antt =====
-- Sorting by a total order forgets the order of the input.
use ai_reverse_agent.Prelude.Tests.{Bool-cases}
use ai_reverse_agent.Prelude.Sorts.{insert_by, sort_by}
use mathlib.Core.Path.{◌≡◌, refl, sym, ap, ◌∙◌}
use mathlib.Core.Logic.{inl, inr}
use mathlib.Core.Bool.{Bool, true, false}
use mathlib.Core.List.{List, [], ◌∷◌, Permᴰ}

pub record IsTotalOrder {A : Type 0} (le : A → A → Bool) : Type 0 where
  pub total : (a b : A) → le a b ≡ false → le b a ≡ true
  pub antisym : (a b : A) → le a b ≡ true → le b a ≡ true → a ≡ b
  pub trans : (a b c : A) → le a b ≡ true → le b c ≡ true → le a c ≡ true

module _ {A : Type 0} (le : A → A → Bool) (o : IsTotalOrder le) where
  insert-before :
      (a b : A) (xs : List A)
      → le a b ≡ true
      → le b a ≡ false
      → insert_by le a (insert_by le b xs) ≡ insert_by le b (insert_by le a xs)
  unfolding insert_by
  insert-before a b [] e e' = rw (e, e') refl
  insert-before a b (c ∷ cs) e e' = elim (Bool-cases (le b c)) [
    | inl q ↦ rw (q, e, o.trans a b c e q, e', q) refl
    | inr q ↦ elim (Bool-cases (le a c)) [
      | inl p ↦ rw (q, p, e', q) refl
      | inr p ↦ rw (q, p, q) (ap (λ ys. c ∷ ys) (insert-before a b cs e e'))
    ]
  ]

  insert-same :
      (a b : A) (xs : List A)
      → a ≡ b
      → insert_by le a (insert_by le b xs) ≡ insert_by le b (insert_by le a xs)
  insert-same a b xs e = rw e refl

  insert-insert :
      (a b : A) (xs : List A)
      → insert_by le a (insert_by le b xs) ≡ insert_by le b (insert_by le a xs)
  insert-insert a b xs = elim (Bool-cases (le a b)) [
    | inl e ↦ elim (Bool-cases (le b a)) [
      | inl e' ↦ insert-same a b xs (o.antisym a b e e')
      | inr e' ↦ insert-before a b xs e e'
    ]
    | inr e ↦ sym (insert-before b a xs (o.total a b e) e)
  ]

  pub sort_by-perm : (xs ys : List A) → Permᴰ xs ys → sort_by le xs ≡ sort_by le ys
  unfolding sort_by
  sort_by-perm [] [] Permᴰ.nil = refl
  sort_by-perm (a ∷ xs) (b ∷ ys) (Permᴰ.cons e p) = rw (e, sort_by-perm xs ys p) refl
  sort_by-perm (a ∷ b ∷ xs) (a' ∷ b' ∷ ys) (Permᴰ.swap e e') =
      rw (e, e') (insert-insert b' a' (sort_by le xs))
  sort_by-perm xs ys (Permᴰ.trans p q) = sort_by-perm xs _ p ∙ sort_by-perm _ ys q
