-- ===== src/Controlflow/Sorting.antt =====
-- The order of the stream by address.
use mathlib.Core.List.{Perm}
use mathlib.Core.List.Perm
use ai_reverse_agent.Prelude.{inl, inr, List, [], ◌∷◌, arith, All, Bool-cases}
use ai_reverse_agent.Prelude.Int.{ℤ, ◌≤ℤ◌, leb_ℤ, leb_ℤ_true, leb_ℤ_false}
use ai_reverse_agent.Instruction.{NormalizedInstruction}
use ai_reverse_agent.Controlflow.{insert_by_address, sort_by_address}

abbrev pub IsSortedByAddress : List NormalizedInstruction → Type 0
IsSortedByAddress [] = Unit
IsSortedByAddress (i ∷ is) = All (λ j. i.address ≤ℤ j.address) is × IsSortedByAddress is

insert-perm :
    (i : NormalizedInstruction) (is : List NormalizedInstruction)
    → Perm (insert_by_address i is) (i ∷ is)
unfolding insert_by_address
insert-perm i [] = Perm.refl (i ∷ [])
insert-perm i (j ∷ js) = elim (Bool-cases (leb_ℤ i.address j.address)) [
  | inl e ↦ rw e (Perm.refl (i ∷ j ∷ js))
  | inr e ↦ rw e (Perm.trans (Perm.cons j (insert-perm i js)) (Perm.swap i j js))
]

pub sort-perm : (is : List NormalizedInstruction) → Perm (sort_by_address is) is
unfolding sort_by_address
sort-perm [] = Perm.refl []
sort-perm (i ∷ is) = Perm.trans (insert-perm i (sort_by_address is)) (Perm.cons i (sort-perm is))

All-insert {κ} :
    (P : NormalizedInstruction → Type κ) (i : NormalizedInstruction)
    (is : List NormalizedInstruction)
    → P i
    → All P is
    → All P (insert_by_address i is)
unfolding insert_by_address
All-insert P i [] p h = (p, tt)
All-insert P i (j ∷ js) p h = elim (Bool-cases (leb_ℤ i.address j.address)) [
  | inl e ↦ rw e (p, h)
  | inr e ↦ rw e (h.0, All-insert P i js p h.1)
]

at_least_trans :
    (a b : ℤ) (is : List NormalizedInstruction)
    → a ≤ℤ b
    → All (λ j. b ≤ℤ j.address) is
    → All (λ j. a ≤ℤ j.address) is
at_least_trans a b [] h k = tt
at_least_trans a b (j ∷ js) h k = (omega (arith, h, k.0), at_least_trans a b js h k.1)

insert-IsSortedByAddress :
    (i : NormalizedInstruction) (is : List NormalizedInstruction)
    → IsSortedByAddress is
    → IsSortedByAddress (insert_by_address i is)
unfolding insert_by_address
insert-IsSortedByAddress i [] s = (tt, tt)
insert-IsSortedByAddress i (j ∷ js) s = elim (Bool-cases (leb_ℤ i.address j.address)) [
  | inl e ↦
      let low = leb_ℤ_true i.address j.address e in
      rw e ((low, at_least_trans i.address j.address js low s.0), s)
  | inr e ↦ rw e (
    All-insert (λ k. j.address ≤ℤ k.address) i js (leb_ℤ_false i.address j.address e) s.0,
    insert-IsSortedByAddress i js s.1,
  )
]

pub sort-IsSortedByAddress :
    (is : List NormalizedInstruction) → IsSortedByAddress (sort_by_address is)
unfolding sort_by_address
sort-IsSortedByAddress [] = tt
sort-IsSortedByAddress (i ∷ is) =
    insert-IsSortedByAddress i (sort_by_address is) (sort-IsSortedByAddress is)
