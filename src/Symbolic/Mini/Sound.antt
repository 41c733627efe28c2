-- ===== src/Symbolic/Mini/Sound.antt =====
-- What an answer of the built-in solver means.
use ai_reverse_agent.Prelude.{
  ℕ, ◌+◌, ◌≤◌, ◌≡◌, refl, ◌∙◌, ap, inl, inr, Bool, true, false, List, [], ◌∷◌, map, arith, length,
  All, All_at, Member, Bool-cases,
}
use ai_reverse_agent.Prelude.Int.{ℤ, pos, ◌≤ℤ◌, ltb_ℤ, ltb_ℤ_false}
use ai_reverse_agent.Result.{Result, ok, err, bind_inversion}
use ai_reverse_agent.Symbolic.{SymbolicError, Symbol, Constraint, Values, zero_division, holds}
use ai_reverse_agent.Symbolic.Symbols.{constraint_symbols}
use ai_reverse_agent.Symbolic.Mini.{
  SymbolicSolution, domain, product, assign, all_hold, satisfied, zero_division_is_false,
  candidate_space, try_candidates, solve_branch_mini,
}
use ai_reverse_agent.Symbolic.Mini.Product.{
  InRanges, HasDomain, product-Member, Member-product, candidate_space_lem,
}

-- What the loop establishes from the candidates that are left.
data Answer (cs : List Constraint) (syms : List Symbol) (n : ℕ) (left : List (List ℤ))
    (sol : SymbolicSolution) : Type 0 where
  found :
      (c : List ℤ)
      → Member c left
      → satisfied cs (assign syms c) ≡ ok true
      → sol.satisfiable ≡ true
      → sol.inputs ≡ assign syms c
      → sol.candidates_evaluated ≤ n + length left
      → Answer cs syms n left sol
  none_left :
      All (λ c. satisfied cs (assign syms c) ≡ ok false) left
      → sol.satisfiable ≡ false
      → sol.candidates_evaluated ≡ n + length left
      → Answer cs syms n left sol

later :
    {cs : List Constraint} {syms : List Symbol} {n : ℕ} {c : List ℤ} {rest : List (List ℤ)}
    {sol : SymbolicSolution}
    → satisfied cs (assign syms c) ≡ ok false
    → Answer cs syms (n + 1) rest sol
    → Answer cs syms n (c ∷ rest) sol
later p (found d m s a i k) = found d (inr m) s a i (omega arith)
later p (none_left a s k) = none_left (p, a) s (omega arith)

try_candidates_lem :
    (cs : List Constraint) (syms : List Symbol) (n : ℕ) (left : List (List ℤ))
    (sol : SymbolicSolution)
    → try_candidates cs syms n left ≡ ok sol
    → Answer cs syms n left sol
unfolding try_candidates
try_candidates_lem cs syms n [] sol h = none_left tt (ground arith) (ground arith)
try_candidates_lem cs syms n (c ∷ rest) sol h =
    let (b, p, q) = bind_inversion (satisfied cs (assign syms c)) _ h in
    elim (Bool-cases b) [
      | inl e ↦
          let p' : satisfied cs (assign syms c) ≡ ok true = p ∙ ap ok e in
          let q' = rw p' at h in
          found c (inl refl) p' (ground (arith, q')) (ground (arith, q')) (ground (arith, q'))
      | inr e ↦
          let p' : satisfied cs (assign syms c) ≡ ok false = p ∙ ap ok e in
          later p' (try_candidates_lem cs syms (n + 1) rest sol (rw p' at h))
    ]

-- The parts of a successful run.
solve_inversion :
    (cs : List Constraint) (limit : ℤ) (sol : SymbolicSolution)
    → solve_branch_mini cs limit ≡ ok sol
    → (syms : List Symbol) × (space : ℤ) × (pos 1 ≤ℤ limit)
      × (constraint_symbols cs ≡ ok syms)
      × (candidate_space limit (pos 1) syms ≡ ok space)
      × Answer cs syms 0 (product (map domain syms)) sol
unfolding solve_branch_mini
solve_inversion [] limit sol h = absurd (cc)
solve_inversion (c ∷ cs) limit sol h = elim (Bool-cases (ltb_ℤ limit (pos 1))) [
  | inl low ↦ absurd (cc)
  | inr fits ↦
      let (syms, p, q) = bind_inversion (constraint_symbols (c ∷ cs)) _ (rw fits at h) in
      let (space, r, s) = bind_inversion (candidate_space limit (pos 1) syms) _ q in
      (
        syms,
        space,
        ltb_ℤ_false limit (pos 1) fits,
        p,
        r,
        try_candidates_lem (c ∷ cs) syms 0 (product (map domain syms)) sol s,
      )
]

-- Every constraint of the branch evaluates to true.
abbrev pub Satisfies : List Constraint → Values → Type 0
Satisfies cs values = All (λ c. holds c values ≡ ok true) cs

all_hold-Satisfies :
    (cs : List Constraint) (values : Values) → all_hold cs values ≡ ok true → Satisfies cs values
unfolding all_hold
all_hold-Satisfies [] values h = tt
all_hold-Satisfies (c ∷ cs) values h =
    let (b, p, q) = bind_inversion (holds c values) _ h in
    elim (Bool-cases b) [
      | inl e ↦
          let p' : holds c values ≡ ok true = p ∙ ap ok e in
          (p', all_hold-Satisfies cs values (rw p' at h))
      | inr e ↦ let p' : holds c values ≡ ok false = p ∙ ap ok e in absurd (cc (rw p' at h))
    ]

Satisfies-all_hold :
    (cs : List Constraint) (values : Values) → Satisfies cs values → all_hold cs values ≡ ok true
unfolding all_hold
Satisfies-all_hold [] values h = refl
Satisfies-all_hold (c ∷ cs) values h = rw h.0 (Satisfies-all_hold cs values h.1)

Satisfies-satisfied :
    (cs : List Constraint) (values : Values) → Satisfies cs values → satisfied cs values ≡ ok true
unfolding satisfied
Satisfies-satisfied cs values h = rw (Satisfies-all_hold cs values h) refl

satisfied_true : (r : Result SymbolicError Bool) → zero_division_is_false r ≡ ok true → r ≡ ok true
unfolding zero_division_is_false
satisfied_true (ok b) h = h
satisfied_true (err zero_division) h = absurd (cc)
satisfied_true (err e) h = absurd (cc)

-- A satisfiable answer of the built-in solver assigns to each symbol of the branch a value within
-- its bounds, and every constraint evaluates to true there.
pub solve_branch_mini_sound :
    (cs : List Constraint) (limit : ℤ) (sol : SymbolicSolution)
    → solve_branch_mini cs limit ≡ ok sol
    → sol.satisfiable ≡ true
    → Satisfies cs sol.inputs
      × ((syms : List Symbol) × (vs : List ℤ) × (constraint_symbols cs ≡ ok syms)
          × InRanges syms vs
          × (sol.inputs ≡ assign syms vs))
solve_branch_mini_sound cs limit sol h s =
    let (syms, space, l, p, r, answer) = solve_inversion cs limit sol h in go syms p answer
  where
    go :
        (syms : List Symbol)
        → constraint_symbols cs ≡ ok syms
        → Answer cs syms 0 (product (map domain syms)) sol
        → Satisfies cs sol.inputs
          × ((syms' : List Symbol) × (vs : List ℤ) × (constraint_symbols cs ≡ ok syms')
              × InRanges syms' vs
              × (sol.inputs ≡ assign syms' vs))
    go syms p (found c m t y i k) = (
      rw i (
          all_hold-Satisfies cs (assign syms c)
            (satisfied_true (all_hold cs (assign syms c)) (unfold satisfied in t))),
      (syms, c, p, Member-product syms c m, i),
    )
    go syms p (none_left a n k) = absurd (cc)

-- An unsatisfiable answer of the built-in solver is right: no values within the bounds of the
-- branch's symbols make every constraint evaluate to true.
pub solve_branch_mini_complete :
    (cs : List Constraint) (limit : ℤ) (sol : SymbolicSolution) (syms : List Symbol) (vs : List ℤ)
    → solve_branch_mini cs limit ≡ ok sol
    → sol.satisfiable ≡ false
    → constraint_symbols cs ≡ ok syms
    → InRanges syms vs
    → ¬ Satisfies cs (assign syms vs)
solve_branch_mini_complete cs limit sol syms vs h s e range all =
    let (syms', space, l, p, r, answer) = solve_inversion cs limit sol h in
    let same : syms' ≡ syms = cc in go (rw same at answer)
  where
    go : Answer cs syms 0 (product (map domain syms)) sol → ⊥
    go (found c m t y i k) = cc
    go (none_left a n k) =
        let missed : satisfied cs (assign syms vs) ≡ ok false =
          All_at (λ c. satisfied cs (assign syms c) ≡ ok false) vs (product (map domain syms)) a
            (product-Member syms vs range) in
        cc (missed, Satisfies-satisfied cs (assign syms vs) all)

-- The built-in solver evaluates at most `max_candidates` candidates, when it answers and no
-- symbol of the branch has its maximum below its minimum.
pub solve_branch_mini_bound :
    (cs : List Constraint) (limit : ℤ) (sol : SymbolicSolution) (syms : List Symbol)
    → solve_branch_mini cs limit ≡ ok sol
    → constraint_symbols cs ≡ ok syms
    → All HasDomain syms
    → pos sol.candidates_evaluated ≤ℤ limit
solve_branch_mini_bound cs limit sol syms h e d =
    let (syms', space, l, p, r, answer) = solve_inversion cs limit sol h in
    let same : syms' ≡ syms = cc in
    let (a, b) = candidate_space_lem limit 1 syms space d l (rw same at r) in
    let few = at_most (rw same at answer) in omega (arith, few, rw a at b)
  where
    at_most :
        Answer cs syms 0 (product (map domain syms)) sol
        → sol.candidates_evaluated ≤ length (product (map domain syms))
    at_most (found c m t y i k) = omega (arith, k)
    at_most (none_left a n k) = omega (arith, k)
