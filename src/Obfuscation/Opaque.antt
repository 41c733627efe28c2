-- ===== src/Obfuscation/Opaque.antt =====
-- What the symbolic evidence of an opaque predicate means.
use ai_reverse_agent.Prelude.{◌≡◌, refl, ◌⊎◌, inl, inr, true, false, List, Bool-cases, arith}
use ai_reverse_agent.Prelude.Int.{ℤ, pos}
use ai_reverse_agent.Result.{Result, ok, err, ◌>>=◌}
use ai_reverse_agent.Symbolic.{SymbolicError, Symbol, Constraint}
use ai_reverse_agent.Symbolic.Symbols.{constraint_symbols}
use ai_reverse_agent.Symbolic.Mini.{SymbolicSolution, solve_branch_mini, assign}
use ai_reverse_agent.Symbolic.Mini.Product.{InRanges}
use ai_reverse_agent.Symbolic.Mini.Sound.{
  Satisfies, solve_branch_mini_sound, solve_branch_mini_complete,
}
use ai_reverse_agent.Obfuscation.{negated_last, paths_differ, proves_unreachable}

-- Some values within the bounds of the symbols satisfy every constraint.
abbrev pub IsFeasible : List Constraint → Type 0
IsFeasible cs =
    (syms : List Symbol) × (vs : List ℤ) × (constraint_symbols cs ≡ ok syms)
    × InRanges syms vs
    × Satisfies cs (assign syms vs)

satisfiable-IsFeasible :
    (cs : List Constraint) (limit : ℤ) (s : SymbolicSolution)
    → solve_branch_mini cs limit ≡ ok s
    → s.satisfiable ≡ true
    → IsFeasible cs
satisfiable-IsFeasible cs limit s h t =
    let (holds, (syms, vs, e, range, same)) = solve_branch_mini_sound cs limit s h t in
    (syms, vs, e, range, rw (← same) holds)

unsatisfiable-IsFeasible :
    (cs : List Constraint) (limit : ℤ) (s : SymbolicSolution)
    → solve_branch_mini cs limit ≡ ok s
    → s.satisfiable ≡ false
    → ¬ IsFeasible cs
unsatisfiable-IsFeasible cs limit s h f (syms, vs, e, range, holds) =
    solve_branch_mini_complete cs limit s syms vs h f e range holds

-- The symbolic evidence of an opaque predicate stands only where one side of the branch is
-- feasible within the bounds of its symbols and the other is not: the constraints as they are, or
-- with the last one negated.
pub proves_unreachable_lem :
    (cs : List Constraint)
    → proves_unreachable cs ≡ true
    → (ds : List Constraint) × (negated_last cs ≡ ok ds)
      × ((IsFeasible cs × ¬ IsFeasible ds) ⊎ (¬ IsFeasible cs × IsFeasible ds))
unfolding proves_unreachable
proves_unreachable_lem cs h = go (solve_branch_mini cs (pos 65536)) refl (negated_last cs) refl h
  where
    sides :
        (ds : List Constraint) (t : SymbolicSolution)
        → solve_branch_mini cs (pos 65536) ≡ ok t
        → (f : Result SymbolicError SymbolicSolution) → solve_branch_mini ds (pos 65536) ≡ f
        → paths_differ (ok t) f ≡ true
        → (IsFeasible cs × ¬ IsFeasible ds) ⊎ (¬ IsFeasible cs × IsFeasible ds)
    sides ds t p (err e) q h = absurd (cc)
    sides ds t p (ok f) q h = elim (Bool-cases t.satisfiable) [
      | inl e ↦
          let other : f.satisfiable ≡ false = ground (arith, h, e) in
          inl (satisfiable-IsFeasible cs _ t p e, unsatisfiable-IsFeasible ds _ f q other)
      | inr e ↦
          let other : f.satisfiable ≡ true = ground (arith, h, e) in
          inr (unsatisfiable-IsFeasible cs _ t p e, satisfiable-IsFeasible ds _ f q other)
    ]

    go :
        (t : Result SymbolicError SymbolicSolution)
        → solve_branch_mini cs (pos 65536) ≡ t
        → (n : Result SymbolicError (List Constraint)) → negated_last cs ≡ n
        → paths_differ t (n >>= λ ds. solve_branch_mini ds (pos 65536)) ≡ true
        → (ds : List Constraint) × (negated_last cs ≡ ok ds)
          × ((IsFeasible cs × ¬ IsFeasible ds) ⊎ (¬ IsFeasible cs × IsFeasible ds))
    go (err e) p n q h = absurd (cc)
    go (ok t) p (err e) q h = absurd (cc)
    go (ok t) p (ok ds) q h = (ds, q, sides ds t p (solve_branch_mini ds (pos 65536)) refl h)
