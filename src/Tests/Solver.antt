-- ===== src/Tests/Solver.antt =====
-- Branches over one and two symbols, solved and merged.
use ai_reverse_agent.Prelude.{
  ◌≡◌, refl, Bool, true, false, not, List, [], ◌∷◌, All, some, none, Member, ◌⊎◌, arith,
}
use ai_reverse_agent.Prelude.Int.{ℤ, pos, negsuc, ◌≤ℤ◌, ◌+ℤ◌, ◌*ℤ◌}
use ai_reverse_agent.Result.{err, ok, ◌>>=◌, Returns}
use ai_reverse_agent.Text.{codes}
use ai_reverse_agent.Symbolic.{
  SymbolicError, Symbol, Expression, constant, symbol, binary, add, mul, floordiv, Constraint, eq,
  ne, lt, ge, Values, evaluate, holds, negate, loop_value,
}
use ai_reverse_agent.Symbolic.Symbols.{constraint_symbols, merge_symbols, find_symbol}
use ai_reverse_agent.Symbolic.Symbols.Rising.{IsRising}
use ai_reverse_agent.Symbolic.Symbols.Merge.{merge_symbols_lem}
use ai_reverse_agent.Symbolic.{negative_iterations}
use ai_reverse_agent.Symbolic.Negation.{negate-complement, run_rounds, loop_value_lem}
use ai_reverse_agent.Symbolic.Mini.{
  SymbolicSolution, mini, solve_branch_mini, assign, candidate_space,
}
use ai_reverse_agent.Symbolic.Mini.Product.{InRanges, HasDomain}
use ai_reverse_agent.Symbolic.Mini.Sound.{
  Satisfies, solve_branch_mini_sound, solve_branch_mini_complete, solve_branch_mini_bound,
}
use ai_reverse_agent.Obfuscation.{negated_last, proves_unreachable}
use ai_reverse_agent.Obfuscation.Opaque.{IsFeasible, proves_unreachable_lem}
use ai_reverse_agent.Symbolic.Mini.Decides.{solve_branch_mini_decides}

abbrev x : Symbol
x = record { name = codes "x"; minimum = pos 0; maximum = pos 9 }

abbrev y : Symbol
y = record { name = codes "y"; minimum = negsuc 1; maximum = pos 4 }

-- x * 3 == 21
abbrev triple : Constraint
triple = record {
  operator = eq;
  left = binary mul (symbol x) (constant (pos 3));
  right = constant (pos 21);
}

-- 8 // x != x * 3, which raises at 0
abbrev quotient : Constraint
quotient = record {
  operator = ne;
  left = binary floordiv (constant (pos 8)) (symbol x);
  right = binary mul (symbol x) (constant (pos 3));
}

-- x * 3 == 20
abbrev never : Constraint
never = record {
  operator = eq;
  left = binary mul (symbol x) (constant (pos 3));
  right = constant (pos 20);
}

-- x < 5
abbrev small : Constraint
small = record { operator = lt; left = symbol x; right = constant (pos 5) }

abbrev large : Constraint
large = record { operator = ge; left = symbol x; right = constant (pos 5) }

abbrev seven : SymbolicSolution
seven = record {
  satisfiable = true;
  inputs = (codes "x", pos 7) ∷ [];
  backend = mini;
  candidates_evaluated = 8;
}

abbrev nothing : SymbolicSolution
nothing = record { satisfiable = false; inputs = []; backend = mini; candidates_evaluated = 10 }

solved : solve_branch_mini (triple ∷ quotient ∷ []) (pos 100) ≡ ok seven
unfolding solve_branch_mini ai_reverse_agent.Prelude.Int.ltb_ℤ ai_reverse_agent.Text.text_eq
    ai_reverse_agent.Prelude.Int.eqb_ℤ ◌*ℤ◌ ◌+ℤ◌ ai_reverse_agent.Prelude.Int.◌-ℤ◌ holds
    ai_reverse_agent.Symbolic.evaluate_symbol ai_reverse_agent.Prelude.Int.leb_ℤ
    ai_reverse_agent.Symbolic.apply_arithmetic ai_reverse_agent.Symbolic.apply_comparison
    ai_reverse_agent.Prelude.Int.◌//ℤ◌
solved = refl

solve_branch_mini_sound_example :
    Satisfies (triple ∷ quotient ∷ []) seven.inputs
    × ((syms : List Symbol) × (vs : List ℤ) × (constraint_symbols (triple ∷ quotient ∷ [])
          ≡ ok syms)
        × InRanges syms vs
        × (seven.inputs ≡ assign syms vs))
solve_branch_mini_sound_example =
    solve_branch_mini_sound (triple ∷ quotient ∷ []) (pos 100) seven solved refl

unsolved : solve_branch_mini (never ∷ []) (pos 10) ≡ ok nothing
unfolding solve_branch_mini ai_reverse_agent.Prelude.Int.ltb_ℤ ◌*ℤ◌ ◌+ℤ◌
    ai_reverse_agent.Prelude.Int.◌-ℤ◌ holds ai_reverse_agent.Symbolic.evaluate_symbol
    ai_reverse_agent.Text.text_eq ai_reverse_agent.Prelude.Int.leb_ℤ
    ai_reverse_agent.Symbolic.apply_arithmetic ai_reverse_agent.Symbolic.apply_comparison
    ai_reverse_agent.Prelude.Int.eqb_ℤ
unsolved = refl

symbols_of_never : constraint_symbols (never ∷ []) ≡ ok (x ∷ [])
unfolding constraint_symbols
symbols_of_never = refl

three_in_range : InRanges (x ∷ []) (pos 3 ∷ [])
three_in_range = ((omega arith, omega arith), tt)

solve_branch_mini_complete_example : ¬ Satisfies (never ∷ []) (assign (x ∷ []) (pos 3 ∷ []))
solve_branch_mini_complete_example =
    solve_branch_mini_complete (never ∷ []) (pos 10) nothing (x ∷ []) (pos 3 ∷ []) unsolved refl
      symbols_of_never three_in_range

x-HasDomain : All HasDomain (x ∷ [])
x-HasDomain = (omega arith, tt)

solve_branch_mini_bound_example : pos nothing.candidates_evaluated ≤ℤ pos 10
solve_branch_mini_bound_example =
    solve_branch_mini_bound (never ∷ []) (pos 10) nothing (x ∷ []) unsolved symbols_of_never
      x-HasDomain

-- The branch with a division by zero at 0 is answered as well.
symbols_of_branch : constraint_symbols (triple ∷ quotient ∷ []) ≡ ok (x ∷ [])
unfolding constraint_symbols ai_reverse_agent.Text.text_eq ai_reverse_agent.Prelude.Int.eqb_ℤ
symbols_of_branch = refl

space_of_branch : candidate_space (pos 100) (pos 1) (x ∷ []) ≡ ok (pos 10)
unfolding candidate_space ai_reverse_agent.Prelude.Int.ltb_ℤ ◌*ℤ◌ ◌+ℤ◌
    ai_reverse_agent.Prelude.Int.◌-ℤ◌
space_of_branch = refl

solve_branch_mini_decides_example : Returns (solve_branch_mini (triple ∷ quotient ∷ []) (pos 100))
solve_branch_mini_decides_example =
    solve_branch_mini_decides triple (quotient ∷ []) (pos 100) (pos 10) (x ∷ []) (omega arith)
      ((tt, (tt, tt, tt), tt), ((tt, (tt, tt, tt), (tt, tt, tt)), tt)) symbols_of_branch
      space_of_branch

negate-small : negate small ≡ ok large
unfolding negate
negate-small = refl

negate-complement_example :
    holds large ((codes "x", pos 4) ∷ [])
    ≡ (holds small ((codes "x", pos 4) ∷ []) >>= λ b. ok (not b))
negate-complement_example = negate-complement small large ((codes "x", pos 4) ∷ []) negate-small

loop_value_lem_example :
    ((e : Expression) × (loop_value (symbol x) (constant (pos 4)) (pos 3) ≡ ok e)
      × (evaluate e ((codes "x", pos 2) ∷ []) ≡ (
          evaluate (symbol x) ((codes "x", pos 2) ∷ []) >>= λ a.
          evaluate (constant (pos 4)) ((codes "x", pos 2) ∷ []) >>= λ b. ok (run_rounds 3 b a))))
    × (loop_value (symbol x) (constant (pos 4)) (negsuc 3) ≡ err negative_iterations)
loop_value_lem_example = loop_value_lem (symbol x) (constant (pos 4)) 3 ((codes "x", pos 2) ∷ [])

merged : merge_symbols (y ∷ []) (x ∷ []) ≡ ok (x ∷ y ∷ [])
unfolding merge_symbols ai_reverse_agent.Text.text_eq ai_reverse_agent.Text.Order.text_ltb
merged = refl

merge_symbols_lem_example :
    IsRising (x ∷ y ∷ [])
    × All (λ s. find_symbol s.name (x ∷ y ∷ []) ≡ some s) (y ∷ [])
    × All (λ s. find_symbol s.name (x ∷ y ∷ []) ≡ some s) (x ∷ [])
    × All (λ s. Member s (y ∷ []) ⊎ Member s (x ∷ [])) (x ∷ y ∷ [])
merge_symbols_lem_example = merge_symbols_lem (y ∷ []) (x ∷ []) (x ∷ y ∷ []) (tt, tt) merged

unreachable : proves_unreachable (never ∷ []) ≡ true
unfolding proves_unreachable ai_reverse_agent.Prelude.Int.ltb_ℤ ◌*ℤ◌ ◌+ℤ◌
    ai_reverse_agent.Prelude.Int.◌-ℤ◌ holds ai_reverse_agent.Symbolic.evaluate_symbol
    ai_reverse_agent.Text.text_eq ai_reverse_agent.Prelude.Int.leb_ℤ
    ai_reverse_agent.Symbolic.apply_arithmetic ai_reverse_agent.Symbolic.apply_comparison
    ai_reverse_agent.Prelude.Int.eqb_ℤ
unreachable = refl

proves_unreachable_lem_example :
    (ds : List Constraint) × (negated_last (never ∷ []) ≡ ok ds)
    × ((IsFeasible (never ∷ []) × ¬ IsFeasible ds) ⊎ (¬ IsFeasible (never ∷ []) × IsFeasible ds))
proves_unreachable_lem_example = proves_unreachable_lem (never ∷ []) unreachable
