-- ===== src/Symbolic/Mini.antt =====
-- The built-in solver: `_solve_with_mini`, and `solve_branch` when it is asked for that one.
pub mod Product
pub mod Sound
pub mod Decides
use ai_reverse_agent.Prelude.{
  ℕ, zero, suc, ◌+◌, Bool, true, false, not, ◌&&◌, ◌||◌, List, [], ◌∷◌, ◌++◌, map, if◌then◌else◌,
}
use ai_reverse_agent.Prelude.Int.{ℤ, pos, pos_part, ◌+ℤ◌, ◌-ℤ◌, ◌*ℤ◌, ltb_ℤ}
use ai_reverse_agent.Result.{Result, ok, err, ◌>>=◌}
use ai_reverse_agent.Symbolic.{
  SymbolicError, zero_division, no_constraints, max_candidates_too_small,
  candidate_space_exceeds_limit, Symbol, Constraint, Values, holds,
}
use ai_reverse_agent.Symbolic.Symbols.{constraint_symbols}

-- The `backend` strings of a solution.
pub data Backend : Type 0 where
  mini z3 : Backend

pub record SymbolicSolution : Type 0 where
  pub satisfiable : Bool
  pub inputs : Values
  pub backend : Backend
  pub candidates_evaluated : ℕ

-- symbol.maximum - symbol.minimum + 1
unfoldable pub width : Symbol → ℤ
width s = s.maximum -ℤ s.minimum +ℤ pos 1

-- The loop that bounds the number of candidates.
unfoldable pub candidate_space : ℤ → ℤ → List Symbol → Result SymbolicError ℤ
unfolding width
candidate_space limit count [] = ok count
candidate_space limit count (s ∷ ss) =
    let count' = count *ℤ width s in
    let rest = candidate_space limit count' ss in
    if ltb_ℤ limit count' then err candidate_space_exceeds_limit else rest

-- n values from `lo` on
unfoldable pub count_up : ℕ → ℤ → List ℤ
count_up zero lo = []
count_up (suc n) lo = lo ∷ count_up n (lo +ℤ pos 1)

-- range(symbol.minimum, symbol.maximum + 1)
unfoldable pub domain : Symbol → List ℤ
unfolding width count_up
domain s = count_up (pos_part (width s)) s.minimum

-- itertools.product: the last position varies fastest.
unfoldable pub prefix_each : List ℤ → List (List ℤ) → List (List ℤ)
prefix_each [] rests = []
prefix_each (v ∷ vs) rests = map (λ r. v ∷ r) rests ++ prefix_each vs rests

unfoldable pub product : List (List ℤ) → List (List ℤ)
unfolding prefix_each
product [] = [] ∷ []
product (d ∷ ds) = prefix_each d (product ds)

-- dict(zip(names, candidate))
unfoldable pub assign : List Symbol → List ℤ → Values
assign [] vs = []
assign (s ∷ ss) [] = []
assign (s ∷ ss) (v ∷ vs) = (s.name, v) ∷ assign ss vs

-- all(constraint.evaluate(values) for ...), which stops at the first that is false
unfoldable pub all_hold : List Constraint → Values → Result SymbolicError Bool
all_hold [] values = ok true
all_hold (c ∷ cs) values = do b ← holds c values; if b then all_hold cs values else ok false

-- except ZeroDivisionError: satisfied = False
unfoldable pub zero_division_is_false : Result SymbolicError Bool → Result SymbolicError Bool
zero_division_is_false (ok b) = ok b
zero_division_is_false (err zero_division) = ok false
zero_division_is_false (err e) = err e

unfoldable pub satisfied : List Constraint → Values → Result SymbolicError Bool
unfolding all_hold zero_division_is_false
satisfied cs values = zero_division_is_false (all_hold cs values)

-- The loop over the candidates; `evaluated` counts those tried before.
unfoldable pub try_candidates :
    List Constraint → List Symbol → ℕ → List (List ℤ) → Result SymbolicError SymbolicSolution
unfolding satisfied assign
try_candidates cs syms evaluated [] =
    ok (record {
      satisfiable = false;
      inputs = [];
      backend = mini;
      candidates_evaluated = evaluated;
    })
try_candidates cs syms evaluated (candidate ∷ rest) =
    let values = assign syms candidate in
    let found : SymbolicSolution = record {
      satisfiable = true;
      inputs = values;
      backend = mini;
      candidates_evaluated = evaluated + 1;
    } in
    let later = try_candidates cs syms (evaluated + 1) rest in
    satisfied cs values >>= λ b. if b then ok found else later

-- _solve_with_mini
unfoldable pub solve_with_mini : List Constraint → ℤ → Result SymbolicError SymbolicSolution
unfolding constraint_symbols candidate_space domain product try_candidates
solve_with_mini cs limit = do
  syms ← constraint_symbols cs
  space ← candidate_space limit (pos 1) syms
  try_candidates cs syms 0 (product (map domain syms))

-- solve_branch(constraints, backend="mini", max_candidates=limit)
unfoldable pub solve_branch_mini : List Constraint → ℤ → Result SymbolicError SymbolicSolution
unfolding solve_with_mini
solve_branch_mini [] limit = err no_constraints
solve_branch_mini (c ∷ cs) limit =
    if ltb_ℤ limit (pos 1) then err max_candidates_too_small else solve_with_mini (c ∷ cs) limit
