-- ===== src/Symbolic/Mini/Decides.antt =====
-- When the built-in solver answers.
pub mod Covered
use ai_reverse_agent.Prelude.{
  ℕ, ◌+◌, ◌≡◌, refl, ◌≢◌, inl, inr, Bool, true, false, List, [], ◌∷◌, map, arith, All, All-intro,
  Bool-cases, Member, if◌then◌else◌, ◌∙◌, ap,
}
use ai_reverse_agent.Prelude.Int.{ℤ, pos, ◌≤ℤ◌, ltb_ℤ, ltb_ℤ_intro_false, eqb_ℤ}
use ai_reverse_agent.Result.{Result, ok, err, ◌>>=◌, Returns}
use ai_reverse_agent.Symbolic.{
  SymbolicError, zero_division, Symbol, Expression, constant, symbol, binary, Constraint, Values,
  ArithmeticOperator, add, sub, mul, floordiv, mod', other_arithmetic, ComparisonOperator, eq, ne,
  lt, le, gt, ge, other_comparison, evaluate, evaluate_symbol, apply_arithmetic, apply_comparison,
  holds,
}
use ai_reverse_agent.Symbolic.Symbols.{find_symbol, constraint_symbols}
use ai_reverse_agent.Symbolic.Mini.{
  SymbolicSolution, mini, domain, product, assign, all_hold, satisfied, zero_division_is_false,
  candidate_space, try_candidates, solve_branch_mini,
}
use ai_reverse_agent.Symbolic.Mini.Product.{InRanges, Member-product}
use Covered.{CoveredExpression, CoveredConstraint, constraint_symbols_lem, evaluate_symbol-assign}

-- Only operators that the program has.
abbrev pub KnownArithmetic : ArithmeticOperator → Type 0
KnownArithmetic (other_arithmetic t) = ⊥
KnownArithmetic op = Unit

abbrev pub KnownExpression : Expression → Type 0
KnownExpression (constant v) = Unit
KnownExpression (symbol s) = Unit
KnownExpression (binary op l r) = KnownArithmetic op × KnownExpression l × KnownExpression r

abbrev pub KnownComparison : ComparisonOperator → Type 0
KnownComparison (other_comparison t) = ⊥
KnownComparison op = Unit

abbrev pub KnownConstraint : Constraint → Type 0
KnownConstraint c = KnownComparison c.operator × KnownExpression c.left × KnownExpression c.right

-- A value, or a division by zero, and no other exception.
abbrev Clean {ℓ} : {A : Type ℓ} → Result SymbolicError A → Type 0
Clean (ok a) = Unit
Clean (err zero_division) = Unit
Clean (err e) = ⊥

bind-Clean {ℓ κ} :
    {A : Type ℓ} {B : Type κ} (m : Result SymbolicError A) (f : A → Result SymbolicError B)
    → Clean m
    → ((a : A) → m ≡ ok a → Clean (f a))
    → Clean (m >>= f)
bind-Clean (ok a) f c h = h a refl
bind-Clean (err zero_division) f c h = tt
bind-Clean (err e) f c h = c

apply_arithmetic-Clean :
    (op : ArithmeticOperator) (a b : ℤ) → KnownArithmetic op → Clean (apply_arithmetic op a b)
unfolding apply_arithmetic
apply_arithmetic-Clean add a b k = tt
apply_arithmetic-Clean sub a b k = tt
apply_arithmetic-Clean mul a b k = tt
apply_arithmetic-Clean floordiv a b k = elim (Bool-cases (eqb_ℤ b (pos 0))) [
  | inl e ↦ rw e tt
  | inr e ↦ rw e tt
]
apply_arithmetic-Clean mod' a b k = elim (Bool-cases (eqb_ℤ b (pos 0))) [
  | inl e ↦ rw e tt
  | inr e ↦ rw e tt
]
apply_arithmetic-Clean (other_arithmetic t) a b k = k

apply_comparison-Clean :
    (op : ComparisonOperator) (a b : ℤ) → KnownComparison op → Clean (apply_comparison op a b)
unfolding apply_comparison
apply_comparison-Clean (other_comparison t) a b k = k
apply_comparison-Clean eq a b k = tt
apply_comparison-Clean _ a b k = tt

module _ (syms : List Symbol) (vs : List ℤ) (range : InRanges syms vs) where
  evaluate-Clean :
      (e : Expression)
      → KnownExpression e
      → CoveredExpression syms e
      → Clean (evaluate e (assign syms vs))
  unfolding evaluate
  evaluate-Clean (constant v) k c = tt
  evaluate-Clean (symbol s) k c = let (v, p) = evaluate_symbol-assign syms vs s range c in rw p tt
  evaluate-Clean (binary op l r) k c =
      bind-Clean (evaluate l (assign syms vs)) _ (evaluate-Clean l k.1 c.0) λ a p.
        bind-Clean (evaluate r (assign syms vs)) _ (evaluate-Clean r k.2 c.1)
          λ b q. apply_arithmetic-Clean op a b k.0

  holds-Clean :
      (c : Constraint)
      → KnownConstraint c
      → CoveredConstraint syms c
      → Clean (holds c (assign syms vs))
  unfolding holds
  holds-Clean c k d =
      bind-Clean (evaluate c.left (assign syms vs)) _ (evaluate-Clean c.left k.1 d.0) λ a p.
        bind-Clean (evaluate c.right (assign syms vs)) _ (evaluate-Clean c.right k.2 d.1)
          λ b q. apply_comparison-Clean c.operator a b k.0

  all_hold-Clean :
      (cs : List Constraint)
      → All KnownConstraint cs
      → All (CoveredConstraint syms) cs
      → Clean (all_hold cs (assign syms vs))
  unfolding all_hold
  all_hold-Clean [] k d = tt
  all_hold-Clean (c ∷ cs) k d =
      bind-Clean (holds c (assign syms vs)) _ (holds-Clean c k.0 d.0)
        λ b p. either b (all_hold-Clean cs k.1 d.1)
    where
      either :
          (b : Bool)
          → Clean (all_hold cs (assign syms vs))
          → Clean (if b then all_hold cs (assign syms vs) else ok false)
      either true h = h
      either false h = tt

satisfied-Returns_lem :
    (r : Result SymbolicError Bool) → Clean r → Returns (zero_division_is_false r)
unfolding zero_division_is_false
satisfied-Returns_lem (ok b) c = (b, refl)
satisfied-Returns_lem (err zero_division) c = (false, refl)
satisfied-Returns_lem (err e) c = absurd c

try_candidates-Returns :
    (cs : List Constraint) (syms : List Symbol) (n : ℕ) (left : List (List ℤ))
    → All (λ c. Returns (satisfied cs (assign syms c))) left
    → Returns (try_candidates cs syms n left)
unfolding try_candidates
try_candidates-Returns cs syms n [] h = (_, refl)
try_candidates-Returns cs syms n (c ∷ rest) ((true, p), h) = (
  record {
    satisfiable = true;
    inputs = assign syms c;
    backend = mini;
    candidates_evaluated = n + 1;
  },
  rw p refl,
)
try_candidates-Returns cs syms n (c ∷ rest) ((false, p), h) =
    rw p (try_candidates-Returns cs syms (n + 1) rest h)

satisfied-Returns :
    (cs : List Constraint) (syms : List Symbol) (vs : List ℤ)
    → constraint_symbols cs ≡ ok syms
    → All KnownConstraint cs
    → InRanges syms vs
    → Returns (satisfied cs (assign syms vs))
unfolding satisfied
satisfied-Returns cs syms vs h k r =
    let (rising, covered) = constraint_symbols_lem cs syms h in
    satisfied-Returns_lem (all_hold cs (assign syms vs)) (all_hold-Clean syms vs r cs k covered)

-- The built-in solver answers, satisfiable or not, on a branch of at least one constraint whose
-- operators the program has, whose symbols do not conflict, and whose candidates are within a
-- limit of at least 1: no assignment makes it raise.
pub solve_branch_mini_decides :
    (c : Constraint) (cs : List Constraint) (limit space : ℤ) (syms : List Symbol)
    → pos 1 ≤ℤ limit
    → All KnownConstraint (c ∷ cs)
    → constraint_symbols (c ∷ cs) ≡ ok syms
    → candidate_space limit (pos 1) syms ≡ ok space
    → Returns (solve_branch_mini (c ∷ cs) limit)
unfolding solve_branch_mini
solve_branch_mini_decides c cs limit space syms l k p q =
    rw (ltb_ℤ_intro_false limit (pos 1) l, p, q)
      (try_candidates-Returns (c ∷ cs) syms 0 (product (map domain syms)) (
        All-intro _ (product (map domain syms))
          (λ vs m. satisfied-Returns (c ∷ cs) syms vs p k (Member-product syms vs m))))
