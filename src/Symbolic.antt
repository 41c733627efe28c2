-- ===== src/Symbolic.antt =====
-- src/ai_reverse_agent/symbolic.py: integer expressions, constraints and their evaluation.
pub mod Symbols
pub mod Mini
pub mod Negation
pub mod Operators
use ai_reverse_agent.Prelude.{
  ℕ, zero, suc, ◌≡◌, Bool, true, false, not, ◌&&◌, ◌||◌, List, [], ◌∷◌, arith, if◌then◌else◌,
}
use ai_reverse_agent.Prelude.Int.{ℤ, pos, ◌+ℤ◌, ◌-ℤ◌, ◌*ℤ◌, ◌//ℤ◌, ◌%ℤ◌, ltb_ℤ, leb_ℤ, eqb_ℤ}
use ai_reverse_agent.Result.{Result, ok, err, ◌>>=◌}
use ai_reverse_agent.Text.{Text, text_eq, is_alpha, is_digit}

-- One constructor for each `raise`; all but `zero_division` are a `SymbolicError`.
pub data SymbolicError : Type 0 where
  invalid_name empty_domain missing_value outside_domain zero_division : SymbolicError
  unsupported_arithmetic unsupported_comparison conflicting_domains : SymbolicError
  no_constraints max_candidates_too_small : SymbolicError
  candidate_space_exceeds_limit negative_iterations : SymbolicError

-- A bounded symbolic input.
pub record Symbol : Type 0 where
  pub name : Text
  pub minimum : ℤ
  pub maximum : ℤ

-- The `operator` strings; the source's last branch takes any other.
pub data ArithmeticOperator : Type 0 where
  add sub mul floordiv mod' : ArithmeticOperator
  other_arithmetic : Text → ArithmeticOperator

pub data ComparisonOperator : Type 0 where
  eq ne lt le gt ge : ComparisonOperator
  other_comparison : Text → ComparisonOperator

pub data Expression : Type 0 where
  constant : ℤ → Expression
  symbol : Symbol → Expression
  binary : ArithmeticOperator → Expression → Expression → Expression

pub record Constraint : Type 0 where
  pub operator : ComparisonOperator
  pub left : Expression
  pub right : Expression

-- values: Mapping[str, int]
abbrev pub Values : Type 0
Values = List (Text × ℤ)

-- values[name]
unfoldable pub get_value : Values → Text → Result SymbolicError ℤ
get_value [] n = err missing_value
get_value ((m, v) ∷ rest) n = if text_eq m n then ok v else get_value rest n

-- str.isidentifier, on ASCII
rest_of_identifier : Text → Bool
rest_of_identifier [] = true
rest_of_identifier (c ∷ cs) =
    (is_alpha c || is_digit c || eqb_ℤ (pos c) (pos b'_')) && rest_of_identifier cs

is_identifier : Text → Bool
unfolding rest_of_identifier is_alpha is_digit eqb_ℤ
is_identifier [] = false
is_identifier (c ∷ cs) = (is_alpha c || eqb_ℤ (pos c) (pos b'_')) && rest_of_identifier cs

-- symbolic_input, with the checks of Symbol.__post_init__
unfoldable pub symbolic_input : Text → ℤ → ℤ → Result SymbolicError Symbol
unfolding is_identifier ltb_ℤ
symbolic_input n lo hi =
    if not (is_identifier n)
    then err invalid_name
    else if ltb_ℤ hi lo
    then err empty_domain
    else ok (record { name = n; minimum = lo; maximum = hi })

-- Symbol.evaluate
unfoldable pub evaluate_symbol : Symbol → Values → Result SymbolicError ℤ
unfolding get_value
evaluate_symbol s values = do
  value ← get_value values s.name
  if leb_ℤ s.minimum value && leb_ℤ value s.maximum then ok value else err outside_domain

-- The branches of BinaryExpression.evaluate.
unfoldable pub apply_arithmetic : ArithmeticOperator → ℤ → ℤ → Result SymbolicError ℤ
apply_arithmetic add a b = ok (a +ℤ b)
apply_arithmetic sub a b = ok (a -ℤ b)
apply_arithmetic mul a b = ok (a *ℤ b)
apply_arithmetic floordiv a b = if eqb_ℤ b (pos 0) then err zero_division else ok (a //ℤ b)
apply_arithmetic mod' a b = if eqb_ℤ b (pos 0) then err zero_division else ok (a %ℤ b)
apply_arithmetic (other_arithmetic t) a b = err unsupported_arithmetic

-- Expression.evaluate
unfoldable pub evaluate : Expression → Values → Result SymbolicError ℤ
evaluate (constant v) values = ok v
evaluate (symbol s) values = evaluate_symbol s values
evaluate (binary op l r) values = do
  a ← evaluate l values
  b ← evaluate r values
  apply_arithmetic op a b

-- The branches of Constraint.evaluate.
unfoldable pub apply_comparison : ComparisonOperator → ℤ → ℤ → Result SymbolicError Bool
apply_comparison eq a b = ok (eqb_ℤ a b)
apply_comparison ne a b = ok (not (eqb_ℤ a b))
apply_comparison lt a b = ok (ltb_ℤ a b)
apply_comparison le a b = ok (leb_ℤ a b)
apply_comparison gt a b = ok (ltb_ℤ b a)
apply_comparison ge a b = ok (leb_ℤ b a)
apply_comparison (other_comparison t) a b = err unsupported_comparison

-- Constraint.evaluate
unfoldable pub holds : Constraint → Values → Result SymbolicError Bool
unfolding evaluate
holds c values = do
  a ← evaluate c.left values
  b ← evaluate c.right values
  apply_comparison c.operator a b

-- The table `inverse` of Constraint.negate.
unfoldable pub inverse : ComparisonOperator → Result SymbolicError ComparisonOperator
inverse eq = ok ne
inverse ne = ok eq
inverse lt = ok ge
inverse le = ok gt
inverse gt = ok le
inverse ge = ok lt
inverse (other_comparison t) = err unsupported_comparison

-- Constraint.negate
unfoldable pub negate : Constraint → Result SymbolicError Constraint
unfolding inverse
negate c = do op ← inverse c.operator; ok (record c { operator = op })

-- loop_value, after the coercion of its integers to `constant`
unfoldable pub loop_value : Expression → Expression → ℤ → Result SymbolicError Expression
loop_value initial step iterations =
    if ltb_ℤ iterations (pos 0)
    then err negative_iterations
    else ok (binary add initial (binary mul step (constant iterations)))
