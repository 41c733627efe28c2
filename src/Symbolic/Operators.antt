-- ===== src/Symbolic/Operators.antt =====
-- The operators of `Expression`, which build expressions and constraints.
use ai_reverse_agent.Prelude.{◌≡◌, refl}
use ai_reverse_agent.Prelude.Int.{ℤ}
use ai_reverse_agent.Result.{ok}
use ai_reverse_agent.Symbolic.{
  Expression, constant, binary, add, sub, mul, floordiv, mod', Constraint, eq, ne, lt, le, gt, ge,
  negate,
}

-- int | Expression
pub data Operand : Type 0 where
  number : ℤ → Operand
  expression : Expression → Operand

-- _coerce_expression
unfoldable pub coerce : Operand → Expression
coerce (number n) = constant n
coerce (expression e) = e

unfoldable pub plus : Expression → Operand → Expression
unfolding coerce
plus e o = binary add e (coerce o)

-- __radd__
unfoldable pub plus_reversed : Expression → Operand → Expression
unfolding coerce
plus_reversed e o = binary add (coerce o) e

unfoldable pub minus : Expression → Operand → Expression
unfolding coerce
minus e o = binary sub e (coerce o)

-- __rsub__
unfoldable pub minus_reversed : Expression → Operand → Expression
unfolding coerce
minus_reversed e o = binary sub (coerce o) e

unfoldable pub times : Expression → Operand → Expression
unfolding coerce
times e o = binary mul e (coerce o)

-- __rmul__
unfoldable pub times_reversed : Expression → Operand → Expression
unfolding coerce
times_reversed e o = binary mul (coerce o) e

unfoldable pub quotient : Expression → Operand → Expression
unfolding coerce
quotient e o = binary floordiv e (coerce o)

unfoldable pub remainder : Expression → Operand → Expression
unfolding coerce
remainder e o = binary mod' e (coerce o)

unfoldable pub equals : Expression → Operand → Constraint
unfolding coerce
equals e o = record { operator = eq; left = e; right = coerce o }

unfoldable pub not_equals : Expression → Operand → Constraint
unfolding coerce
not_equals e o = record { operator = ne; left = e; right = coerce o }

unfoldable pub less : Expression → Operand → Constraint
unfolding coerce
less e o = record { operator = lt; left = e; right = coerce o }

unfoldable pub at_most : Expression → Operand → Constraint
unfolding coerce
at_most e o = record { operator = le; left = e; right = coerce o }

unfoldable pub greater : Expression → Operand → Constraint
unfolding coerce
greater e o = record { operator = gt; left = e; right = coerce o }

unfoldable pub at_least : Expression → Operand → Constraint
unfolding coerce
at_least e o = record { operator = ge; left = e; right = coerce o }

-- Each comparison operator builds the negation of its opposite.
pub negate-operators :
    (e : Expression) (o : Operand)
    → (negate (equals e o) ≡ ok (not_equals e o))
      × (negate (less e o) ≡ ok (at_least e o))
      × (negate (greater e o) ≡ ok (at_most e o))
unfolding negate equals not_equals less at_least greater at_most
negate-operators e o = (refl, refl, refl)
