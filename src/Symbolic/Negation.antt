-- ===== src/Symbolic/Negation.antt =====
-- Constraint.negate against Constraint.evaluate.
use ai_reverse_agent.Prelude.{ℕ, zero, suc, ◌+◌, ◌*◌, ◌≡◌, ◌∙◌, refl, Bool, not, arith}
use ai_reverse_agent.Prelude.Int.{
  ℤ, ◌+ℤ◌, ◌*ℤ◌, ltb_ℤ, leb_ℤ, eqb_ℤ, pos, negsuc, pos_part, neg_part, +ℤ_parts, eq_of_parts,
  int_laws,
}
use ai_reverse_agent.Result.{Result, ok, err, ◌>>=◌, bind_inversion}
use ai_reverse_agent.Symbolic.{
  SymbolicError, Constraint, ComparisonOperator, eq, ne, lt, le, gt, ge, other_comparison,
  Expression, constant, binary, Values, evaluate, apply_arithmetic, add, mul, apply_comparison,
  holds, inverse, negate, loop_value, negative_iterations,
}

abbrev complement : Result SymbolicError Bool → Result SymbolicError Bool
complement r = r >>= λ b. ok (not b)

apply_comparison-inverse :
    (op op' : ComparisonOperator) (a b : ℤ)
    → inverse op ≡ ok op'
    → apply_comparison op' a b ≡ complement (apply_comparison op a b)
unfolding inverse apply_comparison ltb_ℤ leb_ℤ eqb_ℤ
apply_comparison-inverse eq op' a b h = ground arith
apply_comparison-inverse ne op' a b h = ground arith
apply_comparison-inverse lt op' a b h = ground arith
apply_comparison-inverse le op' a b h = ground arith
apply_comparison-inverse gt op' a b h = ground arith
apply_comparison-inverse ge op' a b h = ground arith
apply_comparison-inverse (other_comparison t) op' a b h = cc

-- The two operands are evaluated before the comparison, in the same order.
compare_results :
    (op op' : ComparisonOperator) (ra rb : Result SymbolicError ℤ)
    → inverse op ≡ ok op'
    → (ra >>= λ a. rb >>= λ b. apply_comparison op' a b)
      ≡ complement (ra >>= λ a. rb >>= λ b. apply_comparison op a b)
compare_results op op' (ok a) (ok b) h = apply_comparison-inverse op op' a b h
compare_results op op' (ok a) (err e) h = refl
compare_results op op' (err e) rb h = refl

-- A successful negation changes the operator and nothing else.
negate_inversion :
    (c d : Constraint)
    → negate c ≡ ok d
    → (op : ComparisonOperator) × (inverse c.operator ≡ ok op) × (d ≡ record c { operator = op })
unfolding negate
negate_inversion c d h =
    let (op, p, q) =
      bind_inversion (inverse c.operator) (λ op. ok (record c { operator = op })) h in
    (op, p, cc)

-- Where a constraint can be negated, the negated constraint has the opposite truth value at every
-- assignment, and raises exactly what the constraint raises.
pub negate-complement :
    (c d : Constraint) (values : Values)
    → negate c ≡ ok d
    → holds d values ≡ (holds c values >>= λ b. ok (not b))
unfolding holds
negate-complement c d values h =
    let (op, p, q) = negate_inversion c d h in
    rw q (compare_results c.operator op (evaluate c.left values) (evaluate c.right values) p)

inverse_twice : (op op' : ComparisonOperator) → inverse op ≡ ok op' → inverse op' ≡ ok op
unfolding inverse
inverse_twice (other_comparison t) op' h = cc
inverse_twice _ op' h = ground arith

-- Where a constraint can be negated, negating it twice gives it back.
pub negate-negate : (c d : Constraint) → negate c ≡ ok d → negate d ≡ ok c
unfolding negate
negate-negate c d h =
    let (op, p, q) = negate_inversion c d h in rw (q, inverse_twice c.operator op p) refl

sum_of_results :
    (ra rb : Result SymbolicError ℤ) (k : ℤ)
    → (ra >>= λ a. (rb >>= λ b. apply_arithmetic mul b k) >>= λ c. apply_arithmetic add a c)
      ≡ (ra >>= λ a. rb >>= λ b. ok (a +ℤ b *ℤ k))
unfolding apply_arithmetic
sum_of_results (ok a) (ok b) k = refl
sum_of_results (ok a) (err e) k = refl
sum_of_results (err e) rb k = refl

-- The loop that is modelled: every round adds the step.
unfoldable pub run_rounds : ℕ → ℤ → ℤ → ℤ
unfolding ◌+ℤ◌
run_rounds zero step value = value
run_rounds (suc n) step value = run_rounds n step (value +ℤ step)

product_parts :
    (b : ℤ) (n : ℕ)
    → pos_part (b *ℤ pos n) + neg_part b * n ≡ neg_part (b *ℤ pos n) + pos_part b * n
unfolding ◌*ℤ◌
product_parts b n = ground arith

product_suc : (b : ℤ) (n : ℕ) → b *ℤ pos (suc n) ≡ b +ℤ b *ℤ pos n
product_suc b n =
    let up = product_parts b (suc n) in
    let down = product_parts b n in
    let sum = +ℤ_parts b (b *ℤ pos n) in
    eq_of_parts (b *ℤ pos (suc n)) (b +ℤ b *ℤ pos n) (omega (arith, up, down, sum))

product_zero : (b : ℤ) → b *ℤ pos 0 ≡ pos 0
product_zero b = eq_of_parts (b *ℤ pos 0) (pos 0) (omega (arith, product_parts b 0))

run_rounds_lem : (n : ℕ) (b a : ℤ) → run_rounds n b a ≡ a +ℤ b *ℤ pos n
unfolding run_rounds
run_rounds_lem zero b a = rw (product_zero b) (omega int_laws)
run_rounds_lem (suc n) b a = run_rounds_lem n b (a +ℤ b) ∙ rw (product_suc b n) (omega int_laws)

evaluated_rounds :
    (ra rb : Result SymbolicError ℤ) (n : ℕ)
    → (ra >>= λ a. rb >>= λ b. ok (a +ℤ b *ℤ pos n))
      ≡ (ra >>= λ a. rb >>= λ b. ok (run_rounds n b a))
evaluated_rounds (ok a) (ok b) n = rw (run_rounds_lem n b a) refl
evaluated_rounds (ok a) (err e) n = refl
evaluated_rounds (err e) rb n = refl

-- For a loop of `n` rounds, each of which adds the value of `step`, the model that is made
-- evaluates to what the rounds make of the value of `initial`; it raises what `initial` raises,
-- or else what `step` raises. For a negative number of rounds no model is made.
pub loop_value_lem :
    (initial step : Expression) (n : ℕ) (values : Values)
    → ((e : Expression) × (loop_value initial step (pos n) ≡ ok e)
        × (evaluate e values ≡ (
            evaluate initial values >>= λ a. evaluate step values >>= λ b. ok (run_rounds n b a))))
      × (loop_value initial step (negsuc n) ≡ err negative_iterations)
unfolding loop_value evaluate ltb_ℤ
loop_value_lem initial step n values = (
  (
    binary add initial (binary mul step (constant (pos n))),
    ground arith,
    sum_of_results (evaluate initial values) (evaluate step values) (pos n)
        ∙ evaluated_rounds (evaluate initial values) (evaluate step values) n,
  ),
  ground arith,
)
