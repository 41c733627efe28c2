-- ===== src/Text/Numbers/Digits.antt =====
-- The digits of a printed number, and the number that they are read as.
use ai_reverse_agent.Prelude.{
  ℕ, zero, suc, ◌/◌, ◌%◌, ◌<◌, ◌≤◌, inl, inr, List, [], ◌∷◌, arith, ltb, All, All-append,
  Bool-cases,
}
use ai_reverse_agent.Prelude.Int.{ℤ, pos, negsuc}
use native.Mathlib.Nat.{mod-lt}
use ai_reverse_agent.Bytes.{hex_digit}
use ai_reverse_agent.Text.Numbers.{digits_onto, digits, repeated, padded}

-- Characters of a printed number: not NUL, and ASCII.
abbrev pub IsPlain : List ℕ → Type 0
IsPlain = All (λ c. (0 < c) × (c < 128))

hex_digit-IsPlain : (d : ℕ) → d < 16 → (0 < hex_digit d) × (hex_digit d < 128)
hex_digit-IsPlain d h = (ground arith, ground arith)

digits_onto-IsPlain :
    (base fuel n : ℕ) (rest : List ℕ)
    → 0 < base
    → base ≤ 16
    → IsPlain rest
    → IsPlain (digits_onto base fuel n rest)
unfolding digits_onto
digits_onto-IsPlain base zero n rest p b h = h
digits_onto-IsPlain base (suc fuel) n rest p b h = elim (Bool-cases (ltb n base)) [
  | inl e ↦ rw (digits_onto, e) (hex_digit-IsPlain n (ground arith), h)
  | inr e ↦
      rw (digits_onto, e)
        (digits_onto-IsPlain base fuel (n / base) (hex_digit (n % base) ∷ rest) p b
          (hex_digit-IsPlain (n % base) (omega (arith, mod-lt n p)), h))
]

repeated-IsPlain : (n : ℕ) → IsPlain (repeated n b'0')
unfolding repeated
repeated-IsPlain zero = tt
repeated-IsPlain (suc n) = ((omega arith, omega arith), repeated-IsPlain n)

pub padded-IsPlain : (base width : ℕ) (z : ℤ) → 0 < base → base ≤ 16 → IsPlain (padded base width z)
unfolding padded digits
padded-IsPlain base width (pos m) p b =
    All-append _ (repeated _ b'0') _ (repeated-IsPlain _)
      (digits_onto-IsPlain base (suc m) m [] p b tt)
padded-IsPlain base width (negsuc m) p b = (
  (omega arith, omega arith),
  All-append _ (repeated _ b'0') _ (repeated-IsPlain _)
      (digits_onto-IsPlain base (suc (suc m)) (suc m) [] p b tt),
)
