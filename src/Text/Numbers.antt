-- ===== src/Text/Numbers.antt =====
-- Python's format of integers: f"{n}", f"{n:x}" and their zero-padded forms.
pub mod Digits
use ai_reverse_agent.Prelude.{
  ℕ, zero, suc, ◌-◌, ◌/◌, ◌%◌, true, false, List, [], ◌∷◌, ◌++◌, ltb, length,
}
use ai_reverse_agent.Prelude.Int.{ℤ, pos, negsuc}
use ai_reverse_agent.Bytes.{hex_digit}

-- The digits of n before `rest`; n + 1 rounds are enough, since every round divides n.
unfoldable pub digits_onto : ℕ → ℕ → ℕ → List ℕ → List ℕ
digits_onto base zero n rest = rest
digits_onto base (suc fuel) n rest = elim (ltb n base) [
  | true ↦ hex_digit n ∷ rest
  | false ↦ digits_onto base fuel (n / base) (hex_digit (n % base) ∷ rest)
]

unfoldable pub digits : ℕ → ℕ → List ℕ
unfolding digits_onto
digits base n = digits_onto base (suc n) n []

-- n times c
unfoldable pub repeated : ℕ → ℕ → List ℕ
repeated zero c = []
repeated (suc n) c = c ∷ repeated n c

-- f"{t:<n}"
unfoldable pub pad_right : ℕ → List ℕ → List ℕ
unfolding repeated
pad_right n t = t ++ repeated (n - length t) b' '

-- f"{z:0nx}" with base 16; the sign counts in the width.
unfoldable pub padded : ℕ → ℕ → ℤ → List ℕ
unfolding digits repeated
padded base n (pos m) = let t = digits base m in repeated (n - length t) b'0' ++ t
padded base n (negsuc m) =
    let t = digits base (suc m) in b'-' ∷ (repeated (n - 1 - length t) b'0' ++ t)

-- f"{z}" and f"{z:x}"
abbrev pub decimal : ℤ → List ℕ
decimal = padded 10 0

abbrev pub hexadecimal : ℤ → List ℕ
hexadecimal = padded 16 0
