-- ===== src/Instruction/Hex.antt =====
-- `bytes.hex` against `bytes.fromhex`.
use ai_reverse_agent.Prelude.{ℕ, ◌+◌, ◌*◌, ◌/◌, ◌%◌, ◌<◌, ◌≡◌, refl, false, [], ◌∷◌, some, arith}
use native.Mathlib.Nat.{div-add-mod}
use ai_reverse_agent.Result.{ok}
use ai_reverse_agent.Bytes.{Bytes, IsBytes, hex, hex_digit}
use ai_reverse_agent.Instruction.{digit_value, is_blank, from_hex}

pub hex_digit_lem :
    (d : ℕ) → d < 16 → (is_blank (hex_digit d) ≡ false) × (digit_value 16 (hex_digit d) ≡ some d)
unfolding is_blank digit_value
hex_digit_lem d h = (ground arith, ground arith)

-- What `hex` writes of bytes is hexadecimal, and is read back.
pub from_hex-hex : (b : Bytes) → IsBytes b → from_hex (hex b) ≡ ok b
unfolding from_hex hex
from_hex-hex [] h = refl
from_hex-hex (c ∷ cs) h =
    let (p, q) = hex_digit_lem (c / 16) (omega (arith, h.0)) in
    let (r, s) = hex_digit_lem (c % 16) (omega arith) in
    let whole : c / 16 * 16 + c % 16 ≡ c = omega (arith, div-add-mod c 16) in
    rw (p, q, s, from_hex-hex cs h.1, whole) refl
