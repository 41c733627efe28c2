-- ===== src/Bytes.antt =====
-- Python's `bytes`: slices, searches and the integers of `struct` and `int.from_bytes`.
pub mod Search
use ai_reverse_agent.Prelude.{
  ℕ, zero, suc, ◌+◌, ◌-◌, ◌*◌, ◌/◌, ◌%◌, ◌<◌, ◌≤◌, ◌≡◌, refl, ap, Bool, true, false, ◌&&◌, List, [],
  ◌∷◌, ◌++◌, Option, none, some, arith, length, take, drop, length-take, length-drop, ◌==◌,
  if◌then◌else◌, All, ltb,
}
use Prim.Native.Nat.{min, ◌^◌}
use native.Mathlib.Nat.{pow-suc, div-add-mod}

abbrev pub Bytes : Type 0
Bytes = List ℕ

abbrev pub IsBytes : Bytes → Type 0
IsBytes = All (λ b. b < 256)

-- data[start:stop], for 0 ≤ start
unfoldable pub slice : Bytes → ℕ → ℕ → Bytes
slice b start stop = take (stop - start) (drop start b)

-- int.from_bytes(b, "little")
unfoldable pub from_little : Bytes → ℕ
from_little [] = 0
from_little (b ∷ bs) = b + 256 * from_little bs

-- int.from_bytes(b, "big")
unfoldable pub from_big_acc : ℕ → Bytes → ℕ
from_big_acc acc [] = acc
from_big_acc acc (b ∷ bs) = from_big_acc (acc * 256 + b) bs

unfoldable pub from_big : Bytes → ℕ
unfolding from_big_acc
from_big = from_big_acc 0

-- n.to_bytes(w, "little"), for n below 256 ^ w
unfoldable pub to_little : ℕ → ℕ → Bytes
to_little zero n = []
to_little (suc w) n = (n % 256) ∷ to_little w (n / 256)

unfoldable pub to_big_onto : ℕ → ℕ → Bytes → Bytes
to_big_onto zero n rest = rest
to_big_onto (suc w) n rest = to_big_onto w (n / 256) ((n % 256) ∷ rest)

-- n.to_bytes(w, "big"), for n below 256 ^ w
unfoldable pub to_big : ℕ → ℕ → Bytes
unfolding to_big_onto
to_big w n = to_big_onto w n []

-- bytes.hex
abbrev pub hex_digit : ℕ → ℕ
hex_digit d = if ltb d 10 then b'0' + d else b'a' + d - 10

unfoldable pub hex : Bytes → List ℕ
hex [] = []
hex (b ∷ bs) = hex_digit (b / 16) ∷ hex_digit (b % 16) ∷ hex bs

-- data.startswith(magic)
unfoldable pub starts_with : Bytes → Bytes → Bool
starts_with b [] = true
starts_with [] (p ∷ ps) = false
starts_with (x ∷ xs) (p ∷ ps) = x == p && starts_with xs ps

pub length-slice :
    (b : Bytes) (start stop : ℕ)
    → length (slice b start stop) ≡ min (stop - start) (length b - start)
unfolding slice
length-slice b start stop =
    omega (arith, length-take (stop - start) (drop start b), length-drop start b)

pub length-to_little : (w n : ℕ) → length (to_little w n) ≡ w
unfolding to_little
length-to_little zero n = refl
length-to_little (suc w) n = ap suc (length-to_little w (n / 256))

-- A number of w bytes is read back.
pub from_little-to_little : (w n : ℕ) → n < 256 ^ w → from_little (to_little w n) ≡ n
unfolding from_little to_little
from_little-to_little zero n h = ground arith
from_little-to_little (suc w) n h =
    ground (arith, pow-suc 256 w, from_little-to_little w (n / 256), div-add-mod n 256)
