-- ===== src/Instruction.antt =====
-- `NormalizedInstruction` of src/ai_reverse_agent/disasm.py, and the parts of an instruction that
-- controlflow.py and decompiler.py both read.
pub mod Hex
use ai_reverse_agent.Prelude.{
  ℕ, ◌+◌, ◌-◌, ◌*◌, Bool, true, false, not, ◌&&◌, ◌||◌, [], ◌∷◌, Option, none, some, ltb, leb, ◌==◌,
  if◌then◌else◌,
}
use ai_reverse_agent.Prelude.Int.{ℤ, pos, ◌-ℤ◌}
use ai_reverse_agent.Result.{Result, ok, err, ◌>>=◌}
use ai_reverse_agent.Bytes.{Bytes}
use ai_reverse_agent.Text.{Text, is_digit, is_lower, strip, last_field, drop_while, lower_char}

pub record NormalizedInstruction : Type 0 where
  pub address : ℤ
  pub mnemonic : Text
  pub op_str : Text
  pub bytes_hex : Text

-- The value of a digit in a base up to 16, if the character is one.
unfoldable pub digit_value : ℕ → ℕ → Option ℕ
unfolding is_digit is_lower lower_char
digit_value base c =
    let d =
      if is_digit c
      then c - b'0'
      else if is_lower (lower_char c)
      then lower_char c - b'a' + 10
      else 99 in
    if ltb d base then some d else none

pub data ValueError : Type 0 where
  value_error : ValueError

unfoldable pub is_blank : ℕ → Bool
is_blank c = c == 32 || (leb 9 c && leb c 13)

-- bytes.fromhex: pairs of hexadecimal digits, with blanks between the pairs.
unfoldable pub from_hex : Text → Result ValueError Bytes
unfolding digit_value is_blank
from_hex [] = ok []
from_hex (c ∷ []) = if is_blank c then ok [] else err value_error
from_hex (c ∷ d ∷ rest) =
    let after_blank = from_hex (d ∷ rest) in
    let after_pair = from_hex rest in
    if is_blank c then after_blank else elim (digit_value 16 c) [
      | none ↦ err value_error
      | some hi ↦ elim (digit_value 16 d) [
        | none ↦ err value_error
        | some lo ↦ after_pair >>= λ bs. ok ((hi * 16 + lo) ∷ bs)
      ]
    ]

-- The digits of int(): one `_` may stand between two; `ok` tells that a digit stands before.
unfoldable pub read_digits : ℕ → ℕ → Bool → Text → Option ℕ
unfolding digit_value
read_digits base acc after_digit [] = if after_digit then some acc else none
read_digits base acc after_digit (c ∷ cs) =
    let skip = read_digits base acc false cs in
    if c == b'_' then if after_digit then skip else none else elim (digit_value base c) [
      | none ↦ none
      | some d ↦ read_digits base (acc * base + d) true cs
    ]

-- What follows 0x, 0o or 0b.
unfoldable pub read_prefixed : ℕ → Text → Option ℕ
unfolding read_digits
read_prefixed base [] = none
read_prefixed base (c ∷ cs) =
    if c == b'_' then read_digits base 0 false cs else read_digits base 0 false (c ∷ cs)

-- A decimal number that begins with 0 has to be 0.
abbrev only_zero : Option ℕ → Option ℕ
only_zero none = none
only_zero (some n) = if n == 0 then some 0 else none

unfoldable pub read_unsigned : Text → Option ℕ
unfolding read_digits read_prefixed lower_char
read_unsigned [] = none
read_unsigned (c ∷ []) = read_digits 10 0 false (c ∷ [])
read_unsigned (c ∷ p ∷ rest) =
    if not (c == b'0')
    then read_digits 10 0 false (c ∷ p ∷ rest)
    else if lower_char p == b'x'
    then read_prefixed 16 rest
    else if lower_char p == b'o'
    then read_prefixed 8 rest
    else if lower_char p == b'b'
    then read_prefixed 2 rest
    else only_zero (read_digits 10 0 false (c ∷ p ∷ rest))

abbrev negated : Option ℕ → Option ℤ
negated none = none
negated (some n) = some (pos 0 -ℤ pos n)

abbrev as_integer : Option ℕ → Option ℤ
as_integer none = none
as_integer (some n) = some (pos n)

unfoldable pub read_signed : Text → Option ℤ
unfolding read_unsigned ◌-ℤ◌
read_signed [] = none
read_signed (c ∷ cs) =
    if c == b'-'
    then negated (read_unsigned cs)
    else if c == b'+'
    then as_integer (read_unsigned cs)
    else as_integer (read_unsigned (c ∷ cs))

-- int(t, 0), or none where it raises ValueError
unfoldable pub parse_int : Text → Option ℤ
unfolding read_signed strip
parse_int t = read_signed (strip t)

-- op_str.split(",")[-1].strip().lstrip("#")
unfoldable pub target_token : Text → Text
unfolding last_field strip drop_while
target_token op_str = drop_while (λ c. c == b'#') (strip (last_field b',' op_str))
