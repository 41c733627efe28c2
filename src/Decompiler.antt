-- ===== src/Decompiler.antt =====
-- src/ai_reverse_agent/decompiler.py: the split of a stream into functions.
pub mod Boundaries
pub mod Stack
pub mod Pseudo
pub mod Native
use ai_reverse_agent.Prelude.{
  last_of, ℕ, ◌+◌, Bool, true, false, not, ◌&&◌, ◌||◌, List, [], ◌∷◌, ◌++◌, Option, none, some,
  length, if◌then◌else◌,
}
use ai_reverse_agent.Prelude.Int.{ℤ, pos, ◌+ℤ◌}
use ai_reverse_agent.Result.{Result, ok, err, ◌>>=◌}
use ai_reverse_agent.Text.{Text, codes, one_of, lower, remove_char, text_eq}
use ai_reverse_agent.Instruction.{NormalizedInstruction, ValueError, from_hex}

pub record FunctionBoundary : Type 0 where
  pub start_address : ℤ
  pub end_address : ℤ
  pub first : NormalizedInstruction
  pub more : List NormalizedInstruction

-- boundary.instructions, which is never empty
abbrev pub body : FunctionBoundary → List NormalizedInstruction
body b = b.first ∷ b.more

-- _RETURN_MNEMONICS
abbrev return_mnemonics : List Text
return_mnemonics = codes "ret" ∷ codes "retf" ∷ codes "iret" ∷ codes "iretd" ∷ codes "iretq" ∷ []

-- _is_return
unfoldable pub is_return : NormalizedInstruction → Bool
unfolding one_of lower text_eq remove_char
is_return i =
    let mnemonic = lower i.mnemonic in
    let operands = remove_char b'$' (lower i.op_str) in
    one_of mnemonic return_mnemonics
    || (text_eq mnemonic (codes "bx") && text_eq operands (codes "lr"))
    || (text_eq mnemonic (codes "jr") && one_of operands (codes "ra" ∷ codes "x1" ∷ []))
    || (text_eq mnemonic (codes "jalr")
        && one_of operands (codes "zero, ra, 0" ∷ codes "x0, x1, 0" ∷ []))

-- _make_boundary
unfoldable pub make_boundary :
    NormalizedInstruction → List NormalizedInstruction → Result ValueError FunctionBoundary
unfolding last_of from_hex
make_boundary first more = do
  encoded ← from_hex (last_of first more).bytes_hex
  ok (record {
    start_address = first.address;
    end_address = (last_of first more).address +ℤ pos (length encoded);
    first = first;
    more = more;
  })

-- _make_boundary of `current` after the append of `i`
abbrev pub close :
    List NormalizedInstruction → NormalizedInstruction → Result ValueError FunctionBoundary
close [] i = make_boundary i []
close (c ∷ cs) i = make_boundary c (cs ++ i ∷ [])

-- The loop over the instructions, with `current`.
unfoldable pub split_functions :
    List NormalizedInstruction
    → List NormalizedInstruction
    → Result ValueError (List FunctionBoundary)
unfolding is_return make_boundary
split_functions [] [] = ok []
split_functions (c ∷ cs) [] = do boundary ← make_boundary c cs; ok (boundary ∷ [])
split_functions current (i ∷ is) =
    let closed = (do
      boundary ← close current i
      rest ← split_functions [] is
      ok (boundary ∷ rest)) in
    let extended = split_functions (current ++ i ∷ []) is in
    if is_return i then closed else extended

-- find_function_boundaries
unfoldable pub find_function_boundaries :
    List NormalizedInstruction → Result ValueError (List FunctionBoundary)
unfolding split_functions
find_function_boundaries is = split_functions [] is
