-- ===== src/Tests/Streams.antt =====
-- The disassembler on a few bytes, with an engine that knows two instructions.
use ai_reverse_agent.Prelude.{
  ℕ, zero, suc, Bool, ◌||◌, if◌then◌else◌, ◌≡◌, refl, false, true, List, [], ◌∷◌, ◌++◌, some, none,
  All, ◌==◌, take, arith,
}
use ai_reverse_agent.Prelude.Int.{ℤ, pos, negsuc, ◌+ℤ◌}
use mathlib.Core.Path.{subst}
use ai_reverse_agent.Result.{ok}
use ai_reverse_agent.Text.{codes}
use ai_reverse_agent.Bytes.{Bytes, IsBytes}
use ai_reverse_agent.Architecture.{canonical, x64, order, little}
use ai_reverse_agent.Decompiler.{FunctionBoundary, find_function_boundaries}
use ai_reverse_agent.Decompiler.Boundaries.{bodies, IsFunction, EndInReturn}
use ai_reverse_agent.Instruction.{NormalizedInstruction}
use ai_reverse_agent.Disassembler.{
  DisassembledInstruction, DisassemblyResult, Engine, Options, disassemble, by_name,
}
use ai_reverse_agent.Disassembler.Coverage.{IsLinear, IsCapstone}
use ai_reverse_agent.Disassembler.Listing.{format_disassembly}
use ai_reverse_agent.Disassembler.Stream.{disassembled_functions}

abbrev one_byte : ℤ → ℕ → DisassembledInstruction
one_byte a c = record {
  address = a;
  size = 1;
  encoding = c ∷ [];
  mnemonic = if c == 0x90 then codes "nop" else codes "ret";
  operands = [];
}

unfoldable decode : Bytes → ℤ → List DisassembledInstruction
unfolding ◌+ℤ◌
decode [] a = []
decode (c ∷ cs) a = elim (c == 0x90 || c == 0xC3) [
  | true ↦ one_byte a c ∷ decode cs (a +ℤ pos 1)
  | false ↦ []
]

-- A count of 0 is no limit.
abbrev engine : Engine
engine target b base count =
    let found = decode b base in some (elim count [ pos (suc n) ↦ take (suc n) found | _ ↦ found ])

decode-IsLinear : (b : Bytes) (a : ℤ) → IsLinear b a (decode b a)
unfolding decode
decode-IsLinear [] a = tt
decode-IsLinear (c ∷ cs) a = go (c == 0x90 || c == 0xC3) (decode-IsLinear cs (a +ℤ pos 1))
  where
    go :
        (known : Bool)
        → IsLinear cs (a +ℤ pos 1) (decode cs (a +ℤ pos 1))
        → IsLinear
            (c ∷ cs)
            a
            (elim known [ true ↦ one_byte a c ∷ decode cs (a +ℤ pos 1) | false ↦ [] ])
    go true l = (refl, refl, (cs, refl, l))
    go false l = tt

take-IsLinear :
    (n : ℕ) (b : Bytes) (a : ℤ) (is : List DisassembledInstruction)
    → IsLinear b a is
    → IsLinear b a (take n is)
take-IsLinear zero b a is h = tt
take-IsLinear (suc n) b a [] h = tt
take-IsLinear (suc n) b a (i ∷ is) (p, q, (rest, e, l)) =
    (p, q, (rest, e, take-IsLinear n rest (a +ℤ pos i.size) is l))

engine-IsCapstone : IsCapstone engine
engine-IsCapstone = record {
  linear = λ target b base count is h.
      subst (λ js. IsLinear b base js) (some_injective h) (go b base count);
}
  where
    go :
        (b : Bytes) (base count : ℤ)
        → IsLinear b base
            (elim count [ pos (suc n) ↦ take (suc n) (decode b base) | _ ↦ decode b base ])
    go b base (pos zero) = decode-IsLinear b base
    go b base (pos (suc n)) = take-IsLinear (suc n) b base _ (decode-IsLinear b base)
    go b base (negsuc n) = decode-IsLinear b base

    some_injective : {x y : List DisassembledInstruction} → some x ≡ some y → x ≡ y
    some_injective h = cc

abbrev code : Bytes
code = 0x90 ∷ 0xC3 ∷ 0x90 ∷ 0xC3 ∷ []

code-IsBytes : IsBytes code
code-IsBytes = ground arith

abbrev options : Options
options = record {
  bits = none;
  endianness = order little;
  base_address = pos 0x1000;
  thumb = false;
  max_instructions = some (pos 3);
  strict = true;
}

abbrev unlimited : Options
unlimited = record {
  bits = none;
  endianness = order little;
  base_address = pos 0x1000;
  thumb = false;
  max_instructions = none;
  strict = true;
}

abbrev result : DisassemblyResult
result = record {
  architecture = record { architecture = x64; bits = 64; endianness = little };
  base_address = pos 0x1000;
  input_size = 4;
  instructions =
      one_byte (pos 0x1000) 0x90 ∷ one_byte (pos 0x1001) 0xC3 ∷ one_byte (pos 0x1002) 0x90 ∷ [];
  decoded_size = pos 3;
  trailing_bytes = 0xC3 ∷ [];
  truncated = true;
}

abbrev broken : Bytes
broken = 0x90 ∷ 0xFF ∷ 0x90 ∷ []

-- The stream of the first two functions' bytes, as Capstone's integers name the target.
abbrev nop_at : ℕ → NormalizedInstruction
nop_at a = record { address = pos a; mnemonic = codes "nop"; op_str = []; bytes_hex = codes "90" }

abbrev ret_at : ℕ → NormalizedInstruction
ret_at a = record { address = pos a; mnemonic = codes "ret"; op_str = []; bytes_hex = codes "c3" }

abbrev found : List NormalizedInstruction
found = nop_at 0x1000 ∷ ret_at 0x1001 ∷ nop_at 0x1002 ∷ ret_at 0x1003 ∷ []

streamed : disassemble engine code (by_name (canonical x64)) unlimited ≡ ok found
unfolding disassemble decode
streamed = refl

disassembled_functions_example :
    (bs : List FunctionBoundary) × (find_function_boundaries found ≡ ok bs)
    × (bodies bs ≡ found)
    × All IsFunction bs
    × EndInReturn bs
disassembled_functions_example =
    disassembled_functions engine code (by_name (canonical x64)) unlimited found engine-IsCapstone
      code-IsBytes streamed

printed :
    format_disassembly result
    ≡ codes "; architecture: x64 (64-bit, little-endian)"
      ++ 10 ∷ codes "; base address: 0x0000000000001000"
      ++ 10 ∷ codes "0x0000000000001000: 90                       nop"
      ++ 10 ∷ codes "0x0000000000001001: c3                       ret"
      ++ 10 ∷ codes "0x0000000000001002: 90                       nop"
      ++ 10 ∷ codes "; instruction limit reached: 1 byte(s)"
      ++ 10 ∷ []
unfolding format_disassembly
printed = refl
