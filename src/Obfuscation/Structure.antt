-- ===== src/Obfuscation/Structure.antt =====
-- src/ai_reverse_agent/deobfuscation/string_rc4.py, detect_rc4_structure: the signals of RC4 loops
-- in the first 4096 instructions.
use ai_reverse_agent.Prelude.{
  Bool, false, ◌&&◌, ◌||◌, List, [], ◌∷◌, ◌++◌, map, if◌then◌else◌, length, take, ◌==◌,
}
use ai_reverse_agent.Text.{Text, codes, one_of}
use ai_reverse_agent.Instruction.{NormalizedInstruction}
use ai_reverse_agent.Obfuscation.{Parts, instruction_parts, contains_text}

unfoldable pub any_part : (Parts → Bool) → List Parts → Bool
any_part test [] = false
any_part test (p ∷ ps) = test p || any_part test ps

unfoldable pub is_256_bound : Parts → Bool
unfolding one_of contains_text
is_256_bound p =
    one_of p.mnemonic (codes "cmp" ∷ codes "slti" ∷ codes "sub" ∷ [])
    && (contains_text (codes "0x100") p.operands || contains_text (codes "256") p.operands)

unfoldable pub is_swap : Parts → Bool
unfolding one_of
is_swap p = one_of p.mnemonic (codes "xchg" ∷ codes "swap" ∷ codes "strb" ∷ codes "sb" ∷ [])

unfoldable pub is_xor : Parts → Bool
unfolding one_of
is_xor p = one_of p.mnemonic (codes "xor" ∷ codes "eor" ∷ codes "xori" ∷ [])

-- if found: signals.append(signal)
abbrev signal_if : Bool → Text → List Text
signal_if found signal = if found then signal ∷ [] else []

-- detect_rc4_structure
unfoldable pub detect_rc4_structure : List NormalizedInstruction → List Text
unfolding any_part is_256_bound is_swap is_xor instruction_parts
detect_rc4_structure is =
    let normalized = map instruction_parts (take 4096 is) in
    let signals =
      signal_if (any_part is_256_bound normalized) (codes "256-byte state loop")
      ++ (signal_if (any_part is_swap normalized) (codes "state-byte swap")
          ++ signal_if (any_part is_xor normalized) (codes "keystream xor")) in
    if length signals == 3 then signals else []
