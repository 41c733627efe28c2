-- ===== src/Disassembler/Listing.antt =====
-- `format_disassembly` of src/ai_reverse_agent/disassembler.py.
use ai_reverse_agent.Prelude.{ℕ, ◌/◌, ◌%◌, List, [], ◌∷◌, ◌++◌, length, if◌then◌else◌}
use ai_reverse_agent.Prelude.Int.{pos}
use Prim.Native.Nat.{max}
use ai_reverse_agent.Text.{join_lines, Text, codes, drop_end, is_space}
use ai_reverse_agent.Text.Numbers.{pad_right, padded, decimal}
use ai_reverse_agent.Bytes.{Bytes, hex_digit}
use ai_reverse_agent.Architecture.{
  Architecture, x86, x64, arm, aarch64, mips, riscv, Endianness, little, big, ArchitectureSpec,
}
use ai_reverse_agent.Disassembler.{DisassembledInstruction, DisassemblyResult, is_empty}

-- Architecture.value
abbrev pub architecture_value : Architecture → Text
architecture_value x86 = codes "x86"
architecture_value x64 = codes "x64"
architecture_value arm = codes "arm"
architecture_value aarch64 = codes "aarch64"
architecture_value mips = codes "mips"
architecture_value riscv = codes "riscv"

abbrev pub endianness_value : Endianness → Text
endianness_value little = codes "little"
endianness_value big = codes "big"

-- ArchitectureSpec.label
unfoldable pub label : ArchitectureSpec → Text
unfolding padded
label spec =
    architecture_value spec.architecture
    ++ codes " ("
    ++ decimal (pos spec.bits)
    ++ codes "-bit, "
    ++ endianness_value spec.endianness
    ++ codes "-endian)"

-- bytes.hex(" ")
unfoldable pub spaced_hex : Bytes → Text
spaced_hex [] = []
spaced_hex (b ∷ []) = hex_digit (b / 16) ∷ hex_digit (b % 16) ∷ []
spaced_hex (b ∷ c ∷ bs) = hex_digit (b / 16) ∷ hex_digit (b % 16) ∷ b' ' ∷ spaced_hex (c ∷ bs)

-- DisassembledInstruction.text
unfoldable pub text : DisassembledInstruction → Text
unfolding drop_end is_space
text i = drop_end is_space (i.mnemonic ++ codes " " ++ i.operands)

abbrev pub address_width : DisassemblyResult → ℕ
address_width r = max 8 (r.architecture.bits / 4)

unfoldable pub instruction_line : ℕ → DisassembledInstruction → Text
unfolding padded pad_right spaced_hex text
instruction_line width i =
    codes "0x"
    ++ padded 16 width i.address
    ++ codes ": "
    ++ pad_right 24 (spaced_hex i.encoding)
    ++ codes " "
    ++ text i

unfoldable pub instruction_lines : ℕ → List DisassembledInstruction → List Text
unfolding instruction_line
instruction_lines width [] = []
instruction_lines width (i ∷ is) = instruction_line width i ∷ instruction_lines width is

abbrev trailing_lines : DisassemblyResult → List Text
trailing_lines r =
    if is_empty r.trailing_bytes
    then []
    else (codes "; "
        ++ (if r.truncated then codes "instruction limit reached" else codes "undecoded bytes")
        ++ codes ": "
        ++ decimal (pos (length r.trailing_bytes))
        ++ codes " byte(s)")
      ∷ []

unfoldable pub format_disassembly : DisassemblyResult → Text
unfolding label padded instruction_lines join_lines
format_disassembly r =
    let lines =
      (codes "; architecture: " ++ label r.architecture)
        ∷ (codes "; base address: 0x" ++ padded 16 (address_width r) r.base_address)
        ∷ instruction_lines (address_width r) r.instructions
      ++ trailing_lines r in
    join_lines lines ++ 10 ∷ []
