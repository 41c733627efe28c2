-- ===== src/Disassembler.antt =====
-- src/ai_reverse_agent/disassembler.py and the stream of disasm.py. Capstone is a parameter.
pub mod Coverage
pub mod Listing
pub mod Stream
use ai_reverse_agent.Prelude.{
  ℕ, ◌-◌, suc, Bool, true, false, not, ◌&&◌, List, [], ◌∷◌, map, Option, none, some, if◌then◌else◌,
  ◌==◌, length, drop, last_of,
}
use ai_reverse_agent.Prelude.Int.{ℤ, pos, negsuc, ◌+ℤ◌, ◌-ℤ◌, ltb_ℤ, eqb_ℤ}
use ai_reverse_agent.Result.{Result, ok, err, ◌>>=◌}
use ai_reverse_agent.Bytes.{Bytes, hex}
use ai_reverse_agent.Text.{Text}
use ai_reverse_agent.Architecture.{
  Architecture, x86, x64, arm, aarch64, mips, riscv, ArchitectureSpec, ArchitectureError,
  ArchitectureName, EndiannessName, is_big, resolve_architecture,
}
use ai_reverse_agent.Instruction.{NormalizedInstruction}

pub record DisassembledInstruction : Type 0 where
  pub address : ℤ
  pub size : ℕ
  pub encoding : Bytes
  pub mnemonic : Text
  pub operands : Text

pub record DisassemblyResult : Type 0 where
  pub architecture : ArchitectureSpec
  pub base_address : ℤ
  pub input_size : ℕ
  pub instructions : List DisassembledInstruction
  pub decoded_size : ℤ
  pub trailing_bytes : Bytes
  pub truncated : Bool

-- The constants that are imported from capstone; a mode is an `|` of some of them.
pub data CapstoneArch : Type 0 where
  cs_arch_x86 cs_arch_arm cs_arch_arm64 cs_arch_mips cs_arch_riscv : CapstoneArch

pub data CapstoneMode : Type 0 where
  cs_mode_32 cs_mode_64 cs_mode_arm cs_mode_thumb cs_mode_mips32 cs_mode_mips64 : CapstoneMode
  cs_mode_riscv32 cs_mode_riscv64 cs_mode_riscvc cs_mode_little_endian : CapstoneMode
  cs_mode_big_endian : CapstoneMode

-- The two arguments of `Cs`: chosen by _capstone_configuration, or the caller's own integers.
pub data CapstoneTarget : Type 0 where
  configured : CapstoneArch → List CapstoneMode → CapstoneTarget
  given : ℤ → ℤ → CapstoneTarget

-- `list(Cs(arch, mode).disasm(data, base, count))`, or none where it raises CsError.
abbrev pub Engine : Type 0
Engine = CapstoneTarget → Bytes → ℤ → ℤ → Option (List DisassembledInstruction)

pub data DisassemblyError : Type 0 where
  negative_base bad_max_instructions not_arm capstone_failed : DisassemblyError
  bad_architecture : ArchitectureError → DisassemblyError
  -- Capstone stopped at this address; so many bytes remain.
  undecoded : ℤ → ℕ → DisassemblyError
  -- of disasm.py
  mode_missing negative_address bad_count cs_error : DisassemblyError

abbrev pub is_arm : Architecture → Bool
is_arm arm = true
is_arm _ = false

abbrev endian_mode : ArchitectureSpec → CapstoneMode
endian_mode spec = if is_big spec.endianness then cs_mode_big_endian else cs_mode_little_endian

-- _capstone_configuration
unfoldable pub capstone_configuration : ArchitectureSpec → Bool → CapstoneTarget
capstone_configuration spec thumb = elim spec.architecture [
  | x86 ↦ configured cs_arch_x86 (cs_mode_32 ∷ [])
  | x64 ↦ configured cs_arch_x86 (cs_mode_64 ∷ [])
  | arm ↦
      configured cs_arch_arm
        ((if thumb then cs_mode_thumb else cs_mode_arm) ∷ endian_mode spec ∷ [])
  | aarch64 ↦ configured cs_arch_arm64 (cs_mode_arm ∷ endian_mode spec ∷ [])
  | mips ↦
      configured cs_arch_mips
        ((if spec.bits == 64 then cs_mode_mips64 else cs_mode_mips32) ∷ endian_mode spec ∷ [])
  | riscv ↦
      configured cs_arch_riscv
        ((if spec.bits == 64 then cs_mode_riscv64 else cs_mode_riscv32) ∷ cs_mode_riscvc ∷ [])
]

-- limit is not None and limit < 1
unfoldable pub is_below_one : Option ℤ → Bool
unfolding ltb_ℤ
is_below_one none = false
is_below_one (some n) = ltb_ℤ n (pos 1)

-- 0 if limit is None else limit
abbrev pub count_of : Option ℤ → ℤ
count_of none = pos 0
count_of (some n) = n

-- limit is not None and n == limit
unfoldable pub is_limit : ℕ → Option ℤ → Bool
unfolding eqb_ℤ
is_limit n none = false
is_limit n (some m) = eqb_ℤ (pos n) m

-- The end of the last instruction, measured from the base.
unfoldable pub decoded_size_of : ℤ → List DisassembledInstruction → ℤ
unfolding last_of ◌+ℤ◌ ◌-ℤ◌
decoded_size_of base [] = pos 0
decoded_size_of base (i ∷ is) = (last_of i is).address +ℤ pos (last_of i is).size -ℤ base

-- data[k:]
unfoldable pub slice_from : Bytes → ℤ → Bytes
slice_from b (pos n) = drop n b
slice_from b (negsuc n) = drop (length b - suc n) b

abbrev pub is_empty : Bytes → Bool
is_empty [] = true
is_empty (b ∷ bs) = false

abbrev pub resolved :
    Result ArchitectureError ArchitectureSpec → Result DisassemblyError ArchitectureSpec
resolved (ok spec) = ok spec
resolved (err e) = err (bad_architecture e)

abbrev pub decoded :
    DisassemblyError
    → Option (List DisassembledInstruction)
    → Result DisassemblyError (List DisassembledInstruction)
decoded e none = err e
decoded e (some is) = ok is

-- What follows the try block of disassemble_bytes.
unfoldable pub finish :
    Bytes
    → ℤ
    → Option ℤ
    → Bool
    → ArchitectureSpec
    → List DisassembledInstruction
    → Result DisassemblyError DisassemblyResult
unfolding decoded_size_of slice_from is_limit ◌+ℤ◌
finish b base limit strict spec is =
    let size = decoded_size_of base is in
    let trailing = slice_from b size in
    let truncated = is_limit (length is) limit && not (is_empty trailing) in
    if strict && not (is_empty trailing) && not truncated
    then err (undecoded (base +ℤ size) (length trailing))
    else ok (record {
      architecture = spec;
      base_address = base;
      input_size = length b;
      instructions = is;
      decoded_size = size;
      trailing_bytes = trailing;
      truncated = truncated;
    })

-- The keyword arguments of disassemble_bytes.
pub record Options : Type 0 where
  pub bits : Option ℕ
  pub endianness : EndiannessName
  pub base_address : ℤ
  pub thumb : Bool
  pub max_instructions : Option ℤ
  pub strict : Bool

module _ (engine : Engine) where
  unfoldable pub disassemble_bytes :
      Bytes → ArchitectureName → Options → Result DisassemblyError DisassemblyResult
  unfolding ltb_ℤ is_below_one resolve_architecture capstone_configuration finish
  disassemble_bytes b name o =
      if ltb_ℤ o.base_address (pos 0)
      then err negative_base
      else if is_below_one o.max_instructions
      then err bad_max_instructions
      else resolved (resolve_architecture name o.bits o.endianness) >>= λ spec.
          if o.thumb && not (is_arm spec.architecture)
          then err not_arm
          else decoded capstone_failed (
              engine (capstone_configuration spec o.thumb) b o.base_address
                (count_of o.max_instructions))
            >>= finish b o.base_address o.max_instructions o.strict spec

  unfoldable pub disassemble_capstone :
      Bytes → ℤ → ℤ → ℤ → Option ℤ → Result DisassemblyError (List DisassembledInstruction)
  unfolding ltb_ℤ is_below_one
  disassemble_capstone b arch mode address count =
      if ltb_ℤ address (pos 0)
      then err negative_address
      else if is_below_one count
      then err bad_count
      else decoded cs_error (engine (given arch mode) b address (count_of count))

unfoldable pub normalized : DisassembledInstruction → NormalizedInstruction
unfolding hex
normalized i = record {
  address = i.address;
  mnemonic = i.mnemonic;
  op_str = i.operands;
  bytes_hex = hex i.encoding;
}

-- disassemble_bytes is called without `strict`.
abbrev pub not_strict : Options → Options
not_strict o = record {
  bits = o.bits;
  endianness = o.endianness;
  base_address = o.base_address;
  thumb = o.thumb;
  max_instructions = o.max_instructions;
  strict = false;
}

-- arch: a name, or a Capstone integer with its mode
pub data StreamTarget : Type 0 where
  by_name : ArchitectureName → StreamTarget
  by_number : ℤ → Option ℤ → StreamTarget

-- The stream that `disassemble` of disasm.py yields; an exception shows when it is consumed.
module _ (engine : Engine) where
  unfoldable pub disassemble :
      Bytes → StreamTarget → Options → Result DisassemblyError (List NormalizedInstruction)
  unfolding disassemble_bytes disassemble_capstone normalized
  disassemble b (by_name name) o = do
    r ← disassemble_bytes engine b name (not_strict o)
    ok (map normalized r.instructions)
  disassemble b (by_number arch none) o = err mode_missing
  disassemble b (by_number arch (some mode)) o = do
    is ← disassemble_capstone engine b arch mode o.base_address o.max_instructions
    ok (map normalized is)
