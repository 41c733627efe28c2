-- ===== src/Architecture.antt =====
-- src/ai_reverse_agent/architecture.py: names, aliases, machine numbers and their validated specs.
pub mod Validity
pub mod Names
use ai_reverse_agent.Prelude.{
  ℕ, zero, suc, ◌+◌, ◌*◌, ◌<◌, ◌≡◌, Bool, true, false, not, ◌&&◌, ◌||◌, List, [], ◌∷◌, ◌++◌, Option,
  none, some, ltb, ◌==◌, if◌then◌else◌, length, get_or, take, drop,
}
use Prim.Native.String.{String}
use ai_reverse_agent.Result.{Result, ok, err, ◌>>=◌}
use ai_reverse_agent.Text.{Text, codes, text_eq, lower, strip, remove_char}

pub data Architecture : Type 0 where
  x86 x64 arm aarch64 mips riscv : Architecture

pub data Endianness : Type 0 where
  little big : Endianness

-- One constructor for each `raise ValueError`.
pub data ArchitectureError : Type 0 where
  unsupported_bits only_little_endian unsupported_architecture : ArchitectureError
  unsupported_endianness unsupported_pe_machine unsupported_elf_machine : ArchitectureError
  not_an_elf unsupported_elf_class unsupported_elf_encoding : ArchitectureError

pub record ArchitectureSpec : Type 0 where
  pub architecture : Architecture
  pub bits : ℕ
  pub endianness : Endianness

-- self.bits in valid_bits[self.architecture]
unfoldable pub bits_are_valid : Architecture → ℕ → Bool
bits_are_valid x86 bits = bits == 32
bits_are_valid x64 bits = bits == 64
bits_are_valid arm bits = bits == 32
bits_are_valid aarch64 bits = bits == 64
bits_are_valid mips bits = bits == 32 || bits == 64
bits_are_valid riscv bits = bits == 32 || bits == 64

abbrev pub is_big : Endianness → Bool
is_big little = false
is_big big = true

unfoldable pub is_little_only : Architecture → Bool
is_little_only x86 = true
is_little_only x64 = true
is_little_only riscv = true
is_little_only arm = false
is_little_only aarch64 = false
is_little_only mips = false

-- ArchitectureSpec(...), with __post_init__
unfoldable pub make_spec : Architecture → ℕ → Endianness → Result ArchitectureError ArchitectureSpec
unfolding bits_are_valid is_little_only
make_spec a bits e =
    if not (bits_are_valid a bits)
    then err unsupported_bits
    else if is_big e && is_little_only a
    then err only_little_endian
    else ok (record { architecture = a; bits = bits; endianness = e })

-- The first entry of a table under this key.
unfoldable pub lookup_text {ℓ} : {V : Type ℓ} → Text → List (Text × V) → Option V
lookup_text k [] = none
lookup_text k ((j, v) ∷ rest) = if text_eq j k then some v else lookup_text k rest

unfoldable pub lookup_number {ℓ} : {V : Type ℓ} → ℕ → List (ℕ × V) → Option V
lookup_number k [] = none
lookup_number k ((j, v) ∷ rest) = if j == k then some v else lookup_number k rest

-- An architecture and its bit width.
abbrev pub Target : Type 0
Target = Architecture × ℕ

abbrev alias : String → Architecture → ℕ → Text × Target
alias t a bits = (codes t, (a, bits))

abbrev machine_spec : ℕ → Architecture → ℕ → ℕ × Target
machine_spec machine a bits = (machine, (a, bits))

-- _ALIASES
abbrev pub aliases : List (Text × Target)
aliases =
    alias "x86" x86 32
    ∷ alias "i386" x86 32
    ∷ alias "i486" x86 32
    ∷ alias "i586" x86 32
    ∷ alias "i686" x86 32
    ∷ alias "ia32" x86 32
    ∷ alias "x64" x64 64
    ∷ alias "x8664" x64 64
    ∷ alias "amd64" x64 64
    ∷ alias "arm" arm 32
    ∷ alias "arm32" arm 32
    ∷ alias "aarch64" aarch64 64
    ∷ alias "arm64" aarch64 64
    ∷ alias "mips" mips 32
    ∷ alias "mips32" mips 32
    ∷ alias "mips64" mips 64
    ∷ alias "riscv" riscv 64
    ∷ alias "riscv32" riscv 32
    ∷ alias "riscv64" riscv 64
    ∷ []

-- _PE_MACHINE_SPECS
abbrev pub pe_machine_specs : List (ℕ × Target)
pe_machine_specs =
    machine_spec 0x014C x86 32
    ∷ machine_spec 0x8664 x64 64
    ∷ machine_spec 0x01C0 arm 32
    ∷ machine_spec 0x01C2 arm 32
    ∷ machine_spec 0x01C4 arm 32
    ∷ machine_spec 0xAA64 aarch64 64
    ∷ machine_spec 0x0162 mips 32
    ∷ machine_spec 0x0166 mips 32
    ∷ machine_spec 0x0168 mips 32
    ∷ machine_spec 0x0169 mips 32
    ∷ machine_spec 0x0266 mips 32
    ∷ machine_spec 0x0366 mips 32
    ∷ machine_spec 0x0466 mips 32
    ∷ machine_spec 0x5032 riscv 32
    ∷ machine_spec 0x5064 riscv 64
    ∷ []

-- _ELF_MACHINE_ARCHITECTURES
abbrev pub elf_machine_architectures : List (ℕ × Architecture)
elf_machine_architectures =
    (3, x86) ∷ (8, mips) ∷ (40, arm) ∷ (62, x64) ∷ (183, aarch64) ∷ (243, riscv) ∷ []

-- `default_bits` of a canonical architecture
unfoldable pub default_bits : Architecture → ℕ
default_bits x86 = 32
default_bits x64 = 64
default_bits arm = 32
default_bits aarch64 = 64
default_bits mips = 32
default_bits riscv = 64

-- Architecture | str
pub data ArchitectureName : Type 0 where
  canonical : Architecture → ArchitectureName
  named : Text → ArchitectureName

-- Endianness | str
pub data EndiannessName : Type 0 where
  order : Endianness → EndiannessName
  order_named : Text → EndiannessName

-- value.strip().lower().replace("-", "").replace("_", "").replace(" ", "")
unfoldable pub normalize_name : Text → Text
unfolding strip lower remove_char
normalize_name t = remove_char b' ' (remove_char b'_' (remove_char b'-' (lower (strip t))))

abbrev known_alias : Option Target → Result ArchitectureError Target
known_alias none = err unsupported_architecture
known_alias (some entry) = ok entry

unfoldable pub resolve_name : ArchitectureName → Result ArchitectureError Target
unfolding default_bits lookup_text normalize_name
resolve_name (canonical a) = ok (a, default_bits a)
resolve_name (named t) = known_alias (lookup_text (normalize_name t) aliases)

-- Endianness(endianness.strip().lower())
unfoldable pub resolve_endianness : EndiannessName → Result ArchitectureError Endianness
unfolding strip lower text_eq
resolve_endianness (order e) = ok e
resolve_endianness (order_named t) =
    if text_eq (lower (strip t)) (codes "little")
    then ok little
    else if text_eq (lower (strip t)) (codes "big")
    then ok big
    else err unsupported_endianness

abbrev pub bits_or_default : Option ℕ → ℕ → ℕ
bits_or_default none d = d
bits_or_default (some bits) d = bits

-- resolve_architecture
unfoldable pub resolve_architecture :
    ArchitectureName → Option ℕ → EndiannessName → Result ArchitectureError ArchitectureSpec
unfolding resolve_name resolve_endianness make_spec
resolve_architecture value bits endianness = do
  entry ← resolve_name value
  byte_order ← resolve_endianness endianness
  make_spec entry.0 (bits_or_default bits entry.1) byte_order

abbrev pub known_pe_machine : Option Target → Result ArchitectureError Target
known_pe_machine none = err unsupported_pe_machine
known_pe_machine (some entry) = ok entry

-- architecture_from_pe_machine
unfoldable pub architecture_from_pe_machine : ℕ → Result ArchitectureError ArchitectureSpec
unfolding lookup_number make_spec
architecture_from_pe_machine machine = do
  entry ← known_pe_machine (lookup_number machine pe_machine_specs)
  make_spec entry.0 entry.1 little

abbrev known_elf_machine : Option Architecture → Result ArchitectureError Architecture
known_elf_machine none = err unsupported_elf_machine
known_elf_machine (some a) = ok a

-- architecture_from_elf_machine
unfoldable pub architecture_from_elf_machine :
    ℕ → ℕ → EndiannessName → Result ArchitectureError ArchitectureSpec
unfolding lookup_number resolve_architecture
architecture_from_elf_machine machine bits endianness = do
  a ← known_elf_machine (lookup_number machine elf_machine_architectures)
  resolve_architecture (canonical a) (some bits) endianness
