-- ===== src/Elf.antt =====
-- src/ai_reverse_agent/fake_bin.py, fake_elf.py and `detect_elf_architecture` of architecture.py:
-- ELF fixtures, and the architecture that is read back from their header.
pub mod Roundtrip
use ai_reverse_agent.Prelude.{
  ℕ, ◌+◌, ◌≡◌, Bool, true, false, not, ◌||◌, List, [], ◌∷◌, ◌++◌, Option, none, some, ltb, ◌==◌,
  if◌then◌else◌, length, get_or, replicate,
}
use ai_reverse_agent.Result.{Result, ok, err, ◌>>=◌}
use ai_reverse_agent.Bytes.{Bytes, slice, starts_with, from_little, from_big, to_little, to_big}
use ai_reverse_agent.Architecture.{
  Architecture, x86, x64, arm, aarch64, mips, riscv, Endianness, little, big, ArchitectureError,
  not_an_elf, unsupported_elf_class, unsupported_elf_encoding, ArchitectureSpec, ArchitectureName,
  EndiannessName, order, resolve_architecture, architecture_from_elf_machine,
}

-- b"\x7fELF"
abbrev pub elf_magic : Bytes
elf_magic = 0x7f ∷ b'E' ∷ b'L' ∷ b'F' ∷ []

-- int.from_bytes(b, byteorder=byte_order)
unfoldable pub from_bytes : Endianness → Bytes → ℕ
unfolding from_little from_big
from_bytes little b = from_little b
from_bytes big b = from_big b

-- The `if` on data[5].
unfoldable pub elf_encoding : ℕ → Result ArchitectureError Endianness
elf_encoding n =
    if n == 1 then ok little else if n == 2 then ok big else err unsupported_elf_encoding

-- detect_elf_architecture
unfoldable pub detect_elf_architecture : Bytes → Result ArchitectureError ArchitectureSpec
unfolding slice elf_encoding from_bytes architecture_from_elf_machine starts_with
detect_elf_architecture b =
    if ltb (length b) 20 || not (starts_with b elf_magic)
    then err not_an_elf
    else let elf_class = get_or b 4 0 in
      if not (elf_class == 1 || elf_class == 2)
      then err unsupported_elf_class
      else let bits = if elf_class == 1 then 32 else 64 in
        do
          endianness ← elf_encoding (get_or b 5 0)
          architecture_from_elf_machine (from_bytes endianness (slice b 18 20)) bits
              (order endianness)

-- FAKE_BINARIES and make_fake_bin
unfoldable pub make_fake_bin : Architecture → Bytes
make_fake_bin x86 = 0x55 ∷ 0x89 ∷ 0xe5 ∷ 0xc3 ∷ []
make_fake_bin x64 = 0x55 ∷ 0x48 ∷ 0x89 ∷ 0xe5 ∷ 0xc3 ∷ []
make_fake_bin arm =
    0x00 ∷ 0x00 ∷ 0xa0 ∷ 0xe1 ∷ 0x01 ∷ 0x10 ∷ 0xa0 ∷ 0xe3 ∷ 0x1e ∷ 0xff ∷ 0x2f ∷ 0xe1 ∷ []
make_fake_bin aarch64 =
    0x1f ∷ 0x20 ∷ 0x03 ∷ 0xd5 ∷ 0x20 ∷ 0x00 ∷ 0x80 ∷ 0xd2 ∷ 0xc0 ∷ 0x03 ∷ 0x5f ∷ 0xd6 ∷ []
make_fake_bin mips =
    0x00 ∷ 0x00 ∷ 0x00 ∷ 0x00 ∷ 0x01 ∷ 0x00 ∷ 0x02 ∷ 0x24 ∷ 0x08 ∷ 0x00 ∷ 0xe0 ∷ 0x03 ∷ []
make_fake_bin riscv =
    0x13 ∷ 0x00 ∷ 0x00 ∷ 0x00 ∷ 0x13 ∷ 0x05 ∷ 0x10 ∷ 0x00 ∷ 0x67 ∷ 0x80 ∷ 0x00 ∷ 0x00 ∷ []

-- _ELF_MACHINES
unfoldable pub elf_machine : Architecture → ℕ
elf_machine x86 = 3
elf_machine mips = 8
elf_machine arm = 40
elf_machine x64 = 62
elf_machine aarch64 = 183
elf_machine riscv = 243

-- One integer field of struct.pack, of w bytes.
unfoldable pub pack_field : Endianness → ℕ → ℕ → Bytes
unfolding to_little to_big
pack_field little w n = to_little w n
pack_field big w n = to_big w n

unfoldable pub pack_fields : Endianness → List (ℕ × ℕ) → Bytes
unfolding pack_field
pack_fields e [] = []
pack_fields e ((w, n) ∷ fields) = pack_field e w n ++ pack_fields e fields

abbrev encoding_byte : Endianness → ℕ
encoding_byte little = 1
encoding_byte big = 2

-- The fields behind `ident` in the two formats: their widths and values.
abbrev fields_32 : ℕ → List (ℕ × ℕ)
fields_32 machine =
    (2, 2)
    ∷ (2, machine)
    ∷ (4, 1)
    ∷ (4, 0x1000)
    ∷ (4, 0)
    ∷ (4, 0)
    ∷ (4, 0)
    ∷ (2, 52)
    ∷ (2, 0)
    ∷ (2, 0)
    ∷ (2, 0)
    ∷ (2, 0)
    ∷ (2, 0)
    ∷ []

abbrev fields_64 : ℕ → List (ℕ × ℕ)
fields_64 machine =
    (2, 2)
    ∷ (2, machine)
    ∷ (4, 1)
    ∷ (8, 0x1000)
    ∷ (8, 0)
    ∷ (8, 0)
    ∷ (4, 0)
    ∷ (2, 64)
    ∷ (2, 0)
    ∷ (2, 0)
    ∷ (2, 0)
    ∷ (2, 0)
    ∷ (2, 0)
    ∷ []

-- _elf_header
unfoldable pub elf_header : ArchitectureSpec → Bytes
unfolding pack_fields elf_machine
elf_header spec =
    let elf_class : ℕ = if spec.bits == 32 then 1 else 2 in
    let ident =
      elf_magic ++ elf_class ∷ encoding_byte spec.endianness ∷ 1 ∷ 0 ∷ 0 ∷ replicate 7 0 in
    let machine = elf_machine spec.architecture in
    ident
    ++ pack_fields spec.endianness
        (if spec.bits == 32 then fields_32 machine else fields_64 machine)

-- make_fake_elf
unfoldable pub make_fake_elf : ArchitectureName → Result ArchitectureError Bytes
unfolding resolve_architecture elf_header make_fake_bin
make_fake_elf name = do
  spec ← resolve_architecture name none (order little)
  ok (elf_header spec ++ make_fake_bin spec.architecture)
