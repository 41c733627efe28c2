-- ===== src/Elf/Roundtrip.antt =====
-- `_elf_header` of fake_elf.py against `detect_elf_architecture` of architecture.py.
use ai_reverse_agent.Prelude.{ℕ, ◌≡◌, sym, ◌⊎◌, inl, inr, true, ◌++◌, none, arith}
use mathlib.Core.Path.{subst}
use ai_reverse_agent.Result.{ok, bind_inversion}
use ai_reverse_agent.Bytes.{Bytes}
use ai_reverse_agent.Architecture.{
  Architecture, x86, Endianness, little, big, ArchitectureSpec, ArchitectureName, order,
  bits_are_valid, resolve_architecture,
}
use ai_reverse_agent.Architecture.Validity.{IsValidSpec, resolve_architecture-IsValidSpec}
use ai_reverse_agent.Elf.{detect_elf_architecture, elf_header, make_fake_bin, make_fake_elf}

abbrev pub spec_of : Architecture → ℕ → Endianness → ArchitectureSpec
spec_of a bits e = record { architecture = a; bits = bits; endianness = e }

-- The widths are 32 and 64.
pub two_widths :
    (a : Architecture) (bits : ℕ) → bits_are_valid a bits ≡ true → (bits ≡ 32) ⊎ (bits ≡ 64)
unfolding bits_are_valid
two_widths x86 bits h = ground arith
two_widths _ bits h = ground arith

detect_32 :
    (a : Architecture) (e : Endianness) (code : Bytes)
    → IsValidSpec (spec_of a 32 e)
    → detect_elf_architecture (elf_header (spec_of a 32 e) ++ code) ≡ ok (spec_of a 32 e)
unfolding detect_elf_architecture elf_header
detect_32 x86 little code v = ground arith
detect_32 x86 big code v = ground arith
detect_32 _ little code v = ground arith
detect_32 _ big code v = ground arith

detect_64 :
    (a : Architecture) (e : Endianness) (code : Bytes)
    → IsValidSpec (spec_of a 64 e)
    → detect_elf_architecture (elf_header (spec_of a 64 e) ++ code) ≡ ok (spec_of a 64 e)
unfolding detect_elf_architecture elf_header
detect_64 x86 little code v = ground arith
detect_64 x86 big code v = ground arith
detect_64 _ little code v = ground arith
detect_64 _ big code v = ground arith

abbrev IsDetected : Architecture → Endianness → Bytes → ℕ → Type 0
IsDetected a e code bits =
    detect_elf_architecture (elf_header (spec_of a bits e) ++ code) ≡ ok (spec_of a bits e)

detect_width :
    (a : Architecture) (bits : ℕ) (e : Endianness) (code : Bytes)
    → (bits ≡ 32) ⊎ (bits ≡ 64)
    → IsValidSpec (spec_of a bits e)
    → IsDetected a e code bits
detect_width a bits e code (inl p) v =
    subst (IsDetected a e code) (sym p)
      (detect_32 a e code (subst (λ b. IsValidSpec (spec_of a b e)) p v))
detect_width a bits e code (inr p) v =
    subst (IsDetected a e code) (sym p)
      (detect_64 a e code (subst (λ b. IsValidSpec (spec_of a b e)) p v))

-- Of every valid spec, whatever code follows, the header that the fixture writes is detected as
-- that spec: architecture, width and byte order.
pub detect-elf_header :
    (s : ArchitectureSpec) (code : Bytes)
    → IsValidSpec s
    → detect_elf_architecture (elf_header s ++ code) ≡ ok s
detect-elf_header s code v =
    detect_width s.architecture s.bits s.endianness code (two_widths s.architecture s.bits v.width)
      v

-- A fixture that is made for a name is detected as what the name resolves to.
pub detect-make_fake_elf :
    (name : ArchitectureName) (file : Bytes)
    → make_fake_elf name ≡ ok file
    → (s : ArchitectureSpec) × (resolve_architecture name none (order little) ≡ ok s)
      × (detect_elf_architecture file ≡ ok s)
unfolding make_fake_elf
detect-make_fake_elf name file h =
    let (s, p, q) = bind_inversion (resolve_architecture name none (order little)) _ h in
    let (v, rest, same) = resolve_architecture-IsValidSpec name none (order little) s p in
    let whole : elf_header s ++ make_fake_bin s.architecture ≡ file = ground (arith, q) in
    (s, p, rw (← whole) (detect-elf_header s (make_fake_bin s.architecture) v))
