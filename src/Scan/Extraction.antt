-- ===== src/Scan/Extraction.antt =====
-- The code that scan.py takes out of a file.
use ai_reverse_agent.Prelude.{ℕ, ◌≡◌, sym, ◌⊎◌, inl, inr, ◌++◌, arith}
use mathlib.Core.Path.{subst}
use ai_reverse_agent.Bytes.{Bytes}
use ai_reverse_agent.Architecture.{Architecture, x86, Endianness, little, big, ArchitectureSpec}
use ai_reverse_agent.Architecture.Validity.{IsValidSpec}
use ai_reverse_agent.Elf.{elf_header}
use ai_reverse_agent.Elf.Roundtrip.{spec_of, two_widths}
use ai_reverse_agent.Scan.{elf, extract_code}

extract_32 :
    (a : Architecture) (e : Endianness) (code : Bytes)
    → IsValidSpec (spec_of a 32 e)
    → extract_code (elf_header (spec_of a 32 e) ++ code) ≡ ((code, 0x1000), elf)
unfolding extract_code elf_header
extract_32 x86 little code v = ground arith
extract_32 x86 big code v = ground arith
extract_32 _ little code v = ground arith
extract_32 _ big code v = ground arith

extract_64 :
    (a : Architecture) (e : Endianness) (code : Bytes)
    → IsValidSpec (spec_of a 64 e)
    → extract_code (elf_header (spec_of a 64 e) ++ code) ≡ ((code, 0x1000), elf)
unfolding extract_code elf_header
extract_64 x86 little code v = ground arith
extract_64 x86 big code v = ground arith
extract_64 _ little code v = ground arith
extract_64 _ big code v = ground arith

abbrev IsExtracted : Architecture → Endianness → Bytes → ℕ → Type 0
IsExtracted a e code bits =
    extract_code (elf_header (spec_of a bits e) ++ code) ≡ ((code, 0x1000), elf)

extract_width :
    (a : Architecture) (bits : ℕ) (e : Endianness) (code : Bytes)
    → (bits ≡ 32) ⊎ (bits ≡ 64)
    → IsValidSpec (spec_of a bits e)
    → IsExtracted a e code bits
extract_width a bits e code (inl p) v =
    subst (IsExtracted a e code) (sym p)
      (extract_32 a e code (subst (λ b. IsValidSpec (spec_of a b e)) p v))
extract_width a bits e code (inr p) v =
    subst (IsExtracted a e code) (sym p)
      (extract_64 a e code (subst (λ b. IsValidSpec (spec_of a b e)) p v))

-- Of every valid spec, the code that follows the header which the fixture writes is what is taken
-- out of the file, at the entry point of the header.
pub extract_code-elf_header :
    (s : ArchitectureSpec) (code : Bytes)
    → IsValidSpec s
    → extract_code (elf_header s ++ code) ≡ ((code, 0x1000), elf)
extract_code-elf_header s code v =
    extract_width s.architecture s.bits s.endianness code (two_widths s.architecture s.bits v.width)
      v
