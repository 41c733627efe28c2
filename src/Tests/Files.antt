-- ===== src/Tests/Files.antt =====
-- A MIPS header, the architecture of a name, and RC4.
use ai_reverse_agent.Prelude.{
  All, Member, ◌≡◌, refl, List, [], ◌∷◌, ◌++◌, none, some, arith, length,
}
use ai_reverse_agent.Result.{ok}
use ai_reverse_agent.Text.{codes}
use ai_reverse_agent.Bytes.{Bytes}
use ai_reverse_agent.Architecture.{
  x86, Architecture, aarch64, mips, big, little, ArchitectureError, ArchitectureSpec, Target, named,
  order, order_named, resolve_name, resolve_endianness, resolve_architecture,
  architecture_from_pe_machine, bits_or_default, lookup_number, pe_machine_specs,
  unsupported_pe_machine,
}
use ai_reverse_agent.Architecture.Names.{resolve_architecture_defaults}
use ai_reverse_agent.Architecture.Validity.{
  IsValidSpec, architecture_from_pe_machine_lem, pe_outcome,
}
use ai_reverse_agent.Elf.{detect_elf_architecture, elf_header, make_fake_elf, make_fake_bin}
use ai_reverse_agent.Elf.Roundtrip.{detect-elf_header}
use ai_reverse_agent.Prelude.Sorts.{IsSorted}
use ai_reverse_agent.Crypto.{CryptoDetection, key_leb, identify_crypto}
use ai_reverse_agent.Crypto.Patterns.{pack_words, sha1_initial_state, known_patterns}
use ai_reverse_agent.Crypto.Scan.{IsKnown, identify_crypto_lem}
use ai_reverse_agent.Rc4.{rc4_crypt, find_rc4_strings, DecodedRc4String}
use ai_reverse_agent.Rc4.Cipher.{rc4_crypt_twice}
use ai_reverse_agent.Rc4.Records.{IsReported, find_rc4_strings_returns}

abbrev mips_big : ArchitectureSpec
mips_big = record { architecture = mips; bits = 32; endianness = big }

mips_big_valid : IsValidSpec mips_big
unfolding ai_reverse_agent.Architecture.bits_are_valid ai_reverse_agent.Architecture.is_little_only
mips_big_valid = record { width = refl; byte_order = refl }

detect-elf_header_example :
    detect_elf_architecture (elf_header mips_big ++ (8 ∷ 0 ∷ [])) ≡ ok mips_big
detect-elf_header_example = detect-elf_header mips_big (8 ∷ 0 ∷ []) mips_big_valid

abbrev arm_file : Bytes
unfolding elf_header make_fake_bin
arm_file =
    elf_header (record { architecture = aarch64; bits = 64; endianness = little })
    ++ make_fake_bin aarch64

arm_file_made : make_fake_elf (named (codes "ARM-64")) ≡ ok arm_file
unfolding make_fake_elf
arm_file_made = refl

mips_resolved :
    resolve_architecture (named (codes " MIPS ")) none (order_named (codes "Big")) ≡ ok mips_big
unfolding resolve_architecture
mips_resolved = refl

ia32_known : resolve_name (named (codes "IA-32")) ≡ ok (x86, 32)
unfolding resolve_name ai_reverse_agent.Text.text_eq
ia32_known = refl

resolve_architecture_defaults_example :
    resolve_architecture (named (codes "IA-32")) none (order little)
    ≡ ok (record { architecture = x86; bits = 32; endianness = little })
resolve_architecture_defaults_example =
    resolve_architecture_defaults (named (codes "IA-32")) (x86, 32) ia32_known

architecture_from_pe_machine_lem_example :
    architecture_from_pe_machine 0xAA64 ≡ pe_outcome (lookup_number 0xAA64 pe_machine_specs)
architecture_from_pe_machine_lem_example = architecture_from_pe_machine_lem 0xAA64

-- The cipher over the key "Key".
rc4_crypt_twice_example :
    (out : Bytes) × (rc4_crypt (codes "Plaintext") (codes "Key") ≡ ok out)
    × (length out ≡ length (codes "Plaintext"))
    × (rc4_crypt out (codes "Key") ≡ ok (codes "Plaintext"))
rc4_crypt_twice_example = rc4_crypt_twice (codes "Plaintext") (codes "Key") (omega arith)

find_rc4_strings_returns_example :
    (out : List DecodedRc4String) × (find_rc4_strings (codes "RC4STR" ++ 1 ∷ 1 ∷ 1 ∷ 0 ∷ 7 ∷ 7 ∷ [])
      ≡ some (ok out))
    × All IsReported out
find_rc4_strings_returns_example =
    find_rc4_strings_returns (codes "RC4STR" ++ 1 ∷ 1 ∷ 1 ∷ 0 ∷ 7 ∷ 7 ∷ [])

-- A byte, and then the state of SHA-1 in big-endian order.
identify_crypto_lem_example :
    (out : List CryptoDetection) × (identify_crypto (0 ∷ pack_words sha1_initial_state big)
      ≡ some out)
    × ((d : CryptoDetection)
        → Member d out
        → IsKnown known_patterns (0 ∷ pack_words sha1_initial_state big) d)
    × ((d : CryptoDetection)
        → IsKnown known_patterns (0 ∷ pack_words sha1_initial_state big) d
        → Member d out)
    × IsSorted key_leb out
identify_crypto_lem_example = identify_crypto_lem (0 ∷ pack_words sha1_initial_state big)
