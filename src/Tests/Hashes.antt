-- ===== src/Tests/Hashes.antt =====
-- Import tables, their hashes and the database on concrete data.
use mathlib.Core.List.Perm
use ai_reverse_agent.Prelude.{
  ℕ, ◌≡◌, ◌≢◌, refl, true, false, List, [], ◌∷◌, ◌++◌, some, none, Option, All, map, length,
  replicate,
}
use ai_reverse_agent.Result.{ok, err}
use ai_reverse_agent.Text.{Text, codes}
use ai_reverse_agent.Bytes.{Bytes, to_little}
use ai_reverse_agent.Imports.{
  ImportedSymbol, ImportLike, imported, plain, pair, struct_error, unsupported_magic,
  bad_section_dimensions, lowered,
}
use ai_reverse_agent.Architecture.{ArchitectureSpec, mips, big}
use ai_reverse_agent.Architecture.Validity.{IsValidSpec}
use ai_reverse_agent.Elf.{elf_header}
use ai_reverse_agent.Scan.{extract_code, elf, pe}
use ai_reverse_agent.Loader.{Extractor, BinaryImage, image, magic_error, load_default}
use ai_reverse_agent.Loader.Images.{IsImage, load_default-IsImage}
use ai_reverse_agent.Scan.Extraction.{extract_code-elf_header}
use ai_reverse_agent.Imports.Hash.{compute_import_set_hash, compute_pe_imphash}
use ai_reverse_agent.Imports.Hash.Order.{compute_import_set_hash-perm}
use ai_reverse_agent.Imports.Pe.{parse_pe_imports}
use ai_reverse_agent.Imports.Pe.Names.{IsImport, parse_pe_imports-IsImport}
use ai_reverse_agent.Imports.Elf.{parse_elf_imports}
use ai_reverse_agent.Imports.Elf.Safety.{parse_elf_imports_safe}
use ai_reverse_agent.Imports.Database.{
  Sample, Defaults, MalwareImphashMatch, make_database, lookup, trusted, Finding, finding_of,
  imphash_finding,
}
use ai_reverse_agent.Imports.Database.Reports.{ComesFrom, imphash_finding-ComesFrom}
use ai_reverse_agent.Imports.Database.Lookup.{Meaning, nothing_known, meaning, lookup-make_database}

abbrev symbol : Text → Text → Option ℕ → Option ℕ → ImportedSymbol
symbol library name hint address = record {
  library = library;
  name = name;
  hint = hint;
  address = address;
  ordinal = none;
  delayed = false;
}

abbrev some_imports : List ImportLike
some_imports =
    imported (symbol (codes "KERNEL32.dll") (codes "ExitProcess") none none)
    ∷ plain (codes " user32.dll.MessageBoxA ")
    ∷ pair (codes "a.dll") (codes "f")
    ∷ []

abbrev swapped : List ImportLike
swapped =
    plain (codes " user32.dll.MessageBoxA ")
    ∷ imported (symbol (codes "KERNEL32.dll") (codes "ExitProcess") none none)
    ∷ pair (codes "a.dll") (codes "f")
    ∷ []

-- In place of MD5: the text itself.
abbrev same : Text → Text
same t = t

abbrev sorted_names : Text
sorted_names = codes "a.dll.f,kernel32.dll.exitprocess,user32.dll.messageboxa"

hashed : compute_import_set_hash same some_imports ≡ ok sorted_names
unfolding compute_import_set_hash
hashed = refl

pe_hashed :
    compute_pe_imphash same some_imports ≡ ok (codes "kernel32.exitprocess,user32.messageboxa,a.f")
unfolding compute_pe_imphash
pe_hashed = refl

compute_import_set_hash-perm_example : compute_import_set_hash same swapped ≡ ok sorted_names
compute_import_set_hash-perm_example =
    compute_import_set_hash-perm same some_imports swapped sorted_names
      (Perm.swap _ _ (pair (codes "a.dll") (codes "f") ∷ [])) hashed

-- A PE file without sections, with its import table behind the data directories.
abbrev pe_file : Bytes
unfolding to_little
pe_file =
    b'M' ∷ b'Z' ∷ replicate 58 0
    ++ to_little 4 0x40
    ++ (b'P' ∷ b'E' ∷ 0 ∷ 0 ∷ [])
    ++ replicate 16 0
    ++ to_little 2 0xB8
    ++ to_little 2 0
    ++ to_little 2 0x10B
    ++ replicate 102 0
    ++ to_little 4 0xC8
    ++ to_little 4 40
    ++ to_little 4 0xF0
    ++ replicate 8 0
    ++ to_little 4 0x108
    ++ to_little 4 0xF0
    ++ replicate 20 0
    ++ to_little 4 0x100
    ++ to_little 4 0x80000007
    ++ replicate 8 0
    ++ to_little 2 5
    ++ codes "exit"
    ++ replicate 2 0
    ++ codes "c.dll"
    ++ replicate 3 0

abbrev pe_symbols : List ImportedSymbol
pe_symbols =
    symbol (codes "c.dll") (codes "exit") (some 5) (some 0xF0)
    ∷ symbol (codes "c.dll") (codes "ordinal_7") none (some 0xF4)
    ∷ []

parsed : parse_pe_imports pe_file ≡ ok pe_symbols
unfolding pe_file parse_pe_imports
parsed = refl

parse_pe_imports-IsImport_example : All IsImport pe_symbols
parse_pe_imports-IsImport_example = parse_pe_imports-IsImport pe_file pe_symbols parsed

-- A header without sections.
abbrev elf_file : Bytes
elf_file = 0x7f ∷ b'E' ∷ b'L' ∷ b'F' ∷ 1 ∷ 1 ∷ replicate 50 0

refused : parse_elf_imports elf_file ≡ err bad_section_dimensions
unfolding parse_elf_imports
refused = refl

parse_elf_imports_safe_example : parse_elf_imports elf_file ≢ err struct_error
parse_elf_imports_safe_example = parse_elf_imports_safe elf_file

abbrev digest : Text
digest = codes "0123456789abcdef0123456789abcdef"

abbrev samples : List Sample
samples =
    ((codes "digest", digest) ∷ (codes "family", codes "old") ∷ [])
    ∷ ((codes "imphash", codes " 0123456789ABCDEF0123456789ABCDEF ")
        ∷ (codes "family", codes "new")
        ∷ (codes "provenance", codes "Curated")
        ∷ (codes "note", codes "x")
        ∷ [])
    ∷ []

abbrev defaults : Defaults
defaults = record {
  algorithm = codes "pe-imphash-v1";
  version = codes "1";
  provenance = codes "unknown";
}

abbrev newer : MalwareImphashMatch
newer = record {
  digest = digest;
  algorithm = codes "pe-imphash-v1";
  family = codes "new";
  sample_id = digest;
  database_version = codes "1";
  provenance = codes "curated";
  metadata = (codes "note", codes "x") ∷ [];
}

database : make_database defaults samples ≡ ok (newer ∷ [])
unfolding make_database
database = refl

lookup-make_database_example :
    (known : Meaning) × (meaning defaults samples nothing_known ≡ ok known)
    × ((imphash algorithm : Text)
        → lookup (newer ∷ []) imphash algorithm ≡ known (lowered algorithm, lowered imphash))
lookup-make_database_example = lookup-make_database defaults samples (newer ∷ []) database

abbrev found : Finding
unfolding finding_of
found = finding_of digest none 2 newer

reported : imphash_finding (λ t. digest) (newer ∷ []) pe_symbols none none ≡ ok (some found)
unfolding found imphash_finding
reported = refl

imphash_finding-ComesFrom_example :
    (d : Text) × (compute_pe_imphash (λ t. digest) (map imported pe_symbols) ≡ ok d)
    × ((m : MalwareImphashMatch) × ComesFrom defaults samples m
        × (m.digest ≡ lowered d)
        × (m.algorithm ≡ lowered (codes "pe-imphash-v1"))
        × (trusted m ≡ true)
        × (found ≡ finding_of d none (length pe_symbols) m))
imphash_finding-ComesFrom_example =
    imphash_finding-ComesFrom (λ t. digest) defaults samples (newer ∷ []) pe_symbols none found
      database reported

abbrev mips_spec : ArchitectureSpec
mips_spec = record { architecture = mips; bits = 32; endianness = big }

mips_spec-IsValidSpec : IsValidSpec mips_spec
unfolding ai_reverse_agent.Architecture.bits_are_valid ai_reverse_agent.Architecture.is_little_only
mips_spec-IsValidSpec = record { width = refl; byte_order = refl }

extract_code-elf_header_example :
    extract_code (elf_header mips_spec ++ (8 ∷ 0 ∷ [])) ≡ ((8 ∷ 0 ∷ [], 0x1000), elf)
extract_code-elf_header_example =
    extract_code-elf_header mips_spec (8 ∷ 0 ∷ []) mips_spec-IsValidSpec

-- A library that rejects every file: the loader falls back to the parsers of the repository.
abbrev rejects : Extractor
rejects b = err (magic_error unsupported_magic)

abbrev pe_image : BinaryImage
pe_image = image pe_file pe (codes "minimal") pe_symbols

fallen_back : load_default rejects rejects pe_file ≡ ok pe_image
unfolding pe_file load_default
fallen_back = refl

load_default-IsImage_example : IsImage pe_file pe_image
load_default-IsImage_example = load_default-IsImage rejects rejects pe_file pe_image fallen_back
