-- ===== src/Pe.antt =====
-- src/ai_reverse_agent/parsers.py: the parser of PE images. Its stream is in Pe/Stream.
pub mod Stream
pub mod Imports
pub mod Fixture
pub mod Table
use ai_reverse_agent.Prelude.{
  ℕ, zero, suc, ◌+◌, ◌-◌, ◌%◌, Bool, true, false, not, ◌&&◌, ◌||◌, List, [], ◌∷◌, ◌++◌, map, Option,
  none, some, ltb, leb, ◌==◌, length, get_elem?, if◌then◌else◌,
}
use ai_reverse_agent.Prelude.Sorts.{sort_by}
use ai_reverse_agent.Result.{Result, ok, err}
use ai_reverse_agent.Text.{Text, codes, text_eq, drop_end}
use ai_reverse_agent.Bytes.{Bytes}
use ai_reverse_agent.Identifier.{
  Section, ImportEntry, FunctionEntry, CoffHeader, OptionalHeader, PeImage,
}
use ai_reverse_agent.Pe.Stream.{
  PeError, no_mz_signature, no_pe_signature, Reader, pure, fail, ◌>>=◌, read, seek, read_u8,
  read_u16, read_u32, ascii,
}
use ai_reverse_agent.Pe.Imports.{RawEntry, raw_of, read_imports}
use ai_reverse_agent.Pe.Table.{read_function_table}

unfoldable pub read_coff : Reader CoffHeader
unfolding read_u16 read_u32 read
read_coff = do
  machine ← read_u16
  num_sections ← read_u16
  timestamp ← read_u32
  symbols ← read 8
  size ← read 2
  characteristics ← read_u16
  pure (record {
    machine = machine;
    number_of_sections = num_sections;
    timestamp = timestamp;
    characteristics = characteristics;
  })

-- The 16 data directories.
unfoldable pub read_directories : ℕ → Reader (List (ℕ × ℕ))
unfolding read_u32
read_directories zero = pure []
read_directories (suc n) = do
  rva ← read_u32
  size ← read_u32
  rest ← read_directories n
  pure ((rva, size) ∷ rest)

-- The optional header up to its data directories.
unfoldable pub read_optional : Reader OptionalHeader
unfolding read_u16 read_u32 read
read_optional = do
  magic ← read_u16
  linker_minor ← read 1
  linker_major ← read 1
  code ← read 4
  initialized ← read 4
  uninitialized ← read 4
  entry_point ← read_u32
  base_of_code ← read 4
  base_of_data ← read 4
  image_base ← read_u32
  section_align ← read_u32
  file_align ← read_u32
  versions ← read 12
  win32_version ← read 4
  size_image ← read_u32
  size_of_headers ← read 4
  checksum ← read 4
  subsystem ← read 2
  dll_characteristics ← read 2
  stack_and_heap ← read 16
  loader_flags ← read 4
  num_rva_sizes ← read_u32
  pure (record {
    magic = magic;
    entry_point = entry_point;
    image_base = image_base;
    section_alignment = section_align;
    file_alignment = file_align;
    size_of_image = size_image;
    number_of_rva_and_sizes = num_rva_sizes;
  })

-- A section, and the offset of its bytes in the file.
unfoldable pub read_section : Reader (Section × ℕ)
unfolding read_u32 read ascii drop_end
read_section = do
  name ← read 8
  vsize ← read_u32
  vaddr ← read_u32
  rsize ← read_u32
  raddr ← read_u32
  relocations ← read 12
  chars ← read_u32
  pure (
    record {
      name = ascii (drop_end (λ c. c == 0) name);
      virtual_address = vaddr;
      virtual_size = vsize;
      raw_size = rsize;
      characteristics = chars;
    },
    raddr,
  )

unfoldable pub read_sections : ℕ → Reader (List (Section × ℕ))
unfolding read_section
read_sections zero = pure []
read_sections (suc n) = do s ← read_section; rest ← read_sections n; pure (s ∷ rest)

abbrev section_of : Section × ℕ → Section
section_of s = s.0

abbrev raw_entry : Section × ℕ → RawEntry
raw_entry s = (s.0.name, s.1)

-- data_directories[1][0]
abbrev import_directory : List (ℕ × ℕ) → ℕ
import_directory (d ∷ e ∷ rest) = e.0
import_directory ds = 0

unfoldable pub by_address : Section → Section → Bool
by_address s t = leb s.virtual_address t.virtual_address

abbrev read_table : Option ℕ → Reader (List FunctionEntry)
unfolding read_function_table
read_table none = pure []
read_table (some raw) = read_function_table raw

-- The two signatures, up to the COFF header.
unfoldable pub read_signatures : Reader Unit
unfolding read read_u32 seek
read_signatures = do
  mz ← read 2
  mz_checked ← if not (text_eq mz (codes "MZ")) then fail no_mz_signature else pure tt
  dos ← read 0x3A
  e_lfanew ← read_u32
  moved ← seek e_lfanew
  pe ← read 4
  if not (text_eq pe (b'P' ∷ b'E' ∷ 0 ∷ 0 ∷ [])) then fail no_pe_signature else pure tt

-- _parse
unfoldable pub parse : Reader PeImage
unfolding read_signatures read_coff read_optional read_directories read_sections sort_by by_address
    read_imports read_function_table raw_of
parse = do
  signatures ← read_signatures
  coff ← read_coff
  optional ← read_optional
  directories ← read_directories 16
  entries ← read_sections coff.number_of_sections
  let sections = map section_of entries
  let raw_by_name = map raw_entry entries
  let import_rva = import_directory directories
  imports ←
      if import_rva == 0
      then pure []
      else read_imports (sort_by by_address sections) raw_by_name import_rva
  functions ← read_table (raw_of (codes ".rdata") raw_by_name)
  pure (record {
    coff = coff;
    optional = optional;
    sections = sections;
    imports = imports;
    functions = functions;
  })

-- parse_pe_bytes
unfoldable pub parse_pe_bytes : Bytes → Result PeError (PeImage × ℕ)
unfolding parse
parse_pe_bytes b = parse b 0
