-- ===== src/Pe/Fixture.antt =====
-- src/ai_reverse_agent/fake_pe.py: the headers, the code and the function table of the PE fixture. The
-- functions append to what is written, which is where the stream stands.
use ai_reverse_agent.Prelude.{
  ℕ, zero, suc, ◌+◌, ◌-◌, List, [], ◌∷◌, ◌++◌, length, replicate, take, ◌==◌, if◌then◌else◌,
}
use ai_reverse_agent.Text.{Text, codes}
use ai_reverse_agent.Bytes.{Bytes, to_little}

pub record FakeFunction : Type 0 where
  pub name : Text
  pub dll : Text
  pub hint : ℕ
  pub address : ℕ

-- _pad_to
unfoldable pub pad_to : ℕ → Bytes → Bytes
pad_to target buf = buf ++ replicate (target - length buf) 0

-- _encode_section_name
unfoldable pub encode_section_name : Text → Bytes
encode_section_name name = take 8 name ++ replicate (8 - length (take 8 name)) 0

-- The fields of `struct.pack`, of 2 and of 4 bytes.
abbrev u16 : ℕ → Bytes
u16 = to_little 2

abbrev u32 : ℕ → Bytes
u32 = to_little 4

-- _DOS_STUB_MSG
abbrev dos_stub_msg : Bytes
dos_stub_msg = codes "This program cannot be run in DOS mode." ++ 13 ∷ 10 ∷ 0 ∷ []

-- _write_dos_header
unfoldable pub write_dos_header : Bytes → Bytes
unfolding pad_to to_little
write_dos_header buf =
    pad_to 0x200 (buf ++ codes "MZ" ++ replicate 58 0 ++ u32 0x200 ++ dos_stub_msg)

-- _write_pe_signature
unfoldable pub write_pe_signature : Bytes → Bytes
write_pe_signature buf = buf ++ b'P' ∷ b'E' ∷ 0 ∷ 0 ∷ []

-- _write_coff_header
unfoldable pub write_coff_header : ℕ → Bytes → Bytes
unfolding to_little
write_coff_header num_sections buf =
    buf
    ++ u16 0x8664
    ++ u16 num_sections
    ++ u32 0x66000000
    ++ u32 0
    ++ u32 0
    ++ u16 224
    ++ u16 0x2102

-- The loop over the data directories, from index `i` on.
unfoldable pub data_directories : ℕ → ℕ → ℕ → ℕ → Bytes
unfolding to_little
data_directories zero i imports_rva imports_size = []
data_directories (suc left) i imports_rva imports_size =
    let rest = data_directories left (i + 1) imports_rva imports_size in
    (if i == 1 then u32 imports_rva ++ u32 imports_size else u32 0 ++ u32 0) ++ rest

-- _write_optional_header
unfoldable pub write_optional_header : ℕ → ℕ → Bytes → Bytes
unfolding data_directories to_little
write_optional_header imports_rva imports_size buf =
    buf
    ++ u16 0x10b
    ++ 14 ∷ 0 ∷ []
    ++ u32 0x200
    ++ u32 (0x400 + 0x600)
    ++ u32 0
    ++ u32 0x1010
    ++ u32 0x1000
    ++ u32 0
    ++ u32 0x00400000
    ++ u32 0x1000
    ++ u32 0x200
    ++ u16 6
    ++ u16 0
    ++ u16 0
    ++ u16 0
    ++ u16 6
    ++ u16 0
    ++ u32 0
    ++ u32 0x5000
    ++ u32 (0x800 + 0x600)
    ++ u32 0
    ++ u16 3
    ++ u16 0
    ++ u32 0x100000
    ++ u32 0x1000
    ++ u32 0x100000
    ++ u32 0x1000
    ++ u32 0
    ++ u32 16
    ++ data_directories 16 0 imports_rva imports_size

-- One entry of the section table: its name, size, address, offset and characteristics.
unfoldable pub section_header : Text → ℕ → ℕ → ℕ → ℕ → Bytes
unfolding encode_section_name to_little
section_header name size va raw characteristics =
    encode_section_name name
    ++ u32 size
    ++ u32 va
    ++ u32 size
    ++ u32 raw
    ++ u32 0
    ++ u32 0
    ++ u16 0
    ++ u16 0
    ++ u32 characteristics

-- _write_section_headers
unfoldable pub write_section_headers : Bytes → Bytes
unfolding section_header
write_section_headers buf =
    buf
    ++ section_header (codes ".text") 0x200 0x1000 0x400 0x60000020
    ++ section_header (codes ".rdata") 0x400 0x2000 0x600 0x40000040
    ++ section_header (codes ".idata") 0x600 0x3000 0x800 0x40000040

-- _write_text
unfoldable pub write_text : Bytes → Bytes
unfolding pad_to
write_text buf =
    pad_to (0x400 + 0x200) (pad_to 0x400 buf ++ 0xCC ∷ 0x90 ∷ replicate (0x200 - 2) 0x90)

-- The loop of _write_rdata over the functions, for addresses of 4 bytes and ASCII names of at most 255
-- characters; the source raises on others.
unfoldable pub function_records : List FakeFunction → Bytes
unfolding to_little
function_records [] = []
function_records (f ∷ fs) = (u32 f.address ++ length f.name ∷ f.name) ++ function_records fs

-- _write_rdata
unfoldable pub write_rdata : List FakeFunction → Bytes → Bytes
unfolding pad_to function_records to_little
write_rdata functions buf =
    pad_to (0x600 + 0x400) (pad_to 0x600 buf ++ function_records functions ++ u32 0 ++ 0 ∷ [])
