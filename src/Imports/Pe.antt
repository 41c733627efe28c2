-- ===== src/Imports/Pe.antt =====
-- `parse_pe_imports` of src/ai_reverse_agent/iat/pe_iat.py. Offsets are never negative: they are
-- read from unsigned fields.
pub mod Names
use Prim.Native.Nat.{min, max}
use ai_reverse_agent.Prelude.{
  ℕ, zero, suc, ◌+◌, ◌-◌, ◌*◌, ◌/◌, ◌%◌, ◌^◌, Bool, true, false, not, ◌&&◌, ◌||◌, List, [], ◌∷◌,
  ◌++◌, Option, none, some, ltb, leb, ◌==◌, if◌then◌else◌, length, take,
}
use ai_reverse_agent.Prelude.Int.{pos}
use ai_reverse_agent.Result.{Result, ok, err, ◌>>=◌}
use ai_reverse_agent.Bytes.{Bytes, slice, from_little}
use ai_reverse_agent.Bytes.Search.{find}
use ai_reverse_agent.Text.{Text, codes, text_eq}
use ai_reverse_agent.Text.Numbers.{decimal, padded}
use ai_reverse_agent.Imports.{
  ImportedSymbol, MagicError, refuse, validate_bytes, truncated_dos_header, invalid_pe_signature,
  truncated_optional_header, unsupported_optional_magic, no_import_directory,
  truncated_section_table, rva_outside, truncated_descriptor, thunks_exceed_bound,
  descriptors_exceed_bound, truncated_integer, string_outside, unterminated_string, non_ascii,
}

-- _integer
unfoldable pub integer : Bytes → ℕ → ℕ → Result MagicError ℕ
unfolding slice from_little
integer b offset size =
    if ltb (length b) (offset + size)
    then err truncated_integer
    else ok (from_little (slice b offset (offset + size)))

unfoldable pub is_ascii : Bytes → Bool
is_ascii [] = true
is_ascii (c ∷ cs) = ltb c 128 && is_ascii cs

abbrev pub decode_ascii : Bytes → Result MagicError Text
decode_ascii t = if is_ascii t then ok t else err non_ascii

-- _cstring, with its limit of 512
unfoldable pub cstring : Bytes → ℕ → Result MagicError Text
unfolding slice find is_ascii
cstring b offset =
    if leb (length b) offset
    then err string_outside
    else elim (find (0 ∷ []) (take (min (length b) (offset + 512)) b) offset) [
      | none ↦ err unterminated_string
      | some end ↦ decode_ascii (slice b offset end)
    ]

-- One tuple of `sections`.
pub record PeSection : Type 0 where
  pub virtual_address : ℕ
  pub span : ℕ
  pub raw_offset : ℕ
  pub raw_size : ℕ

-- The section table, with `left` sections to go.
unfoldable pub read_sections : Bytes → ℕ → ℕ → Result MagicError (List PeSection)
unfolding integer
read_sections b zero offset = ok []
read_sections b (suc left) offset =
    if ltb (length b) (offset + 40) then err truncated_section_table else do
      virtual_size ← integer b (offset + 8) 4
      virtual_address ← integer b (offset + 12) 4
      raw_size ← integer b (offset + 16) 4
      raw_offset ← integer b (offset + 20) 4
      rest ← read_sections b left (offset + 40)
      ok (
          record {
            virtual_address = virtual_address;
            span = max virtual_size raw_size;
            raw_offset = raw_offset;
            raw_size = raw_size;
          }
          ∷ rest)

-- The loop of rva_to_offset: none where it breaks or ends.
unfoldable pub file_offset : Bytes → List PeSection → ℕ → Option ℕ
file_offset b [] rva = none
file_offset b (s ∷ ss) rva =
    let later = file_offset b ss rva in
    let relative = rva - s.virtual_address in
    if not (leb s.virtual_address rva && ltb rva (s.virtual_address + s.span))
    then later
    else if leb s.raw_size relative || leb (length b) (s.raw_offset + relative)
    then none
    else some (s.raw_offset + relative)

-- What rva_to_offset and the walks read of the headers.
pub record PeLayout : Type 0 where
  pub sections : List PeSection
  pub section_table : ℕ
  pub thunk_size : ℕ

abbrev pub make_layout : List PeSection → ℕ → ℕ → PeLayout
make_layout sections section_table thunk_size = record {
  sections = sections;
  section_table = section_table;
  thunk_size = thunk_size;
}

unfoldable pub rva_to_offset : Bytes → PeLayout → ℕ → Result MagicError ℕ
unfolding file_offset
rva_to_offset b l rva = elim (file_offset b l.sections rva) [
  | some offset ↦ ok offset
  | none ↦ if ltb rva l.section_table && ltb rva (length b) then ok rva else err rva_outside
]

-- value & ordinal_mask, which is the highest bit of a thunk
unfoldable pub is_ordinal : PeLayout → ℕ → Bool
is_ordinal l value = not ((value / 2 ^ (8 * l.thunk_size - 1)) % 2 == 0)

unfoldable pub ordinal_symbol : Text → ℕ → ℕ → ImportedSymbol
unfolding padded
ordinal_symbol library value address = record {
  library = library;
  name = codes "ordinal_" ++ decimal (pos (value % 0x10000));
  hint = none;
  address = some address;
  ordinal = none;
  delayed = false;
}

abbrev pub named_symbol : Text → Text → ℕ → ℕ → ImportedSymbol
named_symbol library name hint address = record {
  library = library;
  name = name;
  hint = some hint;
  address = some address;
  ordinal = none;
  delayed = false;
}

-- One thunk that is not 0.
unfoldable pub read_symbol : Bytes → PeLayout → Text → ℕ → ℕ → Result MagicError ImportedSymbol
unfolding is_ordinal ordinal_symbol rva_to_offset integer cstring
read_symbol b l library address value =
    if is_ordinal l value then ok (ordinal_symbol library value address) else do
      name_offset ← rva_to_offset b l value
      hint ← integer b name_offset 2
      name ← cstring b (name_offset + 2)
      ok (named_symbol library name hint address)

-- The walk over the thunks of one library, with `left` rounds to go.
unfoldable pub read_thunks :
    Bytes → PeLayout → Text → ℕ → ℕ → ℕ → Result MagicError (List ImportedSymbol)
unfolding integer read_symbol
read_thunks b l library zero item_offset address = err thunks_exceed_bound
read_thunks b l library (suc left) item_offset address =
    integer b item_offset l.thunk_size >>= λ value. elim (value == 0) [
      | true ↦ ok []
      | false ↦ do
        symbol ← read_symbol b l library address value
        rest ← read_thunks b l library left (item_offset + l.thunk_size) (address + l.thunk_size)
        ok (symbol ∷ rest)
    ]

-- The five fields of a descriptor that are read, and the two that are used.
unfoldable pub read_library : Bytes → PeLayout → ℕ → ℕ → ℕ → Result MagicError (List ImportedSymbol)
unfolding rva_to_offset cstring read_thunks
read_library b l original_thunk name_rva first_thunk = do
  name_offset ← rva_to_offset b l name_rva
  library ← cstring b name_offset
  thunk_offset ← rva_to_offset b l (if original_thunk == 0 then first_thunk else original_thunk)
  read_thunks b l library 65536 thunk_offset first_thunk

-- fields == (0, 0, ...)
unfoldable pub all_zero : List ℕ → Bool
all_zero [] = true
all_zero (n ∷ ns) = n == 0 && all_zero ns

-- The walk over the descriptors, with `left` rounds to go.
unfoldable pub read_descriptors : Bytes → PeLayout → ℕ → ℕ → Result MagicError (List ImportedSymbol)
unfolding integer all_zero read_library
read_descriptors b l zero offset = err descriptors_exceed_bound
read_descriptors b l (suc left) offset =
    if ltb (length b) (offset + 20)
    then err truncated_descriptor
    else integer b offset 4 >>= λ original_thunk. integer b (offset + 4) 4 >>= λ timestamp.
        integer b (offset + 8) 4 >>= λ forwarder. integer b (offset + 12) 4 >>= λ name_rva.
        integer b (offset + 16) 4 >>= λ first_thunk.
        elim (all_zero (original_thunk ∷ timestamp ∷ forwarder ∷ name_rva ∷ first_thunk ∷ [])) [
          | true ↦ ok []
          | false ↦ do
            symbols ← read_library b l original_thunk name_rva first_thunk
            rest ← read_descriptors b l left (offset + 20)
            ok (symbols ++ rest)
        ]

-- Where the data directories begin in the optional header, and the size of a thunk.
unfoldable pub optional_layout : ℕ → Result MagicError (ℕ × ℕ)
optional_layout magic =
    if magic == 0x10B
    then ok (96, 4)
    else if magic == 0x20B
    then ok (112, 8)
    else err unsupported_optional_magic

unfoldable pub imports_from : Bytes → ℕ → ℕ → ℕ → ℕ → ℕ → Result MagicError (List ImportedSymbol)
unfolding read_sections rva_to_offset read_descriptors
imports_from b section_table section_count thunk_size import_rva import_size = do
  sections ← read_sections b section_count section_table
  let l = make_layout sections section_table thunk_size in
      do
        descriptor_offset ← rva_to_offset b l import_rva
        read_descriptors b l (min 4096 (max 1 (import_size / 20 + 1))) descriptor_offset

-- From the optional header on.
unfoldable pub parse_directory : Bytes → ℕ → ℕ → ℕ → Result MagicError (List ImportedSymbol)
unfolding integer optional_layout imports_from
parse_directory b optional_offset section_count optional_size =
    let section_table = optional_offset + optional_size in
    do
      whole ← refuse (ltb (length b) section_table) truncated_optional_header
      magic ← integer b optional_offset 2
      layout ← optional_layout magic
      directory ← refuse (ltb section_table (optional_offset + layout.0 + 16)) no_import_directory
      import_rva ← integer b (optional_offset + layout.0 + 8) 4
      import_size ← integer b (optional_offset + layout.0 + 12) 4
      (if import_rva == 0 || import_size == 0
          then ok []
          else imports_from b section_table section_count layout.1 import_rva import_size)

unfoldable pub lacks_signature : Bytes → ℕ → Bool
unfolding slice text_eq
lacks_signature b pe_offset =
    ltb (length b) (pe_offset + 24)
    || not (text_eq (slice b pe_offset (pe_offset + 4)) (b'P' ∷ b'E' ∷ 0 ∷ 0 ∷ []))

-- parse_pe_imports
unfoldable pub parse_pe_imports : Bytes → Result MagicError (List ImportedSymbol)
unfolding validate_bytes integer lacks_signature parse_directory
parse_pe_imports b = do
  checked ← validate_bytes b ((b'M' ∷ b'Z' ∷ []) ∷ [])
  header ← refuse (ltb (length b) 0x40) truncated_dos_header
  pe_offset ← integer b 0x3C 4
  signature ← refuse (lacks_signature b pe_offset) invalid_pe_signature
  section_count ← integer b (pe_offset + 6) 2
  optional_size ← integer b (pe_offset + 20) 2
  parse_directory b (pe_offset + 24) section_count optional_size
