-- ===== src/Imports/Elf.antt =====
-- `parse_elf_imports` of src/ai_reverse_agent/iat/elf_iat.py. `struct.unpack_from` is written out,
-- with the exception that it raises out of bounds.
pub mod Safety
use ai_reverse_agent.Prelude.{
  ℕ, zero, suc, ◌+◌, ◌*◌, ◌/◌, Bool, true, false, not, ◌&&◌, ◌||◌, List, [], ◌∷◌, ◌++◌, Option,
  none, some, ltb, leb, ◌==◌, if◌then◌else◌, length, get_or, get_elem?,
}
use ai_reverse_agent.Result.{Result, ok, err, ◌>>=◌}
use ai_reverse_agent.Bytes.{Bytes, slice}
use ai_reverse_agent.Bytes.Search.{find}
use ai_reverse_agent.Text.{Text, codes, text_eq}
use ai_reverse_agent.Text.Utf8.{decode_utf8}
use ai_reverse_agent.Architecture.{Endianness, little, big}
use ai_reverse_agent.Elf.{elf_magic, from_bytes}
use ai_reverse_agent.Imports.{
  ImportedSymbol, MagicError, refuse, validate_bytes, truncated_elf_header, unsupported_elf,
  truncated_elf32_header, truncated_elf64_header, bad_section_dimensions, truncated_elf_sections,
  section_outside, bad_names_index, bad_link, small_symbol_entry, symbols_outside,
  elf_string_outside, unterminated_elf_string, invalid_utf8, struct_error,
}

-- struct.calcsize, for a format without padding given by the widths of its fields
unfoldable pub calcsize : List ℕ → ℕ
calcsize [] = 0
calcsize (w ∷ ws) = w + calcsize ws

unfoldable pub fields_at : Endianness → List ℕ → Bytes → ℕ → List ℕ
unfolding slice from_bytes
fields_at e [] b offset = []
fields_at e (w ∷ ws) b offset =
    from_bytes e (slice b offset (offset + w)) ∷ fields_at e ws b (offset + w)

-- struct.unpack_from
unfoldable pub unpack_from : Endianness → List ℕ → Bytes → ℕ → Result MagicError (List ℕ)
unfolding calcsize fields_at
unpack_from e ws b offset =
    if ltb (length b) (offset + calcsize ws) then err struct_error else ok (fields_at e ws b offset)

-- What the class of a file decides: is it 32 bits wide, and in which byte order.
pub record ElfLayout : Type 0 where
  pub narrow : Bool
  pub byte_order : Endianness

-- "IIIIIIIIII" and "IIQQQQIIQQ"
abbrev pub section_format : Bool → List ℕ
section_format true = 4 ∷ 4 ∷ 4 ∷ 4 ∷ 4 ∷ 4 ∷ 4 ∷ 4 ∷ 4 ∷ 4 ∷ []
section_format false = 4 ∷ 4 ∷ 8 ∷ 8 ∷ 8 ∷ 8 ∷ 4 ∷ 4 ∷ 8 ∷ 8 ∷ []

-- "IIIBBH" and "IBBHQQ"
abbrev pub symbol_format : Bool → List ℕ
symbol_format true = 4 ∷ 4 ∷ 4 ∷ 1 ∷ 1 ∷ 2 ∷ []
symbol_format false = 4 ∷ 1 ∷ 1 ∷ 2 ∷ 8 ∷ 8 ∷ []

-- section_offset, section_entry_size, section_count, names_index
pub record ElfHeader : Type 0 where
  pub section_offset : ℕ
  pub section_entry_size : ℕ
  pub section_count : ℕ
  pub names_index : ℕ

abbrev pub header_of : List ℕ → List ℕ → ElfHeader
header_of offsets dimensions = record {
  section_offset = get_or offsets 0 0;
  section_entry_size = get_or dimensions 0 0;
  section_count = get_or dimensions 1 0;
  names_index = get_or dimensions 2 0;
}

unfoldable pub read_header : ElfLayout → Bytes → Result MagicError ElfHeader
unfolding unpack_from
read_header l b =
    if l.narrow
    then (do
      whole ← refuse (ltb (length b) 52) truncated_elf32_header
      offsets ← unpack_from l.byte_order (4 ∷ []) b 32
      dimensions ← unpack_from l.byte_order (2 ∷ 2 ∷ 2 ∷ []) b 46
      ok (header_of offsets dimensions))
    else (do
      whole ← refuse (ltb (length b) 64) truncated_elf64_header
      offsets ← unpack_from l.byte_order (8 ∷ []) b 40
      dimensions ← unpack_from l.byte_order (2 ∷ 2 ∷ 2 ∷ []) b 58
      ok (header_of offsets dimensions))

-- One dictionary of `sections`.
pub record ElfSection : Type 0 where
  pub name_offset : ℕ
  pub kind : ℕ
  pub offset : ℕ
  pub size : ℕ
  pub link : ℕ
  pub entry_size : ℕ

abbrev pub section_of : List ℕ → ElfSection
section_of fs = record {
  name_offset = get_or fs 0 0;
  kind = get_or fs 1 0;
  offset = get_or fs 4 0;
  size = get_or fs 5 0;
  link = get_or fs 6 0;
  entry_size = get_or fs 9 0;
}

-- _SHT_NOBITS and _SHT_DYNSYM
abbrev pub sht_nobits : ℕ
sht_nobits = 8

abbrev pub sht_dynsym : ℕ
sht_dynsym = 11

-- section_type != _SHT_NOBITS and file_offset + size > len(data)
unfoldable pub is_outside : Bytes → ElfSection → Bool
is_outside b s = not (s.kind == sht_nobits) && ltb (length b) (s.offset + s.size)

-- The section table, with `left` sections to go.
unfoldable pub read_sections : ElfLayout → Bytes → ℕ → ℕ → ℕ → Result MagicError (List ElfSection)
unfolding unpack_from is_outside
read_sections l b entry_size zero offset = ok []
read_sections l b entry_size (suc left) offset = do
  fs ← unpack_from l.byte_order (section_format l.narrow) b offset
  inside ← refuse (is_outside b (section_of fs)) section_outside
  rest ← read_sections l b entry_size left (offset + entry_size)
  ok (section_of fs ∷ rest)

abbrev pub decoded_utf8 : Option Text → Result MagicError Text
decoded_utf8 none = err invalid_utf8
decoded_utf8 (some t) = ok t

-- _table_string
unfoldable pub table_string : Bytes → ℕ → Result MagicError Text
unfolding slice find decode_utf8
table_string table offset =
    if leb (length table) offset
    then err elf_string_outside
    else elim (find (0 ∷ []) table offset) [
      | none ↦ err unterminated_elf_string
      | some end ↦ decoded_utf8 (decode_utf8 (slice table offset end))
    ]

-- data[section["offset"] : section["offset"] + section["size"]]
unfoldable pub section_bytes : Bytes → ElfSection → Bytes
unfolding slice
section_bytes b s = slice b s.offset (s.offset + s.size)

-- name_offset, value and section_index of a symbol's fields
abbrev pub symbol_name : Bool → List ℕ → ℕ
symbol_name narrow fs = get_or fs 0 0

abbrev pub symbol_value : Bool → List ℕ → ℕ
symbol_value narrow fs = if narrow then get_or fs 1 0 else get_or fs 4 0

abbrev pub symbol_section : Bool → List ℕ → ℕ
symbol_section narrow fs = if narrow then get_or fs 5 0 else get_or fs 3 0

-- value or None
abbrev pub value_or_none : ℕ → Option ℕ
value_or_none n = if n == 0 then none else some n

abbrev pub elf_symbol : Text → ℕ → ImportedSymbol
elf_symbol name value = record {
  library = codes "elf";
  name = name;
  hint = none;
  address = value_or_none value;
  ordinal = none;
  delayed = false;
}

abbrev pub if_named : Text → ℕ → List ImportedSymbol
if_named [] value = []
if_named (c ∷ cs) value = elf_symbol (c ∷ cs) value ∷ []

-- The symbol that one entry adds, if it adds one.
unfoldable pub read_symbol :
    ElfLayout → Bytes → ℕ → List ℕ → Result MagicError (List ImportedSymbol)
unfolding table_string
read_symbol l strings index fs =
    if index == 0 || not (symbol_section l.narrow fs == 0) || symbol_name l.narrow fs == 0
    then ok []
    else table_string strings (symbol_name l.narrow fs) >>= λ name.
        ok (if_named name (symbol_value l.narrow fs))

-- The symbol table, with `left` entries to go.
unfoldable pub read_symbols :
    ElfLayout → Bytes → Bytes → ℕ → ℕ → ℕ → ℕ → Result MagicError (List ImportedSymbol)
unfolding unpack_from calcsize read_symbol
read_symbols l b strings entry_size zero index offset = ok []
read_symbols l b strings entry_size (suc left) index offset = do
  inside ← refuse (ltb (length b) (offset + calcsize (symbol_format l.narrow))) symbols_outside
  fs ← unpack_from l.byte_order (symbol_format l.narrow) b offset
  own ← read_symbol l strings index fs
  rest ← read_symbols l b strings entry_size left (index + 1) (offset + entry_size)
  ok (own ++ rest)

abbrev pub linked : Option ElfSection → Result MagicError ElfSection
linked none = err bad_link
linked (some s) = ok s

-- section["entry_size"] or expected_symbol_size
abbrev pub entry_size_of : Bool → ElfSection → ℕ
unfolding calcsize
entry_size_of narrow s = if s.entry_size == 0 then calcsize (symbol_format narrow) else s.entry_size

-- A section whose symbols are imported.
unfoldable pub read_dynamic :
    ElfLayout → Bytes → List ElfSection → ElfSection → Result MagicError (List ImportedSymbol)
unfolding section_bytes read_symbols calcsize
read_dynamic l b sections s = do
  strings ← linked (get_elem? sections s.link)
  wide ←
      refuse (ltb (entry_size_of l.narrow s) (calcsize (symbol_format l.narrow))) small_symbol_entry
  read_symbols l b (section_bytes b strings) (entry_size_of l.narrow s)
      (s.size / entry_size_of l.narrow s) 0 s.offset

-- One round of the loop over `sections`.
unfoldable pub section_imports :
    ElfLayout
    → Bytes
    → Bytes
    → List ElfSection
    → ElfSection
    → Result MagicError (List ImportedSymbol)
unfolding table_string read_dynamic text_eq
section_imports l b names sections s =
    if s.kind == sht_nobits
    then ok []
    else table_string names s.name_offset >>= λ name.
        if not (s.kind == sht_dynsym) && not (text_eq name (codes ".dynsym"))
        then ok []
        else read_dynamic l b sections s

unfoldable pub all_imports :
    ElfLayout
    → Bytes
    → Bytes
    → List ElfSection
    → List ElfSection
    → Result MagicError (List ImportedSymbol)
unfolding section_imports
all_imports l b names sections [] = ok []
all_imports l b names sections (s ∷ ss) = do
  own ← section_imports l b names sections s
  rest ← all_imports l b names sections ss
  ok (own ++ rest)

abbrev pub names_of : Option ElfSection → Result MagicError ElfSection
names_of none = err bad_names_index
names_of (some s) = ok s

abbrev pub known_byte : ℕ → Bool
known_byte n = n == 1 || n == 2

-- Is the table of sections impossible?
unfoldable pub has_bad_dimensions : ElfLayout → ElfHeader → Bool
unfolding calcsize
has_bad_dimensions l h =
    ltb h.section_entry_size (calcsize (section_format l.narrow)) || ltb 65535 h.section_count

unfoldable pub layout_of : Bytes → ElfLayout
layout_of b = record {
  narrow = get_or b 4 0 == 1;
  byte_order = if get_or b 5 0 == 1 then little else big;
}

-- From the header on.
unfoldable pub parse_sections : ElfLayout → Bytes → Result MagicError (List ImportedSymbol)
unfolding read_header has_bad_dimensions read_sections section_bytes all_imports
parse_sections l b = do
  h ← read_header l b
  possible ← refuse (has_bad_dimensions l h) bad_section_dimensions
  whole ←
      refuse (ltb (length b) (h.section_offset + h.section_entry_size * h.section_count))
        truncated_elf_sections
  sections ← read_sections l b h.section_entry_size h.section_count h.section_offset
  names ← names_of (get_elem? sections h.names_index)
  all_imports l b (section_bytes b names) sections sections

-- parse_elf_imports
unfoldable pub parse_elf_imports : Bytes → Result MagicError (List ImportedSymbol)
unfolding validate_bytes layout_of parse_sections
parse_elf_imports b = do
  checked ← validate_bytes b (elf_magic ∷ [])
  header ← refuse (ltb (length b) 52) truncated_elf_header
  known ←
      refuse (not (known_byte (get_or b 4 0)) || not (known_byte (get_or b 5 0))) unsupported_elf
  parse_sections (layout_of b) b
