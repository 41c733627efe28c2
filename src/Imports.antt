-- ===== src/Imports.antt =====
-- The imports of a binary: `ImportedSymbol` and the names of src/ai_reverse_agent/iat/imphash.py,
-- and the size and magic bounds of src/ai_reverse_agent/magic.py.
pub mod Hash
pub mod Pe
pub mod Database
pub mod Elf
use ai_reverse_agent.Prelude.{
  ℕ, ◌*◌, Bool, true, false, ◌||◌, not, List, [], ◌∷◌, ◌++◌, Option, none, some, ltb, if◌then◌else◌,
  length,
}
use ai_reverse_agent.Result.{Result, ok, err}
use ai_reverse_agent.Bytes.{Bytes, starts_with}
use ai_reverse_agent.Text.{Text, lower, strip}

-- `MagicError`: one constructor for each `raise` of magic.py, pe_iat.py and elf_iat.py.
pub data MagicError : Type 0 where
  too_large unsupported_magic : MagicError
  -- pe_iat.py
  truncated_dos_header invalid_pe_signature truncated_optional_header : MagicError
  unsupported_optional_magic no_import_directory truncated_section_table : MagicError
  rva_outside truncated_descriptor thunks_exceed_bound descriptors_exceed_bound : MagicError
  truncated_integer string_outside unterminated_string non_ascii : MagicError
  -- elf_iat.py
  truncated_elf_header unsupported_elf truncated_elf32_header truncated_elf64_header : MagicError
  bad_section_dimensions truncated_elf_sections section_outside bad_names_index : MagicError
  bad_link small_symbol_entry symbols_outside elf_string_outside : MagicError
  unterminated_elf_string invalid_utf8 : MagicError
  -- `struct.error`, which is no MagicError
  struct_error : MagicError

abbrev pub max_static_file_size : ℕ
max_static_file_size = 100 * 1024 * 1024

-- any(data.startswith(magic) for magic in expected_magic)
unfoldable pub has_magic : Bytes → List Bytes → Bool
unfolding starts_with
has_magic b [] = false
has_magic b (m ∷ ms) = starts_with b m || has_magic b ms

-- validate_bytes
unfoldable pub validate_bytes : Bytes → List Bytes → Result {0, 0} MagicError Unit
unfolding has_magic
validate_bytes b expected =
    if ltb max_static_file_size (length b)
    then err too_large
    else if not (has_magic b expected)
    then err unsupported_magic
    else ok tt

-- if t: raise e
abbrev pub refuse : Bool → MagicError → Result {0, 0} MagicError Unit
refuse t e = if t then err e else ok tt

pub record ImportedSymbol : Type 0 where
  pub library : Text
  pub name : Text
  pub hint : Option ℕ
  pub address : Option ℕ
  pub ordinal : Option ℕ
  pub delayed : Bool

abbrev pub is_blank_text : Text → Bool
is_blank_text [] = true
is_blank_text (c ∷ cs) = false

-- value.strip().lower()
unfoldable pub lowered : Text → Text
unfolding strip lower
lowered t = lower (strip t)

-- ImportedSymbol.canonical_name
unfoldable pub canonical_name : ImportedSymbol → Text
unfolding lowered
canonical_name s =
    if is_blank_text (lowered s.library)
    then lowered s.name
    else lowered s.library ++ b'.' ∷ lowered s.name

-- ImportLike; `other` is a value of any other type.
pub data ImportLike : Type 0 where
  imported : ImportedSymbol → ImportLike
  plain : Text → ImportLike
  pair : Text → Text → ImportLike
  other : ImportLike

pub data ImportError : Type 0 where
  unsupported_import empty_name : ImportError

abbrev pub named_or_error : Text → Result ImportError Text
named_or_error t = if is_blank_text t then err empty_name else ok t

-- normalize_import
unfoldable pub normalize_import : ImportLike → Result ImportError Text
unfolding canonical_name lowered
normalize_import (imported s) = named_or_error (canonical_name s)
normalize_import (plain t) = named_or_error (lowered t)
normalize_import (pair library name) = named_or_error (lowered library ++ b'.' ∷ lowered name)
normalize_import other = err unsupported_import
