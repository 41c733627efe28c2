-- ===== src/Loader.antt =====
-- src/ai_reverse_agent/backends/: the loader and its backends. What pefile and pyelftools make of a
-- file are parameters; reading the file is left out.
pub mod Images
use ai_reverse_agent.Prelude.{Bool, true, false, not, ◌&&◌, List, [], ◌∷◌, if◌then◌else◌}
use ai_reverse_agent.Result.{Result, ok, err, ◌>>=◌}
use ai_reverse_agent.Bytes.{Bytes, starts_with}
use ai_reverse_agent.Text.{Text, codes}
use ai_reverse_agent.Elf.{elf_magic}
use ai_reverse_agent.Scan.{Container, pe, elf, raw}
use ai_reverse_agent.Imports.{ImportedSymbol, MagicError, has_magic}
use ai_reverse_agent.Imports.Pe.{parse_pe_imports}
use ai_reverse_agent.Imports.Elf.{parse_elf_imports}

-- An image without its path and metadata.
pub record BinaryImage : Type 0 where
  pub content : Bytes
  pub container : Container
  pub backend : Text
  pub imports : List ImportedSymbol

-- A MagicError, one of the two that the loader adds, or any other exception of a library.
pub data LoadError : Type 0 where
  magic_error : MagicError → LoadError
  unsupported_container no_backend : LoadError
  library_error : LoadError

-- BinaryBackend; `is_minimal` stands for the isinstance test.
pub record BinaryBackend : Type 0 where
  pub name : Text
  pub is_minimal : Bool
  pub supports : Bytes → Bool
  pub load : Bytes → Result LoadError BinaryImage

abbrev pub mz_magic : Bytes
mz_magic = b'M' ∷ b'Z' ∷ []

abbrev pub image : Bytes → Container → Text → List ImportedSymbol → BinaryImage
image b container backend imports = record {
  content = b;
  container = container;
  backend = backend;
  imports = imports;
}

abbrev pub with_imports :
    Bytes
    → Container
    → Text
    → Result MagicError (List ImportedSymbol)
    → Result LoadError BinaryImage
with_imports b c backend (ok imports) = ok (image b c backend imports)
with_imports b c backend (err e) = err (magic_error e)

-- MinimalFixtureBackend.load
unfoldable pub minimal_load : Bytes → Result LoadError BinaryImage
unfolding starts_with parse_pe_imports parse_elf_imports
minimal_load b =
    if starts_with b mz_magic
    then with_imports b pe (codes "minimal") (parse_pe_imports b)
    else if starts_with b elf_magic
    then with_imports b elf (codes "minimal") (parse_elf_imports b)
    else err unsupported_container

unfoldable pub minimal_backend : BinaryBackend
unfolding has_magic minimal_load
minimal_backend = record {
  name = codes "minimal";
  is_minimal = true;
  supports = λ b. has_magic b (mz_magic ∷ elf_magic ∷ []);
  load = minimal_load;
}

unfoldable pub raw_backend : BinaryBackend
raw_backend = record {
  name = codes "raw";
  is_minimal = false;
  supports = λ b. true;
  load = λ b. ok (image b raw (codes "raw") []);
}

-- What a library makes of a file's imports.
abbrev pub Extractor : Type 0
Extractor = Bytes → Result LoadError (List ImportedSymbol)

-- PeFileBackend, over pefile
unfoldable pub pefile_backend : Extractor → BinaryBackend
unfolding starts_with
pefile_backend pefile = record {
  name = codes "pefile";
  is_minimal = false;
  supports = λ b. starts_with b mz_magic;
  load = λ b. pefile b >>= λ imports. ok (image b pe (codes "pefile") imports);
}

-- ElfToolsBackend, over pyelftools
unfoldable pub elftools_backend : Extractor → BinaryBackend
unfolding starts_with
elftools_backend pyelftools = record {
  name = codes "pyelftools";
  is_minimal = false;
  supports = λ b. starts_with b elf_magic;
  load = λ b. pyelftools b >>= λ imports. ok (image b elf (codes "pyelftools") imports);
}

abbrev pub is_magic_error : LoadError → Bool
is_magic_error library_error = false
is_magic_error _ = true

-- What the loader does with the exception of a backend.
unfoldable pub recover : Bool → BinaryBackend → Bytes → LoadError → Result LoadError BinaryImage
unfolding has_magic minimal_load
recover fallback backend b e =
    if is_magic_error e
      && fallback
      && has_magic b (mz_magic ∷ elf_magic ∷ [])
      && not backend.is_minimal
    then minimal_load b
    else err e

unfoldable pub loaded :
    Bool → BinaryBackend → Bytes → Result LoadError BinaryImage → Result LoadError BinaryImage
unfolding recover
loaded fallback backend b (ok i) = ok i
loaded fallback backend b (err e) = recover fallback backend b e

-- BinaryLoader.load, on the bytes of the file
unfoldable pub load_with : Bool → List BinaryBackend → Bytes → Result LoadError BinaryImage
unfolding loaded
load_with fallback [] b = err no_backend
load_with fallback (backend ∷ backends) b =
    if backend.supports b
    then loaded fallback backend b (backend.load b)
    else load_with fallback backends b

-- BinaryLoader()
unfoldable pub default_backends : Extractor → Extractor → List BinaryBackend
unfolding pefile_backend elftools_backend raw_backend
default_backends pefile pyelftools =
    pefile_backend pefile ∷ elftools_backend pyelftools ∷ raw_backend ∷ []

unfoldable pub load_default : Extractor → Extractor → Bytes → Result LoadError BinaryImage
unfolding load_with default_backends
load_default pefile pyelftools = load_with true (default_backends pefile pyelftools)
