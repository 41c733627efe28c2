-- ===== src/Identifier.antt =====
-- src/ai_reverse_agent/identifier.py, and the records of datatypes.py: the functions of a PE image.
pub mod Functions
use ai_reverse_agent.Prelude.{
  ℕ, ◌+◌, Bool, true, false, not, ◌&&◌, ◌||◌, List, [], ◌∷◌, ◌++◌, map, Option, none, some, ltb,
  leb, ◌==◌, if◌then◌else◌,
}
use ai_reverse_agent.Result.{Result}
use ai_reverse_agent.Text.{Text, codes, text_eq}
use ai_reverse_agent.Architecture.{
  ArchitectureError, ArchitectureSpec, architecture_from_pe_machine,
}

pub record Section : Type 0 where
  pub name : Text
  pub virtual_address : ℕ
  pub virtual_size : ℕ
  pub raw_size : ℕ
  pub characteristics : ℕ

pub record ImportEntry : Type 0 where
  pub dll : Text
  pub function : Text
  pub hint : ℕ
  pub address : ℕ

pub record FunctionEntry : Type 0 where
  pub address : ℕ
  pub name : Text

pub record CoffHeader : Type 0 where
  pub machine : ℕ
  pub number_of_sections : ℕ
  pub timestamp : ℕ
  pub characteristics : ℕ

pub record OptionalHeader : Type 0 where
  pub magic : ℕ
  pub entry_point : ℕ
  pub image_base : ℕ
  pub section_alignment : ℕ
  pub file_alignment : ℕ
  pub size_of_image : ℕ
  pub number_of_rva_and_sizes : ℕ

pub record PeImage : Type 0 where
  pub coff : CoffHeader
  pub optional : OptionalHeader
  pub sections : List Section
  pub imports : List ImportEntry
  pub functions : List FunctionEntry

-- PeImage.entry_point
abbrev pub entry_point : PeImage → ℕ
entry_point pe = pe.optional.entry_point

-- PeImage.architecture
unfoldable pub image_architecture : PeImage → Result ArchitectureError ArchitectureSpec
unfolding architecture_from_pe_machine
image_architecture pe = architecture_from_pe_machine pe.coff.machine

-- The `kind` strings of a function.
pub data Kind : Type 0 where
  imported local entry : Kind

pub record IdentifiedFunction : Type 0 where
  pub name : Text
  pub dll : Text
  pub address : ℕ
  pub section : Text
  pub kind : Kind

-- The first loop of _section_for_va.
unfoldable pub containing_section : List Section → ℕ → Option Text
containing_section [] rva = none
containing_section (s ∷ ss) rva =
    let later = containing_section ss rva in
    if leb s.virtual_address rva && ltb rva (s.virtual_address + s.virtual_size)
    then some s.name
    else later

-- The second loop, which keeps the last section that starts at or before the address.
unfoldable pub preceding_section : Text → List Section → ℕ → Text
preceding_section match [] rva = match
preceding_section match (s ∷ ss) rva =
    preceding_section (if leb s.virtual_address rva then s.name else match) ss rva

abbrev or_preceding : Option Text → Text → Text
or_preceding none fallback = fallback
or_preceding (some name) fallback = name

-- _section_for_va
unfoldable pub section_for_va : PeImage → ℕ → Text
unfolding containing_section preceding_section
section_for_va pe rva =
    or_preceding (containing_section pe.sections rva)
      (preceding_section (codes "<unknown>") pe.sections rva)

-- The keys of `seen`: the function and its DLL.
abbrev pub ImportKey : Type 0
ImportKey = Text × Text

unfoldable pub key_seen : ImportKey → List ImportKey → Bool
key_seen k [] = false
key_seen k (l ∷ ls) = (text_eq k.0 l.0 && text_eq k.1 l.1) || key_seen k ls

abbrev pub import_key : ImportEntry → ImportKey
import_key i = (i.function, i.dll)

abbrev pub from_import : PeImage → ImportEntry → IdentifiedFunction
unfolding section_for_va
from_import pe i = record {
  name = i.function;
  dll = i.dll;
  address = i.address;
  section = section_for_va pe i.address;
  kind = imported;
}

-- The loop over the imports.
unfoldable pub import_functions :
    PeImage → List ImportKey → List ImportEntry → List IdentifiedFunction
unfolding key_seen section_for_va
import_functions pe seen [] = []
import_functions pe seen (i ∷ is) =
    let again = import_functions pe seen is in
    let once = from_import pe i ∷ import_functions pe (import_key i ∷ seen) is in
    if key_seen (import_key i) seen then again else once

-- any(i.function == fn.name for i in pe.imports)
unfoldable pub already_imported : Text → List ImportEntry → Bool
already_imported n [] = false
already_imported n (i ∷ is) = text_eq i.function n || already_imported n is

-- The loop over the function table.
unfoldable pub local_functions : PeImage → List FunctionEntry → List IdentifiedFunction
unfolding already_imported section_for_va
local_functions pe [] = []
local_functions pe (f ∷ fs) =
    let rest = local_functions pe fs in
    if already_imported f.name pe.imports
    then rest
    else record {
      name = f.name;
      dll = codes "(local)";
      address = f.address;
      section = section_for_va pe f.address;
      kind = local;
    }
      ∷ rest

unfoldable pub has_address : ℕ → List IdentifiedFunction → Bool
has_address a [] = false
has_address a (f ∷ fs) = a == f.address || has_address a fs

-- The entry point, where no function so far has its address.
unfoldable pub entry_function : PeImage → List IdentifiedFunction → List IdentifiedFunction
unfolding has_address section_for_va
entry_function pe identified =
    if has_address (entry_point pe) identified
    then []
    else record {
      name = codes "entry_point";
      dll = codes "(self)";
      address = entry_point pe;
      section = section_for_va pe (entry_point pe);
      kind = entry;
    }
      ∷ []

-- identify_functions
unfoldable pub identify_functions : PeImage → List IdentifiedFunction
unfolding import_functions local_functions entry_function
identify_functions pe =
    let identified = import_functions pe [] pe.imports ++ local_functions pe pe.functions in
    identified ++ entry_function pe identified
