-- ===== src/Pe/Imports.antt =====
-- `_read_imports` of parsers.py.
use ai_reverse_agent.Prelude.{
  ℕ, zero, suc, ◌+◌, ◌-◌, ◌%◌, Bool, ◌&&◌, List, [], ◌∷◌, ◌++◌, Option, none, some, ltb, leb, ◌==◌,
  length, if◌then◌else◌,
}
use ai_reverse_agent.Text.{Text, text_eq}
use ai_reverse_agent.Bytes.{from_little}
use ai_reverse_agent.Identifier.{Section, ImportEntry}
use ai_reverse_agent.Pe.Stream.{Reader, pure, ◌>>=◌, read, seek, read_u32, read_cstring}

-- raw_by_name, in the order of the writes: the last one holds.
abbrev pub RawEntry : Type 0
RawEntry = Text × ℕ

abbrev later_or : Option ℕ → Bool → ℕ → Option ℕ
later_or (some r) same raw = some r
later_or none same raw = if same then some raw else none

unfoldable pub raw_of : Text → List RawEntry → Option ℕ
raw_of n [] = none
raw_of n (e ∷ es) = later_or (raw_of n es) (text_eq e.0 n) e.1

-- The first section that holds the address.
unfoldable pub section_at : List Section → ℕ → Option Section
section_at [] rva = none
section_at (s ∷ ss) rva =
    let later = section_at ss rva in
    if leb s.virtual_address rva && ltb rva (s.virtual_address + s.virtual_size)
    then some s
    else later

-- to_abs
unfoldable pub to_abs : Section → ℕ → ℕ → Option ℕ
to_abs sec sec_raw rva =
    if leb sec.virtual_address rva && ltb rva (sec.virtual_address + sec.virtual_size)
    then some (sec_raw + (rva - sec.virtual_address))
    else none

-- The address of the name, without the bit that marks an import by name.
abbrev name_rva_hint : ℕ → ℕ
name_rva_hint thunk = if leb 0x80000000 thunk then thunk % 0x80000000 else thunk

-- The walk over the thunks of one DLL, with `left` rounds to go.
unfoldable pub read_thunks : ℕ → Section → ℕ → Text → ℕ → Reader (List ImportEntry)
unfolding to_abs seek read read_u32 read_cstring from_little
read_thunks zero sec sec_raw dll thunk_rva = pure []
read_thunks (suc left) sec sec_raw dll thunk_rva = elim (to_abs sec sec_raw thunk_rva) [
  | none ↦ pure []
  | some thunk_off ↦
      let rest = read_thunks left sec sec_raw dll (thunk_rva + 4) in
      seek thunk_off >>= λ _. read_u32 >>= λ thunk.
      if thunk == 0 then pure [] else elim (to_abs sec sec_raw (name_rva_hint thunk)) [
        | none ↦ rest
        | some hint_off ↦ seek hint_off >>= λ _. read 2 >>= λ hint_data.
            if ltb (length hint_data) 2
            then pure []
            else read_cstring >>= λ name. rest >>= λ entries. pure (
                record {
                  dll = dll;
                  function = name;
                  hint = from_little hint_data;
                  address = thunk_rva;
                }
                ∷ entries)
      ]
]

-- The loop over the descriptors, with `left` rounds to go.
unfoldable pub read_descriptors : ℕ → Section → ℕ → ℕ → Reader (List ImportEntry)
unfolding read_thunks to_abs seek read_u32 read_cstring
read_descriptors zero sec sec_raw desc_rva = pure []
read_descriptors (suc left) sec sec_raw desc_rva = elim (to_abs sec sec_raw desc_rva) [
  | none ↦ pure []
  | some desc_off ↦
      let rest = read_descriptors left sec sec_raw (desc_rva + 20) in
      seek desc_off >>= λ _. read_u32 >>= λ oft. read_u32 >>= λ time_date. read_u32 >>= λ forwarder.
      read_u32 >>= λ name_rva. read_u32 >>= λ first_thunk.
      if oft == 0 && name_rva == 0 && first_thunk == 0
      then pure []
      else elim (to_abs sec sec_raw name_rva) [
        | none ↦ rest
        | some dll_off ↦ seek dll_off >>= λ _. read_cstring >>= λ dll.
            read_thunks 2048 sec sec_raw dll (if oft == 0 then first_thunk else oft) >>= λ entries.
            rest >>= λ more. pure (entries ++ more)
      ]
]

abbrev read_from : Section → Option ℕ → ℕ → Reader (List ImportEntry)
unfolding read_descriptors
read_from sec none rva = pure []
read_from sec (some sec_raw) rva = read_descriptors 2048 sec sec_raw rva

-- _read_imports
unfoldable pub read_imports : List Section → List RawEntry → ℕ → Reader (List ImportEntry)
unfolding section_at raw_of read_descriptors
read_imports sections raw_by_name import_rva = elim (section_at sections import_rva) [
  | none ↦ pure []
  | some sec ↦ read_from sec (raw_of sec.name raw_by_name) import_rva
]
