-- ===== src/Imports/Elf/Safety.antt =====
-- The ELF parser never reads a structure out of bounds.
use ai_reverse_agent.Prelude.{
  ℕ, zero, suc, ◌+◌, ◌*◌, ◌≤◌, ◌≡◌, ◌≢◌, refl, Bool, true, false, not, ◌&&◌, ◌||◌, inl, inr, List,
  [], ◌∷◌, Option, none, some, ltb, leb, arith, ◌==◌, length, get_or, get_elem?, if◌then◌else◌,
  Bool-cases,
}
use ai_reverse_agent.Result.{Result, ok, err, ◌>>=◌}
use ai_reverse_agent.Bytes.{Bytes, slice}
use ai_reverse_agent.Bytes.Search.{find}
use ai_reverse_agent.Text.Utf8.{decode_utf8}
use ai_reverse_agent.Text.{Text, text_eq, codes}
use ai_reverse_agent.Elf.{elf_magic}
use ai_reverse_agent.Architecture.{Endianness}
use ai_reverse_agent.Imports.{
  MagicError, struct_error, refuse, validate_bytes, truncated_elf32_header, truncated_elf64_header,
  section_outside, unterminated_elf_string, symbols_outside, small_symbol_entry,
  bad_section_dimensions, truncated_elf_sections, truncated_elf_header, unsupported_elf, too_large,
  unsupported_magic, max_static_file_size, has_magic,
}
use ai_reverse_agent.Imports.Elf.{
  ElfLayout, ElfSection, calcsize, unpack_from, section_format, symbol_format, read_header,
  section_of, is_outside, read_sections, table_string, section_bytes, symbol_name, symbol_section,
  read_symbol, read_symbols, linked, entry_size_of, read_dynamic, section_imports, all_imports,
  names_of, has_bad_dimensions, layout_of, parse_sections, parse_elf_imports, decoded_utf8,
  sht_nobits, sht_dynsym, known_byte,
}

abbrev pub is_struct_error : MagicError → Bool
is_struct_error struct_error = true
is_struct_error _ = false

-- The call does not raise struct.error.
abbrev pub is_safe {ℓ} : {A : Type ℓ} → Result MagicError A → Bool
is_safe (ok a) = true
is_safe (err e) = not (is_struct_error e)

-- A chain is safe if its first part is, and the rest is wherever the first part returns.
bind-is_safe {ℓ κ} :
    {A : Type ℓ} {B : Type κ} (m : Result MagicError A) (f : A → Result MagicError B)
    → is_safe m ≡ true
    → ((a : A) → m ≡ ok a → is_safe (f a) ≡ true)
    → is_safe (m >>= f) ≡ true
bind-is_safe (ok a) f h k = k a refl
bind-is_safe (err e) f h k = h

refuse-is_safe :
    {B : Type 0} (t : Bool) (e : MagicError) (f : Unit {0} → Result MagicError B)
    → is_struct_error e ≡ false
    → (t ≡ false → is_safe (f tt) ≡ true)
    → is_safe (refuse t e >>= f) ≡ true
refuse-is_safe true e f h k = rw h refl
refuse-is_safe false e f h k = k refl

unpack_from-is_safe :
    (e : Endianness) (ws : List ℕ) (b : Bytes) (offset : ℕ)
    → offset + calcsize ws ≤ length b
    → is_safe (unpack_from e ws b offset) ≡ true
unfolding unpack_from
unpack_from-is_safe e ws b offset h =
    let t : ltb (length b) (offset + calcsize ws) ≡ false = ground (arith, h) in rw t refl

read_header-is_safe : (l : ElfLayout) (b : Bytes) → is_safe (read_header l b) ≡ true
unfolding read_header calcsize
read_header-is_safe l b = elim (Bool-cases l.narrow) [
  | inl e ↦ rw e (
      refuse-is_safe (ltb (length b) 52) truncated_elf32_header _ refl (λ t.
        bind-is_safe _ _ (unpack_from-is_safe l.byte_order (4 ∷ []) b 32 (ground arith))
          (λ offsets _.
            bind-is_safe _ _ (unpack_from-is_safe l.byte_order (2 ∷ 2 ∷ 2 ∷ []) b 46 (ground arith))
              (λ dimensions _. refl))))
  | inr e ↦ rw e (
      refuse-is_safe (ltb (length b) 64) truncated_elf64_header _ refl (λ t.
        bind-is_safe _ _ (unpack_from-is_safe l.byte_order (8 ∷ []) b 40 (ground arith))
          (λ offsets _.
            bind-is_safe _ _ (unpack_from-is_safe l.byte_order (2 ∷ 2 ∷ 2 ∷ []) b 58 (ground arith))
              (λ dimensions _. refl))))
]

read_sections-is_safe :
    (l : ElfLayout) (b : Bytes) (entry_size left offset : ℕ)
    → calcsize (section_format l.narrow) ≤ entry_size
    → offset + entry_size * left ≤ length b
    → is_safe (read_sections l b entry_size left offset) ≡ true
unfolding read_sections
read_sections-is_safe l b entry_size zero offset w h = refl
read_sections-is_safe l b entry_size (suc left) offset w h =
    bind-is_safe _ _
      (unpack_from-is_safe l.byte_order (section_format l.narrow) b offset (ground (arith, w, h)))
      (λ fs _. refuse-is_safe (is_outside b (section_of fs)) section_outside _ refl (λ t.
        bind-is_safe _ _
          (read_sections-is_safe l b entry_size left (offset + entry_size) w (ground (arith, h)))
          (λ rest _. refl)))

table_string-is_safe : (table : Bytes) (offset : ℕ) → is_safe (table_string table offset) ≡ true
unfolding table_string
table_string-is_safe table offset = elim (Bool-cases (leb (length table) offset)) [
  | inl e ↦ rw e refl
  | inr e ↦ rw e (go (find (0 ∷ []) table offset))
]
  where
    decoded-is_safe : (o : Option Text) → is_safe (decoded_utf8 o) ≡ true
    decoded-is_safe none = refl
    decoded-is_safe (some t) = refl

    go :
        (o : Option ℕ)
        → is_safe (elim o [
          | none ↦ err unterminated_elf_string
          | some end ↦ decoded_utf8 (decode_utf8 (slice table offset end))
        ])
          ≡ true
    go none = refl
    go (some end) = decoded-is_safe (decode_utf8 (slice table offset end))

read_symbol-is_safe :
    (l : ElfLayout) (strings : Bytes) (index : ℕ) (fs : List ℕ)
    → is_safe (read_symbol l strings index fs) ≡ true
unfolding read_symbol
read_symbol-is_safe l strings index fs =
    elim (Bool-cases
      (index == 0 || not (symbol_section l.narrow fs == 0) || symbol_name l.narrow fs == 0)) [
        | inl e ↦ rw e refl
        | inr e ↦ rw e (
            bind-is_safe _ _ (table_string-is_safe strings (symbol_name l.narrow fs))
              (λ name _. refl))
      ]

read_symbols-is_safe :
    (l : ElfLayout) (b strings : Bytes) (entry_size left index offset : ℕ)
    → is_safe (read_symbols l b strings entry_size left index offset) ≡ true
unfolding read_symbols
read_symbols-is_safe l b strings entry_size zero index offset = refl
read_symbols-is_safe l b strings entry_size (suc left) index offset =
    refuse-is_safe (ltb (length b) (offset + calcsize (symbol_format l.narrow))) symbols_outside _
      refl
      (λ t.
        bind-is_safe _ _
          (unpack_from-is_safe l.byte_order (symbol_format l.narrow) b offset (ground arith))
          (λ fs _. bind-is_safe _ _ (read_symbol-is_safe l strings index fs) (λ own _.
            bind-is_safe _ _
              (read_symbols-is_safe l b strings entry_size left (index + 1) (offset + entry_size))
              (λ rest _. refl))))

read_dynamic-is_safe :
    (l : ElfLayout) (b : Bytes) (sections : List ElfSection) (s : ElfSection)
    → is_safe (read_dynamic l b sections s) ≡ true
unfolding read_dynamic
read_dynamic-is_safe l b sections s =
    bind-is_safe _ _ (linked-is_safe (get_elem? sections s.link)) (λ strings _.
      refuse-is_safe (ltb (entry_size_of l.narrow s) (calcsize (symbol_format l.narrow)))
        small_symbol_entry _ refl
        (λ t. read_symbols-is_safe l b (section_bytes b strings) _ _ 0 s.offset))
  where
    linked-is_safe : (o : Option ElfSection) → is_safe (linked o) ≡ true
    linked-is_safe none = refl
    linked-is_safe (some t) = refl

section_imports-is_safe :
    (l : ElfLayout) (b names : Bytes) (sections : List ElfSection) (s : ElfSection)
    → is_safe (section_imports l b names sections s) ≡ true
unfolding section_imports
section_imports-is_safe l b names sections s = elim (Bool-cases (s.kind == sht_nobits)) [
  | inl e ↦ rw e refl
  | inr e ↦ rw e (
      bind-is_safe _ _ (table_string-is_safe names s.name_offset)
        (λ name _. either (not (s.kind == sht_dynsym) && not (text_eq name (codes ".dynsym")))))
]
  where
    either : (t : Bool) → is_safe (if t then ok [] else read_dynamic l b sections s) ≡ true
    either true = refl
    either false = read_dynamic-is_safe l b sections s

all_imports-is_safe :
    (l : ElfLayout) (b names : Bytes) (sections ss : List ElfSection)
    → is_safe (all_imports l b names sections ss) ≡ true
unfolding all_imports
all_imports-is_safe l b names sections [] = refl
all_imports-is_safe l b names sections (s ∷ ss) =
    bind-is_safe _ _ (section_imports-is_safe l b names sections s)
      (λ own _. bind-is_safe _ _ (all_imports-is_safe l b names sections ss) (λ rest _. refl))

parse_sections-is_safe : (l : ElfLayout) (b : Bytes) → is_safe (parse_sections l b) ≡ true
unfolding parse_sections has_bad_dimensions
parse_sections-is_safe l b = bind-is_safe _ _ (read_header-is_safe l b) (λ h _.
    refuse-is_safe (has_bad_dimensions l h) bad_section_dimensions _ refl (λ possible.
      refuse-is_safe (ltb (length b) (h.section_offset + h.section_entry_size * h.section_count))
        truncated_elf_sections _ refl
        (λ whole.
          bind-is_safe _ _
            (read_sections-is_safe l b h.section_entry_size h.section_count h.section_offset
              (ground (arith, possible)) (ground (arith, whole)))
            (λ sections _.
              bind-is_safe _ _ (names-is_safe (get_elem? sections h.names_index))
                (λ names _. all_imports-is_safe l b (section_bytes b names) sections sections)))))
  where
    names-is_safe : (o : Option ElfSection) → is_safe (names_of o) ≡ true
    names-is_safe none = refl
    names-is_safe (some s) = refl

-- Whatever the bytes are, the ELF import parser returns or raises a MagicError, never
-- struct.error: the bounds that it checks first keep every structure that it unpacks within the
-- file.
pub parse_elf_imports_safe : (b : Bytes) → parse_elf_imports b ≢ err struct_error
unfolding parse_elf_imports validate_bytes
parse_elf_imports_safe b h =
    let safe : is_safe (parse_elf_imports b) ≡ true =
      bind-is_safe _ _
        (validate-is_safe (ltb max_static_file_size (length b))
          (not (has_magic b (elf_magic ∷ []))))
        (λ checked _. refuse-is_safe (ltb (length b) 52) truncated_elf_header _ refl (λ header.
          refuse-is_safe (not (known_byte (get_or b 4 0)) || not (known_byte (get_or b 5 0)))
            unsupported_elf _ refl (λ known. parse_sections-is_safe (layout_of b) b))) in
    cc
  where
    validate-is_safe :
        (s t : Bool)
        → is_safe {A = Unit {0}}
            (if s then err too_large else if t then err unsupported_magic else ok tt)
          ≡ true
    validate-is_safe true t = refl
    validate-is_safe false true = refl
    validate-is_safe false false = refl
