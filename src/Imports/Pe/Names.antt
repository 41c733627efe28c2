-- ===== src/Imports/Pe/Names.antt =====
-- The names in the import table of a PE file.
use Prim.Native.Nat.{min}
use mathlib.Core.Path.{subst}
use ai_reverse_agent.Prelude.{
  ℕ, zero, suc, ◌+◌, ◌-◌, ◌%◌, ◌||◌, ◌<◌, ◌≤◌, ◌≡◌, refl, sym, ap, true, inl, inr, List, [], ◌∷◌,
  Option, none, some, arith, length, take, drop, All, All-append, Bool-cases, ltb, leb, ◌==◌,
  if◌then◌else◌, length-drop, length-take,
}
use ai_reverse_agent.Prelude.Int.{pos}
use ai_reverse_agent.Result.{ok, err, bind_inversion, ok_unique}
use ai_reverse_agent.Bytes.{Bytes, slice}
use ai_reverse_agent.Bytes.Search.{find, find_suffix}
use ai_reverse_agent.Text.{Text, codes}
use ai_reverse_agent.Text.Numbers.{decimal}
use ai_reverse_agent.Text.Numbers.Digits.{IsPlain, padded-IsPlain}
use ai_reverse_agent.Imports.{
  ImportedSymbol, unterminated_string, refuse, validate_bytes, truncated_dos_header,
  invalid_pe_signature, truncated_optional_header, no_import_directory,
}
use ai_reverse_agent.Imports.Pe.{
  PeLayout, is_ascii, decode_ascii, cstring, read_symbol, read_thunks, read_library,
  read_descriptors, imports_from, parse_directory, parse_pe_imports, is_ordinal, ordinal_symbol,
  rva_to_offset, integer, all_zero, optional_layout, read_sections, lacks_signature, make_layout,
}

-- What is found of a NUL has no NUL before it.
find_nul :
    (b : Bytes) (k o : ℕ)
    → find_suffix (0 ∷ []) b k ≡ some o
    → (d : ℕ) × (o ≡ k + d) × All (λ c. 0 < c) (take d b) × (d < length b)
unfolding find_suffix ai_reverse_agent.Bytes.starts_with
find_nul [] k o h = absurd (cc)
find_nul (c ∷ cs) k o h = elim (Bool-cases (c == 0)) [
  | inl e ↦ (0, ground (arith, h, e), tt, omega arith)
  | inr e ↦
      let h' : find_suffix (0 ∷ []) cs (k + 1) ≡ some o = rw e at h in
      let (d, p, q, r) = find_nul cs (k + 1) o h' in
      (suc d, omega arith, (ground arith, q), omega arith)
]

found_nul :
    (b : Bytes) (start o : ℕ)
    → find (0 ∷ []) b start ≡ some o
    → (d : ℕ) × (o ≡ start + d) × All (λ c. 0 < c) (take d (drop start b)) × (start + d < length b)
unfolding find
found_nul b start o h = elim (Bool-cases (ltb (length b) start)) [
  | inl e ↦ absurd (let h' = rw e at h in cc)
  | inr e ↦
      let (d, p, q, r) = find_nul (drop start b) start o (rw e at h) in
      (d, p, q, ground (arith, r, length-drop start b))
]

take-take : (n m : ℕ) (b : Bytes) → n ≤ m → take n (take m b) ≡ take n b
take-take zero m b h = refl
take-take (suc n) zero b h = absurd (omega arith)
take-take (suc n) (suc m) [] h = refl
take-take (suc n) (suc m) (c ∷ cs) h = ap (λ t. c ∷ t) (take-take n m cs (omega arith))

take-drop-take :
    (n m o : ℕ) (b : Bytes) → o + n ≤ m → take n (drop o (take m b)) ≡ take n (drop o b)
take-drop-take n m zero b h = take-take n m b (omega arith)
take-drop-take n zero (suc o) b h = absurd (omega arith)
take-drop-take n (suc m) (suc o) [] h = refl
take-drop-take n (suc m) (suc o) (c ∷ cs) h = take-drop-take n m o cs (omega arith)

is_ascii-All : (t : Bytes) → is_ascii t ≡ true → All (λ c. 0 < c) t → IsPlain t
unfolding is_ascii
is_ascii-All [] h k = tt
is_ascii-All (c ∷ cs) h k = ((k.0, ground (arith, h)), is_ascii-All cs (ground (arith, h)) k.1)

decode_ascii_inversion :
    (u : Bytes) (t : Text) → decode_ascii u ≡ ok t → (t ≡ u) × (is_ascii u ≡ true)
decode_ascii_inversion u t h = elim (Bool-cases (is_ascii u)) [
  | inl e ↦ (ok_unique _ refl (sym (rw e at h)), e)
  | inr e ↦ absurd (let h' = rw e at h in cc)
]

cstring-IsPlain : (b : Bytes) (offset : ℕ) (t : Text) → cstring b offset ≡ ok t → IsPlain t
unfolding cstring slice find
cstring-IsPlain b offset t h = elim (Bool-cases (leb (length b) offset)) [
  | inl e ↦ absurd (let h' = rw e at h in cc)
  | inr e ↦ go (find (0 ∷ []) (take (min (length b) (offset + 512)) b) offset) refl (rw e at h)
]
  where
    go :
        (found : Option ℕ)
        → find (0 ∷ []) (take (min (length b) (offset + 512)) b) offset ≡ found
        → elim found [
          | none ↦ err unterminated_string
          | some end ↦ decode_ascii (slice b offset end)
        ]
          ≡ ok t
        → IsPlain t
    go none e h = absurd (cc)
    go (some end) e h =
        let (d, p, q, r) = found_nul (take (min (length b) (offset + 512)) b) offset end e in
        let width : end - offset ≡ d = omega (arith, p) in
        let (same, ascii) = decode_ascii_inversion (slice b offset end) t h in
        let inside : offset + d ≤ min (length b) (offset + 512) =
          omega (arith, r, length-take (min (length b) (offset + 512)) b) in
        let whole : slice b offset end ≡ take d (drop offset b) =
          ap (λ n. take n (drop offset b)) width in
        let clean = rw (take-drop-take d (min (length b) (offset + 512)) offset b inside) at q in
        subst IsPlain (sym same)
          (is_ascii-All (slice b offset end) ascii (subst (All (λ c. 0 < c)) (sym whole) clean))

-- A symbol whose two names are ASCII without NUL, and which has an address.
pub record IsImport (s : ImportedSymbol) : Type 0 where
  pub library : IsPlain s.library
  pub name : IsPlain s.name
  pub placed : (a : ℕ) × (s.address ≡ some a)

ordinal_symbol-IsImport :
    (library : Text) (value address : ℕ)
    → IsPlain library
    → IsImport (ordinal_symbol library value address)
unfolding ordinal_symbol
ordinal_symbol-IsImport library value address k = record {
  library = k;
  name =
      All-append (λ c. (0 < c) × (c < 128)) (codes "ordinal_") (decimal (pos (value % 0x10000)))
        (ground arith) (padded-IsPlain 10 0 (pos (value % 0x10000)) (omega arith) (omega arith));
  placed = (address, refl);
}

read_symbol-IsImport :
    (b : Bytes) (l : PeLayout) (library : Text) (address value : ℕ) (s : ImportedSymbol)
    → IsPlain library
    → read_symbol b l library address value ≡ ok s
    → IsImport s
unfolding read_symbol
read_symbol-IsImport b l library address value s k h = elim (Bool-cases (is_ordinal l value)) [
  | inl e ↦
      let same : ordinal_symbol library value address ≡ s = ok_unique _ refl (rw e at h) in
      subst IsImport same (ordinal_symbol-IsImport library value address k)
  | inr e ↦
      let (offset, p, q) = bind_inversion (rva_to_offset b l value) _ (rw e at h) in
      let (hint, p', q') = bind_inversion (integer b offset 2) _ q in
      let (name, p'', q'') = bind_inversion (cstring b (offset + 2)) _ q' in
      subst IsImport (ok_unique _ refl q'') (record {
        library = k;
        name = cstring-IsPlain b (offset + 2) name p'';
        placed = (address, refl);
      })
]

read_thunks-IsImport :
    (b : Bytes) (l : PeLayout) (library : Text) (left offset address : ℕ) (ss : List ImportedSymbol)
    → IsPlain library
    → read_thunks b l library left offset address ≡ ok ss
    → All IsImport ss
unfolding read_thunks
read_thunks-IsImport b l library zero offset address ss k h = absurd (cc)
read_thunks-IsImport b l library (suc left) offset address ss k h =
    let (value, p, q) = bind_inversion (integer b offset l.thunk_size) _ h in
    elim (Bool-cases (value == 0)) [
      | inl e ↦ subst (All IsImport) (ok_unique _ refl (rw e at q)) tt
      | inr e ↦
          let (s, p', q') = bind_inversion (read_symbol b l library address value) _ (rw e at q) in
          let (rest, p'', q'') =
            bind_inversion
              (read_thunks b l library left (offset + l.thunk_size) (address + l.thunk_size)) _
              q' in
          subst (All IsImport) (ok_unique _ refl q'') (
            read_symbol-IsImport b l library address value s k p',
            read_thunks-IsImport b l library left _ _ rest k p'',
          )
    ]

read_library-IsImport :
    (b : Bytes) (l : PeLayout) (original_thunk name_rva first_thunk : ℕ) (ss : List ImportedSymbol)
    → read_library b l original_thunk name_rva first_thunk ≡ ok ss
    → All IsImport ss
unfolding read_library
read_library-IsImport b l original_thunk name_rva first_thunk ss h =
    let (offset, p, q) = bind_inversion (rva_to_offset b l name_rva) _ h in
    let (library, p', q') = bind_inversion (cstring b offset) _ q in
    let (thunks, p'', q'') =
      bind_inversion
        (rva_to_offset b l (if original_thunk == 0 then first_thunk else original_thunk)) _ q' in
    read_thunks-IsImport b l library 65536 thunks first_thunk ss
      (cstring-IsPlain b offset library p') q''

read_descriptors-IsImport :
    (b : Bytes) (l : PeLayout) (left offset : ℕ) (ss : List ImportedSymbol)
    → read_descriptors b l left offset ≡ ok ss
    → All IsImport ss
unfolding read_descriptors
read_descriptors-IsImport b l zero offset ss h = absurd (cc)
read_descriptors-IsImport b l (suc left) offset ss h =
    elim (Bool-cases (ltb (length b) (offset + 20))) [
      | inl e ↦ absurd (let h' = rw e at h in cc)
      | inr e ↦
          let (a₀, p₀, q₀) = bind_inversion (integer b offset 4) _ (rw e at h) in
          let (a₁, p₁, q₁) = bind_inversion (integer b (offset + 4) 4) _ q₀ in
          let (a₂, p₂, q₂) = bind_inversion (integer b (offset + 8) 4) _ q₁ in
          let (a₃, p₃, q₃) = bind_inversion (integer b (offset + 12) 4) _ q₂ in
          let (a₄, p₄, q₄) = bind_inversion (integer b (offset + 16) 4) _ q₃ in
          elim (Bool-cases (all_zero (a₀ ∷ a₁ ∷ a₂ ∷ a₃ ∷ a₄ ∷ []))) [
            | inl e' ↦ subst (All IsImport) (ok_unique _ refl (rw e' at q₄)) tt
            | inr e' ↦
                let (own, p, q) = bind_inversion (read_library b l a₀ a₃ a₄) _ (rw e' at q₄) in
                let (rest, p', q') = bind_inversion (read_descriptors b l left (offset + 20)) _ q in
                subst (All IsImport) (ok_unique _ refl q') (
                  All-append IsImport own rest (read_library-IsImport b l a₀ a₃ a₄ own p)
                    (read_descriptors-IsImport b l left (offset + 20) rest p'))
          ]
    ]

parse_directory-IsImport :
    (b : Bytes) (offset count size : ℕ) (ss : List ImportedSymbol)
    → parse_directory b offset count size ≡ ok ss
    → All IsImport ss
unfolding parse_directory imports_from
parse_directory-IsImport b offset count size ss h =
    let (_, p₀, q₀) =
      bind_inversion (refuse (ltb (length b) (offset + size)) truncated_optional_header) _ h in
    let (magic, p₁, q₁) = bind_inversion (integer b offset 2) _ q₀ in
    let (layout, p₂, q₂) = bind_inversion (optional_layout magic) _ q₁ in
    let (_, p₃, q₃) =
      bind_inversion (refuse (ltb (offset + size) (offset + layout.0 + 16)) no_import_directory) _
        q₂ in
    let (rva, p₄, q₄) = bind_inversion (integer b (offset + layout.0 + 8) 4) _ q₃ in
    let (span, p₅, q₅) = bind_inversion (integer b (offset + layout.0 + 12) 4) _ q₄ in
    elim (Bool-cases (rva == 0 || span == 0)) [
      | inl e ↦ subst (All IsImport) (ok_unique _ refl (rw e at q₅)) tt
      | inr e ↦
          let (sections, p₆, q₆) =
            bind_inversion (read_sections b count (offset + size)) _ (rw e at q₅) in
          let (start, p₇, q₇) =
            bind_inversion (rva_to_offset b (make_layout sections (offset + size) layout.1) rva) _
              q₆ in
          read_descriptors-IsImport b (make_layout sections (offset + size) layout.1) _ start ss q₇
    ]

-- Every symbol that the PE import parser returns has an address, and a library and a name that
-- are ASCII without NUL.
pub parse_pe_imports-IsImport :
    (b : Bytes) (ss : List ImportedSymbol) → parse_pe_imports b ≡ ok ss → All IsImport ss
unfolding parse_pe_imports
parse_pe_imports-IsImport b ss h =
    let (_, p₀, q₀) = bind_inversion (validate_bytes b ((b'M' ∷ b'Z' ∷ []) ∷ [])) _ h in
    let (_, p₁, q₁) = bind_inversion (refuse (ltb (length b) 0x40) truncated_dos_header) _ q₀ in
    let (pe, p₂, q₂) = bind_inversion (integer b 0x3C 4) _ q₁ in
    let (_, p₃, q₃) = bind_inversion (refuse (lacks_signature b pe) invalid_pe_signature) _ q₂ in
    let (count, p₄, q₄) = bind_inversion (integer b (pe + 6) 2) _ q₃ in
    let (size, p₅, q₅) = bind_inversion (integer b (pe + 20) 2) _ q₄ in
    parse_directory-IsImport b (pe + 24) count size ss q₅
