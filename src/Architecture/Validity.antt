-- ===== src/Architecture/Validity.antt =====
-- The checks of `ArchitectureSpec.__post_init__` on the specs that architecture.py makes.
use ai_reverse_agent.Prelude.{
  ℕ, ◌≡◌, refl, ap, inl, inr, true, false, ◌&&◌, List, [], ◌∷◌, Option, none, some, arith, All,
  Bool-cases, ◌==◌,
}
use ai_reverse_agent.Result.{Result, ok, err, ◌>>=◌, bind_inversion}
use ai_reverse_agent.Architecture.{
  Architecture, Endianness, little, ArchitectureError, unsupported_pe_machine, ArchitectureSpec,
  bits_are_valid, is_big, is_little_only, make_spec, lookup_number, Target, pe_machine_specs,
  ArchitectureName, EndiannessName, resolve_name, resolve_endianness, resolve_architecture,
  known_pe_machine, architecture_from_pe_machine, bits_or_default,
}

-- The two checks of __post_init__.
pub record IsValidSpec (s : ArchitectureSpec) : Type 0 where
  pub width : bits_are_valid s.architecture s.bits ≡ true
  pub byte_order : is_big s.endianness && is_little_only s.architecture ≡ false

pub make_spec_inversion :
    (a : Architecture) (bits : ℕ) (e : Endianness) (s : ArchitectureSpec)
    → make_spec a bits e ≡ ok s
    → IsValidSpec s × (s ≡ record { architecture = a; bits = bits; endianness = e })
unfolding make_spec
make_spec_inversion a bits e s h = ground arith

-- A spec that is resolved from a name is valid, and has the architecture of the name and the
-- width and the byte order that were asked for; without a width it has the name's own.
pub resolve_architecture-IsValidSpec :
    (value : ArchitectureName) (bits : Option ℕ) (e : EndiannessName) (s : ArchitectureSpec)
    → resolve_architecture value bits e ≡ ok s
    → IsValidSpec s
      × ((entry : Target) × (resolve_name value ≡ ok entry)
          × (s.architecture ≡ entry.0)
          × (s.bits ≡ bits_or_default bits entry.1))
      × (resolve_endianness e ≡ ok s.endianness)
unfolding resolve_architecture
resolve_architecture-IsValidSpec value bits e s h =
    let (entry, p, q) = bind_inversion (resolve_name value) _ h in
    let (o, p', q') = bind_inversion (resolve_endianness e) _ q in
    let (v, same) = make_spec_inversion entry.0 (bits_or_default bits entry.1) o s q' in
    (
      v,
      (
        entry,
        p,
        ap (λ (t : ArchitectureSpec). t.architecture) same,
        ap (λ (t : ArchitectureSpec). t.bits) same,
      ),
      rw same p',
    )

lookup_number-All {κ} :
    {V : Type 0} (P : V → Type κ) (k : ℕ) (table : List (ℕ × V)) (v : V)
    → All (λ e. P e.1) table
    → lookup_number k table ≡ some v
    → P v
unfolding lookup_number
lookup_number-All P k [] v a h = absurd (cc)
lookup_number-All P k ((j, w) ∷ rest) v a h = elim (Bool-cases (j == k)) [
  | inl e ↦ let same : w ≡ v = ground (arith, e) in rw same at a.0
  | inr e ↦ lookup_number-All P k rest v a.1 (rw e at h)
]

pub make_spec_little :
    (a : Architecture) (bits : ℕ)
    → bits_are_valid a bits ≡ true
    → make_spec a bits little ≡ ok (record { architecture = a; bits = bits; endianness = little })
unfolding make_spec
make_spec_little a bits h = rw h refl

-- Every entry of the PE table has a width that its architecture allows.
pe_machine_specs_valid :
    All (λ (e : ℕ × Target). bits_are_valid e.1.0 e.1.1 ≡ true) pe_machine_specs
unfolding bits_are_valid
pe_machine_specs_valid = ground arith

-- What a look-up in the PE table means.
abbrev pub pe_outcome : Option Target → Result ArchitectureError ArchitectureSpec
pe_outcome none = err unsupported_pe_machine
pe_outcome (some t) = ok (record { architecture = t.0; bits = t.1; endianness = little })

-- A machine number of the PE table gives its architecture and width, little-endian, and never
-- fails the checks of the spec; any other number is reported as unsupported.
pub architecture_from_pe_machine_lem :
    (machine : ℕ)
    → architecture_from_pe_machine machine ≡ pe_outcome (lookup_number machine pe_machine_specs)
unfolding architecture_from_pe_machine
architecture_from_pe_machine_lem machine = go (lookup_number machine pe_machine_specs) refl
  where
    go :
        (o : Option Target)
        → lookup_number machine pe_machine_specs ≡ o
        → (known_pe_machine o >>= λ t. make_spec t.0 t.1 little) ≡ pe_outcome o
    go none e = refl
    go (some t) e = make_spec_little t.0 t.1 (
        lookup_number-All (λ (u : Target). bits_are_valid u.0 u.1 ≡ true) machine pe_machine_specs t
          pe_machine_specs_valid e)
