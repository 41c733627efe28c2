-- ===== src/Architecture/Names.antt =====
-- `resolve_architecture` on the names of the specs.
use ai_reverse_agent.Prelude.{
  ℕ, ◌≡◌, refl, inl, inr, true, false, List, [], ◌∷◌, none, some, arith, All, Bool-cases, ◌==◌,
}
use ai_reverse_agent.Result.{ok, bind_ok}
use ai_reverse_agent.Text.{Text, codes, text_eq}
use ai_reverse_agent.Architecture.{
  Architecture, x86, x64, arm, aarch64, mips, riscv, little, Target, ArchitectureName, canonical,
  named, order, bits_are_valid, lookup_text, normalize_name, aliases, default_bits, resolve_name,
  resolve_architecture,
}
use ai_reverse_agent.Architecture.Validity.{make_spec_little}

-- What a spec is called without its byte order.
abbrev pub spec_name : Architecture → ℕ → Text
spec_name x86 bits = codes "x86"
spec_name x64 bits = codes "x64"
spec_name arm bits = codes "arm"
spec_name aarch64 bits = codes "aarch64"
spec_name mips bits = elim (bits == 64) [ true ↦ codes "mips64" | false ↦ codes "mips32" ]
spec_name riscv bits = elim (bits == 64) [ true ↦ codes "riscv64" | false ↦ codes "riscv32" ]

-- Every alias and every architecture has a width of its own that passes the checks.
aliases_valid : All (λ (e : Text × Target). bits_are_valid e.1.0 e.1.1 ≡ true) aliases
unfolding bits_are_valid
aliases_valid = ground arith

default_bits_valid : (a : Architecture) → bits_are_valid a (default_bits a) ≡ true
unfolding bits_are_valid default_bits
default_bits_valid x86 = refl
default_bits_valid x64 = refl
default_bits_valid arm = refl
default_bits_valid aarch64 = refl
default_bits_valid mips = refl
default_bits_valid riscv = refl

lookup_text-All :
    (k : Text) (table : List (Text × Target)) (t : Target)
    → All (λ (e : Text × Target). bits_are_valid e.1.0 e.1.1 ≡ true) table
    → lookup_text k table ≡ some t
    → bits_are_valid t.0 t.1 ≡ true
unfolding lookup_text
lookup_text-All k [] t a h = absurd (cc)
lookup_text-All k ((j, u) ∷ rest) t a h = elim (Bool-cases (text_eq j k)) [
  | inl e ↦ let same : u ≡ t = ground (arith, e) in rw same at a.0
  | inr e ↦ lookup_text-All k rest t a.1 (rw e at h)
]

resolve_name_valid :
    (value : ArchitectureName) (t : Target)
    → resolve_name value ≡ ok t
    → bits_are_valid t.0 t.1 ≡ true
unfolding resolve_name
resolve_name_valid (canonical a) t h =
    let same : (a, default_bits a) ≡ t = cc in rw (← same) (default_bits_valid a)
resolve_name_valid (named n) t h =
    lookup_text-All (normalize_name n) aliases t aliases_valid (ground (arith, h))

-- Every name that is known resolves, without a width and little-endian, to the spec of its
-- architecture and its own width: no entry of the aliases or of the default widths fails the
-- checks of the spec.
pub resolve_architecture_defaults :
    (value : ArchitectureName) (t : Target)
    → resolve_name value ≡ ok t
    → resolve_architecture value none (order little)
      ≡ ok (record { architecture = t.0; bits = t.1; endianness = little })
unfolding resolve_architecture
resolve_architecture_defaults value t h =
    bind_ok _ _ h (make_spec_little t.0 t.1 (resolve_name_valid value t h))
