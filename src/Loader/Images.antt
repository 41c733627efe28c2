-- ===== src/Loader/Images.antt =====
-- What the default loader returns.
use ai_reverse_agent.Prelude.{
  ◌≡◌, refl, Bool, true, false, not, ◌&&◌, inl, inr, List, [], ◌∷◌, Bool-cases, if◌then◌else◌,
}
use mathlib.Core.Path.{subst}
use ai_reverse_agent.Result.{Result, ok, err, ◌>>=◌}
use ai_reverse_agent.Bytes.{Bytes, starts_with}
use ai_reverse_agent.Elf.{elf_magic}
use ai_reverse_agent.Scan.{Container, pe, elf, raw}
use ai_reverse_agent.Imports.{ImportedSymbol, MagicError, has_magic}
use ai_reverse_agent.Imports.Pe.{parse_pe_imports}
use ai_reverse_agent.Imports.Elf.{parse_elf_imports}
use ai_reverse_agent.Text.{Text}
use ai_reverse_agent.Loader.{
  BinaryImage, LoadError, BinaryBackend, Extractor, mz_magic, image, with_imports, minimal_load,
  pefile_backend, elftools_backend, recover, loaded, load_default, is_magic_error,
}

-- The container that the first bytes announce.
unfoldable pub announced : Bytes → Container
announced b = if starts_with b mz_magic then pe else if starts_with b elf_magic then elf else raw

-- The image has the bytes of the file, and the container that they announce.
pub record IsImage (b : Bytes) (i : BinaryImage) : Type 0 where
  pub whole : i.content ≡ b
  pub kind : i.container ≡ announced b

-- Where the call returns, it returns such an image.
abbrev Gives : Bytes → Result LoadError BinaryImage → Type 0
Gives b (ok i) = IsImage b i
Gives b (err e) = Unit

Gives-imports :
    (b : Bytes) (c : Container) (backend : Text) (r : Result MagicError (List ImportedSymbol))
    → c ≡ announced b
    → Gives b (with_imports b c backend r)
Gives-imports b c backend (ok imports) h = record { whole = refl; kind = h }
Gives-imports b c backend (err e) h = tt

Gives-extracted :
    (b : Bytes) (c : Container) (backend : Text) (r : Result LoadError (List ImportedSymbol))
    → c ≡ announced b
    → Gives b (r >>= λ imports. ok (image b c backend imports))
Gives-extracted b c backend (ok imports) h = record { whole = refl; kind = h }
Gives-extracted b c backend (err e) h = tt

if_Gives :
    (b : Bytes) (t : Bool) (x y : Result LoadError BinaryImage)
    → (t ≡ true → Gives b x)
    → (t ≡ false → Gives b y)
    → Gives b (if t then x else y)
if_Gives b true x y h k = h refl
if_Gives b false x y h k = k refl

announced_pe : (b : Bytes) → starts_with b mz_magic ≡ true → pe ≡ announced b
unfolding announced
announced_pe b h = rw h refl

announced_elf :
    (b : Bytes)
    → starts_with b mz_magic ≡ false
    → starts_with b elf_magic ≡ true
    → elf ≡ announced b
unfolding announced
announced_elf b h k = rw (h, k) refl

announced_raw :
    (b : Bytes)
    → starts_with b mz_magic ≡ false
    → starts_with b elf_magic ≡ false
    → raw ≡ announced b
unfolding announced
announced_raw b h k = rw (h, k) refl

minimal_load-Gives : (b : Bytes) → Gives b (minimal_load b)
unfolding minimal_load
minimal_load-Gives b =
    if_Gives b (starts_with b mz_magic) _ _
      (λ h. Gives-imports b pe _ (parse_pe_imports b) (announced_pe b h))
      (λ h.
        if_Gives b (starts_with b elf_magic) _ _
          (λ k. Gives-imports b elf _ (parse_elf_imports b) (announced_elf b h k)) (λ k. tt))

recover-Gives :
    (fallback : Bool) (backend : BinaryBackend) (b : Bytes) (e : LoadError)
    → Gives b (recover fallback backend b e)
unfolding recover
recover-Gives fallback backend b e =
    elim (Bool-cases (
      is_magic_error e
      && fallback
      && has_magic b (mz_magic ∷ elf_magic ∷ [])
      && not backend.is_minimal)) [ inl t ↦ rw t (minimal_load-Gives b) | inr t ↦ rw t tt ]

loaded-Gives :
    (fallback : Bool) (backend : BinaryBackend) (b : Bytes) (r : Result LoadError BinaryImage)
    → Gives b r
    → Gives b (loaded fallback backend b r)
unfolding loaded
loaded-Gives fallback backend b (ok i) h = h
loaded-Gives fallback backend b (err e) h = recover-Gives fallback backend b e

load_default-Gives :
    (pefile pyelftools : Extractor) (b : Bytes) → Gives b (load_default pefile pyelftools b)
unfolding load_default
load_default-Gives pefile pyelftools b =
    if_Gives b (starts_with b mz_magic) _ _
      (λ h.
        loaded-Gives true (pefile_backend pefile) b _
          (Gives-extracted b pe _ (pefile b) (announced_pe b h)))
      (λ h.
        if_Gives b (starts_with b elf_magic) _ _
          (λ k.
            loaded-Gives true (elftools_backend pyelftools) b _
              (Gives-extracted b elf _ (pyelftools b) (announced_elf b h k)))
          (λ k. record { whole = refl; kind = announced_raw b h k }))

-- Whatever the libraries make of a file, the image that the default loader returns has the bytes
-- of the file, and is a PE or an ELF image, or a raw one, as the first bytes say.
pub load_default-IsImage :
    (pefile pyelftools : Extractor) (b : Bytes) (i : BinaryImage)
    → load_default pefile pyelftools b ≡ ok i
    → IsImage b i
load_default-IsImage pefile pyelftools b i h =
    subst (Gives b) h (load_default-Gives pefile pyelftools b)
