-- ===== src/Identifier/Functions.antt =====
-- `identify_functions` of identifier.py: its entries against the image.
use mathlib.Core.Path.{subst}
use ai_reverse_agent.Prelude.{
  ℕ, ◌≡◌, refl, sym, true, false, ◌&&◌, ◌||◌, List, [], ◌∷◌, ◌++◌, inl, inr, ◌⊎◌, arith, All,
  Member, Member-append_left, All-intro, All_at, All-append, Bool-cases,
}
use ai_reverse_agent.Text.{text_eq, text_eq_iff}
use ai_reverse_agent.Identifier.{
  ImportEntry, FunctionEntry, PeImage, entry_point, imported, local, entry, IdentifiedFunction,
  ImportKey, import_key, key_seen, from_import, import_functions, already_imported, local_functions,
  has_address, entry_function, identify_functions,
}

-- The import has an entry with its name and its DLL.
pub IsListed : List IdentifiedFunction → ImportEntry → Type 0
IsListed out i =
    (f : IdentifiedFunction) × Member f out
    × (f.kind ≡ imported)
    × (f.name ≡ i.function)
    × (f.dll ≡ i.dll)

-- An entry of its kind: an import of the image; a function of the table whose name no import has; or
-- the entry point.
pub HasReason : PeImage → IdentifiedFunction → Type 0
HasReason pe f =
    ((i : ImportEntry) × Member i pe.imports × (f ≡ from_import pe i))
    ⊎ (((g : FunctionEntry) × Member g pe.functions
          × (f.name ≡ g.name)
          × (f.address ≡ g.address)
          × (f.kind ≡ local)
          × (already_imported g.name pe.imports ≡ false))
        ⊎ ((f.kind ≡ entry) × (f.address ≡ entry_point pe)))

IsListed-cons :
    (f : IdentifiedFunction) (out : List IdentifiedFunction) (i : ImportEntry)
    → IsListed out i
    → IsListed (f ∷ out) i
unfolding IsListed
IsListed-cons f out i h = let (g, m, k, n, d) = h in (g, inr m, k, n, d)

IsListed-append :
    (xs ys : List IdentifiedFunction) (i : ImportEntry) → IsListed xs i → IsListed (xs ++ ys) i
unfolding IsListed
IsListed-append xs ys i h = let (g, m, k, n, d) = h in (g, Member-append_left g xs ys m, k, n, d)

-- An import that is listed, or was skipped because of its key.
abbrev Met : List ImportKey → List IdentifiedFunction → ImportEntry → Type 0
Met seen out i = IsListed out i ⊎ (key_seen (import_key i) seen ≡ true)

Met-cons :
    (pe : PeImage) (seen : List ImportKey) (out : List IdentifiedFunction) (i j : ImportEntry)
    → Met (import_key i ∷ seen) out j
    → Met seen (from_import pe i ∷ out) j
unfolding IsListed key_seen from_import
Met-cons pe seen out i j (inl h) = inl (IsListed-cons (from_import pe i) out j h)
Met-cons pe seen out i j (inr h) =
    elim (Bool-cases (text_eq j.function i.function && text_eq j.dll i.dll)) [
      | inl e ↦ inl (
        from_import pe i,
        inl refl,
        refl,
        ground (arith, e, text_eq_iff j.function i.function),
        ground (arith, e, text_eq_iff j.dll i.dll),
      )
      | inr e ↦ inr (rw e at h)
    ]

import_functions-again :
    (pe : PeImage) (seen : List ImportKey) (i : ImportEntry) (is : List ImportEntry)
    → key_seen (import_key i) seen ≡ true
    → import_functions pe seen (i ∷ is) ≡ import_functions pe seen is
unfolding import_functions
import_functions-again pe seen i is e = rw e refl

import_functions-once :
    (pe : PeImage) (seen : List ImportKey) (i : ImportEntry) (is : List ImportEntry)
    → key_seen (import_key i) seen ≡ false
    → import_functions pe seen (i ∷ is)
      ≡ from_import pe i ∷ import_functions pe (import_key i ∷ seen) is
unfolding import_functions
import_functions-once pe seen i is e = rw e refl

import_functions-Met :
    (pe : PeImage) (seen : List ImportKey) (is : List ImportEntry)
    → All (Met seen (import_functions pe seen is)) is
unfolding from_import IsListed
import_functions-Met pe seen [] = tt
import_functions-Met pe seen (i ∷ is) = elim (Bool-cases (key_seen (import_key i) seen)) [
  | inl e ↦
      subst (λ out. All (Met seen out) (i ∷ is)) (sym (import_functions-again pe seen i is e))
        (inr e, import_functions-Met pe seen is)
  | inr e ↦
      let out = import_functions pe (import_key i ∷ seen) is in
      subst (λ all. All (Met seen all) (i ∷ is)) (sym (import_functions-once pe seen i is e))
        (
          inl (from_import pe i, inl refl, refl, refl, refl),
          All-intro (Met seen (from_import pe i ∷ out)) is (λ j m. Met-cons pe seen out i j (
              All_at (Met (import_key i ∷ seen) out) j is
                (import_functions-Met pe (import_key i ∷ seen) is) m)),
        )
]

import_functions-IsListed :
    (pe : PeImage) (is : List ImportEntry) → All (IsListed (import_functions pe [] is)) is
unfolding key_seen
import_functions-IsListed pe is = All-intro (IsListed (import_functions pe [] is)) is (λ i m.
    elim (All_at (Met [] (import_functions pe [] is)) i is (import_functions-Met pe [] is) m) [
      | inl h ↦ h
      | inr h ↦ absurd (cc)
    ])

import_functions-HasReason :
    (pe : PeImage) (seen : List ImportKey) (is : List ImportEntry)
    → ((i : ImportEntry) → Member i is → Member i pe.imports)
    → All (HasReason pe) (import_functions pe seen is)
unfolding import_functions from_import HasReason
import_functions-HasReason pe seen [] h = tt
import_functions-HasReason pe seen (i ∷ is) h = elim (Bool-cases (key_seen (import_key i) seen)) [
  | inl e ↦ rw e (import_functions-HasReason pe seen is (λ j m. h j (inr m)))
  | inr e ↦ rw e (
    inl (i, h i (inl refl), refl),
    import_functions-HasReason pe (import_key i ∷ seen) is (λ j m. h j (inr m)),
  )
]

local_functions-HasReason :
    (pe : PeImage) (fs : List FunctionEntry)
    → ((g : FunctionEntry) → Member g fs → Member g pe.functions)
    → All (HasReason pe) (local_functions pe fs)
unfolding local_functions HasReason
local_functions-HasReason pe [] h = tt
local_functions-HasReason pe (g ∷ gs) h = elim (Bool-cases (already_imported g.name pe.imports)) [
  | inl e ↦ rw e (local_functions-HasReason pe gs (λ j m. h j (inr m)))
  | inr e ↦ rw e (
    inr (inl (g, h g (inl refl), refl, refl, refl, e)),
    local_functions-HasReason pe gs (λ j m. h j (inr m)),
  )
]

has_address-append :
    (a : ℕ) (xs ys : List IdentifiedFunction)
    → has_address a (xs ++ ys) ≡ (has_address a xs || has_address a ys)
unfolding has_address
has_address-append a [] ys = refl
has_address-append a (x ∷ xs) ys = ground (arith, has_address-append a xs ys)

entry_function_lem :
    (pe : PeImage) (fs : List IdentifiedFunction)
    → All (HasReason pe) (entry_function pe fs)
      × (has_address (entry_point pe) (fs ++ entry_function pe fs) ≡ true)
unfolding entry_function HasReason has_address
entry_function_lem pe fs = elim (Bool-cases (has_address (entry_point pe) fs)) [
  | inl e ↦ (rw e tt, rw (has_address-append (entry_point pe) fs (entry_function pe fs), e) refl)
  | inr e ↦ (
    rw e (inr (inr (refl, refl)), tt),
    rw (has_address-append (entry_point pe) fs (entry_function pe fs), e) (ground arith),
  )
]

-- Of every image, each import has an entry with its name and its DLL, and some entry has the
-- address of the entry point; and every entry is one of the imports, or a function of the table
-- whose name no import has, or is labelled as the entry point and has its address.
pub identify_functions_lem :
    (pe : PeImage)
    → All (IsListed (identify_functions pe)) pe.imports
      × (has_address (entry_point pe) (identify_functions pe) ≡ true)
      × All (HasReason pe) (identify_functions pe)
unfolding identify_functions
identify_functions_lem pe =
    let imports = import_functions pe [] pe.imports in
    let locals = local_functions pe pe.functions in
    let (why, there) = entry_function_lem pe (imports ++ locals) in
    (
      All-intro (IsListed ((imports ++ locals) ++ entry_function pe (imports ++ locals))) pe.imports
          (λ i m. IsListed-append (imports ++ locals) (entry_function pe (imports ++ locals)) i (
            IsListed-append imports locals i (
              All_at (IsListed imports) i pe.imports (import_functions-IsListed pe pe.imports) m))),
      there,
      All-append (HasReason pe) (imports ++ locals) (entry_function pe (imports ++ locals))
          (All-append (HasReason pe) imports locals
            (import_functions-HasReason pe [] pe.imports (λ i m. m))
            (local_functions-HasReason pe pe.functions (λ g m. m)))
          why,
    )
