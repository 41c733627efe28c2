-- ===== src/Decompiler/Native/Bodies.antt =====
-- The functions that the native decompilation returns cover the stream.
use ai_reverse_agent.Prelude.{ℕ, ◌≡◌, refl, Bool, List, [], ◌∷◌, Option, map, All}
use mathlib.Core.Path.{subst}
use ai_reverse_agent.Result.{ok, bind_inversion, ok_unique}
use ai_reverse_agent.Text.{Text}
use ai_reverse_agent.Architecture.{ArchitectureName}
use ai_reverse_agent.Instruction.{NormalizedInstruction}
use ai_reverse_agent.Decompiler.{FunctionBoundary, body, find_function_boundaries}
use ai_reverse_agent.Decompiler.Boundaries.{
  IsEncoded, bodies, IsFunction, EndInReturn, find_function_boundaries_lem,
}
use ai_reverse_agent.Decompiler.Stack.{identify_stack_variables}
use ai_reverse_agent.Decompiler.Pseudo.{DecompiledFunction, decompile_function, statement_lines}
use ai_reverse_agent.Decompiler.Native.{
  find_match, match_name, match_library, decompile_boundaries, decompile_bytes_native,
}

abbrev pub boundary_of : DecompiledFunction → FunctionBoundary
boundary_of f = f.boundary

module _ (is_word : ℕ → Bool) where
  decompile_function-boundary :
      (b : FunctionBoundary) (name library : Option Text) (f : DecompiledFunction)
      → decompile_function is_word b name library ≡ ok f
      → boundary_of f ≡ b
  unfolding decompile_function
  decompile_function-boundary b name library f h =
      let (variables, p, q) = bind_inversion (identify_stack_variables b) _ h in
      let (statements, r, s) = bind_inversion (statement_lines is_word variables (body b)) _ q in
      subst (λ g. boundary_of g ≡ b) (ok_unique _ refl s) refl

  decompile_boundaries-map :
      (recognize_libraries : Bool) (architecture : ArchitectureName) (bs : List FunctionBoundary)
      (fs : List DecompiledFunction)
      → decompile_boundaries is_word recognize_libraries architecture bs ≡ ok fs
      → map boundary_of fs ≡ bs
  unfolding decompile_boundaries
  decompile_boundaries-map recognize_libraries architecture [] fs h =
      subst (λ gs. map boundary_of gs ≡ []) (ok_unique _ refl h) refl
  decompile_boundaries-map recognize_libraries architecture (b ∷ bs) fs h =
      let (found, p, q) = bind_inversion (find_match recognize_libraries architecture b) _ h in
      let (f, r, s) =
        bind_inversion (decompile_function is_word b (match_name found) (match_library found)) _
          q in
      let (rest, t, u) =
        bind_inversion (decompile_boundaries is_word recognize_libraries architecture bs) _ s in
      let head = decompile_function-boundary b (match_name found) (match_library found) f r in
      let tail = decompile_boundaries-map recognize_libraries architecture bs rest t in
      subst (λ gs. map boundary_of gs ≡ b ∷ bs) (ok_unique _ refl u) (rw (head, tail) refl)

abbrev pub CutsStream : List NormalizedInstruction → List FunctionBoundary → Type 0
CutsStream is bs = (bodies bs ≡ is) × All IsFunction bs × EndInReturn bs

-- On a stream of instructions with hexadecimal encodings, where the native decompilation returns,
-- the bodies of its functions, one after the other, are the stream; each starts at its first
-- instruction and has no return before its last one; and all but the last function end in a
-- return.
pub decompile_bytes_native_lem :
    (is_word : ℕ → Bool) (is : List NormalizedInstruction) (recognize_libraries : Bool)
    (architecture : ArchitectureName) (fs : List DecompiledFunction)
    → All IsEncoded is
    → decompile_bytes_native is_word (ok is) recognize_libraries architecture ≡ ok fs
    → CutsStream is (map boundary_of fs)
unfolding decompile_bytes_native
decompile_bytes_native_lem is_word is recognize_libraries architecture fs h k =
    let (bs, p, q) = bind_inversion (find_function_boundaries is) _ k in
    let (cs, e, whole, functions, returns) = find_function_boundaries_lem is h in
    let same = decompile_boundaries-map is_word recognize_libraries architecture bs fs q in
    rw same (
      subst (CutsStream is) (ok_unique (find_function_boundaries is) e p)
        (whole, functions, returns))
