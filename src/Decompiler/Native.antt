-- ===== src/Decompiler/Native.antt =====
-- src/ai_reverse_agent/decompiler.py: the decompilation of bytes without a decompiler backend, over
-- the disassembler, a parameter.
pub mod Bodies
use ai_reverse_agent.Prelude.{ℕ, Bool, true, false, List, [], ◌∷◌, ◌++◌, Option, none, some}
use ai_reverse_agent.Result.{Result, ok, ◌>>=◌}
use ai_reverse_agent.Text.{Text}
use ai_reverse_agent.Architecture.{ArchitectureName}
use ai_reverse_agent.Instruction.{NormalizedInstruction, ValueError}
use ai_reverse_agent.Signatures.{SignatureMatch, match_instructions}
use ai_reverse_agent.Decompiler.{FunctionBoundary, body, find_function_boundaries}
use ai_reverse_agent.Decompiler.Pseudo.{DecompiledFunction, decompile_function}

abbrev pub match_name : Option SignatureMatch → Option Text
match_name none = none
match_name (some m) = some m.name

abbrev pub match_library : Option SignatureMatch → Option Text
match_library none = none
match_library (some m) = some m.library

-- match, which stays None where libraries are not recognized
abbrev pub find_match :
    Bool → ArchitectureName → FunctionBoundary → Result ValueError (Option SignatureMatch)
find_match false architecture b = ok none
find_match true architecture b = match_instructions (body b) architecture

-- The loop over the boundaries.
unfoldable pub decompile_boundaries :
    (ℕ → Bool)
    → Bool
    → ArchitectureName
    → List FunctionBoundary
    → Result ValueError (List DecompiledFunction)
unfolding decompile_function
decompile_boundaries is_word recognize_libraries architecture [] = ok []
decompile_boundaries is_word recognize_libraries architecture (b ∷ bs) = do
  found ← find_match recognize_libraries architecture b
  decompiled ← decompile_function is_word b (match_name found) (match_library found)
  rest ← decompile_boundaries is_word recognize_libraries architecture bs
  ok (decompiled ∷ rest)

-- _decompile_bytes_native, for what the disassembler made of the bytes
unfoldable pub decompile_bytes_native :
    (ℕ → Bool)
    → Result ValueError (List NormalizedInstruction)
    → Bool
    → ArchitectureName
    → Result ValueError (List DecompiledFunction)
unfolding find_function_boundaries decompile_boundaries
decompile_bytes_native is_word disassembled recognize_libraries architecture = do
  is ← disassembled
  boundaries ← find_function_boundaries is
  decompile_boundaries is_word recognize_libraries architecture boundaries

-- "\n\n".join(function.pseudo_c for function in functions)
unfoldable pub join_functions : List DecompiledFunction → Text
join_functions [] = []
join_functions (f ∷ []) = f.pseudo_c
join_functions (f ∷ g ∷ fs) = f.pseudo_c ++ 10 ∷ 10 ∷ join_functions (g ∷ fs)

-- format_decompilation
unfoldable pub format_decompilation : List DecompiledFunction → Text
unfolding join_functions
format_decompilation [] = []
format_decompilation (f ∷ fs) = join_functions (f ∷ fs) ++ 10 ∷ []
