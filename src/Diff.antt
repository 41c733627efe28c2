-- ===== src/Diff.antt =====
-- src/ai_reverse_agent/patch_diff.py: the instruction-level comparison of two binaries.
pub mod Script
use ai_reverse_agent.Prelude.{
  ℕ, zero, suc, ◌+◌, ◌-◌, Bool, true, false, not, List, [], ◌∷◌, ◌++◌, map, Option, none, some,
  length, take, drop,
}
use ai_reverse_agent.Prelude.Int.{ℤ}
use ai_reverse_agent.Result.{Result, ok, err, ◌>>=◌}
use ai_reverse_agent.Text.{Text}
use ai_reverse_agent.Bytes.{Bytes}
use ai_reverse_agent.Architecture.{
  Architecture, ArchitectureError, ArchitectureSpec, ArchitectureName, EndiannessName,
  resolve_architecture,
}
use ai_reverse_agent.Instruction.{NormalizedInstruction, ValueError, value_error}
use ai_reverse_agent.Decompiler.{FunctionBoundary, body, find_function_boundaries}

-- The kinds of InstructionDelta, each with the instructions that it has.
pub data InstructionDelta : Type 0 where
  removed : NormalizedInstruction → InstructionDelta
  added : NormalizedInstruction → InstructionDelta
  replaced : NormalizedInstruction → NormalizedInstruction → InstructionDelta

-- The `status` strings.
pub data Status : Type 0 where
  function_added function_removed modified unchanged : Status

pub record FunctionDiff : Type 0 where
  pub index : ℕ
  pub status : Status
  pub baseline_address : Option ℤ
  pub current_address : Option ℤ
  pub instruction_deltas : List InstructionDelta

-- `architecture` is the spec whose label the source stores.
pub record PatchDiffResult : Type 0 where
  pub architecture : ArchitectureSpec
  pub baseline_size : ℕ
  pub current_size : ℕ
  pub functions : List FunctionDiff

-- _instruction_key
abbrev pub Key : Type 0
Key = Text × Text × Text

unfoldable pub instruction_key : NormalizedInstruction → Key
instruction_key i = (i.mnemonic, i.op_str, i.bytes_hex)

-- An opcode of difflib: its tag, old_start, old_end, new_start, new_end.
pub data Tag : Type 0 where
  equal delete insert replace : Tag

pub record Opcode : Type 0 where
  pub tag : Tag
  pub old_start : ℕ
  pub old_end : ℕ
  pub new_start : ℕ
  pub new_end : ℕ

-- items[start:stop]
abbrev pub range_of {ℓ} : {A : Type ℓ} → List A → ℕ → ℕ → List A
range_of xs start stop = take (stop - start) (drop start xs)

-- The three loops of the tag `replace`: pairs first, then what is left of either side.
unfoldable pub pair_up :
    List NormalizedInstruction → List NormalizedInstruction → List InstructionDelta
pair_up [] news = map added news
pair_up (o ∷ olds) [] = map removed (o ∷ olds)
pair_up (o ∷ olds) (n ∷ news) = replaced o n ∷ pair_up olds news

-- What the loop adds for one opcode.
unfoldable pub opcode_deltas :
    Tag → List NormalizedInstruction → List NormalizedInstruction → List InstructionDelta
unfolding pair_up
opcode_deltas equal olds news = []
opcode_deltas delete olds news = map removed olds
opcode_deltas insert olds news = map added news
opcode_deltas replace olds news = pair_up olds news

unfoldable pub script_deltas :
    List Opcode → List NormalizedInstruction → List NormalizedInstruction → List InstructionDelta
unfolding opcode_deltas
script_deltas [] before after = []
script_deltas (o ∷ os) before after =
    opcode_deltas o.tag (range_of before o.old_start o.old_end)
      (range_of after o.new_start o.new_end)
    ++ script_deltas os before after

abbrev deltas_status : List InstructionDelta → Status
deltas_status [] = unchanged
deltas_status (d ∷ ds) = modified

-- `get_opcodes` stands for SequenceMatcher(a=..., b=..., autojunk=False).get_opcodes().
module _ (get_opcodes : List Key → List Key → List Opcode) where
  -- _instruction_diff
  unfoldable pub instruction_diff :
      List NormalizedInstruction → List NormalizedInstruction → List InstructionDelta
  unfolding instruction_key script_deltas
  instruction_diff before after =
      script_deltas (get_opcodes (map instruction_key before) (map instruction_key after)) before
        after

  -- The last case of _diff_function.
  unfoldable pub diff_pair : ℕ → FunctionBoundary → FunctionBoundary → FunctionDiff
  unfolding instruction_diff
  diff_pair index before after =
      let deltas = instruction_diff (body before) (body after) in
      record {
        index = index;
        status = deltas_status deltas;
        baseline_address = some before.start_address;
        current_address = some after.start_address;
        instruction_deltas = deltas;
      }

  unfoldable pub diff_added : ℕ → FunctionBoundary → FunctionDiff
  diff_added index after = record {
    index = index;
    status = function_added;
    baseline_address = none;
    current_address = some after.start_address;
    instruction_deltas = map added (body after);
  }

  unfoldable pub diff_removed : ℕ → FunctionBoundary → FunctionDiff
  diff_removed index before = record {
    index = index;
    status = function_removed;
    baseline_address = some before.start_address;
    current_address = none;
    instruction_deltas = map removed (body before);
  }

  -- The loop over the indices, with _diff_function on the functions at each.
  unfoldable pub diff_functions :
      ℕ → List FunctionBoundary → List FunctionBoundary → List FunctionDiff
  unfolding diff_pair diff_added diff_removed
  diff_functions index [] [] = []
  diff_functions index [] (a ∷ afters) = diff_added index a ∷ diff_functions (index + 1) [] afters
  diff_functions index (b ∷ befores) [] =
      diff_removed index b ∷ diff_functions (index + 1) befores []
  diff_functions index (b ∷ befores) (a ∷ afters) =
      diff_pair index b a ∷ diff_functions (index + 1) befores afters

  abbrev resolved_spec :
      Result ArchitectureError ArchitectureSpec → Result ValueError ArchitectureSpec
  resolved_spec (ok spec) = ok spec
  resolved_spec (err e) = err value_error

  -- diff_binaries; `disassemble` stands for the disassembler with the options of the call.
  unfoldable pub diff_binaries :
      (Bytes → Result ValueError (List NormalizedInstruction))
      → ArchitectureName
      → Option ℕ
      → EndiannessName
      → Bytes
      → Bytes
      → Result ValueError PatchDiffResult
  unfolding resolve_architecture find_function_boundaries diff_functions
  diff_binaries disassemble architecture bits endianness baseline current = do
    spec ← resolved_spec (resolve_architecture architecture bits endianness)
    old_instructions ← disassemble baseline
    baseline_functions ← find_function_boundaries old_instructions
    new_instructions ← disassemble current
    current_functions ← find_function_boundaries new_instructions
    ok (record {
      architecture = spec;
      baseline_size = length baseline;
      current_size = length current;
      functions = diff_functions 0 baseline_functions current_functions;
    })
