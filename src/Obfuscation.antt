-- ===== src/Obfuscation.antt =====
-- src/ai_reverse_agent/deobfuscation/: the opaque predicates of opaque_pred.py, the statistics of
-- block_stats.py, and instruction_parts of base.py. The finding is its evidence and confidence.
pub mod Structure
pub mod Opaque
use Prim.Native.Nat.{min, max}
use ai_reverse_agent.Prelude.{
  ℕ, zero, suc, ◌+◌, ◌*◌, Bool, true, false, not, ◌&&◌, ◌||◌, List, [], ◌∷◌, ◌++◌, map, Option,
  none, some, ltb, leb, ◌==◌, if◌then◌else◌, length, take, last_of,
}
use ai_reverse_agent.Prelude.Int.{ℤ, pos, negsuc, ltb_ℤ, eqb_ℤ}
use ai_reverse_agent.Result.{Result, ok, err, ◌>>=◌}
use ai_reverse_agent.Text.{Text, codes, text_eq, one_of, starts_with, lower, strip}
use ai_reverse_agent.Text.Numbers.{decimal, hexadecimal, padded}
use ai_reverse_agent.Instruction.{NormalizedInstruction, parse_int, target_token}
use ai_reverse_agent.Controlflow.{
  BasicBlock, ControlFlowGraph, ControlFlowEdge, EdgeKind, branch, instructions,
}
use ai_reverse_agent.Symbolic.{SymbolicError, Constraint, negate}
use ai_reverse_agent.Symbolic.Mini.{SymbolicSolution, solve_branch_mini}

-- (*constraints[:-1], constraints[-1].negate())
unfoldable pub negated_last : List Constraint → Result SymbolicError (List Constraint)
unfolding negate
negated_last [] = ok []
negated_last (c ∷ []) = negate c >>= λ d. ok (d ∷ [])
negated_last (c ∷ d ∷ cs) = negated_last (d ∷ cs) >>= λ ds. ok (c ∷ ds)

abbrev pub differ : Bool → Bool → Bool
differ true t = not t
differ false t = t

-- true_path.satisfiable != false_path.satisfiable; an error of the solver counts as no proof.
abbrev pub paths_differ :
    Result SymbolicError SymbolicSolution → Result SymbolicError SymbolicSolution → Bool
paths_differ (ok t) (ok f) = differ t.satisfiable f.satisfiable
paths_differ (ok t) (err e) = false
paths_differ (err e) f = false

-- The try block of OpaquePredicateRule.evaluate.
unfoldable pub proves_unreachable : List Constraint → Bool
unfolding solve_branch_mini negated_last
proves_unreachable cs =
    paths_differ (solve_branch_mini cs (pos 65536))
      (negated_last cs >>= λ ds. solve_branch_mini ds (pos 65536))

-- The fact "opaque_predicates": a number, a list of texts, or anything else.
pub data Declared : Type 0 where
  declared_count : ℤ → Declared
  declared_items : List Text → Declared
  not_declared : Declared

unfoldable pub declared_matches : Declared → List Text
unfolding ltb_ℤ padded
declared_matches (declared_count n) =
    if ltb_ℤ (pos 0) n then (codes "declared_predicates=" ++ decimal n) ∷ [] else []
declared_matches (declared_items items) = items
declared_matches not_declared = []

-- instruction_parts of a normalized instruction
pub record Parts : Type 0 where
  pub address : ℤ
  pub mnemonic : Text
  pub operands : Text

unfoldable pub instruction_parts : NormalizedInstruction → Parts
unfolding lower
instruction_parts i = record {
  address = i.address;
  mnemonic = lower i.mnemonic;
  operands = lower i.op_str;
}

-- t.split(","), which is never empty: the first field, and the others
unfoldable pub split_commas : Text → Text × List Text
split_commas [] = ([], [])
split_commas (c ∷ cs) =
    let rest = split_commas cs in if c == b',' then ([], rest.0 ∷ rest.1) else (c ∷ rest.0, rest.1)

-- part in t
unfoldable pub contains_text : Text → Text → Bool
unfolding starts_with
contains_text part [] = starts_with [] part
contains_text part (c ∷ cs) = starts_with (c ∷ cs) part || contains_text part cs

-- len(operands) == 2 and operands[0] == operands[1]
abbrev pub repeats : Text → List Text → Bool
repeats first (second ∷ []) = text_eq first second
repeats first _ = false

-- Three instructions whose third is a forced branch.
unfoldable pub is_forced : Parts → Parts → Parts → Bool
unfolding split_commas strip one_of contains_text starts_with
is_forced first second third =
    let fields = split_commas first.operands in
    let operand = strip fields.0 in
    one_of first.mnemonic (codes "xor" ∷ codes "sub" ∷ [])
    && repeats operand (map strip fields.1)
    && one_of second.mnemonic (codes "cmp" ∷ codes "test" ∷ [])
    && contains_text operand second.operands
    && (contains_text (codes "0") second.operands || text_eq second.mnemonic (codes "test"))
    && starts_with third.mnemonic (codes "j")

-- The loop over the windows of three instructions.
unfoldable pub forced_branches : List Parts → List Text
unfolding is_forced padded
forced_branches [] = []
forced_branches (a ∷ []) = []
forced_branches (a ∷ b ∷ []) = []
forced_branches (a ∷ b ∷ c ∷ rest) =
    let later = forced_branches (b ∷ c ∷ rest) in
    if is_forced a b c
    then (codes "forced branch at 0x" ++ hexadecimal c.address) ∷ later
    else later

-- constraints and ...: an empty sequence proves nothing
unfoldable pub symbolic_matches : List Constraint → List Text
unfolding proves_unreachable
symbolic_matches [] = []
symbolic_matches (c ∷ cs) =
    if proves_unreachable (c ∷ cs)
    then codes "bounded symbolic solve proved one branch unreachable" ∷ []
    else []

unfoldable pub opaque_matches : Declared → List Constraint → List NormalizedInstruction → List Text
unfolding declared_matches symbolic_matches forced_branches instruction_parts
opaque_matches declared constraints is =
    declared_matches declared
    ++ symbolic_matches constraints
    ++ forced_branches (map instruction_parts is)

-- The finding of the rule: the confidence in hundredths, and what it keeps of the matches.
pub record OpaqueFinding : Type 0 where
  pub confidence : ℕ
  pub evidence : List Text
  pub match_count : ℕ

-- OpaquePredicateRule.evaluate
unfoldable pub evaluate_opaque :
    Declared → List Constraint → List NormalizedInstruction → Option OpaqueFinding
unfolding opaque_matches
evaluate_opaque declared constraints is = elim (opaque_matches declared constraints is) [
  | [] ↦ none
  | m ∷ ms ↦ some (record {
    confidence = min 96 (78 + 3 * length (m ∷ ms));
    evidence = take 8 (m ∷ ms);
    match_count = length (m ∷ ms);
  })
]

-- BlockStatistics; a ratio is given by its numerator, over block_count or edge_count.
pub record BlockStatistics : Type 0 where
  pub block_count : ℕ
  pub edge_count : ℕ
  pub branch_count : ℕ
  pub instruction_count : ℕ
  pub tiny_block_count : ℕ
  pub indirect_branch_count : ℕ
  pub max_branch_indegree : ℕ

abbrev pub is_branch : ControlFlowEdge → Bool
is_branch e = elim e.kind [ branch ↦ true | _ ↦ false ]

unfoldable pub count_branches : List ControlFlowEdge → ℕ
count_branches [] = 0
count_branches (e ∷ es) = (if is_branch e then 1 else 0) + count_branches es

unfoldable pub count_instructions : List BasicBlock → ℕ
count_instructions [] = 0
count_instructions (b ∷ bs) = length (instructions b) + count_instructions bs

-- Blocks of at most two instructions.
unfoldable pub count_tiny : List BasicBlock → ℕ
count_tiny [] = 0
count_tiny (b ∷ bs) = (if leb (length (instructions b)) 2 then 1 else 0) + count_tiny bs

abbrev pub is_no_number : Option ℤ → Bool
is_no_number none = true
is_no_number (some n) = false

abbrev pub has_text : Text → Bool
has_text [] = false
has_text (c ∷ cs) = true

-- Does the block end in a branch whose target is no number?
unfoldable pub ends_indirectly : BasicBlock → Bool
unfolding last_of lower strip starts_with parse_int target_token
ends_indirectly b =
    let terminal = last_of b.first b.more in
    let mnemonic = lower terminal.mnemonic in
    let operand = lower (strip terminal.op_str) in
    (starts_with mnemonic (codes "j") || starts_with mnemonic (codes "b"))
    && has_text operand
    && is_no_number (parse_int (target_token operand))

unfoldable pub count_indirect : List BasicBlock → ℕ
unfolding ends_indirectly
count_indirect [] = 0
count_indirect (b ∷ bs) = (if ends_indirectly b then 1 else 0) + count_indirect bs

-- The branches to this address.
unfoldable pub indegree : ℤ → List ControlFlowEdge → ℕ
unfolding eqb_ℤ
indegree a [] = 0
indegree a (e ∷ es) = (if is_branch e && eqb_ℤ e.target a then 1 else 0) + indegree a es

-- max(branch_indegrees.values(), default=0), over the blocks' starts
unfoldable pub max_indegree : List BasicBlock → List ControlFlowEdge → ℕ
unfolding indegree
max_indegree [] es = 0
max_indegree (b ∷ bs) es = max (indegree b.start_address es) (max_indegree bs es)

-- calculate_block_stats
unfoldable pub calculate_block_stats : ControlFlowGraph → BlockStatistics
unfolding count_branches count_instructions count_tiny count_indirect max_indegree
calculate_block_stats g = record {
  block_count = length g.blocks;
  edge_count = length g.edges;
  branch_count = count_branches g.edges;
  instruction_count = count_instructions g.blocks;
  tiny_block_count = count_tiny g.blocks;
  indirect_branch_count = count_indirect g.blocks;
  max_branch_indegree = max_indegree g.blocks g.edges;
}

-- stats.tiny_block_ratio >= 0.5, where the ratio of no blocks is 0
unfoldable pub is_half_tiny : BlockStatistics → Bool
is_half_tiny s = not (s.block_count == 0) && leb s.block_count (2 * s.tiny_block_count)

-- has_switch_dispatcher
unfoldable pub has_switch_dispatcher : BlockStatistics → Bool
unfolding is_half_tiny
has_switch_dispatcher s =
    leb 6 s.block_count && leb 4 s.branch_count && leb 3 s.max_branch_indegree && is_half_tiny s
