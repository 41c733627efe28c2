-- ===== src/Tests/Flow.antt =====
-- The control-flow graph of a loop of four x64 instructions.
use ai_reverse_agent.Prelude.{
  ◌&&◌, leb, Bool, ◌||◌, ℕ, ◌==◌, ◌≡◌, refl, none, take, List, [], ◌∷◌, map, All, some,
}
use mathlib.Core.List.{Perm}
use ai_reverse_agent.Prelude.Int.{ℤ, pos}
use ai_reverse_agent.Result.{ok}
use ai_reverse_agent.Text.{codes}
use ai_reverse_agent.Instruction.{NormalizedInstruction}
use ai_reverse_agent.Bytes.{Bytes}
use ai_reverse_agent.Architecture.{
  Architecture, x64, canonical, order, little, resolve_architecture,
}
use ai_reverse_agent.Instruction.{from_hex}
use ai_reverse_agent.Decompiler.{FunctionBoundary, find_function_boundaries}
use ai_reverse_agent.Decompiler.Boundaries.{
  IsEncoded, bodies, IsFunction, EndInReturn, find_function_boundaries_lem,
}
use ai_reverse_agent.Signatures.{
  LibrarySignature, SignatureMatch, builtin_signatures, signature_bytes, resolved_architecture,
  match_instructions,
}
use ai_reverse_agent.Signatures.Matches.{
  all_bytes, IsOutcome, signature_bytes_lem, match_instructions_lem,
}
use ai_reverse_agent.Controlflow.{
  BasicBlock, ControlFlowEdge, ControlFlowGraph, branch, fallthrough, build_cfg, address_of,
}
use ai_reverse_agent.Obfuscation.Structure.{detect_rc4_structure}
use ai_reverse_agent.Controlflow.Dot.{dot_escape, dot_lines, edge_line, known_blocks}
use ai_reverse_agent.Controlflow.Dot.Drawing.{IsDrawn, dot_lines-IsDrawn}
use ai_reverse_agent.Controlflow.Blocks.{all_instructions}
use ai_reverse_agent.Controlflow.Sorting.{IsSortedByAddress}
use ai_reverse_agent.Controlflow.Edges.{
  start_of, IsBasicBlock, IsBlockEdge, build_cfg_blocks, build_cfg_edges,
}

abbrev nop : NormalizedInstruction
nop = record { address = pos 16; mnemonic = codes "nop"; op_str = []; bytes_hex = codes "90" }

abbrev loop_back : NormalizedInstruction
loop_back = record {
  address = pos 17;
  mnemonic = codes "jne";
  op_str = codes "0x10";
  bytes_hex = codes "75fd";
}

abbrev leave : NormalizedInstruction
leave = record { address = pos 19; mnemonic = codes "ret"; op_str = []; bytes_hex = codes "c3" }

-- The stream out of order.
abbrev stream : List NormalizedInstruction
stream = leave ∷ nop ∷ loop_back ∷ []

abbrev graph : ControlFlowGraph
graph = record {
  entry_address = some (pos 16);
  blocks =
      record { start_address = pos 16; end_address = pos 19; first = nop; more = loop_back ∷ [] }
      ∷ record { start_address = pos 19; end_address = pos 20; first = leave; more = [] }
      ∷ [];
  edges =
      record { source = pos 16; target = pos 16; kind = branch }
      ∷ record { source = pos 16; target = pos 19; kind = fallthrough }
      ∷ [];
}

built : build_cfg stream ≡ ok graph
unfolding build_cfg ai_reverse_agent.Prelude.Int.leb_ℤ ai_reverse_agent.Prelude.Int.eqb_ℤ
    ai_reverse_agent.Controlflow.direct_target ai_reverse_agent.Text.text_eq
    ai_reverse_agent.Controlflow.ends_block ai_reverse_agent.Prelude.Int.◌+ℤ◌
built = refl

build_cfg_blocks_example :
    Perm (all_instructions graph.blocks) stream
    × IsSortedByAddress (all_instructions graph.blocks)
    × All IsBasicBlock graph.blocks
build_cfg_blocks_example = build_cfg_blocks stream graph built

build_cfg_edges_example :
    All
      (IsBlockEdge (map address_of (all_instructions graph.blocks)) (map start_of graph.blocks))
      graph.edges
build_cfg_edges_example = build_cfg_edges stream graph built

abbrev is_ascii_word : ℕ → Bool
is_ascii_word c =
    (leb 65 c && leb c 90) || (leb 97 c && leb c 122) || (leb 48 c && leb c 57) || c == b'_'

dot_lines-IsDrawn_example :
    All
      (IsDrawn (dot_lines is_ascii_word graph (codes "branch-demo")) (known_blocks graph))
      graph.edges
dot_lines-IsDrawn_example = dot_lines-IsDrawn is_ascii_word stream graph (codes "branch-demo") built

drawn_head :
    take 6 (dot_lines is_ascii_word graph (codes "branch-demo"))
    ≡ codes "digraph branch_demo {"
      ∷ codes "  graph [rankdir=\"TB\"];"
      ∷ codes "  node [shape=\"box\", fontname=\"Consolas\"];"
      ∷ codes "  edge [fontname=\"Consolas\"];"
      ∷ codes "  \"block_10\" [label=\"0x10:\\l0x10  nop\\l0x11  jne 0x10\\l\"];"
      ∷ codes "  \"block_13\" [label=\"0x13:\\l0x13  ret\\l\"];"
      ∷ []
unfolding dot_lines ai_reverse_agent.Text.Numbers.padded
drawn_head = refl

drawn_arrows :
    map (edge_line (pos 16 ∷ [])) graph.edges
    ≡ codes "  \"block_10\" -> \"block_10\" [label=\"branch\", color=\"blue\"];"
      ∷ codes "  \"block_10\" -> \"external_13\" [label=\"fallthrough\", color=\"gray40\"];"
      ∷ []
unfolding edge_line ai_reverse_agent.Text.Numbers.padded ai_reverse_agent.Prelude.Int.eqb_ℤ
drawn_arrows = refl

drawn_label : dot_escape (codes "a\\b\"c") ≡ codes "a\\\\b\\\"c"
unfolding dot_escape
drawn_label = refl

stream-IsEncoded : All IsEncoded stream
unfolding from_hex
stream-IsEncoded = ((_, refl), ((_, refl), ((_, refl), tt)))

find_function_boundaries_lem_example :
    (bs : List FunctionBoundary) × (find_function_boundaries stream ≡ ok bs)
    × (bodies bs ≡ stream)
    × All IsFunction bs
    × EndInReturn bs
find_function_boundaries_lem_example = find_function_boundaries_lem stream stream-IsEncoded

abbrev strlen : NormalizedInstruction
strlen = record {
  address = pos 0;
  mnemonic = codes "xor";
  op_str = codes "eax, eax";
  bytes_hex = codes "31c0803c0700740548ffc0ebf5c3";
}

abbrev strlen_code : Bytes
strlen_code =
    0x31 ∷ 0xc0 ∷ 0x80 ∷ 0x3c ∷ 7 ∷ 0 ∷ 0x74 ∷ 5 ∷ 0x48 ∷ 0xff ∷ 0xc0 ∷ 0xeb ∷ 0xf5 ∷ 0xc3 ∷ []

strlen_bytes : all_bytes (strlen ∷ []) ≡ ok strlen_code
unfolding all_bytes
strlen_bytes = refl

signature_bytes_lem_example : signature_bytes (strlen ∷ []) ≡ ok (take 16 strlen_code)
signature_bytes_lem_example = signature_bytes_lem (strlen ∷ []) strlen_code strlen_bytes

abbrev strlen_match : SignatureMatch
strlen_match = record {
  library = codes "libc";
  name = codes "strlen";
  architecture = x64;
  matched_bytes = 14;
}

matched : match_instructions (strlen ∷ []) (canonical x64) ≡ ok (some strlen_match)
unfolding match_instructions
matched = refl

match_instructions_lem_example :
    (a : Architecture) × (prefix : Bytes) × (signatures : List LibrarySignature)
    × (resolved_architecture (resolve_architecture (canonical x64) none (order little)) ≡ ok a)
    × (signature_bytes (strlen ∷ []) ≡ ok prefix)
    × (builtin_signatures ≡ ok signatures)
    × IsOutcome prefix a signatures (some strlen_match)
match_instructions_lem_example =
    match_instructions_lem (strlen ∷ []) (canonical x64) (some strlen_match) matched

abbrev rc4_loop : List NormalizedInstruction
rc4_loop =
    record { address = pos 0; mnemonic = codes "CMP"; op_str = codes "ecx, 0x100"; bytes_hex = [] }
    ∷ record { address = pos 6; mnemonic = codes "xchg"; op_str = codes "al, bl"; bytes_hex = [] }
    ∷ record { address = pos 8; mnemonic = codes "xor"; op_str = codes "al, dl"; bytes_hex = [] }
    ∷ []

rc4_signals :
    detect_rc4_structure rc4_loop
    ≡ codes "256-byte state loop" ∷ codes "state-byte swap" ∷ codes "keystream xor" ∷ []
unfolding detect_rc4_structure ai_reverse_agent.Text.text_eq
rc4_signals = refl

no_rc4_signals : detect_rc4_structure stream ≡ []
unfolding detect_rc4_structure ai_reverse_agent.Text.text_eq
no_rc4_signals = refl
