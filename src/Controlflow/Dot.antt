-- ===== src/Controlflow/Dot.antt =====
-- src/ai_reverse_agent/controlflow.py, to_dot: the Graphviz text of a control-flow graph. Which
-- characters a name may keep is `\w` of Python's `re`, a parameter.
pub mod Drawing
use ai_reverse_agent.Prelude.{
  ℕ, ◌==◌, Bool, true, false, not, List, [], ◌∷◌, ◌++◌, map, if◌then◌else◌,
}
use ai_reverse_agent.Prelude.Sorts.{sort_by}
use ai_reverse_agent.Prelude.Int.{ℤ, leb_ℤ}
use ai_reverse_agent.Text.{Text, codes, strip_by, drop_end, is_space, join_lines}
use ai_reverse_agent.Text.Numbers.{hexadecimal}
use ai_reverse_agent.Instruction.{NormalizedInstruction}
use ai_reverse_agent.Controlflow.{
  BasicBlock, instructions, EdgeKind, call, branch, fallthrough, ControlFlowEdge, ControlFlowGraph,
  contains,
}

-- re.sub(r"\W+", "_", name): a run of other characters becomes one underscore.
unfoldable pub sub_runs : (ℕ → Bool) → Bool → Text → Text
sub_runs is_word inside [] = []
sub_runs is_word inside (c ∷ cs) =
    let rest = sub_runs is_word (not (is_word c)) cs in
    if is_word c then c ∷ rest else if inside then rest else b'_' ∷ rest

-- t or "cfg"
abbrev pub or_cfg : Text → Text
or_cfg [] = codes "cfg"
or_cfg (c ∷ cs) = c ∷ cs

unfoldable pub safe_name : (ℕ → Bool) → Text → Text
unfolding sub_runs strip_by
safe_name is_word name = or_cfg (strip_by (λ c. c == b'_') (sub_runs is_word false name))

-- _dot_escape: backslashes and quotes get a backslash in front
unfoldable pub dot_escape : Text → Text
dot_escape [] = []
dot_escape (c ∷ cs) =
    let rest = dot_escape cs in
    if c == b'\\' then b'\\' ∷ b'\\' ∷ rest else if c == b'"' then b'\\' ∷ b'"' ∷ rest else c ∷ rest

unfoldable pub block_node : ℤ → Text
block_node a = codes "block_" ++ hexadecimal a

unfoldable pub external_node : ℤ → Text
external_node a = codes "external_" ++ hexadecimal a

-- A line that declares a node.
unfoldable pub node_line : Text → Text → Text
node_line node attributes = codes "  \"" ++ node ++ codes "\" [" ++ attributes ++ codes "];"

-- One instruction in the label of its block.
unfoldable pub label_part : NormalizedInstruction → Text
unfolding drop_end is_space
label_part i =
    drop_end is_space
      (codes "0x" ++ hexadecimal i.address ++ codes "  " ++ i.mnemonic ++ b' ' ∷ i.op_str)

-- r"\l".join(map(_dot_escape, parts)) + r"\l", for parts that are not empty
unfoldable pub dot_label : List Text → Text
unfolding dot_escape
dot_label [] = []
dot_label (p ∷ ps) = dot_escape p ++ b'\\' ∷ b'l' ∷ dot_label ps

unfoldable pub block_attributes : BasicBlock → Text
unfolding dot_label label_part
block_attributes b =
    codes "label=\""
    ++ dot_label
        ((codes "0x" ++ hexadecimal b.start_address ++ codes ":") ∷ map label_part (instructions b))
    ++ codes "\""

unfoldable pub block_line : BasicBlock → Text
unfolding node_line block_node block_attributes
block_line b = node_line (block_node b.start_address) (block_attributes b)

unfoldable pub external_attributes : ℤ → Text
external_attributes a =
    codes "label=\"external 0x" ++ hexadecimal a ++ codes "\", shape=\"ellipse\", style=\"dashed\""

unfoldable pub external_line : ℤ → Text
unfolding node_line external_node external_attributes
external_line a = node_line (external_node a) (external_attributes a)

-- known_blocks
abbrev pub known_blocks : ControlFlowGraph → List ℤ
known_blocks g = map (λ b. b.start_address) g.blocks

-- The set of the targets that are no known block, each once.
unfoldable pub unknown_targets : List ℤ → List ControlFlowEdge → List ℤ
unfolding contains
unknown_targets known [] = []
unknown_targets known (e ∷ es) =
    let rest = unknown_targets known es in
    if contains e.target known
    then rest
    else if contains e.target rest
    then rest
    else e.target ∷ rest

-- external_targets
unfoldable pub external_targets : ControlFlowGraph → List ℤ
unfolding unknown_targets sort_by leb_ℤ
external_targets g = sort_by leb_ℤ (unknown_targets (known_blocks g) g.edges)

unfoldable pub target_node : List ℤ → ControlFlowEdge → Text
unfolding contains block_node external_node
target_node known e =
    if contains e.target known then block_node e.target else external_node e.target

abbrev pub kind_text : EdgeKind → Text
kind_text call = codes "call"
kind_text branch = codes "branch"
kind_text fallthrough = codes "fallthrough"

-- colors
abbrev pub color : EdgeKind → Text
color call = codes "darkgreen"
color branch = codes "blue"
color fallthrough = codes "gray40"

-- The line of an edge between two nodes.
unfoldable pub arrow_line : Text → Text → EdgeKind → Text
arrow_line source target kind =
    codes "  \""
    ++ source
    ++ codes "\" -> \""
    ++ target
    ++ codes "\" [label=\""
    ++ kind_text kind
    ++ codes "\", color=\""
    ++ color kind
    ++ codes "\"];"

unfoldable pub edge_line : List ℤ → ControlFlowEdge → Text
unfolding arrow_line block_node target_node
edge_line known e = arrow_line (block_node e.source) (target_node known e) e.kind

-- The lines in front of the nodes.
unfoldable pub header_lines : (ℕ → Bool) → Text → List Text
unfolding safe_name
header_lines is_word name =
    (codes "digraph " ++ safe_name is_word name ++ codes " {")
    ∷ codes "  graph [rankdir=\"TB\"];"
    ∷ codes "  node [shape=\"box\", fontname=\"Consolas\"];"
    ∷ codes "  edge [fontname=\"Consolas\"];"
    ∷ []

unfoldable pub dot_lines : (ℕ → Bool) → ControlFlowGraph → Text → List Text
unfolding header_lines block_line external_line external_targets edge_line
dot_lines is_word g name =
    header_lines is_word name
    ++ (map block_line g.blocks
        ++ (map external_line (external_targets g)
            ++ (map (edge_line (known_blocks g)) g.edges ++ codes "}" ∷ [])))

-- to_dot
unfoldable pub to_dot : (ℕ → Bool) → ControlFlowGraph → Text → Text
unfolding dot_lines join_lines
to_dot is_word g name = join_lines (dot_lines is_word g name) ++ 10 ∷ []
