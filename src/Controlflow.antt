-- ===== src/Controlflow.antt =====
-- src/ai_reverse_agent/controlflow.py: basic blocks and edges of a linear instruction stream.
pub mod Sorting
pub mod Blocks
pub mod Edges
pub mod Dot
use ai_reverse_agent.Prelude.{
  last_of, ℕ, ◌+◌, ◌≡◌, Bool, true, false, not, ◌&&◌, ◌||◌, List, [], ◌∷◌, ◌++◌, Option, none, some,
  map, if◌then◌else◌, length,
}
use ai_reverse_agent.Prelude.Int.{ℤ, pos, ◌+ℤ◌, leb_ℤ, eqb_ℤ}
use ai_reverse_agent.Result.{Result, ok, err, ◌>>=◌}
use ai_reverse_agent.Text.{Text, codes, text_eq, one_of, starts_with, lower, remove_char}
use ai_reverse_agent.Instruction.{
  NormalizedInstruction, ValueError, from_hex, parse_int, target_token,
}

pub record BasicBlock : Type 0 where
  pub start_address : ℤ
  pub end_address : ℤ
  pub first : NormalizedInstruction
  pub more : List NormalizedInstruction

-- block.instructions, which is never empty
abbrev pub instructions : BasicBlock → List NormalizedInstruction
instructions b = b.first ∷ b.more

-- The `kind` strings of an edge.
pub data EdgeKind : Type 0 where
  call branch fallthrough : EdgeKind

pub record ControlFlowEdge : Type 0 where
  pub source : ℤ
  pub target : ℤ
  pub kind : EdgeKind

pub record ControlFlowGraph : Type 0 where
  pub entry_address : Option ℤ
  pub blocks : List BasicBlock
  pub edges : List ControlFlowEdge

-- _CALLS
abbrev calls : List Text
calls = codes "call" ∷ codes "callq" ∷ codes "bl" ∷ codes "blx" ∷ codes "jal" ∷ []

-- _UNCONDITIONAL_JUMPS
abbrev unconditional_jumps : List Text
unconditional_jumps = codes "jmp" ∷ codes "j" ∷ codes "b" ∷ codes "bra" ∷ []

-- _CONDITIONAL_JUMPS
abbrev conditional_jumps : List Text
conditional_jumps =
    codes "ja"
    ∷ codes "jae"
    ∷ codes "jb"
    ∷ codes "jbe"
    ∷ codes "je"
    ∷ codes "jg"
    ∷ codes "jge"
    ∷ codes "jl"
    ∷ codes "jle"
    ∷ codes "jne"
    ∷ codes "jnz"
    ∷ codes "jz"
    ∷ codes "beq"
    ∷ codes "bne"
    ∷ codes "bgt"
    ∷ codes "bge"
    ∷ codes "blt"
    ∷ codes "ble"
    ∷ codes "cbz"
    ∷ codes "cbnz"
    ∷ codes "tbz"
    ∷ codes "tbnz"
    ∷ []

unfoldable pub is_call : NormalizedInstruction → Bool
unfolding one_of lower
is_call i = one_of (lower i.mnemonic) calls

unfoldable pub is_unconditional_jump : NormalizedInstruction → Bool
unfolding one_of lower
is_unconditional_jump i = one_of (lower i.mnemonic) unconditional_jumps

unfoldable pub is_conditional_jump : NormalizedInstruction → Bool
unfolding one_of lower starts_with
is_conditional_jump i =
    let mnemonic = lower i.mnemonic in
    one_of mnemonic conditional_jumps
    || starts_with mnemonic (codes "b.")
    || (starts_with mnemonic (codes "j") && not (one_of mnemonic unconditional_jumps))

unfoldable pub is_return : NormalizedInstruction → Bool
unfolding one_of lower starts_with text_eq remove_char
is_return i =
    let mnemonic = lower i.mnemonic in
    let operands = remove_char b'$' (lower i.op_str) in
    starts_with mnemonic (codes "ret")
    || (text_eq mnemonic (codes "bx") && text_eq operands (codes "lr"))
    || (text_eq mnemonic (codes "jr") && one_of operands (codes "ra" ∷ codes "x1" ∷ []))
    || (text_eq mnemonic (codes "jalr")
        && one_of operands (codes "zero, ra, 0" ∷ codes "x0, x1, 0" ∷ []))

unfoldable pub ends_block : NormalizedInstruction → Bool
unfolding is_call is_unconditional_jump is_conditional_jump is_return
ends_block i = is_call i || is_unconditional_jump i || is_conditional_jump i || is_return i

-- _direct_target
unfoldable pub direct_target : NormalizedInstruction → Option ℤ
unfolding is_call is_unconditional_jump is_conditional_jump parse_int target_token
direct_target i =
    if not (is_call i || is_unconditional_jump i || is_conditional_jump i)
    then none
    else parse_int (target_token i.op_str)

-- sorted(instructions, key=address), which is stable
unfoldable pub insert_by_address :
    NormalizedInstruction → List NormalizedInstruction → List NormalizedInstruction
insert_by_address i [] = i ∷ []
insert_by_address i (j ∷ js) =
    if leb_ℤ i.address j.address then i ∷ j ∷ js else j ∷ insert_by_address i js

unfoldable pub sort_by_address : List NormalizedInstruction → List NormalizedInstruction
unfolding insert_by_address
sort_by_address [] = []
sort_by_address (i ∷ is) = insert_by_address i (sort_by_address is)

-- address in addresses
unfoldable pub contains : ℤ → List ℤ → Bool
contains a [] = false
contains a (b ∷ bs) = eqb_ℤ a b || contains a bs

abbrev pub address_of : NormalizedInstruction → ℤ
address_of i = i.address

-- The address that the target adds to `leaders`.
abbrev pub target_leader : Option ℤ → List ℤ → List ℤ
target_leader none addresses = []
target_leader (some t) addresses = if contains t addresses then t ∷ [] else []

-- The address behind an instruction that ends a block.
abbrev pub next_leader : Bool → List NormalizedInstruction → List ℤ
next_leader ends [] = []
next_leader ends (j ∷ js) = if ends then j.address ∷ [] else []

-- What the loop over `enumerate(ordered)` adds to `leaders`.
unfoldable pub added_leaders : List ℤ → List NormalizedInstruction → List ℤ
unfolding contains
added_leaders addresses [] = []
added_leaders addresses (i ∷ is) =
    target_leader (direct_target i) addresses
    ++ (next_leader (ends_block i) is ++ added_leaders addresses is)

-- _make_block
unfoldable pub make_block :
    NormalizedInstruction → List NormalizedInstruction → Result ValueError BasicBlock
unfolding last_of from_hex
make_block first more = do
  encoded ← from_hex (last_of first more).bytes_hex
  ok (record {
    start_address = first.address;
    end_address = (last_of first more).address +ℤ pos (length encoded);
    first = first;
    more = more;
  })

-- The loop that builds `blocks`; `current` is first ∷ more.
unfoldable pub split_blocks :
    List ℤ
    → NormalizedInstruction
    → List NormalizedInstruction
    → List NormalizedInstruction
    → Result ValueError (List BasicBlock)
unfolding contains make_block
split_blocks leaders first more [] = do block ← make_block first more; ok (block ∷ [])
split_blocks leaders first more (i ∷ is) =
    let closed = (do
      block ← make_block first more
      rest ← split_blocks leaders i [] is
      ok (block ∷ rest)) in
    let extended = split_blocks leaders first (more ++ i ∷ []) is in
    if contains i.address leaders then closed else extended

-- edges.append, where the address is not None
abbrev pub edge_to : ℤ → EdgeKind → Option ℤ → List ControlFlowEdge
edge_to source kind none = []
edge_to source kind (some target) = record { source = source; target = target; kind = kind } ∷ []

abbrev pub next_start : List BasicBlock → Option ℤ
next_start [] = none
next_start (b ∷ bs) = some b.start_address

-- The edges of one block, with the start of the block behind it.
unfoldable pub block_edges : BasicBlock → Option ℤ → List ControlFlowEdge
unfolding last_of
block_edges b next_address =
    let terminator = last_of b.first b.more in
    let target = direct_target terminator in
    if is_return terminator
    then []
    else if is_call terminator
    then edge_to b.start_address call target ++ edge_to b.start_address fallthrough next_address
    else if is_unconditional_jump terminator
    then edge_to b.start_address branch target
    else if is_conditional_jump terminator
    then edge_to b.start_address branch target ++ edge_to b.start_address fallthrough next_address
    else edge_to b.start_address fallthrough next_address

unfoldable pub all_edges : List BasicBlock → List ControlFlowEdge
unfolding block_edges
all_edges [] = []
all_edges (b ∷ bs) = block_edges b (next_start bs) ++ all_edges bs

-- `leaders` after the first loop, for ordered = first ∷ rest
unfoldable pub leaders_of : NormalizedInstruction → List NormalizedInstruction → List ℤ
unfolding added_leaders
leaders_of first rest = first.address ∷ added_leaders (map address_of (first ∷ rest)) (first ∷ rest)

unfoldable pub build_ordered : List NormalizedInstruction → Result ValueError ControlFlowGraph
unfolding leaders_of split_blocks all_edges
build_ordered [] = ok (record { entry_address = none; blocks = []; edges = [] })
build_ordered (first ∷ rest) = do
  blocks ← split_blocks (leaders_of first rest) first [] rest
  ok (record { entry_address = some first.address; blocks = blocks; edges = all_edges blocks })

-- build_cfg
unfoldable pub build_cfg : List NormalizedInstruction → Result ValueError ControlFlowGraph
unfolding build_ordered sort_by_address
build_cfg is = build_ordered (sort_by_address is)
