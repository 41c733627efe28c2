-- ===== src/Controlflow/Edges.antt =====
-- What `build_cfg` returns.
use mathlib.Core.List.{Perm}
use ai_reverse_agent.Prelude.{
  last_of, ◌≡◌, refl, inl, inr, ◌⊎◌, Bool, true, false, not, ◌&&◌, List, [], ◌∷◌, ◌++◌, map, arith,
  All, All-append, All-intro, All_at, Member, Member-map, Bool-cases, Option, none, some,
  if◌then◌else◌,
}
use ai_reverse_agent.Prelude.Int.{ℤ, eqb_ℤ_iff}
use ai_reverse_agent.Result.{ok, bind_inversion}
use ai_reverse_agent.Instruction.{NormalizedInstruction}
use ai_reverse_agent.Controlflow.{
  BasicBlock, instructions, ControlFlowEdge, ControlFlowGraph, EdgeKind, call, branch, fallthrough,
  contains, split_blocks, ends_block, next_leader, target_leader, added_leaders, leaders_of,
  address_of, direct_target, edge_to, next_start, block_edges, all_edges, build_ordered, build_cfg,
  sort_by_address, is_return, is_call, is_unconditional_jump, is_conditional_jump,
}
use ai_reverse_agent.Controlflow.Sorting.{IsSortedByAddress, sort-perm, sort-IsSortedByAddress}
use ai_reverse_agent.Controlflow.Blocks.{
  all_instructions, split_blocks_partition, IsBlock, Linked, split_blocks-IsBlock,
  split_blocks_starts, QuietUntilLast,
}

All-append_split {κ} :
    {A : Type 0} (P : A → Type κ) (xs ys : List A) → All P (xs ++ ys) → All P xs × All P ys
All-append_split P [] ys h = (tt, h)
All-append_split P (x ∷ xs) ys h = let (a, b) = All-append_split P xs ys h.1 in ((h.0, a), b)

contains-Member : (a : ℤ) (xs : List ℤ) → Member a xs → contains a xs ≡ true
unfolding contains
contains-Member a [] m = elim m [ ]
contains-Member a (x ∷ xs) (inl e) = ground (arith, eqb_ℤ_iff a x)
contains-Member a (x ∷ xs) (inr m) = ground (arith, contains-Member a xs m)

-- The leaders that a tail of the stream adds are among the leaders.
abbrev Among : List ℤ → List ℤ → Type 0
Among leaders = All (λ a. contains a leaders ≡ true)

linked :
    (leaders addresses : List ℤ) (i : NormalizedInstruction) (is : List NormalizedInstruction)
    → Among leaders (added_leaders addresses (i ∷ is))
    → Linked leaders i is
unfolding added_leaders
linked leaders addresses i [] h = tt
linked leaders addresses i (j ∷ js) h =
    let (a, b) = All-append_split _ (target_leader (direct_target i) addresses) _ h in
    let (c, d) = All-append_split _ (next_leader (ends_block i) (j ∷ js)) _ b in
    (behind (ends_block i) c, linked leaders addresses j js d)
  where
    behind :
        (e : Bool)
        → Among leaders (next_leader e (j ∷ js))
        → (e && not (contains j.address leaders)) ≡ false
    behind true h = ground (arith, h.0)
    behind false h = refl

-- A target inside the stream is a leader.
abbrev TargetLeads : List ℤ → List ℤ → NormalizedInstruction → Type 0
TargetLeads leaders addresses i = Among leaders (target_leader (direct_target i) addresses)

targets_lead :
    (leaders addresses : List ℤ) (is : List NormalizedInstruction)
    → Among leaders (added_leaders addresses is)
    → All (TargetLeads leaders addresses) is
unfolding added_leaders
targets_lead leaders addresses [] h = tt
targets_lead leaders addresses (i ∷ is) h =
    let (a, b) = All-append_split _ (target_leader (direct_target i) addresses) _ h in
    let (c, d) = All-append_split _ (next_leader (ends_block i) is) _ b in
    (a, targets_lead leaders addresses is d)

-- A block that `build_cfg` may return: it starts at its first instruction, and only its last
-- instruction can be a call, a jump or a return.
pub record IsBasicBlock (b : BasicBlock) : Type 0 where
  pub starts : b.start_address ≡ b.first.address
  pub quiet : QuietUntilLast b.first b.more

-- An edge leaves the start of a block, and one that stays inside the stream enters the start of one.
pub record IsBlockEdge (addresses starts : List ℤ) (e : ControlFlowEdge) : Type 0 where
  pub leaves : Member e.source starts
  pub enters : (contains e.target addresses ≡ false) ⊎ Member e.target starts

All-if {κ} :
    (P : ControlFlowEdge → Type κ) (c : Bool) (xs ys : List ControlFlowEdge)
    → All P xs
    → All P ys
    → All P (if c then xs else ys)
All-if P true xs ys h k = h
All-if P false xs ys h k = k

All-block_edges {κ} :
    (P : ControlFlowEdge → Type κ) (b : BasicBlock) (next : Option ℤ)
    → ((k : EdgeKind) → All P (edge_to b.start_address k (direct_target (last_of b.first b.more))))
    → ((k : EdgeKind) → All P (edge_to b.start_address k next))
    → All P (block_edges b next)
unfolding block_edges
All-block_edges P b next direct fall =
    let both = λ (k : EdgeKind). All-append P _ _ (direct k) (fall fallthrough) in
    All-if P (is_return (last_of b.first b.more)) _ _ tt (
      All-if P (is_call (last_of b.first b.more)) _ _ (both call) (
        All-if P (is_unconditional_jump (last_of b.first b.more)) _ _ (direct branch) (
          All-if P (is_conditional_jump (last_of b.first b.more)) _ _ (both branch)
            (fall fallthrough))))

last_of-Member :
    (i : NormalizedInstruction) (is : List NormalizedInstruction) → Member (last_of i is) (i ∷ is)
unfolding last_of
last_of-Member i [] = inl refl
last_of-Member i (j ∷ js) = inr (last_of-Member j js)

abbrev pub start_of : BasicBlock → ℤ
start_of b = b.start_address

module _ (leaders addresses starts : List ℤ)
    (found : (a : ℤ)
      → contains a leaders ≡ true
      → contains a addresses ≡ true
      → Member a starts) where
  direct_edge :
      (source : ℤ) (kind : EdgeKind) (target : Option ℤ)
      → Member source starts
      → Among leaders (target_leader target addresses)
      → All (IsBlockEdge addresses starts) (edge_to source kind target)
  direct_edge source kind none m h = tt
  direct_edge source kind (some t) m h = (record { leaves = m; enters = inside }, tt)
    where
      inside : (contains t addresses ≡ false) ⊎ Member t starts
      inside = elim (Bool-cases (contains t addresses)) [
        | inl e ↦ inr (found t (lead e) e)
        | inr e ↦ inl e
      ]
        where
          lead : contains t addresses ≡ true → contains t leaders ≡ true
          lead e = (rw e at h).0

  next_edge :
      (source : ℤ) (kind : EdgeKind) (bs : List BasicBlock)
      → Member source starts
      → All (λ (b : BasicBlock). Member b.start_address starts) bs
      → All (IsBlockEdge addresses starts) (edge_to source kind (next_start bs))
  next_edge source kind [] m h = tt
  next_edge source kind (b ∷ bs) m h = (record { leaves = m; enters = inr h.0 }, tt)

  all_edges-IsBlockEdge :
      (bs : List BasicBlock)
      → All (λ (b : BasicBlock). Member b.start_address starts) bs
      → All (TargetLeads leaders addresses) (all_instructions bs)
      → All (IsBlockEdge addresses starts) (all_edges bs)
  unfolding all_edges
  all_edges-IsBlockEdge [] h t = tt
  all_edges-IsBlockEdge (b ∷ bs) h t =
      let (own, rest) = All-append_split _ (instructions b) (all_instructions bs) t in
      All-append _ _ _
        (All-block_edges _ b (next_start bs)
          (λ k. direct_edge b.start_address k _ h.0 (
            All_at _ (last_of b.first b.more) (instructions b) own (last_of-Member b.first b.more)))
          (λ k. next_edge b.start_address k bs h.0 h.1))
        (all_edges-IsBlockEdge bs h.1 rest)

starts_Member :
    (bs : List BasicBlock) → All (λ (b : BasicBlock). Member b.start_address (map start_of bs)) bs
starts_Member bs = All-intro _ bs (λ b m. Member-map start_of b bs m)

build_inversion :
    (first : NormalizedInstruction) (rest : List NormalizedInstruction) (g : ControlFlowGraph)
    → build_ordered (first ∷ rest) ≡ ok g
    → (split_blocks (leaders_of first rest) first [] rest ≡ ok g.blocks)
      × (g.edges ≡ all_edges g.blocks)
      × (g.entry_address ≡ some first.address)
unfolding build_ordered
build_inversion first rest g h =
    let (bs, p, q) = bind_inversion (split_blocks (leaders_of first rest) first [] rest) _ h in
    let same : bs ≡ g.blocks = ground (arith, q) in
    (rw same at p, ground (arith, q), ground (arith, q))

leaders_Among :
    (first : NormalizedInstruction) (rest : List NormalizedInstruction)
    → Among (leaders_of first rest) (leaders_of first rest)
leaders_Among first rest =
    All-intro _ (leaders_of first rest) (λ a m. contains-Member a (leaders_of first rest) m)

added_Among :
    (first : NormalizedInstruction) (rest : List NormalizedInstruction)
    → Among (leaders_of first rest) (added_leaders (map address_of (first ∷ rest)) (first ∷ rest))
unfolding leaders_of
added_Among first rest = (leaders_Among first rest).1

first_leads :
    (first : NormalizedInstruction) (rest : List NormalizedInstruction)
    → contains first.address (leaders_of first rest) ≡ true
unfolding leaders_of
first_leads first rest = (leaders_Among first rest).0

All-map {κ μ} :
    {A : Type 0} (P : A → Type κ) (Q : A → Type μ) (xs : List A)
    → ((a : A) → P a → Q a)
    → All P xs
    → All Q xs
All-map P Q xs h a = All-intro Q xs (λ x m. h x (All_at P x xs a m))

blocks_of :
    (is : List NormalizedInstruction) (g : ControlFlowGraph)
    → build_ordered is ≡ ok g
    → (all_instructions g.blocks ≡ is) × All IsBasicBlock g.blocks
unfolding build_ordered
blocks_of [] g h = let none_left : [] ≡ g.blocks = ground (arith, h) in rw (← none_left) (refl, tt)
blocks_of (first ∷ rest) g h =
    let (p, e, s) = build_inversion first rest g h in
    let cut =
      split_blocks-IsBlock (leaders_of first rest) first [] rest g.blocks p (first_leads first rest)
        tt tt
        (unfold last_of in
          linked (leaders_of first rest) (map address_of (first ∷ rest)) first rest
            (added_Among first rest)) in
    (
      split_blocks_partition (leaders_of first rest) first [] rest g.blocks p,
      All-map (IsBlock (leaders_of first rest)) IsBasicBlock g.blocks
          (λ b k. record { starts = k.starts; quiet = k.quiet }) cut,
    )

edges_of :
    (is : List NormalizedInstruction) (g : ControlFlowGraph)
    → build_ordered is ≡ ok g
    → All (IsBlockEdge (map address_of is) (map start_of g.blocks)) g.edges
unfolding build_ordered
edges_of [] g h = let none_left : [] ≡ g.edges = ground (arith, h) in rw (← none_left) tt
edges_of (first ∷ rest) g h =
    let (p, e, s) = build_inversion first rest g h in
    rw e (
      all_edges-IsBlockEdge (leaders_of first rest) (map address_of (first ∷ rest))
        (map start_of g.blocks)
        (λ a l m. split_blocks_starts (leaders_of first rest) first [] rest g.blocks a p l tt m)
        g.blocks (starts_Member g.blocks)
        (rw (split_blocks_partition (leaders_of first rest) first [] rest g.blocks p) (
          targets_lead (leaders_of first rest) (map address_of (first ∷ rest)) (first ∷ rest)
            (added_Among first rest))))

-- Where the construction of the graph returns, its blocks, one after the other, are the input
-- instructions, each as often as it was given and sorted by address. A block starts at the
-- address of its first instruction, and none but its last instruction is a call, a jump or a
-- return.
pub build_cfg_blocks :
    (is : List NormalizedInstruction) (g : ControlFlowGraph)
    → build_cfg is ≡ ok g
    → Perm (all_instructions g.blocks) is
      × IsSortedByAddress (all_instructions g.blocks)
      × All IsBasicBlock g.blocks
unfolding build_cfg
build_cfg_blocks is g h =
    let (whole, blocks) = blocks_of (sort_by_address is) g h in
    (rw whole (sort-perm is), rw whole (sort-IsSortedByAddress is), blocks)

-- Where the construction of the graph returns, every edge leaves the start of one of its blocks;
-- and its target is the start of one of its blocks, or else the address of none of its
-- instructions.
pub build_cfg_edges :
    (is : List NormalizedInstruction) (g : ControlFlowGraph)
    → build_cfg is ≡ ok g
    → All (IsBlockEdge (map address_of (all_instructions g.blocks)) (map start_of g.blocks)) g.edges
unfolding build_cfg
build_cfg_edges is g h =
    let (whole, blocks) = blocks_of (sort_by_address is) g h in
    rw whole (edges_of (sort_by_address is) g h)
