-- ===== src/Controlflow/Dot/Drawing.antt =====
-- The nodes and arrows of the Graphviz text.
use ai_reverse_agent.Prelude.{
  ℕ, ◌≡◌, refl, inl, inr, Bool, true, false, List, [], ◌∷◌, ◌++◌, map, All, All-intro, All_at,
  Member, Member-map, ◌||◌, Member-append_left, Member-append_right, Bool-cases, arith,
}
use mathlib.Core.Path.{subst, sym}
use ai_reverse_agent.Prelude.Sorts.{Member-sort}
use ai_reverse_agent.Prelude.Int.{ℤ, leb_ℤ, eqb_ℤ, eqb_ℤ_iff}
use ai_reverse_agent.Result.{ok}
use ai_reverse_agent.Text.{Text, codes}
use ai_reverse_agent.Instruction.{NormalizedInstruction}
use ai_reverse_agent.Controlflow.{ControlFlowEdge, ControlFlowGraph, contains, build_cfg}
use ai_reverse_agent.Controlflow.Edges.{start_of, build_cfg_edges}
use ai_reverse_agent.Controlflow.Dot.{
  block_node, external_node, node_line, block_attributes, block_line, external_attributes,
  external_line, known_blocks, unknown_targets, external_targets, target_node, arrow_line,
  edge_line, header_lines, dot_lines,
}

contains_inversion : (a : ℤ) (xs : List ℤ) → contains a xs ≡ true → Member a xs
unfolding contains
contains_inversion a [] h = ground arith
contains_inversion a (b ∷ bs) h = elim (Bool-cases (eqb_ℤ a b)) [
  | inl e ↦ inl ((eqb_ℤ_iff a b).0 e)
  | inr e ↦ inr (contains_inversion a bs (subst (λ c. (c || contains a bs) ≡ true) e h))
]

Member-map_inversion :
    {A B : Type 0} (f : A → B) (b : B) (xs : List A)
    → Member b (map f xs)
    → (a : A) × (b ≡ f a) × Member a xs
Member-map_inversion f b [] m = elim m [ ]
Member-map_inversion f b (x ∷ xs) (inl p) = (x, p, inl refl)
Member-map_inversion f b (x ∷ xs) (inr m) =
    let (a, p, k) = Member-map_inversion f b xs m in (a, p, inr k)

-- A target that is no known block is among the external ones.
unknown_targets-Member :
    (known : List ℤ) (e : ControlFlowEdge) (es : List ControlFlowEdge)
    → contains e.target known ≡ false
    → Member e es
    → Member e.target (unknown_targets known es)
unfolding unknown_targets
unknown_targets-Member known e [] h m = elim m [ ]
unknown_targets-Member known e (f ∷ es) h (inl p) =
    let q = subst (λ (d : ControlFlowEdge). contains d.target known ≡ false) p h in
    elim (Bool-cases (contains f.target (unknown_targets known es))) [
      | inl r ↦ rw p (rw q (rw r (contains_inversion f.target (unknown_targets known es) r)))
      | inr r ↦ rw p (rw q (rw r (inl refl)))
    ]
unknown_targets-Member known e (f ∷ es) h (inr m) =
    let later = unknown_targets-Member known e es h m in
    elim (Bool-cases (contains f.target known)) [
      | inl q ↦ rw q later
      | inr q ↦ elim (Bool-cases (contains f.target (unknown_targets known es))) [
        | inl r ↦ rw q (rw r later)
        | inr r ↦ rw q (rw r (inr later))
      ]
    ]

-- Some line declares the node.
abbrev pub Declares : List Text → Text → Type 0
Declares lines node = (attributes : Text) × Member (node_line node attributes) lines

-- The edge has its arrow, and both ends of the arrow are declared.
pub record IsDrawn (lines : List Text) (known : List ℤ) (e : ControlFlowEdge) : Type 0 where
  pub arrow : Member (arrow_line (block_node e.source) (target_node known e) e.kind) lines
  pub tail : Declares lines (block_node e.source)
  pub head : Declares lines (target_node known e)

module _ (is_word : ℕ → Bool) (g : ControlFlowGraph) (name : Text) where
  abbrev lines : List Text
  lines = dot_lines is_word g name

  abbrev closing : List Text
  closing = map (edge_line (known_blocks g)) g.edges ++ codes "}" ∷ []

  abbrev after_blocks : List Text
  after_blocks = map external_line (external_targets g) ++ closing

  among_blocks : (t : Text) → Member t (map block_line g.blocks) → Member t lines
  unfolding dot_lines
  among_blocks t m =
      Member-append_right t (header_lines is_word name) (map block_line g.blocks ++ after_blocks)
        (Member-append_left t (map block_line g.blocks) after_blocks m)

  past_blocks : (t : Text) → Member t after_blocks → Member t lines
  unfolding dot_lines
  past_blocks t m =
      Member-append_right t (header_lines is_word name) (map block_line g.blocks ++ after_blocks)
        (Member-append_right t (map block_line g.blocks) after_blocks m)

  blocks_drawn : (a : ℤ) → Member a (known_blocks g) → Declares lines (block_node a)
  unfolding block_line
  blocks_drawn a m =
      let (b, p, k) = Member-map_inversion start_of a g.blocks m in
      subst (λ (c : ℤ). Declares lines (block_node c)) (sym p)
        ((block_attributes b, among_blocks (block_line b) (Member-map block_line b g.blocks k)))

  externals_drawn :
      (e : ControlFlowEdge)
      → contains e.target (known_blocks g) ≡ false
      → Member e g.edges
      → Declares lines (external_node e.target)
  unfolding external_line external_targets
  externals_drawn e h m =
      let known =
        Member-sort leb_ℤ e.target _ (unknown_targets-Member (known_blocks g) e g.edges h m) in
      (
        external_attributes e.target,
        past_blocks (external_line e.target) (
            Member-append_left (external_line e.target) (map external_line (external_targets g))
              closing (Member-map external_line e.target (external_targets g) known)),
      )

  head_drawn :
      (e : ControlFlowEdge) → Member e g.edges → Declares lines (target_node (known_blocks g) e)
  unfolding target_node
  head_drawn e m = elim (Bool-cases (contains e.target (known_blocks g))) [
    | inl h ↦ rw h (blocks_drawn e.target (contains_inversion e.target (known_blocks g) h))
    | inr h ↦ rw h (externals_drawn e h m)
  ]

  arrow_drawn :
      (e : ControlFlowEdge) → Member e g.edges → Member (edge_line (known_blocks g) e) lines
  arrow_drawn e m =
      let line = edge_line (known_blocks g) e in
      let arrows = map (edge_line (known_blocks g)) g.edges in
      past_blocks line (
        Member-append_right line (map external_line (external_targets g)) closing (
          Member-append_left line arrows (codes "}" ∷ [])
            (Member-map (edge_line (known_blocks g)) e g.edges m)))

-- In the Graphviz lines of a graph that the construction returned, every edge has its arrow, and
-- both ends of the arrow are nodes that one of the lines declares: a block, or an external
-- target.
pub dot_lines-IsDrawn :
    (is_word : ℕ → Bool) (is : List NormalizedInstruction) (g : ControlFlowGraph) (name : Text)
    → build_cfg is ≡ ok g
    → All (IsDrawn (dot_lines is_word g name) (known_blocks g)) g.edges
unfolding edge_line
dot_lines-IsDrawn is_word is g name h = All-intro _ g.edges (λ e m. record {
  arrow = arrow_drawn is_word g name e m;
  tail =
      blocks_drawn is_word g name e.source (All_at _ e g.edges (build_cfg_edges is g h) m).leaves;
  head = head_drawn is_word g name e m;
})
