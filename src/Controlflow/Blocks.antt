-- ===== src/Controlflow/Blocks.antt =====
-- The blocks that `build_cfg` cuts from the ordered stream.
use mathlib.Core.List.{append_assoc}
use ai_reverse_agent.Prelude.{
  last_of, ◌≡◌, ◌≢◌, refl, sym, ap, ◌∙◌, inl, inr, ◌⊎◌, true, false, not, ◌&&◌, ◌||◌, List, [], ◌∷◌,
  ◌++◌, map, arith, All, All-append, Member, Bool-cases,
}
use ai_reverse_agent.Prelude.Int.{ℤ, eqb_ℤ_iff}
use ai_reverse_agent.Result.{ok, bind_inversion}
use ai_reverse_agent.Instruction.{NormalizedInstruction, from_hex}
use ai_reverse_agent.Controlflow.{
  BasicBlock, instructions, contains, make_block, split_blocks, ends_block, address_of,
}

make_block_inversion :
    (first : NormalizedInstruction) (more : List NormalizedInstruction) (b : BasicBlock)
    → make_block first more ≡ ok b
    → (b.first ≡ first) × (b.more ≡ more) × (b.start_address ≡ first.address)
unfolding make_block
make_block_inversion first more b h =
    let (encoded, p, q) = bind_inversion (from_hex (last_of first more).bytes_hex) _ h in
    (ground (arith, q), ground (arith, q), ground (arith, q))

-- A block closes before a leader.
split_inversion :
    (leaders : List ℤ) (first : NormalizedInstruction) (more : List NormalizedInstruction)
    (i : NormalizedInstruction) (is : List NormalizedInstruction) (bs : List BasicBlock)
    → contains i.address leaders ≡ true
    → split_blocks leaders first more (i ∷ is) ≡ ok bs
    → (b : BasicBlock) × (rest : List BasicBlock) × (make_block first more ≡ ok b)
      × (split_blocks leaders i [] is ≡ ok rest)
      × (bs ≡ b ∷ rest)
unfolding split_blocks
split_inversion leaders first more i is bs e h =
    let (b, p, q) = bind_inversion (make_block first more) _ (rw e at h) in
    let (rest, p', q') = bind_inversion (split_blocks leaders i [] is) _ q in
    (b, rest, p, p', ground (arith, q'))

split_last :
    (leaders : List ℤ) (first : NormalizedInstruction) (more : List NormalizedInstruction)
    (bs : List BasicBlock)
    → split_blocks leaders first more [] ≡ ok bs
    → (b : BasicBlock) × (make_block first more ≡ ok b) × (bs ≡ b ∷ [])
unfolding split_blocks
split_last leaders first more bs h =
    let (b, p, q) = bind_inversion (make_block first more) _ h in (b, p, ground (arith, q))

split_extends :
    (leaders : List ℤ) (first : NormalizedInstruction) (more : List NormalizedInstruction)
    (i : NormalizedInstruction) (is : List NormalizedInstruction)
    → contains i.address leaders ≡ false
    → split_blocks leaders first more (i ∷ is) ≡ split_blocks leaders first (more ++ i ∷ []) is
unfolding split_blocks
split_extends leaders first more i is e = rw e refl

-- The instructions of all blocks, in order.
abbrev pub all_instructions : List BasicBlock → List NormalizedInstruction
all_instructions [] = []
all_instructions (b ∷ bs) = instructions b ++ all_instructions bs

block_instructions :
    (first : NormalizedInstruction) (more : List NormalizedInstruction) (b : BasicBlock)
    → make_block first more ≡ ok b
    → instructions b ≡ first ∷ more
block_instructions first more b h = let (p, q, r) = make_block_inversion first more b h in cc

pub split_blocks_partition :
    (leaders : List ℤ) (first : NormalizedInstruction) (more rest : List NormalizedInstruction)
    (bs : List BasicBlock)
    → split_blocks leaders first more rest ≡ ok bs
    → all_instructions bs ≡ (first ∷ more) ++ rest
split_blocks_partition leaders first more [] bs h =
    let (b, p, q) = split_last leaders first more bs h in
    rw q (ap (λ t. t ++ []) (block_instructions first more b p))
split_blocks_partition leaders first more (i ∷ is) bs h =
    elim (Bool-cases (contains i.address leaders)) [
      | inl e ↦
          let (b, bs', p, q, r) = split_inversion leaders first more i is bs e h in
          rw r (
            ap (λ t. t ++ all_instructions bs') (block_instructions first more b p)
            ∙ ap (λ t. (first ∷ more) ++ t) (split_blocks_partition leaders i [] is bs' q))
      | inr e ↦
          split_blocks_partition leaders first (more ++ i ∷ []) is bs
            (rw (split_extends leaders first more i is e) at h)
          ∙ ap (λ t. first ∷ t) (append_assoc more (i ∷ []) is)
    ]

-- Only the last instruction of a sequence can end a block.
abbrev pub QuietUntilLast : NormalizedInstruction → List NormalizedInstruction → Type 0
QuietUntilLast i [] = Unit
QuietUntilLast i (j ∷ js) = (ends_block i ≡ false) × QuietUntilLast j js

-- What the cut leaves of a block.
pub record IsBlock (leaders : List ℤ) (b : BasicBlock) : Type 0 where
  pub starts : b.start_address ≡ b.first.address
  pub leads : contains b.start_address leaders ≡ true
  pub inner : All (λ i. contains i.address leaders ≡ false) b.more
  pub quiet : QuietUntilLast b.first b.more

-- Behind an instruction that ends a block stands a leader.
abbrev pub Linked : List ℤ → NormalizedInstruction → List NormalizedInstruction → Type 0
Linked leaders i [] = Unit
Linked leaders i (j ∷ js) =
    (ends_block i && not (contains j.address leaders) ≡ false) × Linked leaders j js

last_of-append :
    (i j : NormalizedInstruction) (is : List NormalizedInstruction) → last_of i (is ++ j ∷ []) ≡ j
unfolding last_of
last_of-append i j [] = refl
last_of-append i j (k ∷ ks) = last_of-append k j ks

quiet_grows :
    (i j : NormalizedInstruction) (is : List NormalizedInstruction)
    → QuietUntilLast i is
    → ends_block (last_of i is) ≡ false
    → QuietUntilLast i (is ++ j ∷ [])
unfolding last_of
quiet_grows i j [] q e = (e, tt)
quiet_grows i j (k ∷ ks) q e = (q.0, quiet_grows k j ks q.1 e)

made_IsBlock :
    (leaders : List ℤ) (first : NormalizedInstruction) (more : List NormalizedInstruction)
    (b : BasicBlock)
    → make_block first more ≡ ok b
    → contains first.address leaders ≡ true
    → All (λ i. contains i.address leaders ≡ false) more
    → QuietUntilLast first more
    → IsBlock leaders b
made_IsBlock leaders first more b h l n q =
    let (p, m, s) = make_block_inversion first more b h in
    record { starts = cc; leads = rw s l; inner = rw m n; quiet = rw (p, m) q }

pub split_blocks-IsBlock :
    (leaders : List ℤ) (first : NormalizedInstruction) (more rest : List NormalizedInstruction)
    (bs : List BasicBlock)
    → split_blocks leaders first more rest ≡ ok bs
    → contains first.address leaders ≡ true
    → All (λ i. contains i.address leaders ≡ false) more
    → QuietUntilLast first more
    → Linked leaders (last_of first more) rest
    → All (IsBlock leaders) bs
split_blocks-IsBlock leaders first more [] bs h l n q k =
    let (b, p, r) = split_last leaders first more bs h in
    rw r (made_IsBlock leaders first more b p l n q, tt)
split_blocks-IsBlock leaders first more (i ∷ is) bs h l n q k =
    elim (Bool-cases (contains i.address leaders)) [
      | inl e ↦
          let (b, bs', p, s, r) = split_inversion leaders first more i is bs e h in
          rw r (
            made_IsBlock leaders first more b p l n q,
            split_blocks-IsBlock leaders i [] is bs' s e tt tt (unfold last_of in k.1),
          )
      | inr e ↦
          let calm : ends_block (last_of first more) ≡ false = ground (arith, k.0, e) in
          split_blocks-IsBlock leaders first (more ++ i ∷ []) is bs
            (rw (split_extends leaders first more i is e) at h) l
            (All-append _ more (i ∷ []) n (e, tt)) (quiet_grows first i more q calm)
            (rw (last_of-append first i more) k.1)
    ]

not_inner :
    (leaders : List ℤ) (a : ℤ) (more : List NormalizedInstruction)
    → contains a leaders ≡ true
    → All (λ i. contains i.address leaders ≡ false) more
    → contains a (map address_of more) ≡ false
unfolding contains
not_inner leaders a [] l n = refl
not_inner leaders a (i ∷ is) l n =
    ground (arith, n.0, eqb_ℤ_iff a i.address, not_inner leaders a is l n.1)

contains-append :
    (a : ℤ) (xs ys : List NormalizedInstruction)
    → contains a (map address_of (xs ++ ys))
      ≡ (contains a (map address_of xs) || contains a (map address_of ys))
unfolding contains
contains-append a [] ys = refl
contains-append a (x ∷ xs) ys = ground (arith, contains-append a xs ys)

-- A leader of the stream is the start of the open block, or lies behind it.
first_or_later :
    (leaders : List ℤ) (first : NormalizedInstruction) (more rest : List NormalizedInstruction)
    (a : ℤ)
    → contains a leaders ≡ true
    → All (λ i. contains i.address leaders ≡ false) more
    → contains a (map address_of ((first ∷ more) ++ rest)) ≡ true
    → (a ≡ first.address) ⊎ (contains a (map address_of rest) ≡ true)
unfolding contains
first_or_later leaders first more rest a l n m =
    ground
      (arith, eqb_ℤ_iff a first.address, contains-append a more rest, not_inner leaders a more l n)

not_contains_nil : (a : ℤ) → contains a [] ≢ true
unfolding contains
not_contains_nil a e = cc

-- Every leader of the stream starts a block.
pub split_blocks_starts :
    (leaders : List ℤ) (first : NormalizedInstruction) (more rest : List NormalizedInstruction)
    (bs : List BasicBlock) (a : ℤ)
    → split_blocks leaders first more rest ≡ ok bs
    → contains a leaders ≡ true
    → All (λ i. contains i.address leaders ≡ false) more
    → contains a (map address_of ((first ∷ more) ++ rest)) ≡ true
    → Member a (map (λ (b : BasicBlock). b.start_address) bs)
split_blocks_starts leaders first more [] bs a h l n m =
    let (b, p, q) = split_last leaders first more bs h in
    let (f, g, s) = make_block_inversion first more b p in
    rw q (elim (first_or_later leaders first more [] a l n m) [
      | inl e ↦ inl (e ∙ sym s)
      | inr e ↦ absurd (not_contains_nil a e)
    ])
split_blocks_starts leaders first more (i ∷ is) bs a h l n m =
    elim (Bool-cases (contains i.address leaders)) [
      | inl c ↦
          let (b, bs', p, q, r) = split_inversion leaders first more i is bs c h in
          let (f, g, s) = make_block_inversion first more b p in
          rw r (elim (first_or_later leaders first more (i ∷ is) a l n m) [
            | inl e ↦ inl (e ∙ sym s)
            | inr e ↦ inr (split_blocks_starts leaders i [] is bs' a q l tt e)
          ])
      | inr c ↦
          split_blocks_starts leaders first (more ++ i ∷ []) is bs a
            (rw (split_extends leaders first more i is c) at h) l
            (All-append _ more (i ∷ []) n (c, tt)) (rw (append_assoc more (i ∷ []) is) m)
    ]
