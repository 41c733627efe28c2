-- ===== src/Symbolic/Mini/Product.antt =====
-- The candidates of the built-in solver against the symbols' domains.
use native.Mathlib.Nat.{mul_assoc}
use ai_reverse_agent.Prelude.{
  ℕ, zero, suc, ◌+◌, ◌*◌, ◌<◌, ◌≡◌, refl, ap, ◌∙◌, inl, inr, List, [], ◌∷◌, map, arith, length,
  length-append, length-map, Member, Member-append_left, Member-append_right, Member-append_split,
  Member-map, All, Bool-cases,
}
use ai_reverse_agent.Prelude.Int.{
  ℤ, pos, pos_part, neg_part, ◌+ℤ◌, ◌*ℤ◌, ◌≤ℤ◌, ltb_ℤ, ltb_ℤ_true, ltb_ℤ_false, parts_apart,
  +ℤ_parts, -ℤ_parts, eq_of_parts, pos-*,
}
use ai_reverse_agent.Result.{ok}
use ai_reverse_agent.Symbolic.{Symbol}
use ai_reverse_agent.Symbolic.Mini.{width, candidate_space, count_up, domain, prefix_each, product}

-- A value of the symbol's range.
abbrev pub InRange : Symbol → ℤ → Type 0
InRange s v = (s.minimum ≤ℤ v) × (v ≤ℤ s.maximum)

-- One value for each symbol, each in range.
abbrev pub InRanges : List Symbol → List ℤ → Type 0
InRanges [] [] = Unit
InRanges [] (v ∷ vs) = ⊥
InRanges (s ∷ ss) [] = ⊥
InRanges (s ∷ ss) (v ∷ vs) = InRange s v × InRanges ss vs

pos_part_width :
    (s : Symbol)
    → pos_part (width s) + pos_part s.minimum + neg_part s.maximum
      ≡ pos_part s.maximum + neg_part s.minimum + 1 + neg_part (width s)
unfolding width
pos_part_width s = omega (arith, +ℤ_parts, -ℤ_parts)

count_up-Member :
    (n : ℕ) (lo v : ℤ)
    → lo ≤ℤ v
    → pos_part v + neg_part lo < pos_part lo + neg_part v + n
    → Member v (count_up n lo)
unfolding count_up
count_up-Member zero lo v h k = absurd (omega arith)
count_up-Member (suc n) lo v h k = elim (Bool-cases (ltb_ℤ lo v)) [
  | inl p ↦ inr (
      count_up-Member n (lo +ℤ pos 1) v (omega (arith, +ℤ_parts lo (pos 1), ltb_ℤ_true lo v p))
        (omega (arith, +ℤ_parts lo (pos 1))))
  | inr p ↦ inl (eq_of_parts v lo (omega (arith, ltb_ℤ_false lo v p)))
]

Member-count_up :
    (n : ℕ) (lo v : ℤ)
    → Member v (count_up n lo)
    → (lo ≤ℤ v) × (pos_part v + neg_part lo < pos_part lo + neg_part v + n)
unfolding count_up
Member-count_up zero lo v m = elim m [ ]
Member-count_up (suc n) lo v (inl e) = rw e (omega arith, omega arith)
Member-count_up (suc n) lo v (inr m) =
    let (a, b) = Member-count_up n (lo +ℤ pos 1) v m in
    (omega (arith, a, +ℤ_parts lo (pos 1)), omega (arith, b, +ℤ_parts lo (pos 1)))

domain-Member : (s : Symbol) (v : ℤ) → InRange s v → Member v (domain s)
unfolding domain
domain-Member s v (a, b) =
    count_up-Member (pos_part (width s)) s.minimum v a
      (omega (arith, pos_part_width s, parts_apart (width s)))

Member-domain : (s : Symbol) (v : ℤ) → Member v (domain s) → InRange s v
unfolding domain
Member-domain s v m =
    let (a, b) = Member-count_up (pos_part (width s)) s.minimum v m in
    (a, omega (arith, pos_part_width s, parts_apart (width s)))

prefix_each-Member :
    (v : ℤ) (r vs : List ℤ) (rests : List (List ℤ))
    → Member v vs
    → Member r rests
    → Member (v ∷ r) (prefix_each vs rests)
unfolding prefix_each
prefix_each-Member v r [] rests m k = elim m [ ]
prefix_each-Member v r (w ∷ ws) rests (inl e) k =
    rw e (Member-append_left _ _ _ (Member-map (λ t. w ∷ t) r rests k))
prefix_each-Member v r (w ∷ ws) rests (inr m) k =
    Member-append_right _ (map (λ t. w ∷ t) rests) _ (prefix_each-Member v r ws rests m k)

Member-map_inversion :
    (v : ℤ) (c : List ℤ) (rests : List (List ℤ))
    → Member c (map (λ t. v ∷ t) rests)
    → (r : List ℤ) × (c ≡ v ∷ r) × Member r rests
Member-map_inversion v c [] m = elim m [ ]
Member-map_inversion v c (t ∷ ts) (inl e) = (t, e, inl refl)
Member-map_inversion v c (t ∷ ts) (inr m) =
    let (r, e, k) = Member-map_inversion v c ts m in (r, e, inr k)

Member-prefix_each :
    (c vs : List ℤ) (rests : List (List ℤ))
    → Member c (prefix_each vs rests)
    → (v : ℤ) × (r : List ℤ) × (c ≡ v ∷ r) × Member v vs × Member r rests
unfolding prefix_each
Member-prefix_each c [] rests m = elim m [ ]
Member-prefix_each c (w ∷ ws) rests m =
    elim (Member-append_split c (map (λ t. w ∷ t) rests) (prefix_each ws rests) m) [
      | inl k ↦ let (r, e, n) = Member-map_inversion w c rests k in (w, r, e, inl refl, n)
      | inr k ↦ let (v, r, e, n, l) = Member-prefix_each c ws rests k in (v, r, e, inr n, l)
    ]

-- Every point of the domains is a candidate.
pub product-Member :
    (ss : List Symbol) (vs : List ℤ) → InRanges ss vs → Member vs (product (map domain ss))
unfolding product
product-Member [] [] h = inl refl
product-Member [] (v ∷ vs) h = elim h [ ]
product-Member (s ∷ ss) [] h = elim h [ ]
product-Member (s ∷ ss) (v ∷ vs) h =
    prefix_each-Member v vs (domain s) (product (map domain ss)) (domain-Member s v h.0)
      (product-Member ss vs h.1)

-- Every candidate is a point of the domains.
pub Member-product :
    (ss : List Symbol) (vs : List ℤ) → Member vs (product (map domain ss)) → InRanges ss vs
unfolding product
Member-product [] vs (inl e) = rw e tt
Member-product [] vs (inr m) = elim m [ ]
Member-product (s ∷ ss) vs m =
    let (v, r, e, n, k) = Member-prefix_each vs (domain s) (product (map domain ss)) m in
    rw e (Member-domain s v n, Member-product ss r k)

length-count_up : (n : ℕ) (lo : ℤ) → length (count_up n lo) ≡ n
unfolding count_up
length-count_up zero lo = refl
length-count_up (suc n) lo = ap suc (length-count_up n (lo +ℤ pos 1))

length-prefix_each :
    (vs : List ℤ) (rests : List (List ℤ)) → length (prefix_each vs rests) ≡ length vs * length rests
unfolding prefix_each
length-prefix_each [] rests = omega arith
length-prefix_each (v ∷ vs) rests = grind (
  arith,
  length-append (map (λ t. v ∷ t) rests) (prefix_each vs rests),
  length-map rests (λ (t : List ℤ). v ∷ t),
  length-prefix_each vs rests,
)

-- The bounds that `Symbol` checks when it is made.
abbrev pub HasDomain : Symbol → Type 0
HasDomain s = s.minimum ≤ℤ s.maximum

width-domain : (s : Symbol) → HasDomain s → width s ≡ pos (length (domain s))
unfolding domain
width-domain s h =
    rw (length-count_up (pos_part (width s)) s.minimum)
      (eq_of_parts _ _ (omega (arith, pos_part_width s, parts_apart (width s))))

-- The product that the bound is checked on is the number of candidates, and within the limit.
pub candidate_space_lem :
    (limit : ℤ) (count : ℕ) (ss : List Symbol) (space : ℤ)
    → All HasDomain ss
    → pos count ≤ℤ limit
    → candidate_space limit (pos count) ss ≡ ok space
    → (space ≡ pos (count * length (product (map domain ss)))) × (space ≤ℤ limit)
unfolding candidate_space product
candidate_space_lem limit count [] space h l e =
    let e' : pos count ≡ space = cc in rw (← e') (ap pos (omega arith), l)
candidate_space_lem limit count (s ∷ ss) space h l e =
    let grown : pos count *ℤ width s ≡ pos (count * length (domain s)) =
      rw (width-domain s h.0) (pos-* count (length (domain s))) in
    elim (Bool-cases (ltb_ℤ limit (pos count *ℤ width s))) [
      | inl over ↦ absurd (cc)
      | inr fits ↦
          let below : pos (count * length (domain s)) ≤ℤ limit =
            rw grown at (ltb_ℤ_false limit (pos count *ℤ width s) fits) in
          let (a, b) =
            candidate_space_lem limit (count * length (domain s)) ss space h.1 below
              (rw grown at (rw fits at e)) in
          (
            a
                ∙ ap pos (
                    rw (length-prefix_each (domain s) (product (map domain ss)))
                      (mul_assoc count (length (domain s)) _)),
            b,
          )
    ]
