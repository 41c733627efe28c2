-- ===== src/Diff/Script.antt =====
-- `_instruction_diff` of patch_diff.py, over scripts of opcodes as difflib documents them.
use ai_reverse_agent.Prelude.{
  drop-drop, ℕ, zero, suc, ◌+◌, ◌-◌, ◌≤◌, ◌<◌, ◌≡◌, refl, sym, ap, ◌∙◌, List, [], ◌∷◌, ◌++◌, map,
  arith, length, length-map, length-take, length-drop, take, drop, take-append-drop,
}
use ai_reverse_agent.Instruction.{NormalizedInstruction}
use ai_reverse_agent.Diff.{
  InstructionDelta, removed, added, replaced, Key, instruction_key, Tag, equal, delete, insert,
  replace, Opcode, range_of, pair_up, opcode_deltas, script_deltas, instruction_diff,
}

-- What difflib documents of a tag: equal ranges are equal, and what is deleted, inserted or replaced
-- is not empty.
abbrev pub FitsTag : Tag → List Key → List Key → Type 0
FitsTag equal olds news = olds ≡ news
FitsTag delete olds news = (0 < length olds) × (length news ≡ 0)
FitsTag insert olds news = (length olds ≡ 0) × (0 < length news)
FitsTag replace olds news = (0 < length olds) × (0 < length news)

-- What difflib documents of the opcodes from two positions on: each starts where the one before it
-- ended, and they reach the ends of both lists.
abbrev pub IsScript : List Key → List Key → ℕ → ℕ → List Opcode → Type 0
IsScript a b i j [] = (i ≡ length a) × (j ≡ length b)
IsScript a b i j (o ∷ os) =
    (o.old_start ≡ i)
    × (o.new_start ≡ j)
    × (i ≤ o.old_end)
    × (j ≤ o.new_end)
    × FitsTag o.tag (range_of a i o.old_end) (range_of b j o.new_end)
    × IsScript a b o.old_end o.new_end os

-- How many deltas have only the one side.
abbrev pub count_removed : List InstructionDelta → ℕ
count_removed [] = 0
count_removed (removed i ∷ ds) = suc (count_removed ds)
count_removed (d ∷ ds) = count_removed ds

abbrev pub count_added : List InstructionDelta → ℕ
count_added [] = 0
count_added (added i ∷ ds) = suc (count_added ds)
count_added (d ∷ ds) = count_added ds

map-take :
    (n : ℕ) (xs : List NormalizedInstruction)
    → map instruction_key (take n xs) ≡ take n (map instruction_key xs)
map-take zero xs = refl
map-take (suc n) [] = refl
map-take (suc n) (x ∷ xs) = ap (λ t. instruction_key x ∷ t) (map-take n xs)

map-drop :
    (n : ℕ) (xs : List NormalizedInstruction)
    → map instruction_key (drop n xs) ≡ drop n (map instruction_key xs)
map-drop zero xs = refl
map-drop (suc n) [] = refl
map-drop (suc n) (x ∷ xs) = map-drop n xs

-- The keys of a range are the range of the keys.
map-range_of :
    (xs : List NormalizedInstruction) (i k : ℕ)
    → map instruction_key (range_of xs i k) ≡ range_of (map instruction_key xs) i k
map-range_of xs i k = map-take (k - i) (drop i xs) ∙ ap (λ t. take (k - i) t) (map-drop i xs)

split_at : (xs : List Key) (i k : ℕ) → i ≤ k → range_of xs i k ++ drop k xs ≡ drop i xs
split_at xs i k h =
    let e : i + (k - i) ≡ k = omega arith in
    ap (λ t. range_of xs i k ++ t) (sym (drop-drop (k - i) i xs ∙ ap (λ (n : ℕ). drop n xs) e))
    ∙ take-append-drop (k - i) (drop i xs)

append_nil_inversion : (xs ys : List InstructionDelta) → xs ++ ys ≡ [] → (xs ≡ []) × (ys ≡ [])
append_nil_inversion [] ys h = (refl, h)
append_nil_inversion (x ∷ xs) ys h = absurd (cc)

-- An opcode without deltas is an equality.
no_deltas :
    (t : Tag) (olds news : List NormalizedInstruction)
    → FitsTag t (map instruction_key olds) (map instruction_key news)
    → opcode_deltas t olds news ≡ []
    → map instruction_key olds ≡ map instruction_key news
unfolding opcode_deltas pair_up
no_deltas equal olds news f h = f
no_deltas delete [] news f h = absurd (omega (arith, f.0))
no_deltas delete (o ∷ olds) news f h = absurd (cc)
no_deltas insert olds [] f h = absurd (omega (arith, f.1))
no_deltas insert olds (n ∷ news) f h = absurd (cc)
no_deltas replace [] news f h = absurd (omega (arith, f.0))
no_deltas replace (o ∷ olds) [] f h = absurd (cc)
no_deltas replace (o ∷ olds) (n ∷ news) f h = absurd (cc)

drop_all : (xs : List Key) → drop (length xs) xs ≡ []
drop_all [] = refl
drop_all (x ∷ xs) = drop_all xs

-- Where the rest of a script has no deltas, the rest of the keys is the same.
script_unchanged :
    (before after : List NormalizedInstruction) (i j : ℕ) (os : List Opcode)
    → IsScript (map instruction_key before) (map instruction_key after) i j os
    → script_deltas os before after ≡ []
    → drop i (map instruction_key before) ≡ drop j (map instruction_key after)
unfolding script_deltas
script_unchanged before after i j [] s h =
    rw (s.0, s.1, drop_all (map instruction_key before), drop_all (map instruction_key after)) refl
script_unchanged before after i j (o ∷ os) s h =
    let a = map instruction_key before in
    let b = map instruction_key after in
    let (ei, ej, li, lj, fits, rest) = s in
    let (none_here, none_later) =
      append_nil_inversion
        (opcode_deltas o.tag (range_of before o.old_start o.old_end)
          (range_of after o.new_start o.new_end))
        (script_deltas os before after) h in
    let fits' : FitsTag o.tag (map instruction_key (range_of before i o.old_end))
        (map instruction_key (range_of after j o.new_end)) =
      rw (map-range_of before i o.old_end, map-range_of after j o.new_end) fits in
    let here =
      no_deltas o.tag (range_of before i o.old_end) (range_of after j o.new_end) fits'
        (rw (ei, ej) at none_here) in
    let same : range_of a i o.old_end ≡ range_of b j o.new_end =
      sym (map-range_of before i o.old_end) ∙ here ∙ map-range_of after j o.new_end in
    let later = script_unchanged before after o.old_end o.new_end os rest none_later in
    sym (split_at a i o.old_end li)
    ∙ ap (λ t. t ++ drop o.old_end a) same
    ∙ ap (λ t. range_of b j o.new_end ++ t) later
    ∙ split_at b j o.new_end lj

count_removed-append :
    (xs ys : List InstructionDelta) → count_removed (xs ++ ys) ≡ count_removed xs + count_removed ys
count_removed-append [] ys = omega arith
count_removed-append (removed i ∷ xs) ys = omega (arith, count_removed-append xs ys)
count_removed-append (added i ∷ xs) ys = count_removed-append xs ys
count_removed-append (replaced i j ∷ xs) ys = count_removed-append xs ys

count_added-append :
    (xs ys : List InstructionDelta) → count_added (xs ++ ys) ≡ count_added xs + count_added ys
count_added-append [] ys = omega arith
count_added-append (removed i ∷ xs) ys = count_added-append xs ys
count_added-append (added i ∷ xs) ys = omega (arith, count_added-append xs ys)
count_added-append (replaced i j ∷ xs) ys = count_added-append xs ys

count-removed :
    (is : List NormalizedInstruction)
    → (count_removed (map removed is) ≡ length is) × (count_added (map removed is) ≡ 0)
count-removed [] = (refl, refl)
count-removed (i ∷ is) = let (p, q) = count-removed is in (ap suc p, q)

count-added :
    (is : List NormalizedInstruction)
    → (count_added (map added is) ≡ length is) × (count_removed (map added is) ≡ 0)
count-added [] = (refl, refl)
count-added (i ∷ is) = let (p, q) = count-added is in (ap suc p, q)

count-pair_up :
    (olds news : List NormalizedInstruction)
    → length olds + count_added (pair_up olds news)
      ≡ length news + count_removed (pair_up olds news)
unfolding pair_up
count-pair_up [] news = omega (arith, count-added news)
count-pair_up (o ∷ olds) [] = omega (arith, count-removed (o ∷ olds))
count-pair_up (o ∷ olds) (n ∷ news) = omega (arith, count-pair_up olds news)

count-opcode_deltas :
    (t : Tag) (olds news : List NormalizedInstruction)
    → FitsTag t (map instruction_key olds) (map instruction_key news)
    → length olds + count_added (opcode_deltas t olds news)
      ≡ length news + count_removed (opcode_deltas t olds news)
unfolding opcode_deltas
count-opcode_deltas equal olds news f =
    omega (arith, ap length f, length-map olds instruction_key, length-map news instruction_key)
count-opcode_deltas delete olds news f =
    omega (arith, f.1, length-map news instruction_key, count-removed olds)
count-opcode_deltas insert olds news f =
    omega (arith, f.0, length-map olds instruction_key, count-added news)
count-opcode_deltas replace olds news f = count-pair_up olds news

length-range_of :
    (xs : List NormalizedInstruction) (i k : ℕ)
    → i ≤ k
    → length (range_of xs i k) + length (drop k (map instruction_key xs))
      ≡ length (drop i (map instruction_key xs))
length-range_of xs i k h = omega (
  arith,
  length-take (k - i) (drop i xs),
  length-drop i xs,
  length-drop k (map instruction_key xs),
  length-drop i (map instruction_key xs),
  length-map xs instruction_key,
)

script_balance :
    (before after : List NormalizedInstruction) (i j : ℕ) (os : List Opcode)
    → IsScript (map instruction_key before) (map instruction_key after) i j os
    → length (drop i (map instruction_key before)) + count_added (script_deltas os before after)
      ≡ length (drop j (map instruction_key after)) + count_removed (script_deltas os before after)
unfolding script_deltas
script_balance before after i j [] s =
    rw (s.0, s.1, drop_all (map instruction_key before), drop_all (map instruction_key after)) refl
script_balance before after i j (o ∷ os) s =
    let a = map instruction_key before in
    let b = map instruction_key after in
    let (ei, ej, li, lj, fits, rest) = s in
    let fits' : FitsTag o.tag (map instruction_key (range_of before i o.old_end))
        (map instruction_key (range_of after j o.new_end)) =
      rw (map-range_of before i o.old_end, map-range_of after j o.new_end) fits in
    let here =
      count-opcode_deltas o.tag (range_of before i o.old_end) (range_of after j o.new_end) fits' in
    let later = script_balance before after o.old_end o.new_end os rest in
    let olds : length (range_of before i o.old_end) + length (drop o.old_end a)
        ≡ length (drop i a) =
      length-range_of before i o.old_end li in
    let news : length (range_of after j o.new_end) + length (drop o.new_end b) ≡ length (drop j b) =
      length-range_of after j o.new_end lj in
    rw (ei, ej)
      (omega (
        arith,
        here,
        later,
        olds,
        news,
        count_added-append
            (opcode_deltas o.tag (range_of before i o.old_end) (range_of after j o.new_end))
            (script_deltas os before after),
        count_removed-append
            (opcode_deltas o.tag (range_of before i o.old_end) (range_of after j o.new_end))
            (script_deltas os before after),
      ))

-- Where the opcodes are as difflib documents them, two functions without a delta have the same
-- instructions, up to their addresses.
pub instruction_diff_unchanged :
    (get_opcodes : List Key → List Key → List Opcode)
    (documented : (a b : List Key) → IsScript a b 0 0 (get_opcodes a b))
    (before after : List NormalizedInstruction)
    → instruction_diff get_opcodes before after ≡ []
    → map instruction_key before ≡ map instruction_key after
unfolding instruction_diff
instruction_diff_unchanged get_opcodes documented before after h =
    script_unchanged before after 0 0
      (get_opcodes (map instruction_key before) (map instruction_key after))
      (documented (map instruction_key before) (map instruction_key after)) h

-- Where the opcodes are as difflib documents them, the deltas account for the lengths of two
-- functions: the old length and the added instructions are as many as the new length and the
-- removed ones.
pub instruction_diff_balance :
    (get_opcodes : List Key → List Key → List Opcode)
    (documented : (a b : List Key) → IsScript a b 0 0 (get_opcodes a b))
    (before after : List NormalizedInstruction)
    → length before + count_added (instruction_diff get_opcodes before after)
      ≡ length after + count_removed (instruction_diff get_opcodes before after)
unfolding instruction_diff
instruction_diff_balance get_opcodes documented before after =
    let balance =
      script_balance before after 0 0
        (get_opcodes (map instruction_key before) (map instruction_key after))
        (documented (map instruction_key before) (map instruction_key after)) in
    omega (arith, balance, length-map before instruction_key, length-map after instruction_key)
