-- ===== src/Decompiler/Boundaries.antt =====
-- `find_function_boundaries` of decompiler.py: its functions against its input.
use ai_reverse_agent.Prelude.{
  last_of, append_assoc, ◌≡◌, refl, ap, ◌∙◌, true, false, List, [], ◌∷◌, ◌++◌, inl, inr, All,
  All-append, Bool-cases,
}
use ai_reverse_agent.Result.{ok, bind_ok, Returns}
use ai_reverse_agent.Instruction.{NormalizedInstruction, from_hex}
use ai_reverse_agent.Decompiler.{
  FunctionBoundary, body, is_return, make_boundary, close, split_functions,
  find_function_boundaries,
}

-- The encoding of the instruction is hexadecimal.
abbrev pub IsEncoded : NormalizedInstruction → Type 0
IsEncoded i = Returns (from_hex i.bytes_hex)

abbrev pub bodies : List FunctionBoundary → List NormalizedInstruction
bodies [] = []
bodies (b ∷ bs) = body b ++ bodies bs

-- No instruction but the last one is a return.
abbrev pub RunsToLast : NormalizedInstruction → List NormalizedInstruction → Type 0
RunsToLast i [] = Unit
RunsToLast i (j ∷ js) = (is_return i ≡ false) × RunsToLast j js

-- A function: it starts at its first instruction, and only its last one can be a return.
pub record IsFunction (b : FunctionBoundary) : Type 0 where
  pub starts : b.start_address ≡ b.first.address
  pub runs : RunsToLast b.first b.more

-- All but the last function end in a return.
abbrev pub EndInReturn : List FunctionBoundary → Type 0
EndInReturn [] = Unit
EndInReturn (b ∷ []) = Unit
EndInReturn (b ∷ c ∷ bs) = (is_return (last_of b.first b.more) ≡ true) × EndInReturn (c ∷ bs)

last_of-All :
    (P : NormalizedInstruction → Type 0) (i : NormalizedInstruction)
    (is : List NormalizedInstruction)
    → All P (i ∷ is)
    → P (last_of i is)
unfolding last_of
last_of-All P i [] h = h.0
last_of-All P i (j ∷ js) h = last_of-All P j js h.1

last_of-snoc :
    (i j : NormalizedInstruction) (is : List NormalizedInstruction) → last_of i (is ++ j ∷ []) ≡ j
unfolding last_of
last_of-snoc i j [] = refl
last_of-snoc i j (k ∷ ks) = last_of-snoc k j ks

RunsToLast-snoc :
    (i j : NormalizedInstruction) (is : List NormalizedInstruction)
    → All (λ k. is_return k ≡ false) (i ∷ is)
    → RunsToLast i (is ++ j ∷ [])
RunsToLast-snoc i j [] h = (h.0, tt)
RunsToLast-snoc i j (k ∷ ks) h = (h.0, RunsToLast-snoc k j ks h.1)

RunsToLast-weaken :
    (i : NormalizedInstruction) (is : List NormalizedInstruction)
    → All (λ k. is_return k ≡ false) (i ∷ is)
    → RunsToLast i is
RunsToLast-weaken i [] h = tt
RunsToLast-weaken i (k ∷ ks) h = (h.0, RunsToLast-weaken k ks h.1)

make_boundary_returns :
    (first : NormalizedInstruction) (more : List NormalizedInstruction)
    → All IsEncoded (first ∷ more)
    → RunsToLast first more
    → (b : FunctionBoundary) × (make_boundary first more ≡ ok b)
      × (b.first ≡ first)
      × (b.more ≡ more)
      × IsFunction b
unfolding make_boundary
make_boundary_returns first more h r =
    let (encoded, e) = last_of-All IsEncoded first more h in
    (_, bind_ok _ _ e refl, refl, refl, record { starts = refl; runs = r })

close_returns :
    (current : List NormalizedInstruction) (i : NormalizedInstruction)
    → All IsEncoded current
    → IsEncoded i
    → All (λ k. is_return k ≡ false) current
    → (b : FunctionBoundary) × (close current i ≡ ok b)
      × (body b ≡ current ++ i ∷ [])
      × (last_of b.first b.more ≡ i)
      × IsFunction b
unfolding last_of
close_returns [] i h k q =
    let (b, e, p, m, f) = make_boundary_returns i [] (k, tt) tt in
    (b, e, rw (p, m) refl, rw (p, m) refl, f)
close_returns (c ∷ cs) i h k q =
    let (b, e, p, m, f) =
      make_boundary_returns c (cs ++ i ∷ []) (All-append IsEncoded (c ∷ cs) (i ∷ []) h (k, tt))
        (RunsToLast-snoc c i cs q) in
    (b, e, rw (p, m) refl, rw (p, m) (last_of-snoc c i cs), f)

record Split (is : List NormalizedInstruction) (bs : List FunctionBoundary) : Type 0 where
  whole : bodies bs ≡ is
  functions : All IsFunction bs
  returns : EndInReturn bs

EndInReturn-cons :
    (b : FunctionBoundary) (bs : List FunctionBoundary)
    → is_return (last_of b.first b.more) ≡ true
    → EndInReturn bs
    → EndInReturn (b ∷ bs)
EndInReturn-cons b [] h k = tt
EndInReturn-cons b (c ∷ bs) h k = (h, k)

split_functions_returns :
    (current is : List NormalizedInstruction)
    → All IsEncoded current
    → All IsEncoded is
    → All (λ k. is_return k ≡ false) current
    → (bs : List FunctionBoundary) × (split_functions current is ≡ ok bs) × Split (current ++ is) bs
unfolding split_functions
split_functions_returns [] [] h k q =
    ([], refl, record { whole = refl; functions = tt; returns = tt })
split_functions_returns (c ∷ cs) [] h k q =
    let (b, e, p, m, f) = make_boundary_returns c cs h (RunsToLast-weaken c cs q) in
    (
      b ∷ [],
      bind_ok _ _ e refl,
      record { whole = rw (p, m) refl; functions = (f, tt); returns = tt },
    )
split_functions_returns current (i ∷ is) h k q = elim (Bool-cases (is_return i)) [
  | inl e ↦
      let (b, p, w, l, f) = close_returns current i h k.0 q in
      let (bs, r, s) = split_functions_returns [] is tt k.1 tt in
      (
        b ∷ bs,
        rw e (bind_ok _ _ p (bind_ok _ _ r refl)),
        record {
          whole = ap (λ t. t ++ bodies bs) w ∙ rw s.whole (append_assoc current (i ∷ []) is);
          functions = (f, s.functions);
          returns = EndInReturn-cons b bs (rw (l, e) refl) s.returns;
        },
      )
  | inr e ↦
      let (bs, r, s) =
        split_functions_returns (current ++ i ∷ []) is
          (All-append IsEncoded current (i ∷ []) h (k.0, tt)) k.1
          (All-append (λ j. is_return j ≡ false) current (i ∷ []) q (e, tt)) in
      (bs, rw (e, r) refl, rw (append_assoc current (i ∷ []) is) at s)
]

-- On a stream of instructions with hexadecimal encodings the split returns. Its functions, one
-- after the other, are the stream; each starts at its first instruction and has no return before
-- its last one; and all but the last function end in a return.
pub find_function_boundaries_lem :
    (is : List NormalizedInstruction)
    → All IsEncoded is
    → (bs : List FunctionBoundary) × (find_function_boundaries is ≡ ok bs)
      × (bodies bs ≡ is)
      × All IsFunction bs
      × EndInReturn bs
unfolding find_function_boundaries
find_function_boundaries_lem is h =
    let (bs, e, s) = split_functions_returns [] is tt h tt in
    (bs, e, s.whole, s.functions, s.returns)
