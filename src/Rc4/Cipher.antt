-- ===== src/Rc4/Cipher.antt =====
-- `rc4_crypt` of string_rc4.py.
use Prim.Native.Nat.{bit_xor}
use ai_reverse_agent.Prelude.Xor.{xor_twice}
use ai_reverse_agent.Prelude.{
  ℕ, zero, suc, ◌+◌, ◌%◌, ◌≤◌, ◌<◌, ◌≡◌, refl, ap, ◌∙◌, [], ◌∷◌, arith, length, set, length-set,
}
use ai_reverse_agent.Result.{ok, bind_inversion, bind_ok, Returns}
use ai_reverse_agent.Bytes.{Bytes}
use ai_reverse_agent.Rc4.{
  read, swap, count_from, initial_state, schedule, Round, next_round, generate, rc4_crypt,
}

read_in_range : (values : Bytes) (i : ℕ) → i < length values → Returns (read values i)
read_in_range [] i h = elim h [ ]
read_in_range (v ∷ vs) zero h = (v, refl)
read_in_range (v ∷ vs) (suc i) h = read_in_range vs i (omega arith)

-- The exchange of two entries of the state is a state.
swap_returns :
    (state : Bytes) (i j : ℕ)
    → i < length state
    → j < length state
    → (out : Bytes) × (swap state i j ≡ ok out) × (length out ≡ length state)
unfolding swap
swap_returns state i j hi hj =
    let (a, p) = read_in_range state j hj in
    let (b, q) = read_in_range state i hi in
    (set (set state i a) j b, rw (p, q) refl, length-set (set state i a) j b ∙ length-set state i a)

schedule_returns :
    (key : Bytes) (left index j : ℕ) (state : Bytes)
    → 0 < length key
    → length state ≡ 256
    → index + left ≤ 256
    → (out : Bytes) × (schedule key left index j state ≡ ok out) × (length out ≡ 256)
unfolding schedule
schedule_returns key zero index j state k h l = (state, refl, h)
schedule_returns key (suc left) index j state k h l =
    let (s, p) = read_in_range state index (omega arith) in
    let (c, q) = read_in_range key (index % length key) (omega arith) in
    let (state', r, t) = swap_returns state index ((j + s + c) % 256) (omega arith) (omega arith) in
    let (out, u, v) =
      schedule_returns key left (index + 1) ((j + s + c) % 256) state' k (t ∙ h) (omega arith) in
    (out, bind_ok _ _ p (bind_ok _ _ q (bind_ok _ _ r u)), v)

next_round_returns :
    (state : Bytes) (i j : ℕ)
    → length state ≡ 256
    → (r : Round) × (next_round state i j ≡ ok r) × (length r.state ≡ 256)
unfolding next_round
next_round_returns state i j h =
    let i' = (i + 1) % 256 in
    let (s, p) = read_in_range state i' (omega arith) in
    let j' = (j + s) % 256 in
    let (state', q, t) = swap_returns state i' j' (omega arith) (omega arith) in
    let (a, u) = read_in_range state' i' (omega (arith, t)) in
    let (b, v) = read_in_range state' j' (omega (arith, t)) in
    let (k, w) = read_in_range state' ((a + b) % 256) (omega (arith, t)) in
    (
      record { stream = k; state = state'; i = i'; j = j' },
      bind_ok _ _ p (bind_ok _ _ q (bind_ok _ _ u (bind_ok _ _ v (bind_ok _ _ w refl)))),
      t ∙ h,
    )

generate_returns :
    (state : Bytes) (i j : ℕ) (b : Bytes)
    → length state ≡ 256
    → (out : Bytes) × (generate state i j b ≡ ok out) × (length out ≡ length b)
unfolding generate
generate_returns state i j [] h = ([], refl, refl)
generate_returns state i j (v ∷ vs) h =
    let (r, p, t) = next_round_returns state i j h in
    let (out, q, u) = generate_returns r.state r.i r.j vs t in
    (bit_xor v r.stream ∷ out, rw (p, q) refl, ap suc u)

-- The key stream depends on the state alone, so a second run takes it off again.
generate_twice :
    (state : Bytes) (i j : ℕ) (b out : Bytes)
    → generate state i j b ≡ ok out
    → generate state i j out ≡ ok b
unfolding generate
generate_twice state i j [] out h = let e : [] ≡ out = ground (arith, h) in rw (← e) refl
generate_twice state i j (v ∷ vs) out h =
    let (r, p, q) = bind_inversion (next_round state i j) _ h in
    let (rest, s, t) = bind_inversion (generate r.state r.i r.j vs) _ q in
    let e : bit_xor v r.stream ∷ rest ≡ out = ground (arith, t) in
    rw (← e) (rw (p, generate_twice r.state r.i r.j vs rest s, xor_twice v r.stream) refl)

-- With a key of at least one byte the cipher reads nothing out of range, and returns as many bytes
-- as it is given.
pub rc4_crypt_returns :
    (b key : Bytes)
    → 0 < length key
    → (out : Bytes) × (rc4_crypt b key ≡ ok out) × (length out ≡ length b)
unfolding rc4_crypt
rc4_crypt_returns b [] h = elim h [ ]
rc4_crypt_returns b (k ∷ ks) h =
    let (state, p, t) =
      schedule_returns (k ∷ ks) 256 0 0 initial_state h (unfold count_from in refl) (omega arith) in
    let (out, q, u) = generate_returns state 0 0 b t in (out, rw p q, u)

decrypt : (b key out : Bytes) → rc4_crypt b key ≡ ok out → rc4_crypt out key ≡ ok b
unfolding rc4_crypt
decrypt b [] out h = absurd (cc)
decrypt b (k ∷ ks) out h =
    let (state, p, q) = bind_inversion (schedule (k ∷ ks) 256 0 0 initial_state) _ h in
    rw p (generate_twice state 0 0 b out q)

-- With a key of at least one byte the cipher returns, reads nothing out of range, and keeps the
-- length; and a second run with the same key gives the bytes back.
pub rc4_crypt_twice :
    (b key : Bytes)
    → 0 < length key
    → (out : Bytes) × (rc4_crypt b key ≡ ok out)
      × (length out ≡ length b)
      × (rc4_crypt out key ≡ ok b)
rc4_crypt_twice b key h =
    let (out, p, l) = rc4_crypt_returns b key h in (out, p, l, decrypt b key out p)
