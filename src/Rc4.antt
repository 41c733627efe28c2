-- ===== src/Rc4.antt =====
-- src/ai_reverse_agent/deobfuscation/string_rc4.py: the RC4 cipher and the tagged records.
pub mod Cipher
pub mod Records
use Prim.Native.Nat.{bit_xor}
use ai_reverse_agent.Prelude.{
  ℕ, zero, suc, ◌+◌, ◌-◌, ◌%◌, ◌≡◌, Bool, true, false, not, ◌&&◌, ◌||◌, List, [], ◌∷◌, ◌++◌, Option,
  none, some, length, get_elem?, get_or, set, ltb, leb, ◌==◌, if◌then◌else◌,
}
use mathlib.Core.Option
use ai_reverse_agent.Result.{Result, ok, err, ◌>>=◌}
use ai_reverse_agent.Text.{codes}
use ai_reverse_agent.Bytes.{Bytes, slice, from_little}
use ai_reverse_agent.Bytes.Search.{find}

-- `index_error` is an access out of range.
pub data Rc4Error : Type 0 where
  empty_key index_error : Rc4Error

abbrev pub found : Option ℕ → Result Rc4Error ℕ
found none = err index_error
found (some v) = ok v

-- values[i]
abbrev pub read : Bytes → ℕ → Result Rc4Error ℕ
read values i = found (get_elem? values i)

-- state[i], state[j] = state[j], state[i]
unfoldable pub swap : Bytes → ℕ → ℕ → Result Rc4Error Bytes
swap state i j = do a ← read state j; b ← read state i; ok (set (set state i a) j b)

-- list(range(256)), from `k` on
unfoldable pub count_from : ℕ → ℕ → Bytes
count_from zero k = []
count_from (suc n) k = k ∷ count_from n (k + 1)

abbrev pub initial_state : Bytes
unfolding count_from
initial_state = count_from 256 0

-- The key schedule at `index`, with `left` rounds to go.
unfoldable pub schedule : Bytes → ℕ → ℕ → ℕ → Bytes → Result Rc4Error Bytes
unfolding swap
schedule key zero index j state = ok state
schedule key (suc left) index j state = do
  s ← read state index
  k ← read key (index % length key)
  state' ← swap state index ((j + s + k) % 256)
  schedule key left (index + 1) ((j + s + k) % 256) state'

-- One byte of the key stream, and what the loop goes on with.
pub record Round : Type 0 where
  pub stream : ℕ
  pub state : Bytes
  pub i : ℕ
  pub j : ℕ

unfoldable pub next_round : Bytes → ℕ → ℕ → Result Rc4Error Round
unfolding swap
next_round state i j = do
  let i' = (i + 1) % 256
  s ← read state i'
  let j' = (j + s) % 256
  state' ← swap state i' j'
  a ← read state' i'
  b ← read state' j'
  k ← read state' ((a + b) % 256)
  ok (record { stream = k; state = state'; i = i'; j = j' })

-- The loop over `data`.
unfoldable pub generate : Bytes → ℕ → ℕ → Bytes → Result Rc4Error Bytes
unfolding next_round
generate state i j [] = ok []
generate state i j (v ∷ vs) = do
  r ← next_round state i j
  rest ← generate r.state r.i r.j vs
  ok (bit_xor v r.stream ∷ rest)

unfoldable pub rc4_crypt : Bytes → Bytes → Result Rc4Error Bytes
unfolding schedule generate
rc4_crypt b [] = err empty_key
rc4_crypt b (k ∷ ks) = do state ← schedule (k ∷ ks) 256 0 0 initial_state; generate state 0 0 b

-- RC4_MARKER
abbrev pub rc4_marker : Bytes
rc4_marker = codes "RC4STR" ++ 1 ∷ []

pub record DecodedRc4String : Type 0 where
  pub offset : ℕ
  pub key : Bytes
  pub value : Bytes

-- all(0x20 <= value <= 0x7E for value in decoded)
unfoldable pub is_printable : Bytes → Bool
is_printable [] = true
is_printable (b ∷ bs) = leb 0x20 b && leb b 0x7E && is_printable bs

-- The string of a record, if it is kept.
unfoldable pub keep_string : ℕ → Bytes → Bytes → List DecodedRc4String
unfolding is_printable
keep_string offset key decoded =
    if leb 4 (length decoded) && is_printable decoded
    then record { offset = offset; key = key; value = decoded } ∷ []
    else []

-- What the body of the loop cuts out of the data.
pub record TaggedRecord : Type 0 where
  pub key : Bytes
  pub encoded : Bytes
  pub next : ℕ

-- The record whose marker is at `offset`; on `none` the loop breaks off.
unfoldable pub read_record : Bytes → ℕ → Option TaggedRecord
unfolding slice from_little
read_record b offset =
    let header = offset + length rc4_marker in
    let key_length = get_or b header 0 in
    let data_length = from_little (slice b (header + 1) (header + 3)) in
    let payload = header + 3 in
    let key = slice b payload (payload + key_length) in
    let encoded = slice b (payload + key_length) (payload + key_length + data_length) in
    if ltb (length b) (header + 3)
    then none
    else if length key == 0 || not (length encoded == data_length)
    then none
    else some (record { key = key; encoded = encoded; next = payload + key_length + data_length })

-- The loop of find_rc4_strings; `none` means that the fuel ran out.
unfoldable pub find_records : ℕ → Bytes → ℕ → Option (Result Rc4Error (List DecodedRc4String))
unfolding find read_record keep_string rc4_crypt
find_records zero b cursor = none
find_records (suc fuel) b cursor = elim (find rc4_marker b cursor) [
  | none ↦ some (ok [])
  | some offset ↦ elim (read_record b offset) [
    | none ↦ some (ok [])
    | some r ↦
        Option.map
          (λ rest. do
            decoded ← rc4_crypt r.encoded r.key
            strings ← rest
            ok (keep_string offset r.key decoded ++ strings))
          (find_records fuel b r.next)
  ]
]

-- find_rc4_strings
unfoldable pub find_rc4_strings : Bytes → Option (Result Rc4Error (List DecodedRc4String))
unfolding find_records
find_rc4_strings b = find_records (length b + 1) b 0
