-- ===== src/Pe/Table/Roundtrip.antt =====
-- `_read_function_table` of parsers.py on the records of `_write_rdata` of fake_pe.py.
use ai_reverse_agent.Prelude.{
  drop-drop, take-append, drop-append, append_assoc, ℕ, zero, suc, ◌+◌, ◌-◌, ◌<◌, ◌^◌, ◌≡◌, refl,
  sym, ap, ◌∙◌, false, List, [], ◌∷◌, ◌++◌, map, arith, length, take, drop, All, ltb, ◌==◌,
}
use ai_reverse_agent.Result.{ok}
use ai_reverse_agent.Bytes.{
  Bytes, slice, from_little, to_little, length-to_little, from_little-to_little,
}
use ai_reverse_agent.Identifier.{FunctionEntry}
use ai_reverse_agent.Pe.Stream.{read, seek, ascii, bind_lem}
use ai_reverse_agent.Pe.Table.{read_records, read_function_table}
use ai_reverse_agent.Pe.Fixture.{FakeFunction, function_records}

-- What stands at the position is read, and the position moves behind it.
read_lem :
    (b : Bytes) (p : ℕ) (x post : Bytes)
    → drop p b ≡ x ++ post
    → (read (length x) b p ≡ ok (x, p + length x)) × (drop (p + length x) b ≡ post)
unfolding read slice
read_lem b p x post h =
    let n : p + length x - p ≡ length x = omega arith in
    let here : take (p + length x - p) (drop p b) ≡ x =
      ap (λ (k : ℕ). take k (drop p b)) n ∙ ap (λ t. take (length x) t) h ∙ take-append x post in
    (
      rw here refl,
      sym (drop-drop (length x) p b) ∙ ap (λ t. drop (length x) t) h ∙ drop-append x post,
    )

-- A function that a record can hold: an address of 4 bytes that is not 0, and an ASCII name of 1 to
-- 255 characters.
pub record IsWritable (f : FakeFunction) : Type 0 where
  pub nonzero : 0 < f.address
  pub address_bound : f.address < 256 ^ 4
  pub named : 0 < length f.name
  pub name_bound : length f.name < 256
  pub is_ascii : All (λ c. c < 128) f.name

abbrev pub entry_of : FakeFunction → FunctionEntry
entry_of f = record { address = f.address; name = f.name }

ascii_lem : (t : Bytes) → All (λ c. c < 128) t → ascii t ≡ t
unfolding ascii
ascii_lem [] h = refl
ascii_lem (c ∷ cs) h = ground (arith, ascii_lem cs h.1, h.0)

-- The step over one record.
read_records_step :
    (left : ℕ) (b : Bytes) (p : ℕ) (f : FakeFunction) (rest : Bytes) (out : List FunctionEntry)
    (q : ℕ)
    → IsWritable f
    → drop p b ≡ to_little 4 f.address ++ (length f.name ∷ (f.name ++ rest))
    → read_records left b (p + 4 + 1 + length f.name) ≡ ok (out, q)
    → read_records (suc left) b p ≡ ok (entry_of f ∷ out, q)
unfolding read_records
read_records_step left b p f rest out q w h again =
    let (r1, d1) = read_lem b p (to_little 4 f.address) (length f.name ∷ (f.name ++ rest)) h in
    let four = length-to_little 4 f.address in
    let r1' : read 4 b p ≡ ok (to_little 4 f.address, p + 4) = rw four at r1 in
    let d1' : drop (p + 4) b ≡ length f.name ∷ (f.name ++ rest) = rw four at d1 in
    let (r2, d2) = read_lem b (p + 4) (length f.name ∷ []) (f.name ++ rest) d1' in
    let (r3, d3) = read_lem b (p + 4 + 1) f.name rest d2 in
    let back = from_little-to_little 4 f.address w.address_bound in
    let t1 : ltb 4 4 ≡ false = refl in
    let t2 : (f.address == 0) ≡ false = ground (arith, w.nonzero) in
    let t3 : (length f.name == 0) ≡ false = ground (arith, w.named) in
    let t4 : ltb (length f.name) (length f.name) ≡ false = ground arith in
    bind_lem (read 4) _ b p (to_little 4 f.address) (p + 4) _ r1' (
      rw (four, back, t2)
        (bind_lem (read 1) _ b (p + 4) (length f.name ∷ []) (p + 4 + 1) _ r2 (
          rw t3 (
            bind_lem (read (length f.name)) _ b (p + 4 + 1) f.name (p + 4 + 1 + length f.name) _ r3
              (rw t4 (
                bind_lem (read_records left) _ b (p + 4 + 1 + length f.name) out q _ again
                  (rw (ascii_lem f.name w.is_ascii) refl)))))))

-- The marker behind the last record ends the table.
read_records_stop :
    (left : ℕ) (b : Bytes) (p : ℕ) (post : Bytes)
    → drop p b ≡ 0 ∷ 0 ∷ 0 ∷ 0 ∷ post
    → read_records (suc left) b p ≡ ok ([], p + 4)
unfolding read_records from_little
read_records_stop left b p post h =
    let (r, d) = read_lem b p (0 ∷ 0 ∷ 0 ∷ 0 ∷ []) post h in
    bind_lem (read 4) _ b p (0 ∷ 0 ∷ 0 ∷ 0 ∷ []) (p + 4) _ r refl

read_records-function_records :
    (fs : List FakeFunction) (left : ℕ) (b : Bytes) (p : ℕ) (post : Bytes)
    → length fs < left
    → All IsWritable fs
    → drop p b ≡ function_records fs ++ (0 ∷ 0 ∷ 0 ∷ 0 ∷ post)
    → (q : ℕ) × (read_records left b p ≡ ok (map entry_of fs, q))
unfolding function_records
read_records-function_records fs zero b p post l w h = elim l [ ]
read_records-function_records [] (suc left) b p post l w h =
    (p + 4, read_records_stop left b p post h)
read_records-function_records (f ∷ fs) (suc left) b p post l w h =
    let rest = function_records fs ++ (0 ∷ 0 ∷ 0 ∷ 0 ∷ post) in
    let whole : drop p b ≡ to_little 4 f.address ++ (length f.name ∷ (f.name ++ rest)) =
      h
      ∙ append_assoc (to_little 4 f.address ++ (length f.name ∷ f.name)) (function_records fs)
          (0 ∷ 0 ∷ 0 ∷ 0 ∷ post)
      ∙ append_assoc (to_little 4 f.address) (length f.name ∷ f.name) rest in
    let (r1, d1) = read_lem b p (to_little 4 f.address) (length f.name ∷ (f.name ++ rest)) whole in
    let d1' : drop (p + 4) b ≡ length f.name ∷ (f.name ++ rest) =
      rw (length-to_little 4 f.address) at d1 in
    let (r2, d2) = read_lem b (p + 4) (length f.name ∷ []) (f.name ++ rest) d1' in
    let (r3, d3) = read_lem b (p + 4 + 1) f.name rest d2 in
    let (q, again) =
      read_records-function_records fs left b (p + 4 + 1 + length f.name) post (omega arith) w.1
        d3 in
    (q, read_records_step left b p f rest (map entry_of fs) q w.0 whole again)

-- Fewer than 4096 functions, each with an address of 4 bytes that is not 0 and an ASCII name of 1
-- to 255 characters, are read back from the records that the fixture writes for them and the 4
-- zero bytes behind those, wherever in the file they stand.
pub read_function_table-function_records :
    (fs : List FakeFunction) (before post : Bytes)
    → length fs < 4096
    → All IsWritable fs
    → (q : ℕ) × (read_function_table
          (length before)
          (before ++ (function_records fs ++ (0 ∷ 0 ∷ 0 ∷ 0 ∷ post)))
          0
        ≡ ok (map entry_of fs, q))
unfolding read_function_table seek
read_function_table-function_records fs before post l w =
    let b = before ++ (function_records fs ++ (0 ∷ 0 ∷ 0 ∷ 0 ∷ post)) in
    let (q, e) =
      read_records-function_records fs 4096 b (length before) post l w
        (drop-append before (function_records fs ++ (0 ∷ 0 ∷ 0 ∷ 0 ∷ post))) in
    (q, bind_lem (seek (length before)) _ b 0 tt (length before) _ refl e)
