-- ===== src/Rc4/Records.antt =====
-- `find_rc4_strings` of string_rc4.py.
use ai_reverse_agent.Prelude.{
  ℕ, zero, suc, ◌+◌, ◌≤◌, ◌<◌, ◌≡◌, refl, true, not, ◌&&◌, ◌||◌, inl, inr, List, [], ◌++◌, Option,
  none, some, arith, length, get_or, ltb, leb, ◌==◌, Bool-cases, All, All-append,
}
use ai_reverse_agent.Result.{ok}
use ai_reverse_agent.Bytes.{Bytes, slice, from_little}
use ai_reverse_agent.Bytes.Search.{find, find-some}
use ai_reverse_agent.Rc4.{
  rc4_crypt, rc4_marker, DecodedRc4String, TaggedRecord, is_printable, read_record, keep_string,
  find_records, find_rc4_strings,
}
use ai_reverse_agent.Rc4.Cipher.{rc4_crypt_returns}

-- A string that the scan reports: at least four bytes, all printable.
pub IsReported : DecodedRc4String → Type 0
IsReported s = (4 ≤ length s.value) × (is_printable s.value ≡ true)

keep_string-IsReported :
    (offset : ℕ) (key decoded : Bytes) → All IsReported (keep_string offset key decoded)
unfolding keep_string IsReported
keep_string-IsReported offset key decoded =
    elim (Bool-cases (leb 4 (length decoded) && is_printable decoded)) [
      | inl e ↦ rw e ((ground (arith, e), ground (arith, e)), tt)
      | inr e ↦ rw e tt
    ]

-- A record that is read lies in the data, behind its marker, and has a key.
read_record_lem :
    (b : Bytes) (offset : ℕ) (r : TaggedRecord)
    → read_record b offset ≡ some r
    → (offset + 10 ≤ length b) × (offset + 10 ≤ r.next) × (0 < length r.key)
unfolding read_record
read_record_lem b offset r h =
    let header = offset + length rc4_marker in
    let key = slice b (header + 3) (header + 3 + get_or b header 0) in
    elim (Bool-cases (ltb (length b) (header + 3))) [
      | inl e ↦ absurd (ground (arith, h, e))
      | inr e ↦
          elim (Bool-cases (
            length key == 0
            || not (
                length (
                  slice b (header + 3 + get_or b header 0) (
                    header
                    + 3
                    + get_or b header 0
                    + from_little (slice b (header + 1) (header + 3))))
                == from_little (slice b (header + 1) (header + 3))))) [
                  | inl f ↦ absurd (ground (arith, rw (e, f) at h))
                  | inr f ↦
                      let same : record {
                        key = key;
                        encoded = slice b (header + 3 + get_or b header 0) (
                            header
                            + 3
                            + get_or b header 0
                            + from_little (slice b (header + 1) (header + 3)));
                        next =
                            header
                            + 3
                            + get_or b header 0
                            + from_little (slice b (header + 1) (header + 3));
                      }
                          ≡ r =
                        ground (arith, rw (e, f) at h) in
                      rw (← same) (ground (arith, e), ground arith, ground (arith, f))
                ]
    ]

-- The three ways through the body of the loop.
find_records_stop :
    (fuel : ℕ) (b : Bytes) (cursor : ℕ)
    → find rc4_marker b cursor ≡ none
    → find_records (suc fuel) b cursor ≡ some (ok [])
unfolding find_records
find_records_stop fuel b cursor u = rw (find_records, u) refl

find_records_break :
    (fuel : ℕ) (b : Bytes) (cursor offset : ℕ)
    → find rc4_marker b cursor ≡ some offset
    → read_record b offset ≡ none
    → find_records (suc fuel) b cursor ≡ some (ok [])
unfolding find_records
find_records_break fuel b cursor offset u v = rw (find_records, u, v) refl

find_records_step :
    (fuel : ℕ) (b : Bytes) (cursor offset : ℕ) (r : TaggedRecord) (decoded : Bytes)
    (out : List DecodedRc4String)
    → find rc4_marker b cursor ≡ some offset
    → read_record b offset ≡ some r
    → rc4_crypt r.encoded r.key ≡ ok decoded
    → find_records fuel b r.next ≡ some (ok out)
    → find_records (suc fuel) b cursor ≡ some (ok (keep_string offset r.key decoded ++ out))
unfolding find_records
find_records_step fuel b cursor offset r decoded out u v y w = rw (find_records, u, v, w, y) refl

find_records_returns :
    (fuel : ℕ) (b : Bytes) (cursor : ℕ)
    → 0 < fuel
    → length b < fuel + cursor
    → (out : List DecodedRc4String) × (find_records fuel b cursor ≡ some (ok out))
      × All IsReported out
unfolding find_records
find_records_returns zero b cursor p q = elim p [ ]
find_records_returns (suc fuel) b cursor p q =
    go (λ c. find_records_returns fuel b c) (find rc4_marker b cursor) refl
  where
    next :
        ((c : ℕ)
          → 0 < fuel
          → length b < fuel + c
          → (out : List DecodedRc4String) × (find_records fuel b c ≡ some (ok out))
            × All IsReported out)
        → (offset : ℕ) (r : Option TaggedRecord) → find rc4_marker b cursor ≡ some offset
        → read_record b offset ≡ r
        → (out : List DecodedRc4String) × (find_records (suc fuel) b cursor ≡ some (ok out))
          × All IsReported out
    next again offset none u v = ([], find_records_break fuel b cursor offset u v, tt)
    next again offset (some r) u v =
        let (lo, _, _) = find-some rc4_marker b cursor offset u in
        let (s, t, k) = read_record_lem b offset r v in
        let (out, w, x) = again r.next (omega arith) (omega arith) in
        let (decoded, y, z) = rc4_crypt_returns r.encoded r.key k in
        (
          keep_string offset r.key decoded ++ out,
          find_records_step fuel b cursor offset r decoded out u v y w,
          All-append IsReported (keep_string offset r.key decoded) out
              (keep_string-IsReported offset r.key decoded) x,
        )

    go :
        ((c : ℕ)
          → 0 < fuel
          → length b < fuel + c
          → (out : List DecodedRc4String) × (find_records fuel b c ≡ some (ok out))
            × All IsReported out)
        → (o : Option ℕ) → find rc4_marker b cursor ≡ o
        → (out : List DecodedRc4String) × (find_records (suc fuel) b cursor ≡ some (ok out))
          × All IsReported out
    go again none u = ([], find_records_stop fuel b cursor u, tt)
    go again (some offset) u = next again offset (read_record b offset) u refl

-- The scan for RC4 records always ends, never faults, and reports only strings of at least four
-- bytes, all printable.
pub find_rc4_strings_returns :
    (b : Bytes)
    → (out : List DecodedRc4String) × (find_rc4_strings b ≡ some (ok out)) × All IsReported out
unfolding find_rc4_strings
find_rc4_strings_returns b = find_records_returns (length b + 1) b 0 (omega arith) (omega arith)
