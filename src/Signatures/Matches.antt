-- ===== src/Signatures/Matches.antt =====
-- `signature_bytes` and `match_instructions` of signatures.py.
use ai_reverse_agent.Prelude.{
  append-nil, append_assoc, ℕ, zero, suc, ◌≤◌, ◌≡◌, refl, ap, ◌∙◌, sym, true, false, List, [], ◌∷◌,
  ◌++◌, Option, none, some, inl, inr, ◌⊎◌, arith, length, take, ltb, leb, All, Bool-cases,
}
use ai_reverse_agent.Result.{Result, ok, ◌>>=◌, bind_inversion, bind_ok}
use ai_reverse_agent.Bytes.{Bytes}
use ai_reverse_agent.Architecture.{
  Architecture, x86, x64, arm, aarch64, mips, riscv, ArchitectureName, order, little,
  resolve_architecture,
}
use ai_reverse_agent.Instruction.{NormalizedInstruction, ValueError, from_hex}
use ai_reverse_agent.Signatures.{
  PatternByte, LibrarySignature, SignatureMatch, builtin_signatures, collect_bytes, signature_bytes,
  bytes_match, matches, same_architecture, match_prefix, resolved_architecture, match_instructions,
}

-- The bytes of all instructions.
unfoldable pub all_bytes : List NormalizedInstruction → Result ValueError Bytes
unfolding from_hex
all_bytes [] = ok []
all_bytes (i ∷ is) = do encoded ← from_hex i.bytes_hex; rest ← all_bytes is; ok (encoded ++ rest)

take-append_left : (n : ℕ) (xs ys : Bytes) → n ≤ length xs → take n (xs ++ ys) ≡ take n xs
take-append_left zero xs ys h = refl
take-append_left (suc n) [] ys h = absurd (omega arith)
take-append_left (suc n) (x ∷ xs) ys h = ap (λ t. x ∷ t) (take-append_left n xs ys (omega arith))

collect_bytes_lem :
    (raw rest : Bytes) (is : List NormalizedInstruction)
    → all_bytes is ≡ ok rest
    → (out : Bytes) × (collect_bytes raw is ≡ ok out) × (take 16 out ≡ take 16 (raw ++ rest))
unfolding all_bytes collect_bytes
collect_bytes_lem raw rest [] h =
    let e : [] ≡ rest = cc in (raw, refl, rw (← e, append-nil raw) refl)
collect_bytes_lem raw rest (i ∷ is) h =
    let (encoded, p, q) = bind_inversion (from_hex i.bytes_hex) _ h in
    let (more, r, s) = bind_inversion (all_bytes is) _ q in
    let e : encoded ++ more ≡ rest = cc in
    elim (Bool-cases (leb 16 (length (raw ++ encoded)))) [
      | inl full ↦ (
        raw ++ encoded,
        rw (p, full) refl,
        rw (← e, ← append_assoc raw encoded more)
            (sym (take-append_left 16 (raw ++ encoded) more (ground (arith, full)))),
      )
      | inr short ↦
          let (out, t, u) = collect_bytes_lem (raw ++ encoded) more is r in
          (
            out,
            rw (p, short, t) refl,
            u ∙ ap (λ b. take 16 b) (append_assoc raw encoded more ∙ ap (λ b. raw ++ b) e),
          )
    ]

-- Stopping early loses nothing: where the encodings of all instructions are hexadecimal, the
-- signature bytes are the first 16 of the bytes of all instructions.
pub signature_bytes_lem :
    (is : List NormalizedInstruction) (bytes : Bytes)
    → all_bytes is ≡ ok bytes
    → signature_bytes is ≡ ok (take 16 bytes)
unfolding signature_bytes
signature_bytes_lem is bytes h =
    let (out, p, q) = collect_bytes_lem [] bytes is h in bind_ok _ _ p (ap ok q)

-- The prefix is as long as the pattern, and equal to it wherever the mask is not 0.
abbrev pub Agrees : Bytes → List PatternByte → Type 0
Agrees bs [] = Unit
Agrees [] (p ∷ ps) = ⊥
Agrees (b ∷ bs) (p ∷ ps) = ((p.mask ≡ 0) ⊎ (b ≡ p.expected)) × Agrees bs ps

-- The signature applies to the prefix of a function.
abbrev pub Applies : Bytes → Architecture → LibrarySignature → Type 0
Applies prefix a s = (s.architecture ≡ a) × Agrees prefix s.pattern

bytes_match-Agrees :
    (bs : Bytes) (ps : List PatternByte)
    → length ps ≤ length bs
    → bytes_match bs ps ≡ true
    → Agrees bs ps
unfolding bytes_match
bytes_match-Agrees bs [] h e = tt
bytes_match-Agrees [] (p ∷ ps) h e = absurd (omega arith)
bytes_match-Agrees (b ∷ bs) (p ∷ ps) h e =
    (ground (arith, e), bytes_match-Agrees bs ps (omega arith) (ground (arith, e)))

Agrees-bytes_match :
    (bs : Bytes) (ps : List PatternByte)
    → Agrees bs ps
    → (length ps ≤ length bs) × (bytes_match bs ps ≡ true)
unfolding bytes_match
Agrees-bytes_match [] [] h = (omega arith, refl)
Agrees-bytes_match (b ∷ bs) [] h = (omega arith, refl)
Agrees-bytes_match [] (p ∷ ps) h = elim h [ ]
Agrees-bytes_match (b ∷ bs) (p ∷ ps) h =
    let (l, e) = Agrees-bytes_match bs ps h.1 in
    (omega arith, elim h.0 [ inl z ↦ ground (arith, z, e) | inr q ↦ ground (arith, q, e) ])

same_architecture_sound : (a b : Architecture) → same_architecture a b ≡ true → a ≡ b
unfolding same_architecture
same_architecture_sound x86 x86 h = refl
same_architecture_sound x64 x64 h = refl
same_architecture_sound arm arm h = refl
same_architecture_sound aarch64 aarch64 h = refl
same_architecture_sound mips mips h = refl
same_architecture_sound riscv riscv h = refl
same_architecture_sound a b h = cc

same_architecture_refl : (a : Architecture) → same_architecture a a ≡ true
unfolding same_architecture
same_architecture_refl x86 = refl
same_architecture_refl x64 = refl
same_architecture_refl arm = refl
same_architecture_refl aarch64 = refl
same_architecture_refl mips = refl
same_architecture_refl riscv = refl

-- What a search of the table means: nothing in it applies, or the match is the first that does.
pub IsOutcome : Bytes → Architecture → List LibrarySignature → Option SignatureMatch → Type 0
IsOutcome prefix a ss none = All (λ s. ¬ Applies prefix a s) ss
IsOutcome prefix a ss (some m) =
    (before : List LibrarySignature) × (s : LibrarySignature) × (after : List LibrarySignature)
    × (ss ≡ before ++ s ∷ after)
    × All (λ t. ¬ Applies prefix a t) before
    × Applies prefix a s
    × (m.name ≡ s.name)
    × (m.library ≡ s.library)
    × (m.matched_bytes ≡ length s.pattern)

IsOutcome-cons :
    (prefix : Bytes) (a : Architecture) (s : LibrarySignature) (ss : List LibrarySignature)
    (m : Option SignatureMatch)
    → ¬ Applies prefix a s
    → IsOutcome prefix a ss m
    → IsOutcome prefix a (s ∷ ss) m
unfolding IsOutcome
IsOutcome-cons prefix a s ss none n h = (n, h)
IsOutcome-cons prefix a s ss (some m) n h =
    let (before, t, after, e, all, fits, n1, n2, n3) = h in
    (s ∷ before, t, after, ap (λ u. s ∷ u) e, (n, all), fits, n1, n2, n3)

matches-Agrees :
    (prefix : Bytes) (s : LibrarySignature) → matches prefix s ≡ true → Agrees prefix s.pattern
unfolding matches
matches-Agrees prefix s h = elim (Bool-cases (ltb (length prefix) (length s.pattern))) [
  | inl e ↦ absurd (cc)
  | inr e ↦ bytes_match-Agrees prefix s.pattern (ground (arith, e)) (rw e at h)
]

Agrees-matches :
    (prefix : Bytes) (s : LibrarySignature) → Agrees prefix s.pattern → matches prefix s ≡ true
unfolding matches
Agrees-matches prefix s h =
    let (l, e) = Agrees-bytes_match prefix s.pattern h in
    let long : ltb (length prefix) (length s.pattern) ≡ false = ground (arith, l) in
    rw (long, e) refl

match_prefix-IsOutcome :
    (prefix : Bytes) (a : Architecture) (ss : List LibrarySignature)
    → IsOutcome prefix a ss (match_prefix prefix a ss)
unfolding match_prefix IsOutcome
match_prefix-IsOutcome prefix a [] = tt
match_prefix-IsOutcome prefix a (s ∷ ss) = elim (Bool-cases (same_architecture s.architecture a)) [
  | inl same ↦ elim (Bool-cases (matches prefix s)) [
    | inl fit ↦
        rw (same, fit)
          (
            [],
            s,
            ss,
            refl,
            tt,
            (same_architecture_sound s.architecture a same, matches-Agrees prefix s fit),
            refl,
            refl,
            refl,
          )
    | inr unfit ↦
        rw (same, unfit)
          (IsOutcome-cons prefix a s ss (match_prefix prefix a ss)
            (λ h. cc (Agrees-matches prefix s h.1, unfit)) (match_prefix-IsOutcome prefix a ss))
  ]
  | inr other ↦ rw other (
      IsOutcome-cons prefix a s ss (match_prefix prefix a ss)
        (λ h.
          let e : same_architecture a a ≡ false = rw h.0 at other in
          cc (same_architecture_refl a, e))
        (match_prefix-IsOutcome prefix a ss))
]

-- Where the match of a stream returns, the architecture resolves, and the report is the first
-- built-in signature of that architecture which agrees with the signature bytes on all bytes that
-- are not masked, or none where no signature does.
pub match_instructions_lem :
    (is : List NormalizedInstruction) (architecture : ArchitectureName) (m : Option SignatureMatch)
    → match_instructions is architecture ≡ ok m
    → (a : Architecture) × (prefix : Bytes) × (signatures : List LibrarySignature)
      × (resolved_architecture (resolve_architecture architecture none (order little)) ≡ ok a)
      × (signature_bytes is ≡ ok prefix)
      × (builtin_signatures ≡ ok signatures)
      × IsOutcome prefix a signatures m
unfolding match_instructions
match_instructions_lem is architecture m h =
    let (a, p, q) =
      bind_inversion (resolved_architecture (resolve_architecture architecture none (order little)))
        _ h in
    let (prefix, r, t) = bind_inversion (signature_bytes is) _ q in
    let (signatures, u, v) =
      bind_inversion builtin_signatures (λ ss. ok (match_prefix prefix a ss)) t in
    let e : match_prefix prefix a signatures ≡ m = cc in
    (a, prefix, signatures, p, r, u, rw e at (match_prefix-IsOutcome prefix a signatures))
