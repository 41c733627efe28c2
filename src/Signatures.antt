-- ===== src/Signatures.antt =====
-- src/ai_reverse_agent/signatures.py: library functions recognised by their first bytes.
pub mod Matches
use Prim.Native.String.{String}
use ai_reverse_agent.Prelude.{
  ℕ, Bool, true, false, not, ◌&&◌, ◌||◌, List, [], ◌∷◌, ◌++◌, Option, none, some, length, take, ltb,
  leb, ◌==◌, replicate, if◌then◌else◌,
}
use ai_reverse_agent.Result.{Result, ok, err, ◌>>=◌}
use ai_reverse_agent.Text.{Text, codes}
use ai_reverse_agent.Bytes.{Bytes}
use ai_reverse_agent.Architecture.{
  Architecture, x86, x64, arm, aarch64, mips, riscv, ArchitectureError, ArchitectureSpec,
  ArchitectureName, order, little, resolve_architecture,
}
use ai_reverse_agent.Instruction.{NormalizedInstruction, ValueError, value_error, from_hex}

-- A byte of the pattern with its byte of the mask; __post_init__ makes the two equally long.
pub record PatternByte : Type 0 where
  pub expected : ℕ
  pub mask : ℕ

pub record LibrarySignature : Type 0 where
  pub library : Text
  pub name : Text
  pub architecture : Architecture
  pub pattern : List PatternByte

pub record SignatureMatch : Type 0 where
  pub library : Text
  pub name : Text
  pub architecture : Architecture
  pub matched_bytes : ℕ

-- zip(pattern, mask)
unfoldable pub zip_pattern : Bytes → Bytes → List PatternByte
zip_pattern [] ms = []
zip_pattern (p ∷ ps) [] = []
zip_pattern (p ∷ ps) (m ∷ ms) = record { expected = p; mask = m } ∷ zip_pattern ps ms

-- LibrarySignature, with the checks of __post_init__
unfoldable pub make_signature :
    Text → Text → Architecture → Bytes → Bytes → Result ValueError LibrarySignature
unfolding zip_pattern
make_signature library name architecture pattern mask =
    if length pattern == 0 || ltb 16 (length pattern)
    then err value_error
    else if not (length pattern == length mask)
    then err value_error
    else ok (record {
      library = library;
      name = name;
      architecture = architecture;
      pattern = zip_pattern pattern mask;
    })

-- _exact
unfoldable pub exact : Text → Text → Architecture → Text → Result ValueError LibrarySignature
unfolding make_signature from_hex
exact library name architecture hex_pattern = do
  pattern ← from_hex hex_pattern
  make_signature library name architecture pattern (replicate (length pattern) 0xff)

-- The third entry of the table, whose call target is masked.
unfoldable pub terminate_signature : Result ValueError LibrarySignature
unfolding make_signature from_hex
terminate_signature = do
  pattern ← from_hex (codes "55 48 89 e5 e8 00 00 00 00 0f 0b")
  mask ← from_hex (codes "ff ff ff ff ff 00 00 00 00 ff ff")
  make_signature (codes "libstdc++") (codes "_ZSt9terminatev") x64 pattern mask

-- BUILTIN_SIGNATURES
unfoldable pub builtin_signatures : Result ValueError (List LibrarySignature)
unfolding exact terminate_signature
builtin_signatures = do
  memcpy ←
      exact (codes "msvcrt") (codes "memcpy") x86
        (codes "8b 44 24 04 8b 4c 24 08 8b 54 24 0c 85 d2 74 06")
  strlen ←
      exact (codes "libc") (codes "strlen") x64 (codes "31 c0 80 3c 07 00 74 05 48 ff c0 eb f5 c3")
  terminate ← terminate_signature
  ok (memcpy ∷ strlen ∷ terminate ∷ [])

-- The loop of signature_bytes, which stops at 16 bytes.
unfoldable pub collect_bytes : Bytes → List NormalizedInstruction → Result ValueError Bytes
unfolding from_hex
collect_bytes raw [] = ok raw
collect_bytes raw (i ∷ is) = do
  encoded ← from_hex i.bytes_hex
  let raw' = raw ++ encoded
  let rest = collect_bytes raw' is
  if leb 16 (length raw') then ok raw' else rest

-- signature_bytes
unfoldable pub signature_bytes : List NormalizedInstruction → Result ValueError Bytes
unfolding collect_bytes
signature_bytes is = do raw ← collect_bytes [] is; ok (take 16 raw)

-- The test on the zipped bytes, which end with the shorter list.
unfoldable pub bytes_match : Bytes → List PatternByte → Bool
bytes_match [] ps = true
bytes_match (b ∷ bs) [] = true
bytes_match (b ∷ bs) (p ∷ ps) = (p.mask == 0 || b == p.expected) && bytes_match bs ps

-- _matches
unfoldable pub matches : Bytes → LibrarySignature → Bool
unfolding bytes_match
matches prefix signature =
    if ltb (length prefix) (length signature.pattern)
    then false
    else bytes_match prefix signature.pattern

-- signature.architecture is resolved
unfoldable pub same_architecture : Architecture → Architecture → Bool
same_architecture x86 x86 = true
same_architecture x64 x64 = true
same_architecture arm arm = true
same_architecture aarch64 aarch64 = true
same_architecture mips mips = true
same_architecture riscv riscv = true
same_architecture a b = false

-- The loop of match_instructions over the table.
unfoldable pub match_prefix : Bytes → Architecture → List LibrarySignature → Option SignatureMatch
unfolding matches same_architecture
match_prefix prefix resolved [] = none
match_prefix prefix resolved (s ∷ ss) =
    let later = match_prefix prefix resolved ss in
    if not (same_architecture s.architecture resolved)
    then later
    else if matches prefix s
    then some (record {
      library = s.library;
      name = s.name;
      architecture = resolved;
      matched_bytes = length s.pattern;
    })
    else later

-- Either step of match_instructions raises a ValueError.
abbrev pub resolved_architecture :
    Result ArchitectureError ArchitectureSpec → Result ValueError Architecture
resolved_architecture (ok spec) = ok spec.architecture
resolved_architecture (err e) = err value_error

-- match_instructions
unfoldable pub match_instructions :
    List NormalizedInstruction → ArchitectureName → Result ValueError (Option SignatureMatch)
unfolding resolve_architecture signature_bytes match_prefix builtin_signatures
match_instructions is architecture = do
  resolved ← resolved_architecture (resolve_architecture architecture none (order little))
  prefix ← signature_bytes is
  signatures ← builtin_signatures
  ok (match_prefix prefix resolved signatures)
