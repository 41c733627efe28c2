-- ===== src/Disassembler/Stream.antt =====
-- The instructions that `disassemble` of disasm.py yields, and the functions that decompiler.py
-- finds in them.
use ai_reverse_agent.Prelude.{
  ◌<◌, if◌then◌else◌, Bool, false, All-append_inversion, ◌≡◌, refl, true, List, [], ◌∷◌, map, some,
  none, All, Option,
}
use mathlib.Core.Path.{subst}
use ai_reverse_agent.Prelude.Int.{ℤ, pos, ltb_ℤ}
use ai_reverse_agent.Result.{ok, err, bind_inversion, ok_unique}
use ai_reverse_agent.Bytes.{Bytes, IsBytes}
use ai_reverse_agent.Instruction.{NormalizedInstruction}
use ai_reverse_agent.Instruction.Hex.{from_hex-hex}
use ai_reverse_agent.Decompiler.{FunctionBoundary, find_function_boundaries}
use ai_reverse_agent.Decompiler.Boundaries.{
  IsEncoded, bodies, IsFunction, EndInReturn, find_function_boundaries_lem,
}
use ai_reverse_agent.Disassembler.{
  DisassembledInstruction, Engine, Options, StreamTarget, by_name, by_number, disassemble,
  disassemble_bytes, not_strict, normalized, disassemble_capstone, is_below_one, count_of, given,
  negative_address, bad_count, cs_error, decoded,
}
use ai_reverse_agent.Disassembler.Coverage.{
  IsLinear, IsCapstone, encoded, IsLinear-prefix, disassemble_bytes_coverage,
}

-- The stream's hexadecimal encodings are those of bytes.
normalized-IsEncoded :
    (is : List DisassembledInstruction) → IsBytes (encoded is) → All IsEncoded (map normalized is)
unfolding normalized
normalized-IsEncoded [] h = tt
normalized-IsEncoded (i ∷ is) h =
    let (own, others) = All-append_inversion (λ c. c < 256) i.encoding (encoded is) h in
    ((i.encoding, from_hex-hex i.encoding own), normalized-IsEncoded is others)

linear-IsEncoded :
    (b : Bytes) (a : ℤ) (is : List DisassembledInstruction)
    → IsBytes b
    → IsLinear b a is
    → All IsEncoded (map normalized is)
linear-IsEncoded b a is h l =
    let (rest, e) = IsLinear-prefix b a is l in
    normalized-IsEncoded is (All-append_inversion (λ c. c < 256) (encoded is) rest (rw (← e) h)).0

disassemble_capstone-IsLinear :
    (engine : Engine) (b : Bytes) (arch mode address : ℤ) (count : Option ℤ)
    (is : List DisassembledInstruction)
    → IsCapstone engine
    → disassemble_capstone engine b arch mode address count ≡ ok is
    → IsLinear b address is
unfolding disassemble_capstone
disassemble_capstone-IsLinear engine b arch mode address count is c h =
    go (ltb_ℤ address (pos 0)) (is_below_one count)
      (engine (given arch mode) b address (count_of count)) refl h
  where
    go :
        (s t : Bool) (found : Option (List DisassembledInstruction))
        → engine (given arch mode) b address (count_of count) ≡ found
        → (if s then err negative_address else if t then err bad_count else decoded cs_error found)
          ≡ ok is
        → IsLinear b address is
    go false false (some js) e h =
        let same : js ≡ is = cc in
        c.linear (given arch mode) b address (count_of count) is (rw (← same) e)
    go true t found e h = absurd (cc)
    go false true found e h = absurd (cc)
    go false false none e h = absurd (cc)

pub disassemble-IsEncoded :
    (engine : Engine) (b : Bytes) (target : StreamTarget) (o : Options)
    (is : List NormalizedInstruction)
    → IsCapstone engine
    → IsBytes b
    → disassemble engine b target o ≡ ok is
    → All IsEncoded is
unfolding disassemble
disassemble-IsEncoded engine b (by_name name) o is c k h =
    let (r, p, q) = bind_inversion (disassemble_bytes engine b name (not_strict o)) _ h in
    let covered = disassemble_bytes_coverage engine b name (not_strict o) r c p in
    subst (λ js. All IsEncoded js) (ok_unique _ refl q)
      (linear-IsEncoded b o.base_address r.instructions k covered.0)
disassemble-IsEncoded engine b (by_number arch none) o is c k h = absurd (cc)
disassemble-IsEncoded engine b (by_number arch (some mode)) o is c k h =
    let (js, p, q) =
      bind_inversion (disassemble_capstone engine b arch mode o.base_address o.max_instructions) _
        h in
    subst (λ ks. All IsEncoded ks) (ok_unique _ refl q)
      (linear-IsEncoded b o.base_address js k
        (disassemble_capstone-IsLinear engine b arch mode o.base_address o.max_instructions js c p))

-- Where the engine decodes without gaps, as Capstone documents, and the disassembly of bytes
-- yields a stream, the search for functions in the stream returns: its functions, one after the
-- other, are the stream, each with no return before its last instruction.
pub disassembled_functions :
    (engine : Engine) (b : Bytes) (target : StreamTarget) (o : Options)
    (is : List NormalizedInstruction)
    → IsCapstone engine
    → IsBytes b
    → disassemble engine b target o ≡ ok is
    → (bs : List FunctionBoundary) × (find_function_boundaries is ≡ ok bs)
      × (bodies bs ≡ is)
      × All IsFunction bs
      × EndInReturn bs
disassembled_functions engine b target o is c k h =
    find_function_boundaries_lem is (disassemble-IsEncoded engine b target o is c k h)
