-- ===== src/Disassembler/Coverage.antt =====
-- What `disassemble_bytes` returns and raises, against the bytes that it is given.
use ai_reverse_agent.Prelude.{
  if◌then◌else◌, ℕ, ◌+◌, ◌≡◌, refl, sym, ◌∙◌, Bool, true, false, not, ◌&&◌, List, [], ◌∷◌, ◌++◌,
  none, some, Option, ◌⊎◌, inl, inr, length, length-append, drop-append, last_of, append_assoc,
}
use ai_reverse_agent.Prelude.Int.{ℤ, pos, ◌+ℤ◌, ◌-ℤ◌, ltb_ℤ, int_laws, eq_of_parts}
use ai_reverse_agent.Result.{Result, ok, err, ◌>>=◌, ok_unique}
use ai_reverse_agent.Bytes.{Bytes}
use ai_reverse_agent.Architecture.{
  ArchitectureSpec, ArchitectureError, ArchitectureName, resolve_architecture,
}
use ai_reverse_agent.Disassembler.{
  DisassembledInstruction, DisassemblyResult, CapstoneTarget, Engine, DisassemblyError, undecoded,
  Options, disassemble_bytes, finish, decoded_size_of, slice_from, is_limit, is_below_one, is_empty,
  resolved, decoded, count_of, is_arm, capstone_configuration, capstone_failed,
}

-- The bytes of the instructions, one after the other.
abbrev pub encoded : List DisassembledInstruction → Bytes
encoded [] = []
encoded (i ∷ is) = i.encoding ++ encoded is

-- The instructions lie one behind the other from the start of `b`, the first one at address `a`.
abbrev pub IsLinear : Bytes → ℤ → List DisassembledInstruction → Type 0
IsLinear b a [] = Unit
IsLinear b a (i ∷ is) =
    (i.address ≡ a)
    × (i.size ≡ length i.encoding)
    × ((rest : Bytes) × (b ≡ i.encoding ++ rest) × IsLinear rest (a +ℤ pos i.size) is)

-- What Capstone documents of `disasm`: it decodes from the start, without gaps.
pub record IsCapstone (engine : Engine) : Type 0 where
  pub linear :
      (target : CapstoneTarget) (b : Bytes) (base count : ℤ) (is : List DisassembledInstruction)
      → engine target b base count ≡ some is
      → IsLinear b base is

pub IsLinear-prefix :
    (b : Bytes) (a : ℤ) (is : List DisassembledInstruction)
    → IsLinear b a is
    → (rest : Bytes) × (b ≡ encoded is ++ rest)
IsLinear-prefix b a [] h = (b, refl)
IsLinear-prefix b a (i ∷ is) (p, q, (rest, e, l)) =
    let (rest', e') = IsLinear-prefix rest (a +ℤ pos i.size) is l in
    (rest', rw (e, e', append_assoc i.encoding (encoded is) rest') refl)

add_sizes : (a b : ℤ) (m n : ℕ) → b ≡ a +ℤ pos m → b +ℤ pos n ≡ a +ℤ pos (m + n)
add_sizes a b m n h = eq_of_parts _ _ (rw h (grind int_laws))

-- The end of the last instruction.
last_of_end :
    (b : Bytes) (a : ℤ) (i : DisassembledInstruction) (is : List DisassembledInstruction)
    → IsLinear b a (i ∷ is)
    → (last_of i is).address +ℤ pos (last_of i is).size ≡ a +ℤ pos (length (encoded (i ∷ is)))
unfolding last_of
last_of_end b a i [] (p, q, h) =
    rw (p, q, length-append i.encoding []) (eq_of_parts _ _ (grind int_laws))
last_of_end b a i (j ∷ js) (p, q, (rest, e, l)) =
    rw (last_of_end rest (a +ℤ pos i.size) j js l, length-append i.encoding (encoded (j ∷ js)), ← q)
      (add_sizes a _ _ _ refl)

add_sub : (a b : ℤ) (n : ℕ) → b ≡ a +ℤ pos n → b -ℤ a ≡ pos n
add_sub a b n h = eq_of_parts _ _ (rw h (grind int_laws))

pub decoded_size_of_lem :
    (b : Bytes) (base : ℤ) (is : List DisassembledInstruction)
    → IsLinear b base is
    → decoded_size_of base is ≡ pos (length (encoded is))
unfolding decoded_size_of
decoded_size_of_lem b base [] h = refl
decoded_size_of_lem b base (i ∷ is) h = add_sub base _ _ (last_of_end b base i is h)

pub slice_from_lem : (xs ys : Bytes) → slice_from (xs ++ ys) (pos (length xs)) ≡ ys
unfolding slice_from
slice_from_lem xs ys = drop-append xs ys

-- What the last step does with bytes that remain behind its instructions.
abbrev outcome :
    Bytes
    → ℤ
    → Bool
    → ArchitectureSpec
    → List DisassembledInstruction
    → Bool
    → Result DisassemblyError DisassemblyResult
outcome rest base strict spec is cut =
    if strict && not (is_empty rest) && not cut
    then err (undecoded (base +ℤ pos (length (encoded is))) (length rest))
    else ok (record {
      architecture = spec;
      base_address = base;
      input_size = length (encoded is ++ rest);
      instructions = is;
      decoded_size = pos (length (encoded is));
      trailing_bytes = rest;
      truncated = cut;
    })

finish_lem :
    (rest : Bytes) (base : ℤ) (limit : Option ℤ) (strict : Bool) (spec : ArchitectureSpec)
    (is : List DisassembledInstruction)
    → IsLinear (encoded is ++ rest) base is
    → finish (encoded is ++ rest) base limit strict spec is
      ≡ outcome rest base strict spec is (is_limit (length is) limit && not (is_empty rest))
unfolding finish
finish_lem rest base limit strict spec is h =
    rw (decoded_size_of_lem (encoded is ++ rest) base is h, slice_from_lem (encoded is) rest) refl

-- The call got as far as the last step, on instructions that Capstone gave.
pub record Reached (engine : Engine) (b : Bytes) (name : ArchitectureName) (o : Options)
    (r : Result DisassemblyError DisassemblyResult) : Type 0 where
  pub spec : ArchitectureSpec
  pub instructions : List DisassembledInstruction
  pub resolves : resolve_architecture name o.bits o.endianness ≡ ok spec
  pub decodes :
      engine (capstone_configuration spec o.thumb) b o.base_address (count_of o.max_instructions)
      ≡ some instructions
  pub finishes : finish b o.base_address o.max_instructions o.strict spec instructions ≡ r

-- The last step returned, or refused to leave bytes undecoded.
abbrev pub is_final : Result DisassemblyError DisassemblyResult → Bool
is_final (ok r) = true
is_final (err (undecoded a n)) = true
is_final (err _) = false

resolved_inversion :
    (r : Result ArchitectureError ArchitectureSpec) (f : ArchitectureSpec → _)
    (x : Result DisassemblyError DisassemblyResult)
    → (resolved r >>= f) ≡ x
    → is_final x ≡ true
    → (s : ArchitectureSpec) × (r ≡ ok s) × (f s ≡ x)
resolved_inversion (ok s) f x h k = (s, refl, h)
resolved_inversion (err e) f x h k = absurd (cc)

decoded_inversion :
    (r : Option (List DisassembledInstruction)) (f : List DisassembledInstruction → _)
    (x : Result DisassemblyError DisassemblyResult)
    → (decoded capstone_failed r >>= f) ≡ x
    → is_final x ≡ true
    → (is : List DisassembledInstruction) × (r ≡ some is) × (f is ≡ x)
decoded_inversion none f x h k = absurd (cc)
decoded_inversion (some is) f x h k = (is, refl, h)

guard_inversion :
    (t : Bool) (e : DisassemblyError) (m x : Result DisassemblyError DisassemblyResult)
    → is_final (err e) ≡ false
    → (if t then err e else m) ≡ x
    → is_final x ≡ true
    → m ≡ x
guard_inversion true e m x f h k = absurd (cc)
guard_inversion false e m x f h k = h

pub disassemble_bytes-Reached :
    (engine : Engine) (b : Bytes) (name : ArchitectureName) (o : Options)
    (x : Result DisassemblyError DisassemblyResult)
    → disassemble_bytes engine b name o ≡ x
    → is_final x ≡ true
    → Reached engine b name o x
unfolding disassemble_bytes
disassemble_bytes-Reached engine b name o x h k =
    let h' = guard_inversion (ltb_ℤ o.base_address (pos 0)) _ _ x refl h k in
    let h'' = guard_inversion (is_below_one o.max_instructions) _ _ x refl h' k in
    let (spec, p, q) = resolved_inversion _ _ x h'' k in
    let q' = guard_inversion (o.thumb && not (is_arm spec.architecture)) _ _ x refl q k in
    let (is, p', r) = decoded_inversion _ _ x q' k in
    record { spec = spec; instructions = is; resolves = p; decodes = p'; finishes = r }

-- What the last step tells about its own branch, in both of them.
finish_inversion :
    (rest : Bytes) (base : ℤ) (limit : Option ℤ) (strict : Bool) (spec : ArchitectureSpec)
    (is : List DisassembledInstruction) (r : DisassemblyResult)
    → IsLinear (encoded is ++ rest) base is
    → finish (encoded is ++ rest) base limit strict spec is ≡ ok r
    → IsLinear (encoded is ++ rest) base r.instructions
      × (encoded r.instructions ++ r.trailing_bytes ≡ encoded is ++ rest)
      × (r.decoded_size ≡ pos (length (encoded r.instructions)))
      × ((strict ≡ false) ⊎ (r.trailing_bytes ≡ []) ⊎ (r.truncated ≡ true))
finish_inversion rest base limit strict spec is r linear h =
    go strict rest (is_limit (length is) limit) linear
      (sym (finish_lem rest base limit strict spec is linear) ∙ h)
  where
    go :
        (strict : Bool) (rest : Bytes) (limited : Bool)
        → IsLinear (encoded is ++ rest) base is
        → outcome rest base strict spec is (limited && not (is_empty rest)) ≡ ok r
        → IsLinear (encoded is ++ rest) base r.instructions
          × (encoded r.instructions ++ r.trailing_bytes ≡ encoded is ++ rest)
          × (r.decoded_size ≡ pos (length (encoded r.instructions)))
          × ((strict ≡ false) ⊎ (r.trailing_bytes ≡ []) ⊎ (r.truncated ≡ true))
    go false rest limited l h = let same = ok_unique _ refl h in rw⁻¹ same (l, refl, refl, inl refl)
    go true [] limited l h =
        let same = ok_unique _ refl h in rw⁻¹ same (l, refl, refl, inr (inl refl))
    go true (c ∷ cs) true l h =
        let same = ok_unique _ refl h in rw⁻¹ same (l, refl, refl, inr (inr refl))
    go true (c ∷ cs) false l h = absurd (cc)

pub disassemble_bytes_coverage :
    (engine : Engine) (b : Bytes) (name : ArchitectureName) (o : Options) (r : DisassemblyResult)
    → IsCapstone engine
    → disassemble_bytes engine b name o ≡ ok r
    → IsLinear b o.base_address r.instructions
      × (encoded r.instructions ++ r.trailing_bytes ≡ b)
      × (r.decoded_size ≡ pos (length (encoded r.instructions)))
      × ((o.strict ≡ false) ⊎ (r.trailing_bytes ≡ []) ⊎ (r.truncated ≡ true))
disassemble_bytes_coverage engine b name o r c h =
    let s = disassemble_bytes-Reached engine b name o (ok r) h refl in
    let linear = c.linear _ b o.base_address _ s.instructions s.decodes in
    let (rest, e) = IsLinear-prefix b o.base_address s.instructions linear in
    rw e (
      finish_inversion rest o.base_address o.max_instructions o.strict s.spec s.instructions r
        (rw (← e) linear) (rw (← e) s.finishes))
