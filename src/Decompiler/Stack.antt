-- ===== src/Decompiler/Stack.antt =====
-- src/ai_reverse_agent/decompiler.py: the stack variables of a function. The three patterns of
-- `_STACK_PATTERNS` ignore the case, so they are matched on the lower-case operands.
use ai_reverse_agent.Prelude.{
  ℕ, suc, Bool, ◌&&◌, ◌||◌, ◌==◌, leb, List, [], ◌∷◌, ◌++◌, Option, none, some, if◌then◌else◌,
}
use ai_reverse_agent.Prelude.Sorts.{sort_by}
use ai_reverse_agent.Prelude.Int.{ℤ, pos, negsuc, ◌-ℤ◌, leb_ℤ, eqb_ℤ}
use ai_reverse_agent.Result.{Result, ok, err, ◌>>=◌}
use ai_reverse_agent.Text.{Text, codes, lower, is_space, is_digit, drop_while}
use ai_reverse_agent.Text.Numbers.{hexadecimal}
use ai_reverse_agent.Instruction.{NormalizedInstruction, ValueError, value_error, parse_int}
use ai_reverse_agent.Decompiler.{FunctionBoundary, body}

-- The text behind a literal in front of it.
unfoldable pub skip : Text → Text → Option Text
skip [] t = some t
skip (p ∷ ps) [] = none
skip (p ∷ ps) (c ∷ cs) = let rest = skip ps cs in if c == p then rest else none

-- \s*
unfoldable pub skip_spaces : Text → Text
unfolding drop_while is_space
skip_spaces t = drop_while is_space t

unfoldable pub is_hex_char : ℕ → Bool
unfolding is_digit
is_hex_char c = is_digit c || (leb b'a' c && leb c b'f')

-- The longest front of characters with the test, and the rest.
unfoldable pub take_span : (ℕ → Bool) → Text → Text × Text
take_span p [] = ([], [])
take_span p (c ∷ cs) =
    let rest = take_span p cs in if p c then (c ∷ rest.0, rest.1) else ([], c ∷ cs)

-- A group that must not be empty.
abbrev pub nonempty_group : Text × Text → Option (Text × Text)
nonempty_group ([], rest) = none
nonempty_group (c ∷ cs, rest) = some (c ∷ cs, rest)

abbrev pub with_0x : Option (Text × Text) → Option (Text × Text)
with_0x none = none
with_0x (some (group, rest)) = some (b'0' ∷ b'x' ∷ group, rest)

abbrev pub first_found : {A : Type 0} → Option A → Option A → Option A
first_found none b = b
first_found (some a) b = some a

unfoldable pub hex_group : Option Text → Option (Text × Text)
unfolding take_span is_hex_char
hex_group none = none
hex_group (some rest) = with_0x (nonempty_group (take_span is_hex_char rest))

-- (0x[0-9a-f]+|\d+)
unfoldable pub match_number : Text → Option (Text × Text)
unfolding skip take_span is_hex_char is_digit
match_number t =
    first_found (hex_group (skip (codes "0x") t)) (nonempty_group (take_span is_digit t))

-- The group, where the pattern's rest follows it.
abbrev pub closed_by : (Text → Option Text) → Option (Text × Text) → Option Text
closed_by end none = none
closed_by end (some (group, rest)) = elim (end rest) [ none ↦ none | some behind ↦ some group ]

abbrev pub then_match {ℓ} : {A : Type ℓ} → Option Text → (Text → Option A) → Option A
then_match none f = none
then_match (some t) f = f t

-- c?
abbrev pub optional_char : ℕ → Text → Text
optional_char c [] = []
optional_char c (d ∷ ds) = if d == c then ds else d ∷ ds

-- (?:r|e)?
abbrev pub optional_register : Text → Text
optional_register [] = []
optional_register (d ∷ ds) = if d == b'r' || d == b'e' then ds else d ∷ ds

-- \[(?:r|e)?bp\s*-\s*(0x[0-9a-f]+|\d+)\]
unfoldable pub match_frame : Text → Option Text
unfolding skip skip_spaces match_number
match_frame t = then_match (skip (codes "[") t) (λ a.
    then_match (skip (codes "bp") (optional_register a)) (λ b.
      then_match (skip (codes "-") (skip_spaces b))
        (λ c. closed_by (skip (codes "]")) (match_number (skip_spaces c)))))

-- \[sp\s*,\s*#?-(0x[0-9a-f]+|\d+)
unfoldable pub match_sp_index : Text → Option Text
unfolding skip skip_spaces match_number
match_sp_index t = then_match (skip (codes "[sp") t) (λ a.
    then_match (skip (codes ",") (skip_spaces a)) (λ b.
      then_match (skip (codes "-") (optional_char b'#' (skip_spaces b)))
        (λ c. closed_by some (match_number c))))

-- -(0x[0-9a-f]+|\d+)\(\$?sp\)
unfoldable pub match_sp_base : Text → Option Text
unfolding skip match_number
match_sp_base t = then_match (skip (codes "-") t) (λ a.
    closed_by
      (λ b. then_match (skip (codes "(") b) (λ c. skip (codes "sp)") (optional_char b'$' c)))
      (match_number a))

-- pattern.search(t), and its group
unfoldable pub search_pattern : (Text → Option Text) → Text → Option Text
search_pattern pattern [] = pattern []
search_pattern pattern (c ∷ cs) =
    let later = search_pattern pattern cs in first_found (pattern (c ∷ cs)) later

-- The group of the first pattern that is found.
unfoldable pub search_patterns : List (Text → Option Text) → Text → Option Text
unfolding search_pattern
search_patterns [] t = none
search_patterns (p ∷ ps) t = first_found (search_pattern p t) (search_patterns ps t)

-- _STACK_PATTERNS
abbrev pub stack_patterns : List (Text → Option Text)
stack_patterns = match_frame ∷ match_sp_index ∷ match_sp_base ∷ []

-- -int(group, 0)
unfoldable pub negated_int : Option ℤ → Result ValueError (Option ℤ)
unfolding ◌-ℤ◌
negated_int none = err value_error
negated_int (some n) = ok (some (pos 0 -ℤ n))

unfoldable pub offset_of : Option Text → Result ValueError (Option ℤ)
unfolding parse_int
offset_of none = ok none
offset_of (some group) = negated_int (parse_int group)

-- _stack_offset
unfoldable pub stack_offset : Text → Result ValueError (Option ℤ)
unfolding search_patterns lower
stack_offset operands = offset_of (search_patterns stack_patterns (lower operands))

pub record StackVariable : Type 0 where
  pub offset : ℤ
  pub name : Text
  pub references : List ℤ

-- references.setdefault(offset, []).append(address)
unfoldable pub add_reference : ℤ → ℤ → List (ℤ × List ℤ) → List (ℤ × List ℤ)
unfolding eqb_ℤ
add_reference offset address [] = (offset, address ∷ []) ∷ []
add_reference offset address ((o, addresses) ∷ rest) =
    let later = add_reference offset address rest in
    if eqb_ℤ o offset then (o, addresses ++ address ∷ []) ∷ rest else (o, addresses) ∷ later

abbrev pub add_found : Option ℤ → ℤ → List (ℤ × List ℤ) → List (ℤ × List ℤ)
add_found none address references = references
add_found (some offset) address references = add_reference offset address references

-- The loop over the instructions.
unfoldable pub collect_references :
    List NormalizedInstruction → List (ℤ × List ℤ) → Result ValueError (List (ℤ × List ℤ))
unfolding stack_offset add_reference
collect_references [] references = ok references
collect_references (i ∷ is) references =
    stack_offset i.op_str >>= λ found. collect_references is (add_found found i.address references)

-- abs(z)
abbrev pub magnitude : ℤ → ℤ
magnitude (pos m) = pos m
magnitude (negsuc m) = pos (suc m)

abbrev pub offset_leb : ℤ × List ℤ → ℤ × List ℤ → Bool
offset_leb (a, p) (b, q) = leb_ℤ a b

unfoldable pub variables_of : List (ℤ × List ℤ) → List StackVariable
variables_of [] = []
variables_of ((offset, addresses) ∷ rest) =
    record {
      offset = offset;
      name = codes "var_" ++ hexadecimal (magnitude offset);
      references = addresses;
    }
    ∷ variables_of rest

-- identify_stack_variables
unfoldable pub identify_stack_variables : FunctionBoundary → Result ValueError (List StackVariable)
unfolding collect_references sort_by variables_of leb_ℤ
identify_stack_variables b = collect_references (body b) [] >>= λ references.
    ok (variables_of (sort_by offset_leb references))
