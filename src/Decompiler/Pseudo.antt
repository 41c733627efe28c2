-- ===== src/Decompiler/Pseudo.antt =====
-- src/ai_reverse_agent/decompiler.py: the pseudo-C of a function. Which characters a name may keep
-- is `\w` of Python's `re`, a parameter.
use ai_reverse_agent.Prelude.{
  ℕ, suc, Bool, false, not, ◌&&◌, ◌||◌, ◌==◌, List, [], ◌∷◌, ◌++◌, Option, none, some, map,
  if◌then◌else◌, drop, length,
}
use ai_reverse_agent.Prelude.Int.{ℤ, pos, negsuc, eqb_ℤ}
use ai_reverse_agent.Result.{Result, ok, ◌>>=◌}
use ai_reverse_agent.Text.{
  Text, codes, lower, is_space, drop_while, drop_end, starts_with, strip, strip_by, one_of, text_eq,
  remove_char, last_field, join_lines,
}
use ai_reverse_agent.Text.Numbers.{hexadecimal}
use ai_reverse_agent.Instruction.{NormalizedInstruction, ValueError, parse_int}
use ai_reverse_agent.Controlflow.Dot.{sub_runs}
use ai_reverse_agent.Decompiler.{FunctionBoundary, body, is_return}
use ai_reverse_agent.Decompiler.Stack.{StackVariable, stack_offset, identify_stack_variables}

-- safe or "unknown_target"
abbrev pub or_unknown : Text → Text
or_unknown [] = codes "unknown_target"
or_unknown (c ∷ cs) = c ∷ cs

unfoldable pub named_target : (ℕ → Bool) → Text → Option ℤ → Text
unfolding sub_runs strip_by
named_target is_word token none =
    or_unknown (strip_by (λ c. c == b'_') (sub_runs is_word false token))
named_target is_word token (some address) = codes "sub_" ++ hexadecimal address

-- _target_name
unfoldable pub target_name : (ℕ → Bool) → Text → Text
unfolding last_field strip drop_while parse_int sub_runs strip_by
target_name is_word operand =
    let token = strip (last_field b',' (strip operand)) in
    named_target is_word token (parse_int (drop_while (λ c. c == b'#') token))

-- The name of the variable at an offset.
unfoldable pub variable_at : ℤ → List StackVariable → Option Text
unfolding eqb_ℤ
variable_at offset [] = none
variable_at offset (v ∷ vs) =
    let later = variable_at offset vs in if eqb_ℤ v.offset offset then some v.name else later

abbrev pub known_variable : Option ℤ → List StackVariable → Option Text
known_variable none variables = none
known_variable (some offset) variables = variable_at offset variables

-- The rest behind \s+, where there is a space.
unfoldable pub behind_spaces : Text → Option Text
unfolding is_space drop_while
behind_spaces [] = none
behind_spaces (c ∷ cs) = if is_space c then some (drop_while is_space cs) else none

-- re.sub(r"^(?:...)\s+", "", operand) for the words, whatever their case
unfoldable pub without_size : List Text → Text → Text
unfolding starts_with lower
without_size [] operand = operand
without_size (w ∷ ws) operand =
    let other = without_size ws operand in
    if starts_with (lower operand) w
    then (elim (behind_spaces (drop (length w) operand)) [ none ↦ other | some rest ↦ rest ])
    else other

abbrev pub sizes : List Text
sizes = codes "byte" ∷ codes "word" ∷ codes "dword" ∷ codes "qword" ∷ codes "ptr" ∷ []

unfoldable pub operand_or : Option Text → Text → Text
unfolding without_size remove_char
operand_or none operand = remove_char b'#' (without_size sizes operand)
operand_or (some name) operand = name

-- _operand_to_c
unfoldable pub operand_to_c : List StackVariable → Text → Result ValueError Text
unfolding stack_offset variable_at without_size remove_char
operand_to_c variables operand =
    stack_offset operand >>= λ offset. ok (operand_or (known_variable offset variables) operand)

-- t.partition(","), where there is a comma
unfoldable pub partition_comma : Text → Option (Text × Text)
partition_comma [] = none
partition_comma (c ∷ cs) = elim (partition_comma cs) [
  | none ↦ if c == b',' then some ([], cs) else none
  | some parts ↦ if c == b',' then some ([], cs) else some (c ∷ parts.0, parts.1)
]

-- _CALL_MNEMONICS
abbrev pub call_mnemonics : List Text
call_mnemonics = codes "call" ∷ codes "callq" ∷ codes "bl" ∷ codes "blx" ∷ codes "jal" ∷ []

-- _CONDITIONAL_JUMPS
abbrev pub conditional_mnemonics : List Text
conditional_mnemonics =
    codes "ja"
    ∷ codes "jae"
    ∷ codes "jb"
    ∷ codes "jbe"
    ∷ codes "je"
    ∷ codes "jg"
    ∷ codes "jge"
    ∷ codes "jl"
    ∷ codes "jle"
    ∷ codes "jne"
    ∷ codes "jo"
    ∷ codes "jp"
    ∷ codes "js"
    ∷ codes "jz"
    ∷ codes "jnz"
    ∷ codes "beq"
    ∷ codes "bne"
    ∷ codes "bgt"
    ∷ codes "bge"
    ∷ codes "blt"
    ∷ codes "ble"
    ∷ codes "cbz"
    ∷ codes "cbnz"
    ∷ codes "tbz"
    ∷ codes "tbnz"
    ∷ []

-- assignment
abbrev pub assignments : List (Text × Text)
assignments =
    (codes "add", codes "+=")
    ∷ (codes "addi", codes "+=")
    ∷ (codes "addiu", codes "+=")
    ∷ (codes "sub", codes "-=")
    ∷ (codes "subi", codes "-=")
    ∷ (codes "xor", codes "^=")
    ∷ (codes "and", codes "&=")
    ∷ (codes "or", codes "|=")
    ∷ []

unfoldable pub assignment : Text → List (Text × Text) → Option Text
unfolding text_eq
assignment mnemonic [] = none
assignment mnemonic ((m, operator) ∷ rest) =
    let other = assignment mnemonic rest in if text_eq mnemonic m then some operator else other

-- The statement that keeps the instruction as a comment.
unfoldable pub comment_statement : NormalizedInstruction → Text
unfolding drop_end is_space
comment_statement i =
    drop_end is_space (codes "/* " ++ i.mnemonic ++ b' ' ∷ (i.op_str ++ codes " */"))

abbrev pub updated : Option Text → Text → Text → Text → Text
updated none destination source other = other
updated (some operator) destination source other =
    destination ++ b' ' ∷ (operator ++ b' ' ∷ (source ++ codes ";"))

-- The statement of an instruction with two operands.
unfoldable pub assignment_statement : NormalizedInstruction → Text → Text → Text
unfolding one_of lower assignment comment_statement
assignment_statement i destination source =
    let mnemonic = lower i.mnemonic in
    if one_of mnemonic
      (codes "mov" ∷ codes "movabs" ∷ codes "ldr" ∷ codes "ld" ∷ codes "lw" ∷ codes "li" ∷ [])
    then destination ++ codes " = " ++ source ++ codes ";"
    else if one_of mnemonic (codes "str" ∷ codes "sd" ∷ codes "sw" ∷ [])
    then source ++ codes " = " ++ destination ++ codes ";"
    else updated (assignment mnemonic assignments) destination source (comment_statement i)

unfoldable pub operand_statement :
    List StackVariable → NormalizedInstruction → Option (Text × Text) → Result ValueError Text
unfolding operand_to_c strip assignment_statement comment_statement
operand_statement variables i none = ok (comment_statement i)
operand_statement variables i (some (left, right)) =
    operand_to_c variables (strip left) >>= λ destination.
    operand_to_c variables (strip right) >>= λ source.
    ok (assignment_statement i destination source)

-- _instruction_to_c
unfoldable pub instruction_to_c :
    (ℕ → Bool) → List StackVariable → NormalizedInstruction → Result ValueError Text
unfolding is_return lower one_of starts_with text_eq target_name partition_comma operand_to_c strip
    assignment_statement comment_statement
instruction_to_c is_word variables i =
    let mnemonic = lower i.mnemonic in
    let target = target_name is_word i.op_str in
    if is_return i
    then ok (codes "return;")
    else if one_of mnemonic call_mnemonics
    then ok (target ++ codes "();")
    else if one_of mnemonic (codes "jmp" ∷ codes "b" ∷ codes "bra" ∷ [])
    then ok (codes "goto " ++ target ++ codes ";")
    else if one_of mnemonic conditional_mnemonics
        || (starts_with mnemonic (codes "j") && not (text_eq mnemonic (codes "jmp")))
    then ok (codes "if (/* " ++ mnemonic ++ codes " */) goto " ++ target ++ codes ";")
    else operand_statement variables i (partition_comma i.op_str)

-- f"{z:+#x}"
abbrev pub signed_hex : ℤ → Text
signed_hex (pos m) = codes "+0x" ++ hexadecimal (pos m)
signed_hex (negsuc m) = codes "-0x" ++ hexadecimal (pos (suc m))

unfoldable pub declaration_line : StackVariable → Text
declaration_line v =
    codes "    uintptr_t "
    ++ v.name
    ++ codes "; /* stack offset "
    ++ signed_hex v.offset
    ++ codes " */"

unfoldable pub statement_lines :
    (ℕ → Bool) → List StackVariable → List NormalizedInstruction → Result ValueError (List Text)
unfolding instruction_to_c
statement_lines is_word variables [] = ok []
statement_lines is_word variables (i ∷ is) = instruction_to_c is_word variables i >>= λ statement.
    statement_lines is_word variables is >>= λ lines.
    ok ((codes "    /* 0x" ++ hexadecimal i.address ++ codes " */ " ++ statement) ∷ lines)

-- DecompiledFunction; the backend of these functions is "native".
pub record DecompiledFunction : Type 0 where
  pub name : Text
  pub boundary : FunctionBoundary
  pub stack_variables : List StackVariable
  pub pseudo_c : Text
  pub library : Option Text

-- name or boundary.default_name
abbrev pub name_or_default : Option Text → FunctionBoundary → Text
name_or_default none b = codes "sub_" ++ hexadecimal b.start_address
name_or_default (some []) b = codes "sub_" ++ hexadecimal b.start_address
name_or_default (some (c ∷ cs)) b = c ∷ cs

-- decompile_function
unfoldable pub decompile_function :
    (ℕ → Bool) → FunctionBoundary → Option Text → Option Text → Result ValueError DecompiledFunction
unfolding identify_stack_variables statement_lines declaration_line join_lines
decompile_function is_word b name library = identify_stack_variables b >>= λ variables.
    statement_lines is_word variables (body b) >>= λ statements. ok (record {
      name = name_or_default name b;
      boundary = b;
      stack_variables = variables;
      pseudo_c = join_lines (
          (codes "void " ++ name_or_default name b ++ codes "(void) {")
            ∷ map declaration_line variables
          ++ statements
          ++ codes "}" ∷ []);
      library = library;
    })
