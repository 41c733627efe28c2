-- ===== src/Tests/Pseudo.antt =====
-- The pseudo-C of a small x64 function, and the operands that name stack slots.
use ai_reverse_agent.Prelude.{
  List, map, All, false, ◌≡◌, refl, ℕ, Bool, ◌||◌, ◌==◌, [], ◌∷◌, none, some,
}
use ai_reverse_agent.Prelude.Int.{pos, negsuc}
use ai_reverse_agent.Result.{ok, err, ◌>>=◌}
use ai_reverse_agent.Text.{Text, codes, is_alpha, is_digit}
use ai_reverse_agent.Instruction.{NormalizedInstruction, value_error}
use ai_reverse_agent.Architecture.{named}
use ai_reverse_agent.Instruction.{from_hex}
use ai_reverse_agent.Decompiler.Boundaries.{IsEncoded}
use ai_reverse_agent.Decompiler.Native.{decompile_bytes_native}
use ai_reverse_agent.Decompiler.Native.Bodies.{boundary_of, CutsStream, decompile_bytes_native_lem}
use ai_reverse_agent.Decompiler.{FunctionBoundary}
use ai_reverse_agent.Decompiler.Stack.{stack_offset, identify_stack_variables}
use ai_reverse_agent.Decompiler.Pseudo.{
  target_name, operand_to_c, decompile_function, DecompiledFunction,
}

unfoldable is_ascii_word : ℕ → Bool
unfolding is_alpha is_digit
is_ascii_word c = is_alpha c || is_digit c || c == b'_'

abbrev push : NormalizedInstruction
push = record {
  address = pos 0x401000;
  mnemonic = codes "push";
  op_str = codes "rbp";
  bytes_hex = [];
}

abbrev store : NormalizedInstruction
store = record {
  address = pos 0x401004;
  mnemonic = codes "mov";
  op_str = codes "qword ptr [rbp - 8], rdi";
  bytes_hex = [];
}

abbrev load : NormalizedInstruction
load = record {
  address = pos 0x401008;
  mnemonic = codes "mov";
  op_str = codes "rax, qword ptr [rbp - 8]";
  bytes_hex = [];
}

abbrev finish : NormalizedInstruction
finish = record { address = pos 0x40100c; mnemonic = codes "ret"; op_str = []; bytes_hex = [] }

abbrev boundary : FunctionBoundary
boundary = record {
  start_address = pos 0x401000;
  end_address = pos 0x40100d;
  first = push;
  more = store ∷ load ∷ finish ∷ [];
}

frame_slot : stack_offset (codes "qword ptr [RBP - 0x1F]") ≡ ok (some (negsuc 30))
unfolding stack_offset ai_reverse_agent.Decompiler.Stack.offset_of
    ai_reverse_agent.Decompiler.Stack.match_frame ai_reverse_agent.Decompiler.Stack.hex_group
    ai_reverse_agent.Decompiler.Stack.negated_int
frame_slot = refl

arm_slot : stack_offset (codes "x0, [sp, #-16]!") ≡ ok (some (negsuc 15))
unfolding stack_offset ai_reverse_agent.Decompiler.Stack.offset_of
    ai_reverse_agent.Decompiler.Stack.match_frame ai_reverse_agent.Decompiler.Stack.match_sp_index
    ai_reverse_agent.Decompiler.Stack.hex_group ai_reverse_agent.Decompiler.Stack.negated_int
arm_slot = refl

mips_slot : stack_offset (codes "$ra, -4($sp)") ≡ ok (some (negsuc 3))
unfolding stack_offset ai_reverse_agent.Decompiler.Stack.offset_of
    ai_reverse_agent.Decompiler.Stack.match_frame ai_reverse_agent.Decompiler.Stack.match_sp_index
    ai_reverse_agent.Decompiler.Stack.match_sp_base ai_reverse_agent.Decompiler.Stack.hex_group
    ai_reverse_agent.Decompiler.Stack.negated_int
mips_slot = refl

positive_slot : stack_offset (codes "[rbp + 8]") ≡ ok none
unfolding stack_offset ai_reverse_agent.Decompiler.Stack.offset_of
    ai_reverse_agent.Decompiler.Stack.match_frame ai_reverse_agent.Decompiler.Stack.match_sp_index
    ai_reverse_agent.Decompiler.Stack.match_sp_base
positive_slot = refl

-- `int("010", 0)` raises ValueError.
octal_slot : stack_offset (codes "[rbp - 010]") ≡ err value_error
unfolding stack_offset ai_reverse_agent.Decompiler.Stack.offset_of
    ai_reverse_agent.Decompiler.Stack.match_frame ai_reverse_agent.Decompiler.Stack.hex_group
    ai_reverse_agent.Decompiler.Stack.negated_int
octal_slot = refl

one_variable :
    identify_stack_variables boundary
    ≡ ok (
        record {
          offset = negsuc 7;
          name = codes "var_8";
          references = pos 0x401004 ∷ pos 0x401008 ∷ [];
        }
        ∷ [])
unfolding identify_stack_variables ai_reverse_agent.Decompiler.Stack.offset_of
    ai_reverse_agent.Decompiler.Stack.match_frame ai_reverse_agent.Decompiler.Stack.match_sp_index
    ai_reverse_agent.Decompiler.Stack.match_sp_base ai_reverse_agent.Decompiler.Stack.hex_group
    ai_reverse_agent.Decompiler.Stack.negated_int ai_reverse_agent.Text.Numbers.padded
one_variable = refl

sized_operand : operand_to_c [] (codes "Dword PTR [rax]") ≡ ok (codes "PTR [rax]")
unfolding operand_to_c ai_reverse_agent.Decompiler.Stack.offset_of
    ai_reverse_agent.Decompiler.Stack.match_frame ai_reverse_agent.Decompiler.Stack.match_sp_index
    ai_reverse_agent.Decompiler.Stack.match_sp_base ai_reverse_agent.Decompiler.Pseudo.operand_or
    ai_reverse_agent.Decompiler.Pseudo.behind_spaces
sized_operand = refl

target_named :
    target_name is_ascii_word (codes "qword ptr [rip + 0x10]") ≡ codes "qword_ptr_rip_0x10"
unfolding target_name is_ascii_word ai_reverse_agent.Decompiler.Pseudo.named_target
target_named = refl

decompiled :
    (decompile_function is_ascii_word boundary none none >>= λ f. ok f.pseudo_c)
    ≡ ok (
        codes
          "void sub_401000(void) {\n    uintptr_t var_8; /* stack offset -0x8 */\n    /* 0x401000 */ /* push rbp */\n    /* 0x401004 */ var_8 = rdi;\n    /* 0x401008 */ rax = var_8;\n    /* 0x40100c */ return;\n}")
unfolding decompile_function ai_reverse_agent.Decompiler.Stack.match_frame
    ai_reverse_agent.Decompiler.Stack.match_sp_index ai_reverse_agent.Decompiler.Stack.match_sp_base
    ai_reverse_agent.Text.Numbers.padded ai_reverse_agent.Decompiler.Stack.offset_of
    ai_reverse_agent.Decompiler.Stack.hex_group ai_reverse_agent.Decompiler.Stack.negated_int
    ai_reverse_agent.Decompiler.Pseudo.operand_statement
    ai_reverse_agent.Decompiler.Pseudo.operand_or
decompiled = refl

abbrev function_stream : List NormalizedInstruction
function_stream = push ∷ store ∷ load ∷ finish ∷ finish ∷ []

abbrev last_boundary : FunctionBoundary
last_boundary = record {
  start_address = pos 0x40100c;
  end_address = pos 0x40100c;
  first = finish;
  more = [];
}

abbrev decompiled_functions : List DecompiledFunction
decompiled_functions =
    record {
      name = codes "sub_401000";
      boundary = record {
        start_address = pos 0x401000;
        end_address = pos 0x40100c;
        first = push;
        more = store ∷ load ∷ finish ∷ [];
      };
      stack_variables =
          record {
            offset = negsuc 7;
            name = codes "var_8";
            references = pos 0x401004 ∷ pos 0x401008 ∷ [];
          }
          ∷ [];
      pseudo_c =
          codes
            "void sub_401000(void) {\n    uintptr_t var_8; /* stack offset -0x8 */\n    /* 0x401000 */ /* push rbp */\n    /* 0x401004 */ var_8 = rdi;\n    /* 0x401008 */ rax = var_8;\n    /* 0x40100c */ return;\n}";
      library = none;
    }
    ∷ record {
      name = codes "sub_40100c";
      boundary = last_boundary;
      stack_variables = [];
      pseudo_c = codes "void sub_40100c(void) {\n    /* 0x40100c */ return;\n}";
      library = none;
    }
    ∷ []

function_stream-IsEncoded : All IsEncoded function_stream
unfolding from_hex
function_stream-IsEncoded = ((_, refl), ((_, refl), ((_, refl), ((_, refl), ((_, refl), tt)))))

natively_decompiled :
    decompile_bytes_native is_ascii_word (ok function_stream) false (named (codes "x64"))
    ≡ ok decompiled_functions
unfolding decompile_bytes_native is_ascii_word ai_reverse_agent.Decompiler.Stack.offset_of
    ai_reverse_agent.Decompiler.Stack.match_frame ai_reverse_agent.Decompiler.Stack.match_sp_index
    ai_reverse_agent.Decompiler.Stack.match_sp_base ai_reverse_agent.Decompiler.Stack.hex_group
    ai_reverse_agent.Decompiler.Stack.negated_int
    ai_reverse_agent.Decompiler.Pseudo.operand_statement ai_reverse_agent.Text.Numbers.padded
    ai_reverse_agent.Prelude.Int.◌+ℤ◌ ai_reverse_agent.Decompiler.Pseudo.operand_or
natively_decompiled = refl

decompile_bytes_native_lem_example :
    CutsStream function_stream (map boundary_of decompiled_functions)
decompile_bytes_native_lem_example =
    decompile_bytes_native_lem is_ascii_word function_stream false (named (codes "x64"))
      decompiled_functions function_stream-IsEncoded natively_decompiled
