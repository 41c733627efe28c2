-- ===== src/Tests/Patches.antt =====
-- A patch that removes an instruction, and the functions of a small PE image.
use ai_reverse_agent.Prelude.{
  ℕ, ◌+◌, ◌-◌, ◌≡◌, refl, ap, ◌∙◌, inl, inr, Bool, true, false, ◌&&◌, List, [], ◌∷◌, ◌++◌, map,
  arith, length, take, All, Bool-cases, if◌then◌else◌,
}
use ai_reverse_agent.Prelude.Int.{pos}
use ai_reverse_agent.Text.{codes, text_eq, text_eq_iff}
use ai_reverse_agent.Instruction.{NormalizedInstruction}
use ai_reverse_agent.Diff.{
  Key, instruction_key, Tag, equal, delete, insert, replace, Opcode, range_of, instruction_diff,
}
use ai_reverse_agent.Diff.Script.{
  FitsTag, IsScript, count_added, count_removed, instruction_diff_unchanged,
  instruction_diff_balance,
}
use ai_reverse_agent.Result.{ok}
use ai_reverse_agent.Bytes.{Bytes}
use ai_reverse_agent.Pe.Fixture.{FakeFunction, function_records}
use ai_reverse_agent.Pe.Table.{read_function_table}
use ai_reverse_agent.Pe.Table.Roundtrip.{IsWritable, entry_of, read_function_table-function_records}
use ai_reverse_agent.Identifier.{PeImage, has_address, entry_point, identify_functions}
use ai_reverse_agent.Identifier.Functions.{IsListed, HasReason, identify_functions_lem}

unfoldable key_eq : Key → Key → Bool
key_eq k l = text_eq k.0 l.0 && text_eq k.1 l.1 && text_eq k.2 l.2

unfoldable keys_eq : List Key → List Key → Bool
unfolding key_eq
keys_eq [] [] = true
keys_eq (k ∷ ks) (l ∷ ls) = key_eq k l && keys_eq ks ls
keys_eq ks ls = false

key_eq_sound : (k l : Key) → key_eq k l ≡ true → k ≡ l
unfolding key_eq
key_eq_sound (a, b, c) (d, e, f) h =
    ground (arith, text_eq_iff a d, text_eq_iff b e, text_eq_iff c f)

keys_eq_sound : (ks ls : List Key) → keys_eq ks ls ≡ true → ks ≡ ls
unfolding keys_eq
keys_eq_sound [] [] h = refl
keys_eq_sound [] (l ∷ ls) h = cc
keys_eq_sound (k ∷ ks) [] h = cc
keys_eq_sound (k ∷ ks) (l ∷ ls) h = elim (Bool-cases (key_eq k l)) [
  | inl e ↦ cc (key_eq_sound k l e, keys_eq_sound ks ls (rw e at h))
  | inr e ↦ absurd (cc)
]

abbrev whole : Tag → List Key → List Key → Opcode
whole tag a b = record {
  tag = tag;
  old_start = 0;
  old_end = length a;
  new_start = 0;
  new_end = length b;
}

-- One opcode for the two lists: an equality where they are equal.
unfoldable whole_opcodes : List Key → List Key → List Opcode
unfolding keys_eq
whole_opcodes [] [] = []
whole_opcodes [] (k ∷ b) = whole insert [] (k ∷ b) ∷ []
whole_opcodes (k ∷ a) [] = whole delete (k ∷ a) [] ∷ []
whole_opcodes (k ∷ a) (l ∷ b) =
    if keys_eq (k ∷ a) (l ∷ b)
    then whole equal (k ∷ a) (l ∷ b) ∷ []
    else whole replace (k ∷ a) (l ∷ b) ∷ []

take_all : (ks : List Key) → take (length ks) ks ≡ ks
take_all [] = refl
take_all (k ∷ ks) = ap (λ t. k ∷ t) (take_all ks)

range_all : (ks : List Key) → range_of ks 0 (length ks) ≡ ks
range_all ks =
    let e : length ks - 0 ≡ length ks = omega arith in ap (λ (n : ℕ). take n ks) e ∙ take_all ks

whole-IsScript :
    (tag : Tag) (a b : List Key) → FitsTag tag a b → IsScript a b 0 0 (whole tag a b ∷ [])
whole-IsScript tag a b f =
    (refl, refl, omega arith, omega arith, rw (range_all a, range_all b) f, (refl, refl))

whole_opcodes-IsScript : (a b : List Key) → IsScript a b 0 0 (whole_opcodes a b)
unfolding whole_opcodes
whole_opcodes-IsScript [] [] = (refl, refl)
whole_opcodes-IsScript [] (k ∷ b) = whole-IsScript insert [] (k ∷ b) (refl, omega arith)
whole_opcodes-IsScript (k ∷ a) [] = whole-IsScript delete (k ∷ a) [] (omega arith, refl)
whole_opcodes-IsScript (k ∷ a) (l ∷ b) = elim (Bool-cases (keys_eq (k ∷ a) (l ∷ b))) [
  | inl e ↦ rw e (whole-IsScript equal (k ∷ a) (l ∷ b) (keys_eq_sound (k ∷ a) (l ∷ b) e))
  | inr e ↦ rw e (whole-IsScript replace (k ∷ a) (l ∷ b) (omega arith, omega arith))
]

abbrev push : NormalizedInstruction
push = record {
  address = pos 0;
  mnemonic = codes "push";
  op_str = codes "ebp";
  bytes_hex = codes "55";
}

abbrev leave : NormalizedInstruction
leave = record { address = pos 1; mnemonic = codes "ret"; op_str = []; bytes_hex = codes "c3" }

-- The same code at another address.
abbrev moved : List NormalizedInstruction
moved = record push { address = pos 16 } ∷ record leave { address = pos 17 } ∷ []

no_changes : instruction_diff whole_opcodes (push ∷ leave ∷ []) moved ≡ []
unfolding instruction_diff whole_opcodes text_eq
no_changes = refl

instruction_diff_unchanged_example :
    map instruction_key (push ∷ leave ∷ []) ≡ map instruction_key moved
instruction_diff_unchanged_example =
    instruction_diff_unchanged whole_opcodes whole_opcodes-IsScript (push ∷ leave ∷ []) moved
      no_changes

instruction_diff_balance_example :
    length (push ∷ leave ∷ [])
      + count_added (instruction_diff whole_opcodes (push ∷ leave ∷ []) (leave ∷ []))
    ≡ length (leave ∷ [])
      + count_removed (instruction_diff whole_opcodes (push ∷ leave ∷ []) (leave ∷ []))
instruction_diff_balance_example =
    instruction_diff_balance whole_opcodes whole_opcodes-IsScript (push ∷ leave ∷ []) (leave ∷ [])

abbrev image : PeImage
image = record {
  coff = record { machine = 0x014C; number_of_sections = 1; timestamp = 0; characteristics = 0 };
  optional = record {
    magic = 0x010B;
    entry_point = 0x1000;
    image_base = 0x400000;
    section_alignment = 0x1000;
    file_alignment = 0x200;
    size_of_image = 0x3000;
    number_of_rva_and_sizes = 16;
  };
  sections =
      record {
        name = codes ".text";
        virtual_address = 0x1000;
        virtual_size = 0x200;
        raw_size = 0x200;
        characteristics = 0;
      }
      ∷ [];
  imports =
      record { dll = codes "kernel32.dll"; function = codes "Sleep"; hint = 1; address = 0x2000 }
      ∷ record { dll = codes "kernel32.dll"; function = codes "Sleep"; hint = 1; address = 0x2004 }
      ∷ [];
  functions =
      record { address = 0x1010; name = codes "Sleep" }
      ∷ record { address = 0x1020; name = codes "main" }
      ∷ [];
}

identify_functions_lem_example :
    All (IsListed (identify_functions image)) image.imports
    × (has_address (entry_point image) (identify_functions image) ≡ true)
    × All (HasReason image) (identify_functions image)
identify_functions_lem_example = identify_functions_lem image

abbrev printf : FakeFunction
printf = record { name = codes "printf"; dll = codes "msvcrt.dll"; hint = 42; address = 0x123C }

printf-IsWritable : IsWritable printf
printf-IsWritable = record {
  nonzero = omega arith;
  address_bound = omega arith;
  named = omega arith;
  name_bound = omega arith;
  is_ascii =
      (omega arith, (omega arith, (omega arith, (omega arith, (omega arith, (omega arith, tt))))));
}

abbrev padding : Bytes
padding = 7 ∷ 7 ∷ []

read_function_table-function_records_example :
    (q : ℕ) × (read_function_table
        (length padding)
        (padding ++ (function_records (printf ∷ printf ∷ []) ++ (0 ∷ 0 ∷ 0 ∷ 0 ∷ (0 ∷ []))))
        0
      ≡ ok (map entry_of (printf ∷ printf ∷ []), q))
read_function_table-function_records_example =
    read_function_table-function_records (printf ∷ printf ∷ []) padding (0 ∷ []) (omega arith)
      (printf-IsWritable, (printf-IsWritable, tt))
