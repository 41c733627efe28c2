-- ===== src/Lib.antt =====
-- A model of the static analysis core of the reverse-engineering agent, and its theorems.
--
-- The program takes a binary apart without running it. A file's header gives its architecture; a
-- disassembler outside the repository gives normalized instructions; and on those stand the
-- control-flow graph, the split into functions, the recognition of library functions and the
-- comparison of two versions. Other passes search the bytes for constants of ciphers and for
-- tagged RC4 records, and a small solver decides branches over bounded integers.
--
-- The files, and the code under src/ai_reverse_agent that each is about:
--   Symbolic       symbolic.py: expressions, constraints, `negate`, `loop_value`
--   Symbolic/Operators     the operators of `Expression`
--   Symbolic/Symbols       `_merge_symbols` and `_constraint_symbols`; a `dict` is the list of its
--                  entries in the order of insertion
--   Symbolic/Mini  `_solve_with_mini`, and `solve_branch` with the backend "mini"
--   Architecture   architecture.py but for `label` and the detection of ELF files
--   Disassembler   disassembler.py and the stream of disasm.py, over Capstone as a parameter;
--                  Disassembler/Listing `format_disassembly` and `label`
--   Elf            fake_elf.py, fake_bin.py, and `detect_elf_architecture`
--   Instruction    `NormalizedInstruction` of disasm.py, `bytes.fromhex` and `int(token, 0)`
--   Controlflow    controlflow.py: `build_cfg`; Controlflow/Dot `to_dot`
--   Decompiler     decompiler.py: `find_function_boundaries`; Decompiler/Stack the stack variables,
--                  Decompiler/Pseudo the statements, Decompiler/Native `_decompile_bytes_native`
--   Signatures     signatures.py: `signature_bytes`, `match_instructions`
--   Diff           patch_diff.py: `diff_binaries`, over the opcodes of difflib and the disassembler,
--                  which are parameters
--   Crypto         crypto_id.py: `identify_crypto`
--   Rc4            deobfuscation/string_rc4.py: `rc4_crypt`, `find_rc4_strings`
--   Identifier     identifier.py, and the records of datatypes.py
--   Pe             parsers.py; Pe/Stream is the stream it reads, Pe/Imports and Pe/Table its two tables;
--                  Pe/Fixture the headers, the code and the function table that fake_pe.py writes
--   Imports        iat/imphash.py and the bounds of magic.py; Imports/Pe and Imports/Elf the parsers
--                  of iat/; Imports/Hash the hashes of hashing/, over MD5 as a parameter;
--                  Imports/Database iat/db.py and findings.py
--   Scan           scan.py: `_extract_code` and `_security_findings`
--   Loader         backends/: the loader and its fallback, over pefile and pyelftools as parameters
--   Obfuscation    deobfuscation/: opaque_pred.py, block_stats.py, `instruction_parts` and, in
--                  Obfuscation/Structure, `detect_rc4_structure` of string_rc4.py; a ratio is a pair
--                  of numbers, and a confidence counts hundredths
--   Yara           yara_gen.py: names and literals; Yara/Strings the choice of strings, over what
--                  `find_xor_strings` recovers; Yara/Rule the rule, over SHA-256 as a parameter
-- Prelude, Result, Text and Bytes hold what they share: lists, integers and sorting, a result type
-- whose error names what was raised, `str` and `bytes`. Tests runs the model on concrete data.
--
-- Conventions. Python's `int` is ℤ where it can be negative (addresses, solver values), and ℕ where
-- it counts or is read from bytes. A `str` is the list of its code points, and `lower`, `strip` and
-- `isidentifier` are those of ASCII. A string that names an operator is a constructor, and any other
-- string is `other_arithmetic` or `other_comparison`. A function that raises returns `err`. A Boolean
-- test is evaluated as the source does, but without its early exit where no error can tell them
-- apart. A non-empty list (the instructions of a block or of a function) is its first element and
-- the rest.
--
-- Loops are structural recursion, with the 2048 or 4096 rounds that the source allows where it
-- counts them, but for the two searches that go on behind what they found. Those
-- have fuel, and the fuel is enough: the data's length and 1 for RC4 records, since a record has at
-- least 10 bytes; its length and 2 for a pattern, since the start grows by 1 at least.
--
-- Not modelled: the translation to z3, the inside of Capstone, Ghidra and the other tools that the
-- program calls; the command line, prompts, reports and file access; the rules that build findings
-- of an external package; scores in floating point and the XOR strings that rest on them; the
-- import directory that fake_pe.py writes, and the steps of a scan between the loader and its
-- findings.
pub mod Prelude
pub mod Result
pub mod Text
pub mod Symbolic
pub mod Bytes
pub mod Architecture
pub mod Elf
pub mod Instruction
pub mod Controlflow
pub mod Rc4
pub mod Crypto
pub mod Decompiler
pub mod Scan
pub mod Signatures
pub mod Diff
pub mod Disassembler
pub mod Identifier
pub mod Imports
pub mod Loader
pub mod Obfuscation
pub mod Pe
pub mod Tests
pub mod Yara
