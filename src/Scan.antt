-- ===== src/Scan.antt =====
-- src/ai_reverse_agent/scan.py: the code that is taken out of a file, and what is found in its bytes.
-- SHA-256 is a parameter.
pub mod Extraction
use ai_reverse_agent.Prelude.{
  ℕ, zero, suc, ◌+◌, ◌/◌, ◌%◌, ◌^◌, Bool, true, false, not, ◌&&◌, ◌||◌, List, [], ◌∷◌, ◌++◌, map,
  Option, none, some, ltb, leb, ◌==◌, if◌then◌else◌, length, take, drop, get_or,
}
use ai_reverse_agent.Prelude.Int.{pos}
use mathlib.Core.Option
use ai_reverse_agent.Bytes.{Bytes, slice, from_little, starts_with}
use ai_reverse_agent.Bytes.Search.{find}
use ai_reverse_agent.Text.{Text, codes, text_eq, drop_end, lower}
use ai_reverse_agent.Text.Numbers.{padded, hexadecimal, decimal}
use ai_reverse_agent.Architecture.{Endianness, little, big}
use ai_reverse_agent.Elf.{elf_magic, from_bytes}
use ai_reverse_agent.Crypto.{CryptoDetection, identify_crypto}

pub data Container : Type 0 where
  pe elf raw : Container

-- Executable bytes, and the address of the first one.
abbrev pub Code : Type 0
Code = Bytes × ℕ

-- int.from_bytes(data[start:start + w], "little")
unfoldable pub little_at : Bytes → ℕ → ℕ → ℕ
unfolding slice from_little
little_at b start w = from_little (slice b start (start + w))

-- characteristics & 0x20000000
abbrev pub is_executable : ℕ → Bool
is_executable characteristics = not ((characteristics / 2 ^ 29) % 2 == 0)

-- The loop over the section headers, with `left` of them to go.
unfoldable pub find_text : Bytes → ℕ → ℕ → Option Code
unfolding slice little_at drop_end text_eq
find_text b zero offset = none
find_text b (suc left) offset =
    let later = find_text b left (offset + 40) in
    let name = drop_end (λ c. c == 0) (slice b offset (offset + 8)) in
    let raw_size = little_at b (offset + 16) 4 in
    let raw_offset = little_at b (offset + 20) 4 in
    if ltb (length b) (offset + 40)
    then none
    else if not (text_eq name (codes ".text")) && not (is_executable (little_at b (offset + 36) 4))
    then later
    else if leb (length b) raw_offset
    then none
    else some (slice b raw_offset (raw_offset + raw_size), little_at b (offset + 12) 4)

-- _extract_pe_text
unfoldable pub extract_pe_text : Bytes → Option Code
unfolding slice little_at text_eq find_text
extract_pe_text b =
    let pe_offset = little_at b 0x3C 4 in
    if ltb (length b) 0x40
    then none
    else if ltb (length b) (pe_offset + 24)
        || not (text_eq (slice b pe_offset (pe_offset + 4)) (b'P' ∷ b'E' ∷ 0 ∷ 0 ∷ []))
    then none
    else find_text b (little_at b (pe_offset + 6) 2)
        (pe_offset + 24 + little_at b (pe_offset + 20) 2)

-- int.from_bytes(data[start:start + w], byte_order)
unfoldable pub ordered_at : Endianness → Bytes → ℕ → ℕ → ℕ
unfolding slice from_bytes
ordered_at e b start w = from_bytes e (slice b start (start + w))

-- The fields of a program header.
pub record ProgramHeader : Type 0 where
  pub kind : ℕ
  pub flags : ℕ
  pub file_offset : ℕ
  pub virtual_address : ℕ
  pub file_size : ℕ

unfoldable pub program_header : Bool → Endianness → Bytes → ℕ → ProgramHeader
unfolding ordered_at
program_header narrow e b offset =
    if narrow
    then record {
      kind = ordered_at e b offset 4;
      flags = ordered_at e b (offset + 24) 4;
      file_offset = ordered_at e b (offset + 4) 4;
      virtual_address = ordered_at e b (offset + 8) 4;
      file_size = ordered_at e b (offset + 16) 4;
    }
    else record {
      kind = ordered_at e b offset 4;
      flags = ordered_at e b (offset + 4) 4;
      file_offset = ordered_at e b (offset + 8) 8;
      virtual_address = ordered_at e b (offset + 16) 8;
      file_size = ordered_at e b (offset + 32) 8;
    }

-- A segment that is loaded, is executable and begins in the file.
abbrev pub is_code : Bytes → ProgramHeader → Bool
is_code b h = h.kind == 1 && h.flags % 2 == 1 && ltb h.file_offset (length b)

-- The loop over the program headers: none where it breaks or ends.
unfoldable pub find_segment : Bool → Endianness → Bytes → ℕ → ℕ → ℕ → Option Code
unfolding program_header slice
find_segment narrow e b entry_size zero offset = none
find_segment narrow e b entry_size (suc left) offset =
    let later = find_segment narrow e b entry_size left (offset + entry_size) in
    let h = program_header narrow e b offset in
    if ltb entry_size 32 || ltb (length b) (offset + entry_size)
    then none
    else if is_code b h
    then some (slice b h.file_offset (h.file_offset + h.file_size), h.virtual_address)
    else later

-- What follows the header, where no segment is found.
unfoldable pub after_header : Bytes → ℕ → ℕ → Option Code
after_header b header_size entry =
    if ltb header_size 1 || ltb (length b) header_size
    then none
    else some (drop header_size b, entry)

abbrev pub or_else : Option Code → Option Code → Option Code
or_else none c = c
or_else (some c) d = some c

unfoldable pub elf_body : Bool → Endianness → Bytes → Option Code
unfolding ordered_at find_segment after_header
elf_body narrow e b =
    if narrow
    then or_else
        (find_segment narrow e b (ordered_at e b 42 2) (ordered_at e b 44 2) (ordered_at e b 28 4))
        (after_header b (ordered_at e b 40 2) (ordered_at e b 24 4))
    else or_else
        (find_segment narrow e b (ordered_at e b 54 2) (ordered_at e b 56 2) (ordered_at e b 32 8))
        (after_header b (ordered_at e b 52 2) (ordered_at e b 24 8))

abbrev pub one_or_two : ℕ → Bool
one_or_two n = n == 1 || n == 2

-- _extract_elf_body
unfoldable pub extract_elf_body : Bytes → Option Code
unfolding elf_body
extract_elf_body b =
    if ltb (length b) 52 || not (one_or_two (get_or b 4 0)) || not (one_or_two (get_or b 5 0))
    then none
    else elf_body (get_or b 4 0 == 1) (if get_or b 5 0 == 1 then little else big) b

abbrev pub extracted : Bytes → Container → Option Code → Code × Container
extracted b c (some code) = (code, c)
extracted b c none = ((b, 0), raw)

-- _extract_code; a file cannot begin in both ways.
unfoldable pub extract_code : Bytes → Code × Container
unfolding starts_with extract_pe_text extract_elf_body
extract_code b =
    if starts_with b (b'M' ∷ b'Z' ∷ [])
    then extracted b pe (extract_pe_text b)
    else if starts_with b elf_magic
    then extracted b elf (extract_elf_body b)
    else ((b, 0), raw)

pub data Severity : Type 0 where
  info medium high : Severity

-- One dictionary of the list of findings; `confidence` in hundredths.
pub record SecurityFinding : Type 0 where
  pub id : Text
  pub severity : Severity
  pub confidence : ℕ
  pub title : Text
  pub host : Text
  pub narrative : Text
  pub evidence : List Text

-- credential_markers
abbrev pub credential_markers : List Text
credential_markers = codes "admin:password123" ∷ codes "password=" ∷ codes "passwd=" ∷ []

-- The algorithm of a detection, or "byte-table" where it has no byte order.
abbrev pub or_byte_table : Option Text → Text
or_byte_table none = codes "byte-table"
or_byte_table (some []) = codes "byte-table"
or_byte_table (some (c ∷ cs)) = c ∷ cs

-- hashlib.sha256(...).hexdigest() is `sha256` of the bytes.
module _ (sha256 : Bytes → Text) where
  -- _finding_id
  unfoldable pub finding_id : Bytes → Text → Text
  finding_id b kind = codes "rev-bin-" ++ take 16 (sha256 (b ++ kind))

  -- The finding for a marker at an offset.
  unfoldable pub credential_finding : Bytes → Text → Text → ℕ → SecurityFinding
  unfolding finding_id padded
  credential_finding b host marker offset = record {
    id = finding_id b (codes "credential:" ++ decimal (pos offset));
    severity = high;
    confidence = 85;
    title = codes "Hardcoded credential marker at 0x" ++ hexadecimal (pos offset);
    host = host;
    narrative = codes "Embedded marker: '" ++ marker ++ codes "'";
    evidence = marker ∷ [];
  }

  unfoldable pub credential_findings : Bytes → Text → List Text → List SecurityFinding
  unfolding find lower credential_finding
  credential_findings b host [] = []
  credential_findings b host (marker ∷ markers) = elim (find marker (lower b) 0) [
    | none ↦ credential_findings b host markers
    | some offset ↦ credential_finding b host marker offset ∷ credential_findings b host markers
  ]

  unfoldable pub crypto_finding : Bytes → Text → CryptoDetection → SecurityFinding
  unfolding finding_id padded
  crypto_finding b host d = record {
    id = finding_id b (codes "crypto:" ++ d.algorithm ++ codes ":" ++ decimal (pos d.offset));
    severity = medium;
    confidence = 95;
    title = d.algorithm ++ codes " " ++ d.constant ++ codes " at 0x" ++ hexadecimal (pos d.offset);
    host = host;
    narrative =
        codes "endianness="
        ++ or_byte_table d.endianness
        ++ codes "; length="
        ++ decimal (pos d.size);
    evidence = d.evidence_hex ∷ [];
  }

  -- _security_findings; `none` would mean that the search for constants ran out of fuel.
  unfoldable pub security_findings : Bytes → Text → Option (List SecurityFinding)
  unfolding credential_findings crypto_finding identify_crypto
  security_findings b host =
      Option.map
        (λ ds. credential_findings b host credential_markers ++ map (crypto_finding b host) ds)
        (identify_crypto b)
