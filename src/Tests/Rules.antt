-- ===== src/Tests/Rules.antt =====
-- A YARA rule, its name, its literals and its strings on concrete data.
use ai_reverse_agent.Prelude.{
  ◌≤◌, ◌≡◌, ◌⊎◌, refl, true, false, [], ◌∷◌, ◌++◌, some, none, All, arith, length, replicate,
}
use ai_reverse_agent.Result.{ok, err, ◌>>=◌}
use ai_reverse_agent.Text.{Text, codes, one_of, lower}
use ai_reverse_agent.Text.Utf8.{encode_utf8, surrogates_not_allowed}
use ai_reverse_agent.Bytes.{Bytes}
use ai_reverse_agent.Yara.{sanitize_rule_name, escape_yara_string}
use ai_reverse_agent.Yara.Names.{IsIdentifier, sanitize_rule_name-IsIdentifier}
use ai_reverse_agent.Yara.Escape.{IsPoints, read_string, plain, read_string-escape_yara_string}
use ai_reverse_agent.Yara.Strings.{FileStrings, Candidate, candidates, select_strings}
use ai_reverse_agent.Yara.Strings.Selection.{
  at_least_one, IsChosen, IsDistinct, folded, select_strings_lem,
}
use ai_reverse_agent.Yara.Rule.{
  not_encodable, Features, Request, GeneratedYaraRule, generate_yara_rule,
}
use ai_reverse_agent.Yara.Rule.Encodable.{is_encodable}
use ai_reverse_agent.Yara.Rule.Generation.{IsEncodableRequest, generate_yara_rule_returns}

sanitized : sanitize_rule_name (codes " 7-zip (x64).exe ") ≡ codes "sample_7_zip_x64_exe"
unfolding sanitize_rule_name
sanitized = refl

sanitize_rule_name-IsIdentifier_example : IsIdentifier (sanitize_rule_name (codes "7-zip"))
sanitize_rule_name-IsIdentifier_example = sanitize_rule_name-IsIdentifier (codes "7-zip")

-- A path, a line feed and a letter that is not ASCII.
abbrev awkward : Text
awkward = codes "C:\\x\"" ++ 10 ∷ 0xE9 ∷ []

awkward-IsPoints : IsPoints awkward
awkward-IsPoints = ground arith

escaped_awkward : escape_yara_string awkward ≡ ok (codes "C:\\\\x\\\"\\n\\xc3\\xa9")
unfolding escape_yara_string
escaped_awkward = refl

read_string-escape_yara_string_example :
    (escape_yara_string awkward >>= λ literal. ok (read_string plain literal))
    ≡ (encode_utf8 awkward >>= λ encoded. ok (some encoded))
read_string-escape_yara_string_example = read_string-escape_yara_string awkward awkward-IsPoints

-- A byte of a file name that is no UTF-8 is a lone surrogate in the name.
escaped_surrogate : escape_yara_string (b'a' ∷ 0xDC80 ∷ []) ≡ err surrogates_not_allowed
unfolding escape_yara_string
escaped_surrogate = refl

abbrev file_strings : FileStrings
file_strings = record {
  bytes = codes "..VirtualAlloc..http://example.org/a1..short..";
  decoded = (2, codes "Secret-Token-42") ∷ [];
  imports =
      record {
        library = codes "kernel32.dll";
        name = codes "VirtualAlloc";
        hint = none;
        address = none;
        ordinal = none;
        delayed = false;
      }
      ∷ [];
  strings =
      (2, codes "VirtualAllocEx")
      ∷ (16, codes "http://example.org/a1")
      ∷ (30, codes "HTTP://EXAMPLE.ORG/A1")
      ∷ (39, codes "short")
      ∷ [];
}

abbrev features : Features
features = record {
  found = file_strings;
  container = codes "raw";
  backend = codes "raw";
  architecture = codes "x64";
  import_set_hash = none;
  pe_imphash = none;
}

abbrev request : Request
request = record {
  stem = codes "a";
  source_name = codes "a.bin";
  rule_name = some (codes "demo");
  max_strings = 16;
  exact_fallback = true;
}

select_strings_lem_example :
    (length (select_strings file_strings 16) ≤ at_least_one 16)
    × All (IsChosen (candidates file_strings)) (select_strings file_strings 16)
    × IsDistinct (folded (select_strings file_strings 16))
    × ((length (select_strings file_strings 16) ≡ at_least_one 16)
        ⊎ All
            (λ (c : Candidate).
              one_of (lower c.value) (folded (select_strings file_strings 16)) ≡ true)
            (candidates file_strings))
select_strings_lem_example = select_strings_lem file_strings 16

selected :
    folded (select_strings file_strings 16)
    ≡ codes "secret-token-42" ∷ codes "virtualalloc" ∷ codes "http://example.org/a1" ∷ []
unfolding select_strings
selected = refl

abbrev no_hash : Bytes → Text
no_hash b = codes "0123456789abcdef"

-- The bound is tested behind the first string.
selected_without_room : folded (select_strings file_strings 0) ≡ codes "secret-token-42" ∷ []
unfolding select_strings
selected_without_room = refl

features-IsEncodableRequest : IsEncodableRequest no_hash features request
unfolding is_encodable
features-IsEncodableRequest = record {
  found = record {
    decoded = (refl, tt);
    imports = (refl, tt);
    strings = (refl, (refl, (refl, (refl, tt))));
  };
  source_name = refl;
  digest = refl;
  container = refl;
  backend = refl;
  architecture = refl;
  import_set_hash = tt;
  pe_imphash = tt;
}

named_badly :
    generate_yara_rule no_hash features (record request { source_name = 0xDC80 ∷ [] })
    ≡ err (not_encodable surrogates_not_allowed)
unfolding generate_yara_rule
named_badly = refl

generate_yara_rule_returns_example :
    (r : GeneratedYaraRule) × (generate_yara_rule no_hash features request ≡ ok r)
    × IsIdentifier r.name
    × (length r.strings ≤ 16)
    × IsDistinct (folded r.strings)
generate_yara_rule_returns_example =
    generate_yara_rule_returns no_hash features request (omega arith) (omega arith) (ground arith)
      refl features-IsEncodableRequest

abbrev nothing : Features
nothing = record {
  found = record { bytes = replicate 4 1; decoded = []; imports = []; strings = [] };
  container = codes "raw";
  backend = codes "raw";
  architecture = codes "x64";
  import_set_hash = none;
  pe_imphash = none;
}

abbrev small : GeneratedYaraRule
unfolding generate_yara_rule
small = elim (generate_yara_rule no_hash nothing request) [
  | ok r ↦ r
  | err e ↦ record {
    name = [];
    text = [];
    imports = [];
    metadata = [];
    strings = [];
    condition = [];
  }
]

rendered :
    small.text
    ≡ codes "import \"hash\""
      ++ 10 ∷ []
      ++ 10 ∷ codes "rule demo : generated reverse"
      ++ 10 ∷ codes "{"
      ++ 10 ∷ codes "    meta:"
      ++ 10 ∷ codes "        architecture = \"x64\""
      ++ 10 ∷ codes "        author = \"longyuanai\""
      ++ 10 ∷ codes "        backend = \"raw\""
      ++ 10 ∷ codes "        container = \"raw\""
      ++ 10 ∷ codes "        decoded_xor_strings = 0"
      ++ 10 ∷ codes "        generated_by = \"005-ai-reverse-agent\""
      ++ 10 ∷ codes "        source_name = \"a.bin\""
      ++ 10 ∷ codes "        source_sha256 = \"0123456789abcdef\""
      ++ 10 ∷ codes "        source_size = 4"
      ++ 10 ∷ codes "    condition:"
      ++ 10 ∷ codes "        hash.sha256(0, filesize) == \"0123456789abcdef\""
      ++ 10 ∷ codes "}"
      ++ 10 ∷ []
unfolding small
rendered = refl
