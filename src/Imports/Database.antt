-- ===== src/Imports/Database.antt =====
-- src/ai_reverse_agent/iat/db.py: the database of known imphashes; and `imphash_finding` of
-- findings.py. A sample is its JSON object, with values that are text. File access is left out.
pub mod Lookup
pub mod Reports
use ai_reverse_agent.Prelude.{
  ℕ, Bool, true, false, not, ◌&&◌, ◌||◌, List, [], ◌∷◌, ◌++◌, map, Option, none, some, leb, ◌==◌,
  if◌then◌else◌, length,
}
use ai_reverse_agent.Prelude.Int.{pos}
use ai_reverse_agent.Result.{Result, ok, err, ◌>>=◌}
use ai_reverse_agent.Text.{Text, codes, text_eq, one_of, is_digit}
use ai_reverse_agent.Text.Numbers.{decimal, padded}
use ai_reverse_agent.Architecture.{lookup_text}
use ai_reverse_agent.Imports.{ImportedSymbol, ImportLike, imported, ImportError, lowered}
use ai_reverse_agent.Imports.Hash.{compute_pe_imphash}

-- A JSON object: its keys, which differ, and their values.
abbrev pub Sample : Type 0
Sample = List (Text × Text)

pub record MalwareImphashMatch : Type 0 where
  pub digest : Text
  pub algorithm : Text
  pub family : Text
  pub sample_id : Text
  pub database_version : Text
  pub provenance : Text
  pub metadata : Sample

-- MalwareImphashMatch.trusted
unfoldable pub trusted : MalwareImphashMatch → Bool
unfolding text_eq one_of
trusted m =
    text_eq m.algorithm (codes "pe-imphash-v1")
    && one_of m.provenance
        (codes "curated" ∷ codes "vendor-curated" ∷ codes "analyst-verified" ∷ [])

pub data DatabaseError : Type 0 where
  invalid_imphash : DatabaseError

-- The keyword arguments of the constructor.
pub record Defaults : Type 0 where
  pub algorithm : Text
  pub version : Text
  pub provenance : Text

-- sample.get(key, default)
unfoldable pub get : Text → Text → Sample → Text
unfolding lookup_text
get key default s = elim (lookup_text key s) [ none ↦ default | some v ↦ v ]

unfoldable pub is_hex_digit : ℕ → Bool
unfolding is_digit
is_hex_digit c = is_digit c || (leb b'a' c && leb c b'f')

unfoldable pub all_hex : Text → Bool
unfolding is_hex_digit
all_hex [] = true
all_hex (c ∷ cs) = is_hex_digit c && all_hex cs

-- _MD5_RE.fullmatch(digest)
unfoldable pub is_md5 : Text → Bool
unfolding all_hex
is_md5 t = length t == 32 && all_hex t

-- The keys that are no metadata.
abbrev pub own_keys : List Text
own_keys =
    codes "algorithm"
    ∷ codes "digest"
    ∷ codes "imphash"
    ∷ codes "family"
    ∷ codes "sample_id"
    ∷ codes "provenance"
    ∷ []

unfoldable pub metadata_of : Sample → Sample
unfolding one_of
metadata_of [] = []
metadata_of ((key, value) ∷ s) =
    let rest = metadata_of s in if one_of key own_keys then rest else (key, value) ∷ rest

-- One round of the constructor's loop: the record of a sample.
unfoldable pub match_of : Defaults → Sample → Result DatabaseError MalwareImphashMatch
unfolding get lowered is_md5 metadata_of
match_of d s =
    let digest = lowered (get (codes "digest") (get (codes "imphash") [] s) s) in
    if not (is_md5 digest)
    then err invalid_imphash
    else ok (record {
      digest = digest;
      algorithm = lowered (get (codes "algorithm") d.algorithm s);
      family = get (codes "family") (codes "unknown") s;
      sample_id = get (codes "sample_id") digest s;
      database_version = d.version;
      provenance = lowered (get (codes "provenance") (get (codes "source") d.provenance s) s);
      metadata = metadata_of s;
    })

-- The keys of the dictionary: an algorithm and a digest.
abbrev pub Key : Type 0
Key = Text × Text

abbrev pub key_of : MalwareImphashMatch → Key
key_of m = (m.algorithm, m.digest)

unfoldable pub key_eq : Key → Key → Bool
unfolding text_eq
key_eq k j = text_eq k.0 j.0 && text_eq k.1 j.1

abbrev pub Records : Type 0
Records = List MalwareImphashMatch

-- records[key] = m: in the place of the record with its key, or behind all others
unfoldable pub put : MalwareImphashMatch → Records → Records
unfolding key_eq
put m [] = m ∷ []
put m (n ∷ ns) = let rest = put m ns in if key_eq (key_of n) (key_of m) then m ∷ ns else n ∷ rest

-- self._records.get(key)
unfoldable pub get_record : Key → Records → Option MalwareImphashMatch
unfolding key_eq
get_record k [] = none
get_record k (n ∷ ns) = if key_eq (key_of n) k then some n else get_record k ns

-- The loop of the constructor, on the records so far.
unfoldable pub add_samples : Defaults → List Sample → Records → Result DatabaseError Records
unfolding match_of put
add_samples d [] records = ok records
add_samples d (s ∷ ss) records = match_of d s >>= λ m. add_samples d ss (put m records)

-- MalwareImphashDB(samples, ...)
unfoldable pub make_database : Defaults → List Sample → Result DatabaseError Records
unfolding add_samples
make_database d samples = add_samples d samples []

-- MalwareImphashDB.lookup
unfoldable pub lookup : Records → Text → Text → Option MalwareImphashMatch
unfolding get_record lowered
lookup records imphash algorithm = get_record (lowered algorithm, lowered imphash) records

pub data Severity : Type 0 where
  high : Severity

-- The finding that imphash_finding builds; its fixed texts are left out.
pub record Finding : Type 0 where
  pub severity : Severity
  -- in hundredths
  pub confidence : ℕ
  pub title : Text
  pub host : Option Text
  pub evidence : List Text
  pub metadata : Sample

unfoldable pub finding_of : Text → Option Text → ℕ → MalwareImphashMatch → Finding
unfolding padded
finding_of digest host count m = record {
  severity = high;
  confidence = 98;
  title = codes "imphash matched known malware " ++ m.family;
  host = host;
  evidence =
      (codes "pe_imphash=" ++ digest)
      ∷ (codes "import_count=" ++ decimal (pos count))
      ∷ (codes "sample_id=" ++ m.sample_id)
      ∷ [];
  metadata =
      (codes "pe_imphash", digest)
      ∷ (codes "algorithm", m.algorithm)
      ∷ (codes "family", m.family)
      ∷ (codes "sample_id", m.sample_id)
      ∷ (codes "database_version", m.database_version)
      ∷ (codes "provenance", m.provenance)
      ∷ [];
}

-- database or MalwareImphashDB.from_file(): a database without records counts as none
unfoldable pub chosen : Option Records → Records → Records
chosen none default = default
chosen (some []) default = default
chosen (some (m ∷ ms)) default = m ∷ ms

-- match is None or not match.trusted
unfoldable pub report : Text → Option Text → ℕ → Option MalwareImphashMatch → Option Finding
unfolding trusted finding_of
report digest host count none = none
report digest host count (some m) =
    if trusted m then some (finding_of digest host count m) else none

-- imphash_finding; `default` is the database of the file.
unfoldable pub imphash_finding :
    (Text → Text)
    → Records
    → List ImportedSymbol
    → Option Text
    → Option Records
    → Result ImportError (Option Finding)
unfolding compute_pe_imphash chosen lookup report
imphash_finding md5 default imports host database = do
  digest ← compute_pe_imphash md5 (map imported imports)
  ok (
      report digest host (length imports)
        (lookup (chosen database default) digest (codes "pe-imphash-v1")))
