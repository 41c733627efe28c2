-- ===== src/Yara/Rule/Encodable.antt =====
-- Texts without surrogates, and that a rule of such texts is written.
use ai_reverse_agent.Prelude.{
  ℕ, ◌==◌, leb, ◌||◌, if◌then◌else◌, ◌≡◌, refl, Bool, true, false, not, ◌&&◌, List, [], ◌∷◌, ◌++◌,
  arith, All, All-append, All-intro, All_at,
}
use ai_reverse_agent.Prelude.Sorts.{sort_by, Member-sort_inversion}
use ai_reverse_agent.Result.{Result, Returns, bind_ok, ◌>>=◌}
use ai_reverse_agent.Bytes.{Bytes}
use ai_reverse_agent.Text.{Text}
use ai_reverse_agent.Text.Utf8.{is_surrogate, encode_char}
use ai_reverse_agent.Yara.{escape_char, escape_yara_string}
use ai_reverse_agent.Yara.Strings.{
  YaraString, Candidate, FileStrings, candidates, decoded_candidates, import_candidates,
  ascii_candidates, import_names, is_skipped, has_score, chosen_string, candidate_leb,
}
use ai_reverse_agent.Yara.Strings.Selection.{IsChosen}
use ai_reverse_agent.Yara.Rule.{
  MetaValue, text_value, number_value, Metadata, meta_text, meta_lines, string_lines, entry_leb,
  render_rule,
}
use ai_reverse_agent.Imports.{ImportedSymbol}

-- No character of the text is a surrogate.
unfoldable pub is_encodable : Text → Bool
unfolding is_surrogate
is_encodable [] = true
is_encodable (c ∷ cs) = not (is_surrogate c) && is_encodable cs

abbrev pub IsEncodable : Text → Type 0
IsEncodable t = is_encodable t ≡ true

bind-Returns {ℓ κ μ} :
    {E : Type ℓ} {A : Type κ} {B : Type μ} (m : Result E A) (f : A → Result E B)
    → Returns m
    → ((a : A) → Returns (f a))
    → Returns (m >>= f)
bind-Returns m f (a, p) h = let (b, q) = h a in (b, bind_ok m f p q)

if_Returns {ℓ κ} :
    {E : Type ℓ} {A : Type κ} (t : Bool) {x y : Result E A}
    → Returns x
    → Returns y
    → Returns (if t then x else y)
if_Returns true p q = p
if_Returns false p q = q

encode_char-Returns : (c : ℕ) → is_surrogate c ≡ false → Returns (encode_char c)
unfolding encode_char
encode_char-Returns c h = rw h (_, refl)

escape_char-Returns : (c : ℕ) → is_surrogate c ≡ false → Returns (escape_char c)
unfolding escape_char
escape_char-Returns c h =
    let others = bind-Returns (encode_char c) _ (encode_char-Returns c h) (λ encoded. (_, refl)) in
    if_Returns (c == b'\\') (_, refl)
      (if_Returns (c == b'"') (_, refl)
        (if_Returns (c == 10) (_, refl)
          (if_Returns (c == 13) (_, refl)
            (if_Returns (c == 9) (_, refl)
              (if_Returns (leb 0x20 c && leb c 0x7E) (_, refl) others)))))

escape_yara_string-Returns : (t : Text) → IsEncodable t → Returns (escape_yara_string t)
unfolding escape_yara_string is_encodable
escape_yara_string-Returns [] h = (_, refl)
escape_yara_string-Returns (c ∷ cs) h =
    bind-Returns (escape_char c) _ (escape_char-Returns c (ground arith)) (λ first.
      bind-Returns (escape_yara_string cs) _ (escape_yara_string-Returns cs (ground arith))
        (λ rest. (_, refl)))

-- A metadata value that can be written.
abbrev pub IsWritable : Text × MetaValue → Type 0
IsWritable (key, text_value t) = IsEncodable t
IsWritable (key, number_value n) = Unit

meta_text-Returns : (key : Text) (v : MetaValue) → IsWritable (key, v) → Returns (meta_text v)
unfolding meta_text
meta_text-Returns key (number_value n) h = (_, refl)
meta_text-Returns key (text_value t) h =
    bind-Returns (escape_yara_string t) _ (escape_yara_string-Returns t h) (λ escaped. (_, refl))

meta_lines-Returns : (m : Metadata) → All IsWritable m → Returns (meta_lines m)
unfolding meta_lines
meta_lines-Returns [] h = (_, refl)
meta_lines-Returns ((key, value) ∷ rest) h =
    bind-Returns (meta_text value) _ (meta_text-Returns key value h.0) (λ written.
      bind-Returns (meta_lines rest) _ (meta_lines-Returns rest h.1) (λ lines. (_, refl)))

abbrev pub HasText : YaraString → Type 0
HasText s = IsEncodable s.value

string_lines-Returns : (ss : List YaraString) → All HasText ss → Returns (string_lines ss)
unfolding string_lines
string_lines-Returns [] h = (_, refl)
string_lines-Returns (s ∷ ss) h =
    bind-Returns (escape_yara_string s.value) _ (escape_yara_string-Returns s.value h.0) (λ escaped.
      bind-Returns (string_lines ss) _ (string_lines-Returns ss h.1) (λ lines. (_, refl)))

-- A rule whose metadata and strings have no surrogates is written.
pub render_rule-Returns :
    (name : Text) (imports : List Text) (m : Metadata) (ss : List YaraString) (condition : Text)
    → All IsWritable m
    → All HasText ss
    → Returns (render_rule name imports m ss condition)
unfolding render_rule
render_rule-Returns name imports m ss condition h k =
    bind-Returns (meta_lines (sort_by entry_leb m)) _
      (meta_lines-Returns (sort_by entry_leb m) (
        All-intro IsWritable (sort_by entry_leb m)
          (λ e i. All_at IsWritable e m h (Member-sort_inversion entry_leb e m i))))
      (λ entries.
        bind-Returns (string_lines ss) _ (string_lines-Returns ss k) (λ literals. (_, refl)))

-- The texts of a file that may become strings of a rule.
pub record IsEncodableFile (f : FileStrings) : Type 0 where
  pub decoded : All (λ (e : ℕ × Text). IsEncodable e.1) f.decoded
  pub imports : All (λ (s : ImportedSymbol). IsEncodable s.name) f.imports
  pub strings : All (λ (e : ℕ × Text). IsEncodable e.1) f.strings

abbrev HasEncodable : Candidate → Type 0
HasEncodable c = IsEncodable c.value

decoded-HasEncodable :
    (ds : List (ℕ × Text))
    → All (λ (e : ℕ × Text). IsEncodable e.1) ds
    → All HasEncodable (decoded_candidates ds)
unfolding decoded_candidates
decoded-HasEncodable [] h = tt
decoded-HasEncodable ((offset, value) ∷ rest) h = (h.0, decoded-HasEncodable rest h.1)

All-if :
    (t : Bool) (xs ys : List Candidate)
    → All HasEncodable xs
    → All HasEncodable ys
    → All HasEncodable (if t then xs else ys)
All-if true xs ys h k = h
All-if false xs ys h k = k

imports-HasEncodable :
    (b : Bytes) (ss : List ImportedSymbol)
    → All (λ (s : ImportedSymbol). IsEncodable s.name) ss
    → All HasEncodable (import_candidates b ss)
unfolding import_candidates
imports-HasEncodable b [] h = tt
imports-HasEncodable b (s ∷ ss) h =
    let rest = imports-HasEncodable b ss h.1 in All-if (has_score s.name) _ _ (h.0, rest) rest

strings-HasEncodable :
    (names : List Text) (ss : List (ℕ × Text))
    → All (λ (e : ℕ × Text). IsEncodable e.1) ss
    → All HasEncodable (ascii_candidates names ss)
unfolding ascii_candidates
strings-HasEncodable names [] h = tt
strings-HasEncodable names ((offset, value) ∷ rest) h =
    let others = strings-HasEncodable names rest h.1 in
    All-if (is_skipped names value || not (has_score value)) _ _ others (h.0, others)

candidates-HasEncodable : (f : FileStrings) → IsEncodableFile f → All HasEncodable (candidates f)
unfolding candidates
candidates-HasEncodable f h =
    let found =
      decoded_candidates f.decoded
      ++ import_candidates f.bytes f.imports
      ++ ascii_candidates (import_names f.imports) f.strings in
    All-intro HasEncodable (sort_by candidate_leb found) (λ c m.
      All_at HasEncodable c found
        (All-append HasEncodable
          (decoded_candidates f.decoded ++ import_candidates f.bytes f.imports)
          (ascii_candidates (import_names f.imports) f.strings)
          (All-append HasEncodable (decoded_candidates f.decoded)
            (import_candidates f.bytes f.imports) (decoded-HasEncodable f.decoded h.decoded)
            (imports-HasEncodable f.bytes f.imports h.imports))
          (strings-HasEncodable (import_names f.imports) f.strings h.strings))
        (Member-sort_inversion candidate_leb c found m))

-- A string that was made of such candidates has no surrogates.
pub chosen-HasText :
    (f : FileStrings) (ss : List YaraString)
    → IsEncodableFile f
    → All (IsChosen (candidates f)) ss
    → All HasText ss
unfolding chosen_string
chosen-HasText f [] h k = tt
chosen-HasText f (s ∷ ss) h ((c, index, m, e), k) = (
  rw e (All_at HasEncodable c (candidates f) (candidates-HasEncodable f h) m),
  chosen-HasText f ss h k,
)
