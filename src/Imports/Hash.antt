-- ===== src/Imports/Hash.antt =====
-- src/ai_reverse_agent/hashing/: the import-set hash and the PE imphash. MD5 is a parameter.
pub mod Order
use ai_reverse_agent.Prelude.{
  ℕ, Bool, true, false, not, ◌&&◌, List, [], ◌∷◌, ◌++◌, Option, none, some, ltb, ◌==◌,
  if◌then◌else◌, length, take, drop, ◌-◌,
}
use ai_reverse_agent.Prelude.Sorts.{sort_by}
use ai_reverse_agent.Result.{Result, ok, err, ◌>>=◌}
use ai_reverse_agent.Bytes.{Bytes}
use ai_reverse_agent.Text.{Text, codes, text_eq, one_of}
use ai_reverse_agent.Text.Order.{text_ltb}
use ai_reverse_agent.Imports.{
  ImportedSymbol, ImportLike, imported, plain, pair, other, ImportError, unsupported_import,
  empty_name, normalize_import, is_blank_text, lowered,
}

-- [f(item) for item in items]
unfoldable pub traverse :
    (ImportLike → Result ImportError Text) → List ImportLike → Result ImportError (List Text)
traverse f [] = ok []
traverse f (x ∷ xs) = do y ← f x; ys ← traverse f xs; ok (y ∷ ys)

-- ",".join(items)
unfoldable pub join_commas : List Text → Text
join_commas [] = []
join_commas (t ∷ []) = t
join_commas (t ∷ u ∷ ts) = t ++ b',' ∷ join_commas (u ∷ ts)

-- The test of `sorted` on strings.
unfoldable pub text_leb : Text → Text → Bool
unfolding text_ltb
text_leb s t = not (text_ltb t s)

-- text.rsplit(".", 1) of a text with a dot: what stands before the last dot, and behind it.
unfoldable pub rsplit_dot : Text → Option (Text × Text)
rsplit_dot [] = none
rsplit_dot (c ∷ cs) = elim (rsplit_dot cs) [
  | some (library, name) ↦ some (c ∷ library, name)
  | none ↦ if c == b'.' then some ([], cs) else none
]

-- The extensions that _PE_EXTENSION takes off, with their dots; the text is in lower case.
abbrev pub pe_extensions : List Text
pe_extensions = codes ".dll" ∷ codes ".sys" ∷ codes ".ocx" ∷ []

-- _PE_EXTENSION.sub("", text)
unfoldable pub without_extension : Text → Text
unfolding one_of text_eq
without_extension t =
    let stem = length t - 4 in if one_of (drop stem t) pe_extensions then take stem t else t

unfoldable pub normalize_pair : Text → Text → Result ImportError Text
unfolding lowered without_extension
normalize_pair library name =
    let l = without_extension (lowered library) in
    if is_blank_text (lowered name)
    then err empty_name
    else ok (if is_blank_text l then lowered name else l ++ b'.' ∷ lowered name)

-- normalize_pe_import
unfoldable pub normalize_pe_import : ImportLike → Result ImportError Text
unfolding normalize_pair rsplit_dot lowered
normalize_pe_import (imported s) = normalize_pair s.library s.name
normalize_pe_import (pair library name) = normalize_pair library name
normalize_pe_import (plain t) = elim (rsplit_dot t) [
  | none ↦ ok (lowered t)
  | some (library, name) ↦ normalize_pair library name
]
normalize_pe_import other = err unsupported_import

-- hashlib.md5(text.encode("utf-8")).hexdigest() is `md5` of the text.
module _ (md5 : Text → Text) where
  unfoldable pub compute_import_set_hash : List ImportLike → Result ImportError Text
  unfolding traverse normalize_import sort_by text_leb join_commas
  compute_import_set_hash items = do
    normalized ← traverse normalize_import items
    ok (md5 (join_commas (sort_by text_leb normalized)))

  unfoldable pub compute_pe_imphash : List ImportLike → Result ImportError Text
  unfolding traverse normalize_pe_import join_commas
  compute_pe_imphash items = do
    normalized ← traverse normalize_pe_import items
    ok (md5 (join_commas normalized))
