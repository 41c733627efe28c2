-- ===== src/Text.antt =====
-- Python's `str` and `bytes` as the list of their code points or bytes. `lower`, `strip` and the
-- character classes are those of ASCII, which is what disassemblers and headers put into them.
pub mod Equality
pub mod Numbers
pub mod Utf8
pub mod Order
use Prim.Native.Char.{code}
use Prim.Native.String.{String}
unfoldable pub use Equality.{text_eq}
pub use Equality.{text_eq_iff, text_eq_refl}
use ai_reverse_agent.Prelude.{
  ℕ, zero, suc, ◌+◌, ◌-◌, ◌≡◌, refl, Bool, true, false, not, ◌&&◌, ◌||◌, List, [], ◌∷◌, ◌++◌, map,
  arith, leb, ◌==◌, if◌then◌else◌,
}

abbrev pub Text : Type 0
Text = List ℕ

-- A literal.
abbrev pub codes : String → Text
codes String.[] = []
codes (String.◌∷◌ c s) = code c ∷ codes s

-- value in {a, b, ...}
unfoldable pub one_of : Text → List Text → Bool
one_of t [] = false
one_of t (u ∷ us) = text_eq t u || one_of t us

unfoldable pub starts_with : Text → Text → Bool
starts_with t [] = true
starts_with [] (p ∷ ps) = false
starts_with (c ∷ cs) (p ∷ ps) = c == p && starts_with cs ps

unfoldable pub is_digit : ℕ → Bool
is_digit c = leb b'0' c && leb c b'9'

unfoldable pub is_upper : ℕ → Bool
is_upper c = leb b'A' c && leb c b'Z'

unfoldable pub is_lower : ℕ → Bool
is_lower c = leb b'a' c && leb c b'z'

unfoldable pub is_alpha : ℕ → Bool
unfolding is_upper is_lower
is_alpha c = is_upper c || is_lower c

-- Blanks of `str.strip`.
unfoldable pub is_space : ℕ → Bool
is_space c = c == 32 || (leb 9 c && leb c 13) || (leb 28 c && leb c 31)

unfoldable pub lower_char : ℕ → ℕ
unfolding is_upper
lower_char c = if is_upper c then c + 32 else c

unfoldable pub lower : Text → Text
unfolding lower_char
lower = map lower_char

-- t.replace(c, "")
unfoldable pub remove_char : ℕ → Text → Text
remove_char c [] = []
remove_char c (x ∷ xs) = let rest = remove_char c xs in if x == c then rest else x ∷ rest

-- Drops from the front while the test holds: t.lstrip(...)
unfoldable pub drop_while : (ℕ → Bool) → Text → Text
drop_while p [] = []
drop_while p (x ∷ xs) = let rest = drop_while p xs in if p x then rest else x ∷ xs

-- Drops from the end while the test holds: t.rstrip(...)
unfoldable pub drop_end : (ℕ → Bool) → Text → Text
drop_end p [] = []
drop_end p (x ∷ xs) = elim (drop_end p xs) [ [] ↦ if p x then [] else x ∷ [] | y ∷ ys ↦ x ∷ y ∷ ys ]

unfoldable pub strip_by : (ℕ → Bool) → Text → Text
unfolding drop_while drop_end
strip_by p t = drop_end p (drop_while p t)

-- "\n".join(lines)
unfoldable pub join_lines : List Text → Text
join_lines [] = []
join_lines (l ∷ []) = l
join_lines (l ∷ m ∷ ls) = l ++ 10 ∷ join_lines (m ∷ ls)

-- t.strip()
unfoldable pub strip : Text → Text
unfolding strip_by is_space
strip t = strip_by is_space t

-- t.split(sep)[-1]
unfoldable pub after_last : ℕ → Text → Text → Text
after_last sep acc [] = acc
after_last sep acc (x ∷ xs) = after_last sep (if x == sep then [] else acc ++ x ∷ []) xs

unfoldable pub last_field : ℕ → Text → Text
unfolding after_last
last_field sep t = after_last sep [] t
