-- ===== src/Text/Order.antt =====
-- The order of Python's `sorted` on strings: lexicographic, by code point.
use ai_reverse_agent.Prelude.{
  ℕ, ◌≡◌, refl, Bool, true, false, List, [], ◌∷◌, arith, ltb, ◌==◌, if◌then◌else◌,
}
use ai_reverse_agent.Text.Equality.{text_eq}

unfoldable pub text_ltb : List ℕ → List ℕ → Bool
text_ltb [] [] = false
text_ltb [] (y ∷ ys) = true
text_ltb (x ∷ xs) [] = false
text_ltb (x ∷ xs) (y ∷ ys) = if x == y then text_ltb xs ys else ltb x y

pub text_ltb_trans :
    (s t u : List ℕ) → text_ltb s t ≡ true → text_ltb t u ≡ true → text_ltb s u ≡ true
unfolding text_ltb
text_ltb_trans [] [] u p q = cc
text_ltb_trans [] (y ∷ ys) [] p q = cc
text_ltb_trans [] (y ∷ ys) (z ∷ zs) p q = refl
text_ltb_trans (x ∷ xs) [] u p q = cc
text_ltb_trans (x ∷ xs) (y ∷ ys) [] p q = cc
text_ltb_trans (x ∷ xs) (y ∷ ys) (z ∷ zs) p q = ground (arith, text_ltb_trans xs ys zs)

-- Different texts are ordered one way or the other.
pub text_ltb_connex :
    (s t : List ℕ) → text_eq s t ≡ false → text_ltb s t ≡ false → text_ltb t s ≡ true
unfolding text_ltb text_eq
text_ltb_connex [] [] p q = cc
text_ltb_connex [] (y ∷ ys) p q = cc
text_ltb_connex (x ∷ xs) [] p q = refl
text_ltb_connex (x ∷ xs) (y ∷ ys) p q = ground (arith, text_ltb_connex xs ys)

pub text_ltb_irrefl : (t : List ℕ) → text_ltb t t ≡ false
unfolding text_ltb
text_ltb_irrefl [] = refl
text_ltb_irrefl (x ∷ xs) = ground (arith, text_ltb_irrefl xs)

pub text_ltb_asym : (s t : List ℕ) → text_ltb s t ≡ true → text_ltb t s ≡ false
unfolding text_ltb
text_ltb_asym [] [] p = cc
text_ltb_asym [] (y ∷ ys) p = refl
text_ltb_asym (x ∷ xs) [] p = cc
text_ltb_asym (x ∷ xs) (y ∷ ys) p = ground (arith, text_ltb_asym xs ys)
