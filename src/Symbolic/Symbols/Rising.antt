-- ===== src/Symbolic/Symbols/Rising.antt =====
-- The names in the table of _merge_symbols, and their order.
use ai_reverse_agent.Prelude.{
  ◌≡◌, refl, inl, inr, true, false, List, [], ◌∷◌, some, arith, if◌then◌else◌, All, Bool-cases,
}
use ai_reverse_agent.Result.{ok}
use ai_reverse_agent.Text.{Text, text_eq, text_eq_iff}
use ai_reverse_agent.Text.Order.{text_ltb, text_ltb_trans, text_ltb_connex}
use ai_reverse_agent.Symbolic.{Symbol}
use ai_reverse_agent.Symbolic.Symbols.{
  find_symbol, put_symbol, put_all, conflicts, add_right, insert_by_name, sort_by_name,
}

-- The names are distinct, and rise.
abbrev pub Above : Text → List Symbol → Type 0
Above n = All (λ t. text_ltb n t.name ≡ true)

abbrev pub IsRising : List Symbol → Type 0
IsRising [] = Unit
IsRising (s ∷ ss) = Above s.name ss × IsRising ss

-- No symbol of the table has this name.
abbrev pub Apart : Text → List Symbol → Type 0
Apart n = All (λ t. text_eq t.name n ≡ false)

abbrev pub IsDistinct : List Symbol → Type 0
IsDistinct [] = Unit
IsDistinct (s ∷ ss) = Apart s.name ss × IsDistinct ss

pub text_eq_sym : (s t : Text) → text_eq s t ≡ text_eq t s
text_eq_sym s t = ground (arith, text_eq_iff s t, text_eq_iff t s)

put-Apart :
    (n : Text) (s : Symbol) (ts : List Symbol)
    → Apart n ts
    → text_eq s.name n ≡ false
    → Apart n (put_symbol s ts)
unfolding put_symbol
put-Apart n s [] h e = (e, tt)
put-Apart n s (t ∷ ts) h e = elim (Bool-cases (text_eq t.name s.name)) [
  | inl p ↦ rw p (e, h.1)
  | inr p ↦ rw p (h.0, put-Apart n s ts h.1 e)
]

Apart-same : (m n : Text) (ts : List Symbol) → text_eq m n ≡ true → Apart m ts → Apart n ts
Apart-same m n ts e h = rw ((text_eq_iff m n).0 e) at h

pub put-IsDistinct : (s : Symbol) (ts : List Symbol) → IsDistinct ts → IsDistinct (put_symbol s ts)
unfolding put_symbol
put-IsDistinct s [] h = (tt, tt)
put-IsDistinct s (t ∷ ts) h = elim (Bool-cases (text_eq t.name s.name)) [
  | inl p ↦ rw p (Apart-same t.name s.name ts p h.0, h.1)
  | inr p ↦
      rw p (put-Apart t.name s ts h.0 (rw (text_eq_sym s.name t.name) p), put-IsDistinct s ts h.1)
]

pub put_all-IsDistinct : (ss ts : List Symbol) → IsDistinct ts → IsDistinct (put_all ss ts)
unfolding put_all
put_all-IsDistinct [] ts h = h
put_all-IsDistinct (s ∷ ss) ts h = put_all-IsDistinct ss (put_symbol s ts) (put-IsDistinct s ts h)

pub add_right-IsDistinct :
    (ss ts out : List Symbol) → add_right ss ts ≡ ok out → IsDistinct ts → IsDistinct out
unfolding add_right
add_right-IsDistinct [] ts out h d = let e : ts ≡ out = cc in rw (← e) d
add_right-IsDistinct (s ∷ ss) ts out h d = elim (Bool-cases (conflicts (find_symbol s.name ts) s)) [
  | inl p ↦ absurd (cc)
  | inr p ↦ add_right-IsDistinct ss (put_symbol s ts) out (rw p at h) (put-IsDistinct s ts d)
]

All-insert {κ} :
    (P : Symbol → Type κ) (s : Symbol) (ts : List Symbol)
    → P s
    → All P ts
    → All P (insert_by_name s ts)
unfolding insert_by_name
All-insert P s [] p h = (p, tt)
All-insert P s (t ∷ ts) p h = elim (Bool-cases (text_ltb s.name t.name)) [
  | inl q ↦ rw q (p, h)
  | inr q ↦ rw q (h.0, All-insert P s ts p h.1)
]

Above-trans : (m n : Text) (ts : List Symbol) → text_ltb m n ≡ true → Above n ts → Above m ts
Above-trans m n [] h a = tt
Above-trans m n (t ∷ ts) h a = (text_ltb_trans m n t.name h a.0, Above-trans m n ts h a.1)

insert-IsRising :
    (s : Symbol) (ts : List Symbol) → Apart s.name ts → IsRising ts → IsRising (insert_by_name s ts)
unfolding insert_by_name
insert-IsRising s [] a r = (tt, tt)
insert-IsRising s (t ∷ ts) a r = elim (Bool-cases (text_ltb s.name t.name)) [
  | inl q ↦ rw q ((q, Above-trans s.name t.name ts q r.0), r)
  | inr q ↦
      let after : text_ltb t.name s.name ≡ true =
        text_ltb_connex s.name t.name (rw (text_eq_sym s.name t.name) a.0) q in
      rw q (
        All-insert (λ u. text_ltb t.name u.name ≡ true) s ts after r.0,
        insert-IsRising s ts a.1 r.1,
      )
]

find-insert :
    (s : Symbol) (n : Text) (ts : List Symbol)
    → Apart s.name ts
    → find_symbol n (insert_by_name s ts) ≡ (if text_eq s.name n then some s else find_symbol n ts)
unfolding insert_by_name find_symbol
find-insert s n [] a = refl
find-insert s n (t ∷ ts) a = ground (
  arith,
  text_eq_iff s.name n,
  text_eq_iff t.name n,
  text_eq_iff t.name s.name,
  find-insert s n ts,
)

pub sort-All {κ} : (P : Symbol → Type κ) (ts : List Symbol) → All P ts → All P (sort_by_name ts)
unfolding sort_by_name
sort-All P [] h = tt
sort-All P (t ∷ ts) h = All-insert P t (sort_by_name ts) h.0 (sort-All P ts h.1)

pub sort-IsRising : (ts : List Symbol) → IsDistinct ts → IsRising (sort_by_name ts)
unfolding sort_by_name
sort-IsRising [] d = tt
sort-IsRising (t ∷ ts) d =
    insert-IsRising t (sort_by_name ts) (sort-All (λ u. text_eq u.name t.name ≡ false) ts d.0)
      (sort-IsRising ts d.1)

pub find-sort :
    (n : Text) (ts : List Symbol)
    → IsDistinct ts
    → find_symbol n (sort_by_name ts) ≡ find_symbol n ts
unfolding sort_by_name find_symbol
find-sort n [] d = refl
find-sort n (t ∷ ts) d =
    let apart : Apart t.name (sort_by_name ts) =
      sort-All (λ u. text_eq u.name t.name ≡ false) ts d.0 in
    rw (find-insert t n (sort_by_name ts) apart, find-sort n ts d.1) refl
