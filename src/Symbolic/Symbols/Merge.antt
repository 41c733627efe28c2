-- ===== src/Symbolic/Symbols/Merge.antt =====
-- What _merge_symbols returns.
use ai_reverse_agent.Prelude.{
  ◌≡◌, refl, ◌⊎◌, inl, inr, true, List, [], ◌∷◌, Option, none, some, arith, if◌then◌else◌, Member,
  All, All-intro, Bool-cases,
}
use ai_reverse_agent.Prelude.Int.{eqb_ℤ_iff}
use ai_reverse_agent.Result.{ok, bind_inversion}
use ai_reverse_agent.Text.{Text, text_eq, text_eq_iff, text_eq_refl}
use ai_reverse_agent.Text.Order.{text_ltb_irrefl}
use ai_reverse_agent.Symbolic.{Symbol}
use ai_reverse_agent.Symbolic.Symbols.Rising.{
  Above, IsRising, Apart, IsDistinct, put_all-IsDistinct, add_right-IsDistinct, sort-All,
  sort-IsRising, find-sort,
}
use ai_reverse_agent.Symbolic.Symbols.{
  symbol_eq, find_symbol, put_symbol, put_all, conflicts, add_right, sort_by_name, merge_symbols,
}

pub symbol_eq_sound : (s t : Symbol) → symbol_eq s t ≡ true → s ≡ t
unfolding symbol_eq
symbol_eq_sound s t h =
    ground (
      arith,
      text_eq_iff s.name t.name,
      eqb_ℤ_iff s.minimum t.minimum,
      eqb_ℤ_iff s.maximum t.maximum,
    )

-- A write to the table is read back, and leaves other names alone.
find-put :
    (s : Symbol) (n : Text) (table : List Symbol)
    → find_symbol n (put_symbol s table)
      ≡ (if text_eq s.name n then some s else find_symbol n table)
unfolding find_symbol put_symbol
find-put s n [] = refl
find-put s n (t ∷ ts) =
    ground (
      arith,
      text_eq_iff t.name s.name,
      text_eq_iff s.name n,
      text_eq_iff t.name n,
      find-put s n ts,
    )

-- A symbol that the table holds stays, since the loop raises on a different one of that name.
add_right_keeps :
    (ss table out : List Symbol) (s : Symbol)
    → add_right ss table ≡ ok out
    → find_symbol s.name table ≡ some s
    → find_symbol s.name out ≡ some s
unfolding add_right conflicts
add_right_keeps [] table out s h f = ground (arith, h)
add_right_keeps (t ∷ ts) table out s h f = ground (
  arith,
  find-put t s.name table,
  text_eq_iff t.name s.name,
  symbol_eq_sound s t,
  add_right_keeps ts (put_symbol t table) out s,
)

add_right_finds :
    (ss table out : List Symbol) (s : Symbol)
    → add_right ss table ≡ ok out
    → Member s ss
    → find_symbol s.name out ≡ some s
unfolding add_right
add_right_finds [] table out s h m = elim m [ ]
add_right_finds (t ∷ ts) table out s h (inl e) = ground (
  arith,
  find-put t t.name table,
  text_eq_refl t.name,
  add_right_keeps ts (put_symbol t table) out t,
)
add_right_finds (t ∷ ts) table out s h (inr m) =
    ground (arith, add_right_finds ts (put_symbol t table) out s)

-- The first of two look-ups that finds something.
abbrev or_else : Option Symbol → Option Symbol → Option Symbol
or_else none o = o
or_else (some s) o = some s

find-Apart : (n : Text) (ss : List Symbol) → Apart n ss → find_symbol n ss ≡ none
unfolding find_symbol
find-Apart n [] a = refl
find-Apart n (s ∷ ss) a = rw a.0 (find-Apart n ss a.1)

find-put_all :
    (n : Text) (ss ts : List Symbol)
    → IsDistinct ss
    → find_symbol n (put_all ss ts) ≡ or_else (find_symbol n ss) (find_symbol n ts)
unfolding put_all find_symbol
find-put_all n [] ts d = refl
find-put_all n (s ∷ ss) ts d = ground (
  arith,
  find-put_all n ss (put_symbol s ts) d.1,
  find-put s n ts,
  text_eq_iff s.name n,
  find-Apart s.name ss d.0,
)

Above-Apart : (n : Text) (ss : List Symbol) → Above n ss → Apart n ss
Above-Apart n [] a = tt
Above-Apart n (s ∷ ss) a =
    (ground (arith, a.0, text_eq_iff s.name n, text_ltb_irrefl n), Above-Apart n ss a.1)

IsRising-IsDistinct : (ss : List Symbol) → IsRising ss → IsDistinct ss
IsRising-IsDistinct [] r = tt
IsRising-IsDistinct (s ∷ ss) r = (Above-Apart s.name ss r.0, IsRising-IsDistinct ss r.1)

All-put {κ} :
    (P : Symbol → Type κ) (s : Symbol) (ts : List Symbol) → P s → All P ts → All P (put_symbol s ts)
unfolding put_symbol
All-put P s [] p h = (p, tt)
All-put P s (t ∷ ts) p h = elim (Bool-cases (text_eq t.name s.name)) [
  | inl q ↦ rw q (p, h.1)
  | inr q ↦ rw q (h.0, All-put P s ts p h.1)
]

All-put_all {κ} :
    (P : Symbol → Type κ) (ss ts : List Symbol) → All P ss → All P ts → All P (put_all ss ts)
unfolding put_all
All-put_all P [] ts p h = h
All-put_all P (s ∷ ss) ts p h = All-put_all P ss (put_symbol s ts) p.1 (All-put P s ts p.0 h)

All-add_right {κ} :
    (P : Symbol → Type κ) (ss ts out : List Symbol)
    → add_right ss ts ≡ ok out
    → All P ss
    → All P ts
    → All P out
unfolding add_right
All-add_right P [] ts out h p a = let e : ts ≡ out = cc in rw (← e) a
All-add_right P (s ∷ ss) ts out h p a = elim (Bool-cases (conflicts (find_symbol s.name ts) s)) [
  | inl q ↦ absurd (cc)
  | inr q ↦ All-add_right P ss (put_symbol s ts) out (rw q at h) p.1 (All-put P s ts p.0 a)
]

-- The table that is sorted at the end.
merge_inversion :
    (left right out : List Symbol)
    → merge_symbols left right ≡ ok out
    → (table : List Symbol) × (add_right right (put_all left []) ≡ ok table)
      × (out ≡ sort_by_name table)
      × IsDistinct table
unfolding merge_symbols
merge_inversion left right out h =
    let (table, p, q) =
      bind_inversion (add_right right (put_all left [])) (λ t. ok (sort_by_name t)) h in
    (
      table,
      p,
      cc,
      add_right-IsDistinct right (put_all left []) table p (put_all-IsDistinct left [] tt),
    )

-- A merge that succeeds rises strictly by name.
pub merge_symbols-IsRising :
    (left right out : List Symbol) → merge_symbols left right ≡ ok out → IsRising out
merge_symbols-IsRising left right out h =
    let (table, p, q, d) = merge_inversion left right out h in rw q (sort-IsRising table d)

-- What holds of all symbols of both sides holds of the result.
pub All-merge_symbols {κ} :
    (P : Symbol → Type κ) (left right out : List Symbol)
    → merge_symbols left right ≡ ok out
    → All P left
    → All P right
    → All P out
All-merge_symbols P left right out h a b =
    let (table, p, q, d) = merge_inversion left right out h in
    rw q (
      sort-All P table
        (All-add_right P right (put_all left []) table p b (All-put_all P left [] a tt)))

pub merge_symbols_keeps :
    (left right out : List Symbol) (s : Symbol)
    → IsRising left
    → merge_symbols left right ≡ ok out
    → find_symbol s.name left ≡ some s
    → find_symbol s.name out ≡ some s
merge_symbols_keeps left right out s r h f =
    let (table, p, q, d) = merge_inversion left right out h in
    let first : find_symbol s.name (put_all left []) ≡ some s =
      rw (find-put_all s.name left [] (IsRising-IsDistinct left r), f) refl in
    rw (q, find-sort s.name table d) (add_right_keeps right (put_all left []) table s p first)

pub merge_symbols_finds :
    (left right out : List Symbol) (s : Symbol)
    → merge_symbols left right ≡ ok out
    → Member s right
    → find_symbol s.name out ≡ some s
merge_symbols_finds left right out s h m =
    let (table, p, q, d) = merge_inversion left right out h in
    rw (q, find-sort s.name table d) (add_right_finds right (put_all left []) table s p m)

find-Member :
    (s : Symbol) (ss : List Symbol) → IsDistinct ss → Member s ss → find_symbol s.name ss ≡ some s
unfolding find_symbol
find-Member s [] d m = elim m [ ]
find-Member s (t ∷ ts) d (inl e) = ground (arith, text_eq_refl s.name)
find-Member s (t ∷ ts) d (inr m) =
    ground (arith, find-Member s ts d.1 m, find-Apart t.name ts d.0, text_eq_iff t.name s.name)

-- A merge that succeeds rises strictly by name, looks up every symbol of either side, and holds
-- no others; the left side must rise, as the result of a merge does.
pub merge_symbols_lem :
    (left right out : List Symbol)
    → IsRising left
    → merge_symbols left right ≡ ok out
    → IsRising out
      × All (λ s. find_symbol s.name out ≡ some s) left
      × All (λ s. find_symbol s.name out ≡ some s) right
      × All (λ s. Member s left ⊎ Member s right) out
merge_symbols_lem left right out r h = (
  merge_symbols-IsRising left right out h,
  All-intro _ left (λ s m.
      merge_symbols_keeps left right out s r h (find-Member s left (IsRising-IsDistinct left r) m)),
  All-intro _ right (λ s m. merge_symbols_finds left right out s h m),
  All-merge_symbols (λ s. Member s left ⊎ Member s right) left right out h
      (All-intro _ left (λ s m. inl m)) (All-intro _ right (λ s m. inr m)),
)
