-- ===== src/Yara/Strings/Selection.antt =====
-- What `_select_strings` selects.
use ai_reverse_agent.Prelude.{
  ℕ, zero, suc, ◌+◌, ◌≤◌, ◌≡◌, ◌⊎◌, refl, sym, ap, Bool, true, false, ◌||◌, inl, inr, List, [], ◌∷◌,
  arith, leb, length, All, Member, Bool-cases,
}
use ai_reverse_agent.Text.{Text, one_of, lower}
use ai_reverse_agent.Text.Equality.{text_eq, text_eq_iff, text_eq_refl}
use ai_reverse_agent.Yara.Strings.{
  YaraString, Candidate, FileStrings, chosen_string, select_from, candidates, select_strings,
}

-- The texts of strings, without their case.
abbrev pub folded : List YaraString → List Text
folded [] = []
folded (s ∷ ss) = lower s.value ∷ folded ss

-- No text stands twice.
abbrev pub IsDistinct : List Text → Type 0
IsDistinct [] = Unit
IsDistinct (t ∷ ts) = (one_of t ts ≡ false) × IsDistinct ts

-- The string was made of one of these candidates.
abbrev pub IsChosen : List Candidate → YaraString → Type 0
IsChosen cs s = (c : Candidate) × (index : ℕ) × Member c cs × (s ≡ chosen_string index c)

text_eq_sym : (s t : Text) → text_eq s t ≡ false → text_eq t s ≡ false
text_eq_sym s t h = elim (Bool-cases (text_eq t s)) [
  | inr e ↦ e
  | inl e ↦ absurd (let e' = (text_eq_iff s t).1 (sym ((text_eq_iff t s).0 e)) in cc)
]

-- A text that none of these is, is none of these.
one_of_fresh :
    (t : Text) (seen ts : List Text)
    → All (λ u. one_of u (t ∷ seen) ≡ false) ts
    → one_of t ts ≡ false
unfolding one_of
one_of_fresh t seen [] h = refl
one_of_fresh t seen (u ∷ us) h =
    let p : text_eq u t ≡ false = ground (arith, h.0) in
    rw (text_eq_sym u t p) (one_of_fresh t seen us h.1)

unseen_tail :
    (t : Text) (seen ts : List Text)
    → All (λ u. one_of u (t ∷ seen) ≡ false) ts
    → All (λ u. one_of u seen ≡ false) ts
unfolding one_of
unseen_tail t seen [] h = tt
unseen_tail t seen (u ∷ us) h = (ground (arith, h.0), unseen_tail t seen us h.1)

chosen_later :
    (c : Candidate) (cs : List Candidate) (ss : List YaraString)
    → All (IsChosen cs) ss
    → All (IsChosen (c ∷ cs)) ss
chosen_later c cs [] h = tt
chosen_later c cs (s ∷ ss) ((d, index, m, e), k) = ((d, index, inr m, e), chosen_later c cs ss k)

-- The text of the candidate stands among these strings, or was seen before.
abbrev is_known : Candidate → List YaraString → List Text → Bool
is_known c ss seen = one_of (lower c.value) (folded ss) || one_of (lower c.value) seen

known_with :
    (s : YaraString) (ss : List YaraString) (seen : List Text) (cs : List Candidate)
    → All (λ c. is_known c ss (lower s.value ∷ seen) ≡ true) cs
    → All (λ c. is_known c (s ∷ ss) seen ≡ true) cs
unfolding one_of
known_with s ss seen [] h = tt
known_with s ss seen (c ∷ cs) h = (ground (arith, h.0), known_with s ss seen cs h.1)

seen_known :
    (c : Candidate) (ss : List YaraString) (seen : List Text)
    → one_of (lower c.value) seen ≡ true
    → is_known c ss seen ≡ true
seen_known c ss seen h = elim (Bool-cases (one_of (lower c.value) (folded ss))) [
  | inl e ↦ rw e refl
  | inr e ↦ rw (e, h) refl
]

first_known :
    (c : Candidate) (index : ℕ) (ss : List YaraString) (seen : List Text)
    → is_known c (chosen_string index c ∷ ss) seen ≡ true
unfolding one_of chosen_string
first_known c index ss seen = rw (text_eq_refl (lower c.value)) refl

complete_with :
    (left index : ℕ) (c : Candidate) (ss : List YaraString) (seen : List Text) (cs : List Candidate)
    → (length ss ≡ left) ⊎ All (λ d. is_known d ss (lower c.value ∷ seen) ≡ true) cs
    → (suc (length ss) ≡ suc left)
      ⊎ All (λ d. is_known d (chosen_string index c ∷ ss) seen ≡ true) (c ∷ cs)
unfolding chosen_string
complete_with left index c ss seen cs (inl e) = inl (ap suc e)
complete_with left index c ss seen cs (inr h) =
    inr (first_known c index ss seen, known_with (chosen_string index c) ss seen cs h)

complete_without :
    (left : ℕ) (c : Candidate) (ss : List YaraString) (seen : List Text) (cs : List Candidate)
    → one_of (lower c.value) seen ≡ true
    → (length ss ≡ left) ⊎ All (λ d. is_known d ss seen ≡ true) cs
    → (length ss ≡ left) ⊎ All (λ d. is_known d ss seen ≡ true) (c ∷ cs)
complete_without left c ss seen cs e (inl h) = inl h
complete_without left c ss seen cs e (inr h) = inr (seen_known c ss seen e, h)

-- What holds of the strings that the loop takes from here on.
record IsSelected (left : ℕ) (seen : List Text) (cs : List Candidate) (ss : List YaraString)
    : Type 0 where
  bounded : length ss ≤ left
  unseen : All (λ t. one_of t seen ≡ false) (folded ss)
  distinct : IsDistinct (folded ss)
  chosen : All (IsChosen cs) ss
  complete : (length ss ≡ left) ⊎ All (λ c. is_known c ss seen ≡ true) cs

-- The bound of the loop, which takes a string before it tests.
abbrev pub at_least_one : ℕ → ℕ
at_least_one zero = 1
at_least_one (suc n) = suc n

-- With room for one more string, the loop ends behind it; with room for two, it goes on.
last_taken : (m taken : ℕ) → suc taken ≡ at_least_one m → leb m (taken + 1) ≡ true
last_taken zero taken h = ground arith
last_taken (suc m) taken h = ground (arith, h)

not_last_taken :
    (m left taken : ℕ) → suc (suc left) + taken ≡ at_least_one m → leb m (taken + 1) ≡ false
not_last_taken zero left taken h = absurd (omega (arith, h))
not_last_taken (suc m) left taken h = ground (arith, h)

none_left : (seen : List Text) (cs : List Candidate) → IsSelected 0 seen cs []
none_left seen cs = record {
  bounded = omega arith;
  unseen = tt;
  distinct = tt;
  chosen = tt;
  complete = inl refl;
}

seen_first :
    (left : ℕ) (seen : List Text) (c : Candidate) (cs : List Candidate) (ss : List YaraString)
    → one_of (lower c.value) seen ≡ true
    → IsSelected left seen cs ss
    → IsSelected left seen (c ∷ cs) ss
seen_first left seen c cs ss e rest = record {
  bounded = rest.bounded;
  unseen = rest.unseen;
  distinct = rest.distinct;
  chosen = chosen_later c cs ss rest.chosen;
  complete = complete_without left c ss seen cs e rest.complete;
}

chosen_first :
    (left index : ℕ) (seen : List Text) (c : Candidate) (cs : List Candidate) (ss : List YaraString)
    → one_of (lower c.value) seen ≡ false
    → IsSelected left (lower c.value ∷ seen) cs ss
    → IsSelected (suc left) seen (c ∷ cs) (chosen_string index c ∷ ss)
unfolding chosen_string
chosen_first left index seen c cs ss e rest = record {
  bounded = omega (arith, rest.bounded);
  unseen = (e, unseen_tail (lower c.value) seen _ rest.unseen);
  distinct = (one_of_fresh (lower c.value) seen _ rest.unseen, rest.distinct);
  chosen = ((c, index, inl refl, refl), chosen_later c cs ss rest.chosen);
  complete = complete_with left index c ss seen cs rest.complete;
}

select_from-IsSelected :
    (m left taken : ℕ) (seen : List Text) (cs : List Candidate)
    → suc left + taken ≡ at_least_one m
    → IsSelected (suc left) seen cs (select_from m taken seen cs)
unfolding select_from
select_from-IsSelected m left taken seen [] h = record {
  bounded = omega arith;
  unseen = tt;
  distinct = tt;
  chosen = tt;
  complete = inr tt;
}
select_from-IsSelected m zero taken seen (c ∷ cs) h =
    elim (Bool-cases (one_of (lower c.value) seen)) [
      | inl e ↦
          rw (select_from, e)
            (seen_first 1 seen c cs _ e (select_from-IsSelected m zero taken seen cs h))
      | inr e ↦
          rw (select_from, e, last_taken m taken (omega (arith, h)))
            (chosen_first 0 (taken + 1) seen c cs [] e (none_left (lower c.value ∷ seen) cs))
    ]
select_from-IsSelected m (suc left) taken seen (c ∷ cs) h =
    elim (Bool-cases (one_of (lower c.value) seen)) [
      | inl e ↦
          rw (select_from, e)
            (seen_first (suc (suc left)) seen c cs _ e
              (select_from-IsSelected m (suc left) taken seen cs h))
      | inr e ↦
          rw (select_from, e, not_last_taken m left taken h)
            (chosen_first (suc left) (taken + 1) seen c cs _ e (
              select_from-IsSelected m left (taken + 1) (lower c.value ∷ seen) cs
                (omega (arith, h))))
    ]

known_unseen :
    (ss : List YaraString) (cs : List Candidate)
    → All (λ c. is_known c ss [] ≡ true) cs
    → All (λ c. one_of (lower c.value) (folded ss) ≡ true) cs
unfolding one_of
known_unseen ss [] h = tt
known_unseen ss (c ∷ cs) h = (ground (arith, h.0), known_unseen ss cs h.1)

-- At most as many strings are selected as are asked for, or one where none is asked for; each was
-- made of a candidate; no two of them are the same text up to case; and where fewer than that are
-- selected, the text of every candidate is among them.
pub select_strings_lem :
    (f : FileStrings) (max_strings : ℕ)
    → (length (select_strings f max_strings) ≤ at_least_one max_strings)
      × All (IsChosen (candidates f)) (select_strings f max_strings)
      × IsDistinct (folded (select_strings f max_strings))
      × ((length (select_strings f max_strings) ≡ at_least_one max_strings)
          ⊎ All
              (λ c. one_of (lower c.value) (folded (select_strings f max_strings)) ≡ true)
              (candidates f))
unfolding select_strings
select_strings_lem f max_strings =
    let s = selected max_strings in
    (
      s.bounded,
      s.chosen,
      s.distinct,
      elim s.complete [ inl e ↦ inl e | inr h ↦ inr (known_unseen _ _ h) ],
    )
  where
    selected :
        (m : ℕ) → IsSelected (at_least_one m) [] (candidates f) (select_from m 0 [] (candidates f))
    selected zero = select_from-IsSelected zero 0 0 [] (candidates f) refl
    selected (suc m) = select_from-IsSelected (suc m) m 0 [] (candidates f) (omega arith)
