-- ===== src/Yara/Names.antt =====
-- `sanitize_rule_name` gives YARA identifiers.
use ai_reverse_agent.Prelude.{
  ℕ, zero, suc, ◌≤◌, ◌≡◌, refl, Bool, true, false, not, inl, inr, [], ◌∷◌, arith, length, take,
  length-take, All, if◌then◌else◌, Bool-cases, ◌==◌,
}
use ai_reverse_agent.Text.{Text, is_digit, is_alpha, strip, strip_by, drop_while, drop_end}
use ai_reverse_agent.Yara.{is_word, underscored, or_binary, after_digit, sanitize_rule_name}

abbrev pub IsWord : Text → Type 0
IsWord = All (λ c. is_word c ≡ true)

-- The first character is no digit.
abbrev pub starts_well : Text → Bool
starts_well [] = false
starts_well (c ∷ cs) = not (is_digit c)

-- An identifier of YARA: at most 128 letters, digits and underscores, at least one, the first no
-- digit.
pub record IsIdentifier (t : Text) : Type 0 where
  pub word : IsWord t
  pub start : starts_well t ≡ true
  pub short : length t ≤ 128

underscored-IsWord : (after : Bool) (t : Text) → IsWord (underscored after t)
unfolding underscored
underscored-IsWord after [] = tt
underscored-IsWord after (c ∷ cs) = elim (Bool-cases (is_word c)) [
  | inl e ↦ rw (underscored, e) (e, underscored-IsWord false cs)
  | inr e ↦ go after e (underscored-IsWord true cs)
]
  where
    go :
        (after : Bool)
        → is_word c ≡ false
        → IsWord (underscored true cs)
        → IsWord (underscored after (c ∷ cs))
    go true e h = rw (underscored, e) h
    go false e h = rw (underscored, e) (refl, h)

drop_while-IsWord : (p : ℕ → Bool) (t : Text) → IsWord t → IsWord (drop_while p t)
unfolding drop_while
drop_while-IsWord p [] h = h
drop_while-IsWord p (c ∷ cs) h = elim (Bool-cases (p c)) [
  | inl e ↦ rw (drop_while, e) (drop_while-IsWord p cs h.1)
  | inr e ↦ rw (drop_while, e) h
]

drop_end-IsWord : (p : ℕ → Bool) (t : Text) → IsWord t → IsWord (drop_end p t)
unfolding drop_end
drop_end-IsWord p [] h = h
drop_end-IsWord p (c ∷ cs) h = go (drop_end p cs) (p c) (drop_end-IsWord p cs h.1)
  where
    go :
        (rest : Text) (t : Bool)
        → IsWord rest
        → IsWord (elim rest [ [] ↦ if t then [] else c ∷ [] | y ∷ ys ↦ c ∷ y ∷ ys ])
    go [] true k = tt
    go [] false k = (h.0, tt)
    go (y ∷ ys) t k = (h.0, k)

strip_by-IsWord : (p : ℕ → Bool) (t : Text) → IsWord t → IsWord (strip_by p t)
unfolding strip_by
strip_by-IsWord p t h = drop_end-IsWord p (drop_while p t) (drop_while-IsWord p t h)

-- A text that is not empty, of characters that an identifier may have.
or_binary-IsWord : (t : Text) → IsWord t → IsWord (or_binary t)
unfolding is_word is_alpha is_digit
or_binary-IsWord [] h = ground arith
or_binary-IsWord (c ∷ cs) h = h

after_digit-or_binary :
    (t : Text)
    → IsWord t
    → IsWord (after_digit (or_binary t)) × (starts_well (after_digit (or_binary t)) ≡ true)
unfolding after_digit is_word is_alpha is_digit
after_digit-or_binary [] h = (ground arith, refl)
after_digit-or_binary (c ∷ cs) h = elim (Bool-cases (is_digit c)) [
  | inl e ↦ rw e (ground (arith, h.0, h.1), refl)
  | inr e ↦ rw e (h, rw e refl)
]

take-IsWord : (n : ℕ) (t : Text) → IsWord t → IsWord (take n t)
take-IsWord zero t h = tt
take-IsWord (suc n) [] h = h
take-IsWord (suc n) (c ∷ cs) h = (h.0, take-IsWord n cs h.1)

take-starts_well : (n : ℕ) (t : Text) → starts_well t ≡ true → starts_well (take (suc n) t) ≡ true
take-starts_well n [] h = h
take-starts_well n (c ∷ cs) h = h

-- Whatever text is given, the name of the rule is 1 to 128 letters, digits and underscores, the
-- first of them no digit.
pub sanitize_rule_name-IsIdentifier : (value : Text) → IsIdentifier (sanitize_rule_name value)
unfolding sanitize_rule_name
sanitize_rule_name-IsIdentifier value =
    let core = strip_by (λ c. c == b'_') (underscored false (strip value)) in
    let (word, start) =
      after_digit-or_binary core
        (strip_by-IsWord (λ c. c == b'_') _ (underscored-IsWord false (strip value))) in
    record {
      word = take-IsWord 128 (after_digit (or_binary core)) word;
      start = take-starts_well 127 (after_digit (or_binary core)) start;
      short = omega (arith, length-take 128 (after_digit (or_binary core)));
    }
