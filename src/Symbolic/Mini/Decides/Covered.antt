-- ===== src/Symbolic/Mini/Decides/Covered.antt =====
-- The symbols of expressions in the table that the solver builds.
use ai_reverse_agent.Prelude.{
  ◌≡◌, refl, inl, inr, List, [], ◌∷◌, some, arith, All, Member, Bool-cases,
}
use ai_reverse_agent.Prelude.Int.{ℤ, leb_ℤ_intro}
use ai_reverse_agent.Result.{ok, bind_inversion}
use ai_reverse_agent.Text.{Text, text_eq, text_eq_refl}
use ai_reverse_agent.Symbolic.{
  Symbol, Expression, constant, symbol, binary, Constraint, evaluate_symbol, get_value,
}
use ai_reverse_agent.Symbolic.Symbols.{
  find_symbol, merge_symbols, expression_symbols, symbols, merge_constraints, constraint_symbols,
}
use ai_reverse_agent.Symbolic.Symbols.Rising.{IsRising}
use ai_reverse_agent.Symbolic.Symbols.Merge.{
  merge_symbols-IsRising, merge_symbols_keeps, merge_symbols_finds,
}
use ai_reverse_agent.Symbolic.Mini.{assign}
use ai_reverse_agent.Symbolic.Mini.Product.{InRange, InRanges}

abbrev pub CoveredExpression : List Symbol → Expression → Type 0
CoveredExpression table (constant v) = Unit
CoveredExpression table (symbol s) = find_symbol s.name table ≡ some s
CoveredExpression table (binary op l r) = CoveredExpression table l × CoveredExpression table r

abbrev pub CoveredConstraint : List Symbol → Constraint → Type 0
CoveredConstraint table c = CoveredExpression table c.left × CoveredExpression table c.right

-- What `t` looks up, `u` looks up too.
abbrev Extends : List Symbol → List Symbol → Type 0
Extends t u = (s : Symbol) → find_symbol s.name t ≡ some s → find_symbol s.name u ≡ some s

Extends-Covered :
    (t u : List Symbol) (e : Expression)
    → Extends t u
    → CoveredExpression t e
    → CoveredExpression u e
Extends-Covered t u (constant v) h c = tt
Extends-Covered t u (symbol s) h c = h s c
Extends-Covered t u (binary op l r) h c = (Extends-Covered t u l h c.0, Extends-Covered t u r h c.1)

found-Member :
    (n : Text) (s : Symbol) (table : List Symbol) → find_symbol n table ≡ some s → Member s table
unfolding find_symbol
found-Member n s [] h = absurd (cc)
found-Member n s (t ∷ ts) h = elim (Bool-cases (text_eq t.name n)) [
  | inl p ↦ inl (ground (arith, p))
  | inr p ↦ inr (found-Member n s ts (rw p at h))
]

merge-Extends_left :
    (l r out : List Symbol) → IsRising l → merge_symbols l r ≡ ok out → Extends l out
merge-Extends_left l r out i h = λ s f. merge_symbols_keeps l r out s i h f

merge-Extends_right : (l r out : List Symbol) → merge_symbols l r ≡ ok out → Extends r out
merge-Extends_right l r out h = λ s f. merge_symbols_finds l r out s h (found-Member s.name s r f)

expression_symbols_lem :
    (e : Expression) (ss : List Symbol)
    → expression_symbols e ≡ ok ss
    → IsRising ss × CoveredExpression ss e
unfolding expression_symbols
expression_symbols_lem (constant v) ss h = let p : [] ≡ ss = cc in rw (← p) (tt, tt)
expression_symbols_lem (symbol s) ss h =
    let p : s ∷ [] ≡ ss = cc in
    rw (← p) ((tt, tt), (unfold find_symbol in rw (text_eq_refl s.name) refl))
expression_symbols_lem (binary op l r) ss h =
    let (ls, p, q) = bind_inversion (expression_symbols l) _ h in
    let (rs, p', m) = bind_inversion (expression_symbols r) _ q in
    let (il, cl) = expression_symbols_lem l ls p in
    let (ir, cr) = expression_symbols_lem r rs p' in
    (
      merge_symbols-IsRising ls rs ss m,
      (
        Extends-Covered ls ss l (merge-Extends_left ls rs ss il m) cl,
        Extends-Covered rs ss r (merge-Extends_right ls rs ss m) cr,
      ),
    )

symbols_lem : (c : Constraint) (ss : List Symbol) → symbols c ≡ ok ss → CoveredConstraint ss c
unfolding symbols
symbols_lem c ss h =
    let (ls, p, q) = bind_inversion (expression_symbols c.left) _ h in
    let (rs, p', m) = bind_inversion (expression_symbols c.right) _ q in
    let (il, cl) = expression_symbols_lem c.left ls p in
    let (ir, cr) = expression_symbols_lem c.right rs p' in
    (
      Extends-Covered ls ss c.left (merge-Extends_left ls rs ss il m) cl,
      Extends-Covered rs ss c.right (merge-Extends_right ls rs ss m) cr,
    )

Extends-CoveredConstraint :
    (t u : List Symbol) (c : Constraint)
    → Extends t u
    → CoveredConstraint t c
    → CoveredConstraint u c
Extends-CoveredConstraint t u c h k =
    (Extends-Covered t u c.left h k.0, Extends-Covered t u c.right h k.1)

merge_constraints_lem :
    (acc : List Symbol) (cs : List Constraint) (out : List Symbol)
    → IsRising acc
    → merge_constraints acc cs ≡ ok out
    → IsRising out × Extends acc out × All (CoveredConstraint out) cs
unfolding merge_constraints
merge_constraints_lem acc [] out r h = let p : acc ≡ out = cc in rw (← p) (r, (λ s f. f), tt)
merge_constraints_lem acc (c ∷ cs) out r h =
    let (own, p, q) = bind_inversion (symbols c) _ h in
    let (merged, m, rest) = bind_inversion (merge_symbols acc own) _ q in
    let (rising, grows, covered) =
      merge_constraints_lem merged cs out (merge_symbols-IsRising acc own merged m) rest in
    (
      rising,
      (λ s f. grows s (merge-Extends_left acc own merged r m s f)),
      (
        Extends-CoveredConstraint own out c
            (λ s f. grows s (merge-Extends_right acc own merged m s f)) (symbols_lem c own p),
        covered,
      ),
    )

-- The table of a branch rises by name, and has every symbol of its constraints.
pub constraint_symbols_lem :
    (cs : List Constraint) (syms : List Symbol)
    → constraint_symbols cs ≡ ok syms
    → IsRising syms × All (CoveredConstraint syms) cs
unfolding constraint_symbols
constraint_symbols_lem cs syms h = let (r, g, c) = merge_constraints_lem [] cs syms tt h in (r, c)

get_value-assign :
    (syms : List Symbol) (vs : List ℤ) (s : Symbol)
    → InRanges syms vs
    → find_symbol s.name syms ≡ some s
    → (v : ℤ) × (get_value (assign syms vs) s.name ≡ ok v) × InRange s v
unfolding find_symbol get_value assign
get_value-assign [] vs s r f = absurd (cc)
get_value-assign (t ∷ ts) [] s r f = absurd r
get_value-assign (t ∷ ts) (v ∷ vs) s r f = elim (Bool-cases (text_eq t.name s.name)) [
  | inl p ↦ let same : t ≡ s = ground (arith, p) in (v, rw p refl, (rw same at r.0))
  | inr p ↦ let (w, g, b) = get_value-assign ts vs s r.1 (rw p at f) in (w, rw p g, b)
]

-- A symbol of the table evaluates at an assignment of the table.
pub evaluate_symbol-assign :
    (syms : List Symbol) (vs : List ℤ) (s : Symbol)
    → InRanges syms vs
    → find_symbol s.name syms ≡ some s
    → (v : ℤ) × (evaluate_symbol s (assign syms vs) ≡ ok v)
unfolding evaluate_symbol
evaluate_symbol-assign syms vs s r f =
    let (v, g, b) = get_value-assign syms vs s r f in
    (v, rw (g, leb_ℤ_intro s.minimum v b.0, leb_ℤ_intro v s.maximum b.1) refl)
