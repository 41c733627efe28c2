-- ===== src/Symbolic/Symbols.antt =====
-- The symbols of expressions and constraints: `symbols`, `_merge_symbols`, `_constraint_symbols`.
pub mod Rising
pub mod Merge
use ai_reverse_agent.Prelude.{
  Bool, true, false, not, ◌&&◌, List, [], ◌∷◌, Option, none, some, if◌then◌else◌,
}
use ai_reverse_agent.Prelude.Int.{eqb_ℤ}
use ai_reverse_agent.Result.{Result, ok, err, ◌>>=◌}
use ai_reverse_agent.Text.{Text, text_eq}
use ai_reverse_agent.Text.Order.{text_ltb}
use ai_reverse_agent.Symbolic.{
  SymbolicError, conflicting_domains, Symbol, Expression, constant, symbol, binary, Constraint,
}

-- The equality of the frozen dataclass.
unfoldable pub symbol_eq : Symbol → Symbol → Bool
symbol_eq s t = text_eq s.name t.name && eqb_ℤ s.minimum t.minimum && eqb_ℤ s.maximum t.maximum

-- by_name.get(name)
unfoldable pub find_symbol : Text → List Symbol → Option Symbol
find_symbol n [] = none
find_symbol n (s ∷ ss) = if text_eq s.name n then some s else find_symbol n ss

-- by_name[s.name] = s: an entry keeps its place.
unfoldable pub put_symbol : Symbol → List Symbol → List Symbol
put_symbol s [] = s ∷ []
put_symbol s (t ∷ ts) = if text_eq t.name s.name then s ∷ ts else t ∷ put_symbol s ts

unfoldable pub put_all : List Symbol → List Symbol → List Symbol
put_all [] table = table
put_all (s ∷ ss) table = put_all ss (put_symbol s table)

-- The test of the loop over `right`.
unfoldable pub conflicts : Option Symbol → Symbol → Bool
conflicts none s = false
conflicts (some t) s = not (symbol_eq t s)

unfoldable pub add_right : List Symbol → List Symbol → Result SymbolicError (List Symbol)
unfolding find_symbol put_symbol conflicts symbol_eq
add_right [] table = ok table
add_right (s ∷ ss) table =
    let rest = add_right ss (put_symbol s table) in
    if conflicts (find_symbol s.name table) s then err conflicting_domains else rest

-- sorted(by_name)
unfoldable pub insert_by_name : Symbol → List Symbol → List Symbol
insert_by_name s [] = s ∷ []
insert_by_name s (t ∷ ts) = if text_ltb s.name t.name then s ∷ t ∷ ts else t ∷ insert_by_name s ts

unfoldable pub sort_by_name : List Symbol → List Symbol
unfolding insert_by_name
sort_by_name [] = []
sort_by_name (s ∷ ss) = insert_by_name s (sort_by_name ss)

-- _merge_symbols
unfoldable pub merge_symbols : List Symbol → List Symbol → Result SymbolicError (List Symbol)
unfolding put_all add_right sort_by_name
merge_symbols left right = do by_name ← add_right right (put_all left []); ok (sort_by_name by_name)

-- Expression.symbols
unfoldable pub expression_symbols : Expression → Result SymbolicError (List Symbol)
unfolding merge_symbols
expression_symbols (constant v) = ok []
expression_symbols (symbol s) = ok (s ∷ [])
expression_symbols (binary op l r) = do
  ls ← expression_symbols l
  rs ← expression_symbols r
  merge_symbols ls rs

-- Constraint.symbols
unfoldable pub symbols : Constraint → Result SymbolicError (List Symbol)
unfolding expression_symbols
symbols c = do ls ← expression_symbols c.left; rs ← expression_symbols c.right; merge_symbols ls rs

-- The loop of _constraint_symbols.
unfoldable pub merge_constraints :
    List Symbol → List Constraint → Result SymbolicError (List Symbol)
unfolding symbols
merge_constraints acc [] = ok acc
merge_constraints acc (c ∷ cs) = do
  own ← symbols c
  merged ← merge_symbols acc own
  merge_constraints merged cs

-- _constraint_symbols
unfoldable pub constraint_symbols : List Constraint → Result SymbolicError (List Symbol)
unfolding merge_constraints
constraint_symbols cs = merge_constraints [] cs
