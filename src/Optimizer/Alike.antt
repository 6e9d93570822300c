-- ===== src/Optimizer/Alike.antt =====
-- Arguments of a function that evaluate alike, of which an aggregate makes the same.
use skibidi_ql.Prelude.{◌≡◌, refl, Bool, List, [], ◌∷◌, bind_cong}
use skibidi_ql.Ast.{Text, AstNode, AstList, no_nodes, node_then}
use skibidi_ql.Engine.{Numbers}
use skibidi_ql.Engine.Aggregate.{
  is_wildcard, aggregate, aggregate_rest, aggregate_found, aggregate_values, headcount, count_rows,
  values_of, percent_of,
}
use skibidi_ql.Engine.Eval.{EvalRow, eval}
use skibidi_ql.Storage.Value.{Value}

-- A property of each row.
abbrev pub OnRows : (EvalRow → Type 0) → List EvalRow → Type 0
OnRows holds [] = Unit {0}
OnRows holds (row ∷ rows) = holds row × OnRows holds rows

pub OnRows-map :
    {P Q : EvalRow → Type 0} (rows : List EvalRow)
    → ((row : EvalRow) → P row → Q row)
    → OnRows P rows
    → OnRows Q rows
OnRows-map [] f h = tt
OnRows-map (row ∷ rows) f h = (f row h.0, OnRows-map rows f h.1)

pub OnRows-everywhere :
    {P : EvalRow → Type 0} (rows : List EvalRow) → ((row : EvalRow) → P row) → OnRows P rows
OnRows-everywhere [] f = tt
OnRows-everywhere (row ∷ rows) f = (f row, OnRows-everywhere rows f)

module _ (n : Numbers) where
  pub data Alike (rows : List EvalRow) : AstList → AstList → Type 0 where
    alike_end : Alike rows no_nodes no_nodes
    alike_then :
        {a b : AstNode} {args others : AstList}
        → OnRows (λ row. eval n a row ≡ eval n b row) rows
        → is_wildcard a ≡ is_wildcard b
        → Alike rows args others
        → Alike rows (node_then a args) (node_then b others)

  count_rows-eval :
      (a b : AstNode) (distinct : Bool) (rows : List EvalRow) (seen : List Value)
      → OnRows (λ row. eval n a row ≡ eval n b row) rows
      → count_rows n a distinct rows seen ≡ count_rows n b distinct rows seen
  unfolding count_rows
  count_rows-eval a b distinct [] seen h = refl
  count_rows-eval a b distinct (row ∷ rows) seen h = rw (h.0) (
      bind_cong (eval n b row) _ _ (λ value.
        rw
          (
            count_rows-eval a b distinct rows seen h.1,
            count_rows-eval a b distinct rows (value ∷ seen) h.1,
          )
          refl))

  values_of-eval :
      (a b : AstNode) (rows : List EvalRow)
      → OnRows (λ row. eval n a row ≡ eval n b row) rows
      → values_of n a rows ≡ values_of n b rows
  unfolding values_of
  values_of-eval a b [] h = refl
  values_of-eval a b (row ∷ rows) h = rw (h.0, values_of-eval a b rows h.1) refl

  headcount-Alike :
      {args others : AstList} (distinct : Bool) (rows : List EvalRow)
      → Alike rows args others
      → headcount n args distinct rows ≡ headcount n others distinct rows
  unfolding headcount
  headcount-Alike distinct rows alike_end = refl
  headcount-Alike distinct rows (alike_then {a = a} {b = b} h k more) =
      rw (k, count_rows-eval a b distinct rows [] h) refl

  percent-Alike :
      (values : List Value) {args others : AstList} (rows : List EvalRow)
      → Alike rows args others
      → percent_of n values args rows ≡ percent_of n values others rows
  percent-Alike values rows alike_end = refl
  percent-Alike values [] (alike_then h k more) = refl
  percent-Alike values (row ∷ rows) (alike_then h k more) = rw (h.0) refl

  found-Alike :
      (name : Text) {args others : AstList} (rows : List EvalRow) (values : List Value)
      → Alike rows args others
      → aggregate_found n name args rows values ≡ aggregate_found n name others rows values
  unfolding aggregate_values
  found-Alike name rows [] alike = refl
  found-Alike name {args = args} {others = others} rows (first ∷ values) alike =
      rw (percent-Alike (first ∷ values) rows alike) refl

  rest-Alike :
      (name : Text) {args others : AstList} (rows : List EvalRow)
      → Alike rows args others
      → aggregate_rest n name args rows ≡ aggregate_rest n name others rows
  rest-Alike name rows alike_end = refl
  rest-Alike name rows (alike_then {a = a} {b = b} h k more) =
      rw (values_of-eval a b rows h)
        (bind_cong (values_of n b rows) _ _ (λ values. found-Alike name rows values more))

  pub aggregate-Alike :
      (name : Text) {args others : AstList} (distinct : Bool) (rows : List EvalRow)
      → Alike rows args others
      → aggregate n name args distinct rows ≡ aggregate n name others distinct rows
  unfolding aggregate
  aggregate-Alike name distinct rows alike =
      rw (headcount-Alike distinct rows alike, rest-Alike name rows alike) refl
