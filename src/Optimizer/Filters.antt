-- ===== src/Optimizer/Filters.antt =====
-- The passes of the optimizer leave the rows that a query reads as they are.
use skibidi_ql.Prelude.{
  ◌≡◌, refl, sym, ap, ◌∙◌, Option, none, some, ok, ◌>>=◌, arith, Bool-cases, inl, inr,
}
use skibidi_ql.Ast.{
  Text, Spot, Literal, int, float, string, nul, bool, AstNode, literal, select_stmt, AstOption,
  no_node, some_node, no_joins, join_then, SelectStmt, select, where_of,
}
use skibidi_ql.Engine.{Numbers, as_boolean}
use skibidi_ql.Engine.Eval.{EvalRow, eval, passes, literal_value}
use skibidi_ql.Optimizer.Fold.{fold_constants, fold_select, fold_option}
use skibidi_ql.Optimizer.{
  is_known, drop_distinct, limit_lookup, apply_metadata_optimizations, with_catalog,
  eliminate_condition, eliminate_dead_code, optimize_select, optimize, is_truthy,
}
use skibidi_ql.Optimizer.Metadata.{Catalog, get_table}
use skibidi_ql.Optimizer.Meaning.{IsNumbers, MeetsNoNan, eval-fold_constants}

abbrev pub condition_of : AstNode → AstOption
condition_of (select_stmt spot s) = where_of s
condition_of _ = no_node

where_of-drop_distinct :
    (catalog : Catalog) (s : SelectStmt) → where_of (drop_distinct catalog s).0 ≡ where_of s
unfolding drop_distinct
where_of-drop_distinct catalog
      (select distinct columns table alias joins condition groups having order limit offset) =
    ground arith

where_of-limit_lookup :
    (catalog : Catalog) (spot : Spot) (s : SelectStmt)
    → where_of (limit_lookup catalog spot s).0 ≡ where_of s
unfolding limit_lookup
where_of-limit_lookup catalog spot
      (select distinct columns table alias joins condition groups having order limit offset) =
    ground arith

where_of-apply_metadata_optimizations :
    (catalog : Catalog) (spot : Spot) (s : SelectStmt)
    → where_of (apply_metadata_optimizations catalog spot s).0 ≡ where_of s
unfolding apply_metadata_optimizations
where_of-apply_metadata_optimizations catalog spot
      (select distinct columns table alias no_joins condition groups having order limit offset) =
    elim (Bool-cases (is_known catalog (get_table catalog table))) [
      | inl e ↦ rw e (where_of-limit_lookup catalog spot _ ∙ where_of-drop_distinct catalog _)
      | inr e ↦ rw e refl
    ]
where_of-apply_metadata_optimizations catalog spot
      (select distinct columns table alias
        (join_then kind other name on more)
        condition
        groups
        having
        order
        limit
        offset) =
    refl

where_of-with_catalog :
    (catalog : Option Catalog) (n : Numbers) (spot : Spot) (s : SelectStmt)
    → where_of (with_catalog n catalog spot s).0 ≡ where_of s
where_of-with_catalog none n spot s = refl
where_of-with_catalog (some catalog) n spot s = where_of-apply_metadata_optimizations catalog spot s

-- No `<=` or `>=` that is evaluated for a filter on a row meets a NaN.
abbrev pub FilterMeetsNoNan : Numbers → EvalRow → AstOption → Type 0
FilterMeetsNoNan n row no_node = Unit {0}
FilterMeetsNoNan n row (some_node node) = MeetsNoNan n row node

module _ (n : Numbers) (w : IsNumbers n) where
  is_truthy-as_boolean : (l : Literal) → is_truthy n l ≡ as_boolean n (literal_value l)
  unfolding is_truthy as_boolean
  is_truthy-as_boolean (int i) = rw (w.equal_zero i) refl
  is_truthy-as_boolean (float r) = refl
  is_truthy-as_boolean (string s) = refl
  is_truthy-as_boolean nul = refl
  is_truthy-as_boolean (bool b) = refl

  passes-eliminate_condition :
      (clause : Text) (condition : AstOption) (row : EvalRow)
      → passes n (eliminate_condition n clause condition).0 row ≡ passes n condition row
  unfolding eliminate_condition passes eval
  passes-eliminate_condition clause (some_node (literal spot l)) row =
      elim (Bool-cases (is_truthy n l)) [
        | inl e ↦ rw e (ap ok (sym e ∙ is_truthy-as_boolean l))
        | inr e ↦ rw e refl
      ]
  passes-eliminate_condition clause condition row = refl

  passes-fold_option :
      (condition : AstOption) (row : EvalRow)
      → FilterMeetsNoNan n row condition
      → passes n (fold_option n condition).0 row ≡ passes n condition row
  unfolding passes fold_constants
  passes-fold_option no_node row h = refl
  passes-fold_option (some_node node) row h =
      ap (λ value. value >>= λ v. ok (as_boolean n v)) (eval-fold_constants n w node row h)

  passes-eliminate_dead_code :
      (s : SelectStmt) (row : EvalRow)
      → passes n (where_of (eliminate_dead_code n s).0) row ≡ passes n (where_of s) row
  unfolding eliminate_dead_code
  passes-eliminate_dead_code
        (select distinct columns table alias joins condition groups having order limit offset) row =
      passes-eliminate_condition _ condition row

  passes-fold_select :
      (s : SelectStmt) (row : EvalRow)
      → FilterMeetsNoNan n row (where_of s)
      → passes n (where_of (fold_select n s).0) row ≡ passes n (where_of s) row
  unfolding fold_constants
  passes-fold_select
        (select distinct columns table alias joins condition groups having order limit offset) row
        h =
      passes-fold_option condition row h

  -- With any catalog or none, a row passes the WHERE of the optimized statement exactly if it passes that
  -- of the statement, and the one throws where the other does: the five passes together change no filter,
  -- if no `<=` or `>=` of the WHERE meets a NaN on the row.
  pub passes-optimize :
      (catalog : Option Catalog) (spot : Spot) (s : SelectStmt) (row : EvalRow)
      → FilterMeetsNoNan n row (where_of s)
      → passes n (condition_of (optimize n catalog (select_stmt spot s)).0) row
        ≡ passes n (where_of s) row
  unfolding optimize optimize_select fold_constants
  passes-optimize catalog spot s row h =
      passes-eliminate_dead_code (with_catalog n catalog spot (fold_select n s).0).0 row
      ∙ ap (λ condition. passes n condition row)
          (where_of-with_catalog catalog n spot (fold_select n s).0)
      ∙ passes-fold_select s row h
