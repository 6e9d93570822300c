-- ===== src/Optimizer/Counts.antt =====
-- Counting a column that is never null counts the rows: rewriteNonNullCounts does not change what
-- evalGrouped makes of an expression.
use skibidi_ql.Prelude.{
  suc, ◌≡◌, refl, ap, Bool, true, false, Option, none, some, List, [], ◌∷◌, ok, if◌then◌else◌,
  Bool-cases, inl, inr, length, bytes_eq,
}
use skibidi_ql.Ast.{
  Text, Spot, AstNode, literal, column_ref, wildcard, binary_op, unary_op, function_call,
  window_func, select_stmt, AstList, no_nodes, node_then, SelectStmt,
}
use skibidi_ql.Engine.{Numbers}
use skibidi_ql.Engine.Aggregate.{
  is_wildcard, aggregate, eval_grouped, eval_first, headcount, count_rows,
}
use skibidi_ql.Engine.Eval.{EvalRow, eval, is_aggregate_name}
use skibidi_ql.Lexer.Token.{codes}
use skibidi_ql.Optimizer.Alike.{OnRows-everywhere, Alike, alike_end, alike_then, aggregate-Alike}
use skibidi_ql.Optimizer.Metadata.{
  Catalog, ColumnMeta, resolve_base_column, is_guaranteed_non_null, count_args, count_all,
  rewrite_counts, rewrite_list,
}
use skibidi_ql.Storage.Value.{Value, is_null}

module _ (n : Numbers) (catalog : Catalog) (s : SelectStmt) where
  -- A column that evaluates to a value other than null.
  pub data HasValue (column : AstNode) (row : EvalRow) : Type 0 where
    valued :
        {value : Value} → eval n column row ≡ ok value → is_null value ≡ false → HasValue column row

  -- The rows agree with the catalog: what it says to be never null is never null.
  pub data Keeps : List EvalRow → Type 0 where
    keeps_none : Keeps []
    keeps_then :
        {row : EvalRow} {rows : List EvalRow}
        → ((column : AstNode) (meta : ColumnMeta)
            → resolve_base_column catalog s column ≡ some meta
            → is_guaranteed_non_null meta ≡ true
            → HasValue column row)
        → Keeps rows
        → Keeps (row ∷ rows)

  count_row :
      (column : AstNode) (row : EvalRow) (rows : List EvalRow) (seen : List Value)
      → HasValue column row
      → ((longer : List Value) → count_rows n column false rows longer ≡ ok (length rows))
      → count_rows n column false (row ∷ rows) seen ≡ ok (suc (length rows))
  unfolding count_rows
  count_row column row rows seen (valued {value = value} here sure) rest =
      rw (here, sure, rest (value ∷ seen)) refl

  count_rows-Keeps :
      (column : AstNode) (meta : ColumnMeta)
      → resolve_base_column catalog s column ≡ some meta
      → is_guaranteed_non_null meta ≡ true
      → (rows : List EvalRow) → Keeps rows
      → (seen : List Value) → count_rows n column false rows seen ≡ ok (length rows)
  unfolding count_rows
  count_rows-Keeps column meta found sure [] keeps_none seen = refl
  count_rows-Keeps column meta found sure (row ∷ rows) (keeps_then here more) seen =
      count_row column row rows seen (here column meta found sure)
        (count_rows-Keeps column meta found sure rows more)

  eval-rewrite_counts :
      (e : AstNode) (row : EvalRow) → eval n (rewrite_counts catalog s e).0 row ≡ eval n e row
  unfolding rewrite_counts eval
  eval-rewrite_counts (binary_op spot op left right alias) row =
      rw (eval-rewrite_counts left row, eval-rewrite_counts right row) refl
  eval-rewrite_counts (unary_op spot op operand alias) row =
      rw (eval-rewrite_counts operand row) refl
  eval-rewrite_counts (literal spot l) row = refl
  eval-rewrite_counts (column_ref spot table column alias) row = refl
  eval-rewrite_counts (wildcard spot table alias) row = refl
  eval-rewrite_counts (function_call spot name args distinct alias) row = refl
  eval-rewrite_counts (window_func spot name partition order alias) row = refl
  eval-rewrite_counts (select_stmt spot inner) row = refl

  is_wildcard-rewrite_counts :
      (e : AstNode) → is_wildcard (rewrite_counts catalog s e).0 ≡ is_wildcard e
  unfolding rewrite_counts
  is_wildcard-rewrite_counts (binary_op spot op left right alias) = refl
  is_wildcard-rewrite_counts (unary_op spot op operand alias) = refl
  is_wildcard-rewrite_counts (literal spot l) = refl
  is_wildcard-rewrite_counts (column_ref spot table column alias) = refl
  is_wildcard-rewrite_counts (wildcard spot table alias) = refl
  is_wildcard-rewrite_counts (function_call spot name args distinct alias) = refl
  is_wildcard-rewrite_counts (window_func spot name partition order alias) = refl
  is_wildcard-rewrite_counts (select_stmt spot inner) = refl

  rewrite_list-Alike :
      (rows : List EvalRow) (args : AstList) → Alike n rows (rewrite_list catalog s args).0 args
  unfolding rewrite_counts
  rewrite_list-Alike rows no_nodes = alike_end
  rewrite_list-Alike rows (node_then node rest) =
      alike_then (OnRows-everywhere rows (eval-rewrite_counts node))
        (is_wildcard-rewrite_counts node) (rewrite_list-Alike rows rest)

  counted_column :
      (name : Text) (spot : Spot) (column : AstNode) (rows : List EvalRow)
      → is_wildcard column ≡ false
      → Keeps rows
      → bytes_eq name (codes "headcount") ≡ true
      → (found : Option ColumnMeta) → resolve_base_column catalog s column ≡ found
      → aggregate n name (count_all catalog spot (node_then column no_nodes, []) found).0 false rows
        ≡ aggregate n name (node_then column no_nodes) false rows
  unfolding aggregate headcount
  counted_column name spot column rows plain keeps named none found = refl
  counted_column name spot column rows plain keeps named (some meta) found =
      elim (Bool-cases (is_guaranteed_non_null meta)) [
        | inl e ↦ rw (e, named, plain, count_rows-Keeps column meta found e rows keeps []) refl
        | inr e ↦ rw e refl
      ]

  counted_args :
      (name : Text) (distinct : Bool) (args : AstList) (rows : List EvalRow)
      → Keeps rows
      → aggregate n name
          (count_args catalog s name distinct args (rewrite_list catalog s args)).0
          distinct
          rows
        ≡ aggregate n name args distinct rows
  unfolding count_args rewrite_counts
  counted_args name true (node_then (column_ref spot table column alias) no_nodes) rows keeps =
      elim (Bool-cases (bytes_eq name (codes "headcount"))) [
        | inl e ↦ rw e refl
        | inr e ↦ rw e refl
      ]
  counted_args name false (node_then (column_ref spot table column alias) no_nodes) rows keeps =
      elim (Bool-cases (bytes_eq name (codes "headcount"))) [
        | inl e ↦
            rw e (
              counted_column name spot (column_ref spot table column alias) rows refl keeps e _
                refl)
        | inr e ↦ rw e refl
      ]
  counted_args name distinct args rows keeps =
      aggregate-Alike n name distinct rows (rewrite_list-Alike rows args)

  eval_first_call :
      (spot : Spot) (name : Text) (args others : AstList) (distinct : Bool) (alias : Text)
      (rows : List EvalRow)
      → eval_first n (function_call spot name args distinct alias) rows
        ≡ eval_first n (function_call spot name others distinct alias) rows
  unfolding eval
  eval_first_call spot name args others distinct alias [] = refl
  eval_first_call spot name args others distinct alias (row ∷ rows) = refl

  -- On rows where every column that the catalog says to be never null has a value other than null, the
  -- rewriting of counts keeps what an expression with aggregates evaluates to, and the exception where
  -- its evaluation throws one.
  pub eval_grouped-rewrite_counts :
      (e : AstNode) (rows : List EvalRow)
      → Keeps rows
      → eval_grouped n (rewrite_counts catalog s e).0 rows ≡ eval_grouped n e rows
  unfolding rewrite_counts eval_grouped eval
  eval_grouped-rewrite_counts (binary_op spot op left right alias) rows keeps =
      rw (eval_grouped-rewrite_counts left rows keeps, eval_grouped-rewrite_counts right rows keeps)
        refl
  eval_grouped-rewrite_counts (unary_op spot op operand alias) rows keeps =
      rw (eval_grouped-rewrite_counts operand rows keeps) refl
  eval_grouped-rewrite_counts (function_call spot name args distinct alias) rows keeps =
      rw (counted_args name distinct args rows keeps) (
        ap (λ value. if is_aggregate_name name then aggregate n name args distinct rows else value)
          (eval_first_call spot name
            (count_args catalog s name distinct args (rewrite_list catalog s args)).0 args distinct
            alias rows))
  eval_grouped-rewrite_counts (literal spot l) rows keeps = refl
  eval_grouped-rewrite_counts (column_ref spot table column alias) rows keeps = refl
  eval_grouped-rewrite_counts (wildcard spot table alias) rows keeps = refl
  eval_grouped-rewrite_counts (window_func spot name partition order alias) rows keeps = refl
  eval_grouped-rewrite_counts (select_stmt spot inner) rows keeps = refl
