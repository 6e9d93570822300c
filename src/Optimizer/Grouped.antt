-- ===== src/Optimizer/Grouped.antt =====
-- Constant folding does not change what evalGrouped makes of an expression over a group of rows.
use skibidi_ql.Prelude.{◌≡◌, refl, ◌∙◌, false, Option, none, some, List, ◌∷◌}
use skibidi_ql.Ast.{
  Text, Spot, Literal, int, float, bool, Operator, op_not, op_minus, AstNode, literal, column_ref,
  wildcard, binary_op, unary_op, function_call, window_func, select_stmt, AstList, no_nodes,
  node_then,
}
use skibidi_ql.Engine.{Numbers}
use skibidi_ql.Engine.Aggregate.{is_wildcard, eval_grouped}
use skibidi_ql.Engine.Eval.{EvalRow, eval}
use skibidi_ql.Optimizer.Alike.{OnRows, OnRows-map, Alike, alike_end, alike_then, aggregate-Alike}
use skibidi_ql.Optimizer.Fold.{
  fold_literals, try_fold_expr, try_fold_unary, or_folded, placed, fold_constants, fold_list,
}
use skibidi_ql.Optimizer.Meaning.{
  IsNumbers, Comparable, MeetsNoNan, eval-fold_constants, eval-try_fold_expr, eval-try_fold_unary,
}

-- No `<=` or `>=` that is evaluated for an argument on the rows meets a NaN.
abbrev pub ArgsMeetNoNan : Numbers → List EvalRow → AstList → Type 0
ArgsMeetNoNan n rows no_nodes = Unit {0}
ArgsMeetNoNan n rows (node_then node rest) =
    OnRows (λ row. MeetsNoNan n row node) rows × ArgsMeetNoNan n rows rest

-- No `<=` or `>=` that is evaluated for an expression over the rows meets a NaN.
unfoldable pub GroupMeetsNoNan : Numbers → List EvalRow → AstNode → Type 0
GroupMeetsNoNan n rows (binary_op spot op left right alias) =
    GroupMeetsNoNan n rows left
    × GroupMeetsNoNan n rows right
    × Comparable n op (eval_grouped n left rows) (eval_grouped n right rows)
GroupMeetsNoNan n rows (unary_op spot op operand alias) = GroupMeetsNoNan n rows operand
GroupMeetsNoNan n rows (function_call spot name args distinct alias) = ArgsMeetNoNan n rows args
GroupMeetsNoNan n rows node = Unit {0}

module _ (n : Numbers) (w : IsNumbers n) where
  placed_no_wildcard :
      (spot : Spot) (node : AstNode) (notes : List Text) (found : Option (Literal × Text))
      → is_wildcard node ≡ false
      → is_wildcard (or_folded n node notes (placed n spot found)).0 ≡ false
  placed_no_wildcard spot node notes none h = h
  placed_no_wildcard spot node notes (some (l, note)) h = refl

  expr_no_wildcard :
      (spot : Spot) (op : Operator) (left right : AstNode) (alias : Text) (notes : List Text)
      → is_wildcard
          (or_folded n
            (binary_op spot op left right alias)
            notes
            (try_fold_expr n (binary_op spot op left right alias))).0
        ≡ false
  unfolding try_fold_expr
  expr_no_wildcard spot op (literal s l) (literal t r) alias notes =
      placed_no_wildcard spot (binary_op spot op (literal s l) (literal t r) alias) notes
        (fold_literals n op l r) refl
  expr_no_wildcard spot op left right alias notes = refl

  unary_no_wildcard :
      (spot : Spot) (op : Operator) (operand : AstNode) (alias : Text) (notes : List Text)
      → is_wildcard
          (or_folded n
            (unary_op spot op operand alias)
            notes
            (try_fold_unary n (unary_op spot op operand alias))).0
        ≡ false
  unfolding try_fold_unary
  unary_no_wildcard spot op_minus (literal s (int i)) alias notes = refl
  unary_no_wildcard spot op_minus (literal s (float r)) alias notes = refl
  unary_no_wildcard spot op_not (literal s (bool b)) alias notes = refl
  unary_no_wildcard spot op operand alias notes = refl

  is_wildcard-fold_constants : (e : AstNode) → is_wildcard (fold_constants n e).0 ≡ is_wildcard e
  unfolding fold_constants
  is_wildcard-fold_constants (binary_op spot op left right alias) =
      expr_no_wildcard spot op _ _ alias _
  is_wildcard-fold_constants (unary_op spot op operand alias) = unary_no_wildcard spot op _ alias _
  is_wildcard-fold_constants (literal spot l) = refl
  is_wildcard-fold_constants (column_ref spot table column alias) = refl
  is_wildcard-fold_constants (wildcard spot table alias) = refl
  is_wildcard-fold_constants (function_call spot name args distinct alias) = refl
  is_wildcard-fold_constants (window_func spot name partition order alias) = refl
  is_wildcard-fold_constants (select_stmt spot s) = refl

  fold_list-Alike :
      (rows : List EvalRow) (args : AstList)
      → ArgsMeetNoNan n rows args
      → Alike n rows (fold_list n args).0 args
  unfolding fold_constants
  fold_list-Alike rows no_nodes h = alike_end
  fold_list-Alike rows (node_then node rest) h =
      alike_then (OnRows-map rows (eval-fold_constants n w node) h.0)
        (is_wildcard-fold_constants node) (fold_list-Alike rows rest h.1)

  -- An expression without a function call, over rows of which there is a first, is evaluated on it.
  module _ (row : EvalRow) (rows : List EvalRow) where
    placed_grouped :
        (spot : Spot) (op : Operator) (s t : Spot) (l r : Literal) (alias : Text)
        (notes : List Text) (found : Option (Literal × Text))
        → eval_grouped n
            (or_folded n
              (binary_op spot op (literal s l) (literal t r) alias)
              notes
              (placed n spot found)).0
            (row ∷ rows)
          ≡ eval n
              (or_folded n
                (binary_op spot op (literal s l) (literal t r) alias)
                notes
                (placed n spot found)).0
              row
    unfolding eval_grouped eval
    placed_grouped spot op s t l r alias notes none = refl
    placed_grouped spot op s t l r alias notes (some (folded, note)) = refl

    expr_grouped :
        (spot : Spot) (op : Operator) (left right : AstNode) (alias : Text) (notes : List Text)
        → Comparable n op (eval_grouped n left (row ∷ rows)) (eval_grouped n right (row ∷ rows))
        → eval_grouped n
            (or_folded n
              (binary_op spot op left right alias)
              notes
              (try_fold_expr n (binary_op spot op left right alias))).0
            (row ∷ rows)
          ≡ eval_grouped n (binary_op spot op left right alias) (row ∷ rows)
    unfolding try_fold_expr eval_grouped eval
    expr_grouped spot op (literal s l) (literal t r) alias notes c =
        placed_grouped spot op s t l r alias notes (fold_literals n op l r)
        ∙ eval-try_fold_expr n w spot op (literal s l) (literal t r) alias row notes c
    expr_grouped spot op left right alias notes c = refl

    unary_grouped :
        (spot : Spot) (op : Operator) (operand : AstNode) (alias : Text) (notes : List Text)
        → eval_grouped n
            (or_folded n
              (unary_op spot op operand alias)
              notes
              (try_fold_unary n (unary_op spot op operand alias))).0
            (row ∷ rows)
          ≡ eval_grouped n (unary_op spot op operand alias) (row ∷ rows)
    unfolding try_fold_unary eval_grouped eval
    unary_grouped spot op_minus (literal s (int i)) alias notes =
        eval-try_fold_unary n w spot op_minus (literal s (int i)) alias row notes
    unary_grouped spot op_minus (literal s (float r)) alias notes =
        eval-try_fold_unary n w spot op_minus (literal s (float r)) alias row notes
    unary_grouped spot op_not (literal s (bool b)) alias notes =
        eval-try_fold_unary n w spot op_not (literal s (bool b)) alias row notes
    unary_grouped spot op operand alias notes = refl

  -- Folding keeps what an expression with aggregates evaluates to over a group of rows that is not
  -- empty, and the exception where its evaluation throws one, if no `<=` or `>=` meets a NaN there.
  pub eval_grouped-fold_constants :
      (e : AstNode) (row : EvalRow) (rows : List EvalRow)
      → GroupMeetsNoNan n (row ∷ rows) e
      → eval_grouped n (fold_constants n e).0 (row ∷ rows) ≡ eval_grouped n e (row ∷ rows)
  unfolding fold_constants eval_grouped eval GroupMeetsNoNan
  eval_grouped-fold_constants (binary_op spot op left right alias) row rows (hl, hr, c) =
      let l = eval_grouped-fold_constants left row rows hl in
      let r = eval_grouped-fold_constants right row rows hr in
      expr_grouped row rows spot op _ _ alias _ (rw (l, r) c) ∙ rw (l, r) refl
  eval_grouped-fold_constants (unary_op spot op operand alias) row rows h =
      unary_grouped row rows spot op _ alias _
      ∙ rw (eval_grouped-fold_constants operand row rows h) refl
  eval_grouped-fold_constants (function_call spot name args distinct alias) row rows h =
      rw (aggregate-Alike n name distinct (row ∷ rows) (fold_list-Alike (row ∷ rows) args h)) refl
  eval_grouped-fold_constants (literal spot l) row rows h = refl
  eval_grouped-fold_constants (column_ref spot table column alias) row rows h = refl
  eval_grouped-fold_constants (wildcard spot table alias) row rows h = refl
  eval_grouped-fold_constants (window_func spot name partition order alias) row rows h = refl
  eval_grouped-fold_constants (select_stmt spot s) row rows h = refl
