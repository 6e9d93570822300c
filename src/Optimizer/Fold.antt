-- ===== src/Optimizer/Fold.antt =====
-- Constant folding: tryFoldExpr and foldConstants of src/optimizer.cpp, with the notes that they add to
-- the report.
use skibidi_ql.Prelude.{
  ℕ, Bool, not, ◌&&◌, ◌||◌, Option, none, some, List, [], ◌∷◌, ◌++◌, ◌==◌, if◌then◌else◌,
}
use skibidi_ql.Ast.{
  Text, Spot, Literal, int, float, string, bool, Operator, op_and, op_or, op_not, op_eq, op_neq,
  op_lt, op_gt, op_lte, op_gte, op_concat, op_plus, op_minus, op_times, op_divide, AstNode, literal,
  column_ref, wildcard, binary_op, unary_op, function_call, window_func, select_stmt, AstList,
  no_nodes, node_then, AstOption, no_node, some_node, SelectStmt, select,
}
use skibidi_ql.Engine.{Numbers, add64, sub64, mul64, div64, neg64}
use skibidi_ql.Lexer.Token.{codes}

module _ (n : Numbers) where
  -- The number of a literal as a double, if it is one.
  abbrev pub number_of : Literal → Option ℕ
  number_of (int i) = some (n.doubles.of_int i)
  number_of (float r) = some r
  number_of _ = none

  abbrev pub on_literals : (ℕ → ℕ → ℕ) → (ℕ → ℕ → ℕ) → Literal → Literal → ℕ → ℕ → Literal
  on_literals ints reals (int a) (int b) lv rv = int (ints a b)
  on_literals ints reals l r lv rv = float (reals lv rv)

  -- The quotient of two int literals, unless the divisor is zero.
  abbrev pub quotient : Literal → Literal → ℕ → ℕ → Literal
  quotient (int a) (int b) lv rv = if b == 0 then float (n.divide lv rv) else int (div64 a b)
  quotient l r lv rv = float (n.divide lv rv)

  abbrev pub arithmetic_note : ℕ → Text → ℕ → Text
  arithmetic_note lv sign rv =
      codes "Constant folding: " ++ n.fixed_text lv ++ sign ++ n.fixed_text rv

  abbrev pub compared : Bool → Option (Literal × Text)
  compared b = some (bool b, codes "Constant folding: comparison")

  -- Two numeric literals with the doubles `lv` and `rv`.
  unfoldable pub fold_numbers : Operator → Literal → Literal → ℕ → ℕ → Option (Literal × Text)
  fold_numbers op_plus l r lv rv =
      some (on_literals add64 n.plus l r lv rv, arithmetic_note lv (codes " + ") rv)
  fold_numbers op_minus l r lv rv =
      some (on_literals sub64 n.minus l r lv rv, arithmetic_note lv (codes " - ") rv)
  fold_numbers op_times l r lv rv =
      some (on_literals mul64 n.times l r lv rv, arithmetic_note lv (codes " * ") rv)
  fold_numbers op_divide l r lv rv =
      if n.doubles.equal rv 0
      then none
      else some (quotient l r lv rv, arithmetic_note lv (codes " / ") rv)
  fold_numbers op_eq l r lv rv = compared (n.doubles.equal lv rv)
  fold_numbers op_neq l r lv rv = compared (not (n.doubles.equal lv rv))
  fold_numbers op_lt l r lv rv = compared (n.doubles.less lv rv)
  fold_numbers op_gt l r lv rv = compared (n.doubles.less rv lv)
  fold_numbers op_lte l r lv rv = compared (n.doubles.less lv rv || n.doubles.equal lv rv)
  fold_numbers op_gte l r lv rv = compared (n.doubles.less rv lv || n.doubles.equal lv rv)
  fold_numbers op l r lv rv = none

  abbrev pub fold_if_numbers :
      Operator → Literal → Literal → Option ℕ → Option ℕ → Option (Literal × Text)
  fold_if_numbers op l r (some lv) (some rv) = fold_numbers op l r lv rv
  fold_if_numbers op l r lv rv = none

  abbrev pub fold_strings : Operator → Text → Text → Option (Literal × Text)
  fold_strings op_concat a b =
      some (string (a ++ b), codes "Constant folding: string concatenation")
  fold_strings op a b = none

  abbrev pub fold_booleans : Operator → Bool → Bool → Option (Literal × Text)
  fold_booleans op_and a b = some (bool (a && b), codes "Constant folding: AND")
  fold_booleans op_or a b = some (bool (a || b), codes "Constant folding: OR")
  fold_booleans op a b = none

  unfoldable pub fold_literals : Operator → Literal → Literal → Option (Literal × Text)
  fold_literals op (string a) (string b) = fold_strings op a b
  fold_literals op (bool a) (bool b) = fold_booleans op a b
  fold_literals op l r = fold_if_numbers op l r (number_of l) (number_of r)

  abbrev pub placed : Spot → Option (Literal × Text) → Option (AstNode × Text)
  placed spot none = none
  placed spot (some (l, note)) = some (literal spot l, note)

  unfoldable pub try_fold_expr : AstNode → Option (AstNode × Text)
  try_fold_expr (binary_op spot op (literal _ l) (literal _ r) alias) =
      placed spot (fold_literals op l r)
  try_fold_expr _ = none

  unfoldable pub try_fold_unary : AstNode → Option (AstNode × Text)
  try_fold_unary (unary_op spot op_minus (literal _ (int i)) alias) =
      some (literal spot (int (neg64 i)), codes "Constant folding: unary minus")
  try_fold_unary (unary_op spot op_minus (literal _ (float r)) alias) =
      some (literal spot (float (n.negate r)), codes "Constant folding: unary minus")
  try_fold_unary (unary_op spot op_not (literal _ (bool b)) alias) =
      some (literal spot (bool (not b)), codes "Constant folding: NOT")
  try_fold_unary _ = none

  -- The folded node in place of `node`, and its note behind those of the children.
  abbrev pub or_folded : AstNode → List Text → Option (AstNode × Text) → AstNode × List Text
  or_folded node notes none = (node, notes)
  or_folded node notes (some (folded, note)) = (folded, notes ++ (note ∷ []))

  unfoldable mutual
    pub fold_constants : AstNode → AstNode × List Text
    fold_constants (select_stmt spot s) =
        let (folded, notes) = fold_select s in (select_stmt spot folded, notes)
    fold_constants (binary_op spot op left right alias) =
        let (l, l_notes) = fold_constants left in
        let (r, r_notes) = fold_constants right in
        or_folded (binary_op spot op l r alias) (l_notes ++ r_notes)
          (try_fold_expr (binary_op spot op l r alias))
    fold_constants (unary_op spot op operand alias) =
        let (o, notes) = fold_constants operand in
        or_folded (unary_op spot op o alias) notes (try_fold_unary (unary_op spot op o alias))
    fold_constants (function_call spot name args distinct alias) =
        let (folded, notes) = fold_list args in
        (function_call spot name folded distinct alias, notes)
    fold_constants (literal spot l) = (literal spot l, [])
    fold_constants (column_ref spot table column alias) = (column_ref spot table column alias, [])
    fold_constants (wildcard spot table alias) = (wildcard spot table alias, [])
    fold_constants (window_func spot name partition order alias) =
        (window_func spot name partition order alias, [])

    pub fold_list : AstList → AstList × List Text
    fold_list no_nodes = (no_nodes, [])
    fold_list (node_then node rest) =
        let (folded, notes) = fold_constants node in
        let (more, more_notes) = fold_list rest in (node_then folded more, notes ++ more_notes)

    pub fold_option : AstOption → AstOption × List Text
    fold_option no_node = (no_node, [])
    fold_option (some_node node) =
        let (folded, notes) = fold_constants node in (some_node folded, notes)

    pub fold_select : SelectStmt → SelectStmt × List Text
    fold_select
          (select distinct columns table alias joins condition groups having order limit offset) =
        let (columns', c) = fold_list columns in
        let (condition', w) = fold_option condition in
        let (having', h) = fold_option having in
        let (limit', l) = fold_option limit in
        let (offset', o) = fold_option offset in
        (
          select distinct columns' table alias joins condition' groups having' order limit' offset',
          c ++ w ++ h ++ l ++ o,
        )
