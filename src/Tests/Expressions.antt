-- ===== src/Tests/Expressions.antt =====
-- Expressions and a query over the table t, with patterns compared as numbers in place of doubles: 1 is
-- a NaN, and an integer becomes its double, which is even.
use skibidi_ql.Prelude.{
  ℕ, ◌+◌, ◌-◌, ◌*◌, ◌≡◌, refl, Bool, true, false, none, some, [], ◌∷◌, ok, arith, ltb, ◌==◌,
  bytes_eq, if◌then◌else◌, compare_bytes, not, ◌&&◌, ◌/◌,
}
use skibidi_ql.Ast.{
  Text, Spot, int, op_plus, op_gte, AstNode, literal, column_ref, binary_op, function_call,
  select_stmt, no_nodes, node_then, no_node, some_node, no_order, no_joins, SelectStmt, select,
  where_of,
}
use skibidi_ql.Engine.{Numbers, add64, apply_binary, apply_to_values, apply_arithmetic}
use skibidi_ql.Engine.Aggregate.{eval_grouped, aggregate, headcount, count_rows}
use skibidi_ql.Engine.Eval.{EvalRow, is_aggregate_name, eval, passes, resolve_column, resolve_among}
use skibidi_ql.Lexer.Token.{codes}
use skibidi_ql.Optimizer.{optimize}
use skibidi_ql.Optimizer.Counts.{
  Keeps, keeps_none, keeps_then, HasValue, valued, eval_grouped-rewrite_counts,
}
use skibidi_ql.Optimizer.Filters.{condition_of, passes-optimize}
use skibidi_ql.Optimizer.Fold.{fold_constants, fold_literals, fold_numbers, try_fold_expr}
use skibidi_ql.Optimizer.Grouped.{GroupMeetsNoNan, eval_grouped-fold_constants}
use skibidi_ql.Optimizer.Meaning.{IsNumbers, MeetsNoNan, eval-fold_constants}
use skibidi_ql.Optimizer.Metadata.{
  names_table, Catalog, ColumnMeta, get_table, column_named, resolve_base_column, rewrite_counts,
  is_guaranteed_non_null,
}
use skibidi_ql.Storage.Value.{integer, is_null, type_of, is_numeric, as_real, real_of}

abbrev numbers : Numbers
numbers = record {
  doubles = record {
    less = λ a b. ltb a b && not (a == 1) && not (b == 1);
    equal = λ a b. (a == b) && not (a == 1);
    of_int = λ i. i * 2;
    to_int = λ r. r / 2;
  };
  plus = λ a b. a + b;
  minus = λ a b. a - b;
  times = λ a b. a * b;
  divide = λ a b. a;
  negate = λ a. a;
  square_root = λ a. a;
  absolute = λ a. a;
  ceiling = λ a. a;
  fixed_text = λ a. [];
  integer_text = λ a. [];
  real_text = λ a. [];
}

numbers-IsNumbers : IsNumbers numbers
numbers-IsNumbers = record {
  comparison = record {
    equal_less = λ x y hx hy. ground (arith, hx, hy);
    of_int_number = λ i. ground arith;
  };
  less_asym = λ x y h. ground (arith, h);
  equal_zero = λ i. ground arith;
}

abbrev spot : Spot
spot = record { line = 1; col = 1 }

abbrev id_column : AstNode
id_column = column_ref spot [] (codes "id") []

abbrev three : AstNode
three = binary_op spot op_plus (literal spot (int 1)) (literal spot (int 2)) (codes "three")

abbrev at_least_three : AstNode
at_least_three = binary_op spot op_gte id_column three []

abbrev row : ℕ → EvalRow
row i = some ((record { table = codes "t"; alias = codes "u"; name = codes "id" }, integer i) ∷ [])

eval-fold_constants_example :
    eval numbers (fold_constants numbers at_least_three).0 (row 5)
    ≡ eval numbers at_least_three (row 5)
unfolding MeetsNoNan eval resolve_column resolve_among compare_bytes apply_binary apply_to_values
    apply_arithmetic as_real real_of is_null is_numeric type_of
eval-fold_constants_example =
    eval-fold_constants numbers numbers-IsNumbers at_least_three (row 5)
      (tt, (tt, tt, tt), (tt, tt))

three_folded : (fold_constants numbers three).0 ≡ literal spot (int 3)
unfolding fold_constants try_fold_expr fold_literals fold_numbers add64
three_folded = refl

abbrev tables : Catalog
tables =
    (
      codes "t",
      record {
        name = codes "t";
        columns =
            record {
              name = codes "id";
              type = codes "integer";
              primary_key = true;
              not_null = false;
            }
            ∷ [];
      },
    )
    ∷ []

abbrev query : SelectStmt
query =
    select true (node_then id_column no_nodes) (codes "t") (codes "u") no_joins
      (some_node at_least_three) no_nodes no_node no_order no_node no_node

passes-optimize_example :
    passes numbers
      (condition_of (optimize numbers (some tables) (select_stmt spot query)).0)
      (row 5)
    ≡ passes numbers (where_of query) (row 5)
unfolding MeetsNoNan eval resolve_column resolve_among compare_bytes apply_binary apply_to_values
    apply_arithmetic as_real real_of is_null is_numeric type_of
passes-optimize_example =
    passes-optimize numbers numbers-IsNumbers (some tables) spot query (row 5)
      (tt, (tt, tt, tt), (tt, tt))

abbrev count_ids : AstNode
count_ids = function_call spot (codes "headcount") (node_then id_column no_nodes) false []

abbrev count_at_least : AstNode
count_at_least = binary_op spot op_gte count_ids three []

eval_grouped-fold_constants_example :
    eval_grouped numbers (fold_constants numbers count_at_least).0 (row 5 ∷ row 6 ∷ [])
    ≡ eval_grouped numbers count_at_least (row 5 ∷ row 6 ∷ [])
unfolding GroupMeetsNoNan eval_grouped is_aggregate_name aggregate headcount count_rows MeetsNoNan
    eval resolve_column resolve_among compare_bytes apply_binary apply_to_values apply_arithmetic
    as_real real_of is_null is_numeric type_of
eval_grouped-fold_constants_example =
    eval_grouped-fold_constants numbers numbers-IsNumbers count_at_least (row 5) (row 6 ∷ [])
      (((tt, (tt, tt)), tt), (tt, tt, tt), (tt, tt))

both_hold :
    (a b : Bool) (x : ColumnMeta) {meta : ColumnMeta}
    → (if a then if b then some x else none else none) ≡ some meta
    → (a ≡ true) × (b ≡ true)
both_hold true true x h = (refl, refl)
both_hold true false x h = cc
both_hold false b x h = cc

read_id :
    (i : ℕ) (s : Spot) (q c a : Text)
    → bytes_eq (codes "id") c ≡ true
    → names_table q (codes "t") (codes "u") ≡ true
    → eval numbers (column_ref s q c a) (row i) ≡ ok (integer i)
unfolding eval resolve_column resolve_among
read_id i s q c a named qualified = rw (named, qualified) refl

id-HasValue :
    (i : ℕ) (column : AstNode) (meta : ColumnMeta)
    → resolve_base_column tables query column ≡ some meta
    → is_guaranteed_non_null meta ≡ true
    → HasValue numbers tables query column (row i)
unfolding resolve_base_column get_table column_named compare_bytes is_null type_of
id-HasValue i (column_ref s q c a) meta h sure =
    let both = both_hold (names_table q (codes "t") (codes "u")) (bytes_eq (codes "id") c) _ h in
    valued (read_id i s q c a both.1 both.0) refl
id-HasValue i column meta h sure = cc

counts_kept : Keeps numbers tables query (row 5 ∷ row 6 ∷ [])
counts_kept = keeps_then (id-HasValue 5) (keeps_then (id-HasValue 6) keeps_none)

eval_grouped-rewrite_counts_example :
    eval_grouped numbers (rewrite_counts tables query count_ids).0 (row 5 ∷ row 6 ∷ [])
    ≡ eval_grouped numbers count_ids (row 5 ∷ row 6 ∷ [])
eval_grouped-rewrite_counts_example =
    eval_grouped-rewrite_counts numbers tables query count_ids (row 5 ∷ row 6 ∷ []) counts_kept
