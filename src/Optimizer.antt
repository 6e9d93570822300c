-- ===== src/Optimizer.antt =====
-- Optimizer::optimize of src/optimizer.cpp: its five passes over a statement, with the notes that they
-- add to the report. Fold holds constant folding, Metadata what the second pass is made of.
pub mod Fold
pub mod Metadata
pub mod Meaning
pub mod Alike
pub mod Grouped
pub mod Counts
pub mod Filters
use skibidi_ql.Prelude.{
  ℕ, suc, Bool, true, false, not, ◌&&◌, ◌||◌, Option, none, some, List, [], ◌∷◌, ◌++◌, ◌==◌,
  if◌then◌else◌, is_empty,
}
use skibidi_ql.Ast.{
  Text, Spot, Literal, int, float, string, nul, bool, AstNode, literal, column_ref, wildcard,
  binary_op, unary_op, function_call, window_func, select_stmt, AstList, no_nodes, node_then,
  AstOption, no_node, some_node, OrderList, no_order, order_then, JoinList, no_joins, join_then,
  SelectStmt, select, columns_of,
}
use skibidi_ql.Engine.{Numbers}
use skibidi_ql.Lexer.Token.{codes}
use skibidi_ql.Optimizer.Fold.{fold_constants}
use skibidi_ql.Optimizer.Metadata.{
  Catalog, TableMeta, get_table, projects_primary_key, where_pins_primary_key, has_set_producing,
  rewrite_list, rewrite_option,
}

module _ (catalog : Catalog) where
  abbrev pub pins_option : SelectStmt → AstOption → Bool
  pins_option s no_node = false
  pins_option s (some_node condition) = where_pins_primary_key catalog s condition

  -- A DISTINCT over a projection of the primary key is dropped.
  unfoldable pub drop_distinct : SelectStmt → SelectStmt × List Text
  drop_distinct
        (select distinct columns table alias joins condition groups having order limit offset) =
      if distinct
        && projects_primary_key catalog
            (select distinct columns table alias joins condition groups having order limit offset)
      then (
        select false columns table alias joins condition groups having order limit offset,
        codes
              "Metadata optimization: removed redundant DISTINCT because the projection contains the primary key"
            ∷ [],
      )
      else (
        select distinct columns table alias joins condition groups having order limit offset,
        [],
      )

  abbrev pub order_note : OrderList → List Text
  order_note no_order = []
  order_note (order_then node ascending more) =
      codes "Metadata optimization: removed ORDER BY from a primary-key point lookup" ∷ []

  abbrev pub limit_or_one : Spot → AstOption → AstOption × List Text
  limit_or_one spot (some_node limit) = (some_node limit, [])
  limit_or_one spot no_node = (
    some_node (literal spot (int 1)),
    codes "Metadata optimization: added LIMIT 1 to a primary-key point lookup" ∷ [],
  )

  abbrev pub is_no_node : AstOption → Bool
  is_no_node no_node = true
  is_no_node (some_node _) = false

  abbrev pub is_no_nodes : AstList → Bool
  is_no_nodes no_nodes = true
  is_no_nodes (node_then _ _) = false

  -- A lookup by primary key has no order and at most one row.
  unfoldable pub limit_lookup : Spot → SelectStmt → SelectStmt × List Text
  limit_lookup spot
        (select distinct columns table alias joins condition groups having order limit offset) =
      let s =
        select distinct columns table alias joins condition groups having order limit offset in
      let (limit', note) = limit_or_one spot limit in
      if pins_option s condition
        && (is_no_nodes groups && (is_no_node having && not (has_set_producing catalog columns)))
      then (
        select distinct columns table alias joins condition groups having no_order limit' offset,
        order_note order ++ note,
      )
      else (s, [])

  abbrev pub is_known : Option TableMeta → Bool
  is_known none = false
  is_known (some _) = true

  unfoldable pub apply_metadata_optimizations : Spot → SelectStmt → SelectStmt × List Text
  apply_metadata_optimizations spot
        (select distinct columns table alias no_joins condition groups having order limit offset) =
      let s =
        select distinct columns table alias no_joins condition groups having order limit offset in
      let (columns', c_notes) = rewrite_list catalog s columns in
      let (having', h_notes) = rewrite_option catalog s having in
      let (s', d_notes) = drop_distinct (
        select distinct columns' table alias no_joins condition groups having' order limit
          offset) in
      let (s'', l_notes) = limit_lookup spot s' in
      if is_known (get_table catalog table)
      then (s'', c_notes ++ h_notes ++ d_notes ++ l_notes)
      else (s, [])
  apply_metadata_optimizations spot s = (s, [])

abbrev pub pushdown_note : Text → JoinList → AstOption → List Text
pushdown_note table joins no_node = []
pushdown_note table no_joins (some_node condition) =
    (codes "Predicate pushdown: WHERE condition applied at scan level for table '"
      ++ table
      ++ codes "'")
    ∷ []
pushdown_note table (join_then _ _ _ _ _) (some_node condition) =
    codes "Predicate pushdown: WHERE condition with JOINs - filter applied after join" ∷ []

-- The notes on predicates; the pass changes nothing.
unfoldable mutual
  pub pushdown_predicates : SelectStmt → List Text
  pushdown_predicates
        (select distinct columns table alias joins condition groups having order limit offset) =
      pushdown_note table joins condition ++ pushdown_columns columns

  pub pushdown_columns : AstList → List Text
  pushdown_columns no_nodes = []
  pushdown_columns (node_then node rest) = pushdown_column node ++ pushdown_columns rest

  pub pushdown_column : AstNode → List Text
  pushdown_column (select_stmt spot s) = pushdown_predicates s
  pushdown_column (literal spot l) = []
  pushdown_column (column_ref spot table column alias) = []
  pushdown_column (wildcard spot table alias) = []
  pushdown_column (binary_op spot op left right alias) = []
  pushdown_column (unary_op spot op operand alias) = []
  pushdown_column (function_call spot name args distinct alias) = []
  pushdown_column (window_func spot name partition order alias) = []

unfoldable pub has_wildcard : AstList → Bool
has_wildcard no_nodes = false
has_wildcard (node_then (wildcard spot table alias) rest) = true
has_wildcard (node_then node rest) = has_wildcard rest

unfoldable pub size_of : AstList → ℕ
size_of no_nodes = 0
size_of (node_then node rest) = suc (size_of rest)

module _ (n : Numbers) where
  -- The notes on projections; the pass changes nothing.
  unfoldable pub prune_projections : AstList → List Text
  prune_projections columns =
      if has_wildcard columns
      then codes "Projection pruning: SELECT * - all columns required, no pruning possible" ∷ []
      else if size_of columns == 0
      then []
      else (codes "Projection pruning: query selects "
          ++ n.integer_text (size_of columns)
          ++ codes " specific column(s)")
        ∷ []

  unfoldable pub is_truthy : Literal → Bool
  is_truthy (int i) = not (i == 0)
  is_truthy (float r) = not (n.doubles.equal r 0)
  is_truthy (string s) = not (is_empty s)
  is_truthy (bool b) = b
  is_truthy nul = false

  -- A condition that is a literal: it is dropped if it always holds.
  unfoldable pub eliminate_condition : Text → AstOption → AstOption × List Text
  eliminate_condition clause (some_node (literal spot l)) =
      if is_truthy l
      then (
        no_node,
        (codes "Dead code elimination: "
              ++ clause
              ++ codes " clause is always TRUE - removing condition")
            ∷ [],
      )
      else (
        some_node (literal spot l),
        (codes "Dead code elimination: "
              ++ clause
              ++ codes " clause is always FALSE - query returns no rows")
            ∷ [],
      )
  eliminate_condition clause condition = (condition, [])

  unfoldable pub eliminate_dead_code : SelectStmt → SelectStmt × List Text
  eliminate_dead_code
        (select distinct columns table alias joins condition groups having order limit offset) =
      let (condition', w_notes) = eliminate_condition (codes "WHERE") condition in
      let (having', h_notes) = eliminate_condition (codes "HAVING") having in
      (
        select distinct columns table alias joins condition' groups having' order limit offset,
        w_notes ++ h_notes,
      )

  abbrev pub with_catalog : Option Catalog → Spot → SelectStmt → SelectStmt × List Text
  with_catalog none spot s = (s, [])
  with_catalog (some catalog) spot s = apply_metadata_optimizations catalog spot s

  -- The passes behind constant folding.
  unfoldable pub optimize_select : Option Catalog → Spot → SelectStmt → SelectStmt × List Text
  optimize_select catalog spot s =
      let (s', m_notes) = with_catalog catalog spot s in
      let (s'', e_notes) = eliminate_dead_code s' in
      (s'', m_notes ++ pushdown_predicates s' ++ prune_projections (columns_of s') ++ e_notes)

  abbrev pub optimize_folded : Option Catalog → AstNode × List Text → AstNode × List Text
  optimize_folded catalog (select_stmt spot s, notes) =
      let (s', more) = optimize_select catalog spot s in (select_stmt spot s', notes ++ more)
  optimize_folded catalog (node, notes) = (node, notes)

  unfoldable pub optimize : Option Catalog → AstNode → AstNode × List Text
  optimize catalog node = optimize_folded catalog (fold_constants n node)
