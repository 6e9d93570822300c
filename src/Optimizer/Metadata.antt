-- ===== src/Optimizer/Metadata.antt =====
-- The metadata-aware rewrites of src/optimizer.cpp: resolveBaseColumn, projectsPrimaryKey,
-- wherePinsPrimaryKey, hasSetProducingExpression, rewriteNonNullCounts and
-- applyMetadataOptimizations, over the tables of a catalog.
use skibidi_ql.Prelude.{
  ℕ, ◌-◌, Bool, true, false, not, ◌&&◌, ◌||◌, Option, none, some, List, [], ◌∷◌, ◌++◌, leb, map,
  if◌then◌else◌, bytes_eq, is_empty,
}
use skibidi_ql.Ast.{
  Text, Spot, op_and, op_eq, AstNode, literal, column_ref, wildcard, binary_op, unary_op,
  function_call, window_func, select_stmt, AstList, no_nodes, node_then, AstOption, no_node,
  some_node, no_joins, SelectStmt, select,
}
use skibidi_ql.Engine.Eval.{is_lone_wolf_name}
use skibidi_ql.Lexer.Token.{codes}

pub record ColumnMeta : Type 0 where
  pub name : Text
  pub type : Text
  pub primary_key : Bool
  pub not_null : Bool

pub record TableMeta : Type 0 where
  pub name : Text
  pub columns : List ColumnMeta

-- The tables of a catalog by name.
abbrev pub Catalog : Type 0
Catalog = List (Text × TableMeta)

unfoldable pub get_table : Catalog → Text → Option TableMeta
get_table [] name = none
get_table ((key, table) ∷ tables) name =
    let rest = get_table tables name in if bytes_eq key name then some table else rest

abbrev pub to_upper : ℕ → ℕ
to_upper ch = if leb 97 ch && leb ch 122 then ch - 32 else ch

unfoldable pub is_guaranteed_non_null : ColumnMeta → Bool
is_guaranteed_non_null column =
    column.not_null || (column.primary_key && bytes_eq (map to_upper column.type) (codes "INTEGER"))

unfoldable pub column_named : Text → List ColumnMeta → Option ColumnMeta
column_named name [] = none
column_named name (column ∷ columns) =
    let rest = column_named name columns in if bytes_eq column.name name then some column else rest

abbrev pub column_of_table : Text → Option TableMeta → Option ColumnMeta
column_of_table name none = none
column_of_table name (some table) = column_named name table.columns

-- Whether a qualifier names the table that is read, or is not there.
abbrev pub names_table : Text → Text → Text → Bool
names_table qualifier table alias =
    is_empty qualifier || (bytes_eq qualifier table || bytes_eq qualifier alias)

module _ (catalog : Catalog) where
  unfoldable pub resolve_base_column : SelectStmt → AstNode → Option ColumnMeta
  resolve_base_column
        (select distinct columns table alias no_joins condition groups having order limit offset)
        (column_ref spot qualifier column column_alias) =
      if names_table qualifier table alias
      then column_of_table column (get_table catalog table)
      else none
  resolve_base_column s node = none

  abbrev pub is_primary : Option ColumnMeta → Bool
  is_primary none = false
  is_primary (some column) = column.primary_key

  abbrev pub is_non_null_key : ColumnMeta → Bool
  is_non_null_key column = column.primary_key && is_guaranteed_non_null column

  abbrev pub is_non_null_key? : Option ColumnMeta → Bool
  is_non_null_key? none = false
  is_non_null_key? (some column) = is_non_null_key column

  unfoldable pub any_non_null_key : List ColumnMeta → Bool
  any_non_null_key [] = false
  any_non_null_key (column ∷ columns) = is_non_null_key column || any_non_null_key columns

  unfoldable pub projects_key : SelectStmt → TableMeta → Text → Text → AstList → Bool
  projects_key s meta table alias no_nodes = false
  projects_key s meta table alias (node_then (wildcard spot qualifier column_alias) rest) =
      (names_table qualifier table alias && any_non_null_key meta.columns)
      || projects_key s meta table alias rest
  projects_key s meta table alias (node_then node rest) =
      is_non_null_key? (resolve_base_column s node) || projects_key s meta table alias rest

  abbrev pub projects_key? : SelectStmt → Text → Text → AstList → Option TableMeta → Bool
  projects_key? s table alias columns none = false
  projects_key? s table alias columns (some meta) = projects_key s meta table alias columns

  unfoldable pub projects_primary_key : SelectStmt → Bool
  projects_primary_key
        (select distinct columns table alias no_joins condition groups having order limit offset) =
      projects_key?
        (select distinct columns table alias no_joins condition groups having order limit offset)
        table alias columns (get_table catalog table)
  projects_primary_key s = false

  -- Of a comparison of a column with a literal, whether the column is a primary key.
  unfoldable pub pins_column : SelectStmt → AstNode → AstNode → Bool
  pins_column s (column_ref spot table column alias) (literal _ l) =
      is_primary (resolve_base_column s (column_ref spot table column alias))
  pins_column s (literal _ l) (column_ref spot table column alias) =
      is_primary (resolve_base_column s (column_ref spot table column alias))
  pins_column s left right = false

  unfoldable pub where_pins_primary_key : SelectStmt → AstNode → Bool
  where_pins_primary_key s (binary_op spot op_and left right alias) =
      where_pins_primary_key s left || where_pins_primary_key s right
  where_pins_primary_key s (binary_op spot op_eq left right alias) = pins_column s left right
  where_pins_primary_key s node = false

  unfoldable pub is_set_function : Text → Bool
  is_set_function name =
      bytes_eq name (codes "headcount")
      || (bytes_eq name (codes "stack")
          || (bytes_eq name (codes "mid")
              || (bytes_eq name (codes "goat")
                  || (bytes_eq name (codes "L")
                      || (bytes_eq name (codes "mid-fr")
                          || (bytes_eq name (codes "percent-check") || is_lone_wolf_name name))))))

  unfoldable pub has_set_producing : AstList → Bool
  has_set_producing no_nodes = false
  has_set_producing (node_then (window_func spot name partition order alias) rest) = true
  has_set_producing (node_then (function_call spot name args distinct alias) rest) =
      is_set_function name || has_set_producing rest
  has_set_producing (node_then node rest) = has_set_producing rest

  abbrev pub count_note : ColumnMeta → Text
  count_note column =
      codes "Metadata optimization: COUNT("
      ++ column.name
      ++ codes ") rewritten to COUNT(*) because the column is non-null"

  abbrev pub count_all : Spot → AstList × List Text → Option ColumnMeta → AstList × List Text
  count_all spot kept none = kept
  count_all spot kept (some column) =
      if is_guaranteed_non_null column
      then (node_then (wildcard spot [] []) no_nodes, count_note column ∷ [])
      else kept

  -- The arguments of a function call, `kept` unless it counts one column that is never null.
  unfoldable pub count_args :
      SelectStmt → Text → Bool → AstList → AstList × List Text → AstList × List Text
  count_args s name distinct (node_then (column_ref spot table column alias) no_nodes) kept =
      if bytes_eq name (codes "headcount") && not distinct
      then count_all spot kept (resolve_base_column s (column_ref spot table column alias))
      else kept
  count_args s name distinct args kept = kept

  unfoldable mutual
    pub rewrite_counts : SelectStmt → AstNode → AstNode × List Text
    rewrite_counts s (function_call spot name args distinct alias) =
        let (args', notes) = count_args s name distinct args (rewrite_list s args) in
        (function_call spot name args' distinct alias, notes)
    rewrite_counts s (binary_op spot op left right alias) =
        let (l, l_notes) = rewrite_counts s left in
        let (r, r_notes) = rewrite_counts s right in
        (binary_op spot op l r alias, l_notes ++ r_notes)
    rewrite_counts s (unary_op spot op operand alias) =
        let (o, notes) = rewrite_counts s operand in (unary_op spot op o alias, notes)
    rewrite_counts s (literal spot l) = (literal spot l, [])
    rewrite_counts s (column_ref spot table column alias) = (column_ref spot table column alias, [])
    rewrite_counts s (wildcard spot table alias) = (wildcard spot table alias, [])
    rewrite_counts s (window_func spot name partition order alias) =
        (window_func spot name partition order alias, [])
    rewrite_counts s (select_stmt spot inner) = (select_stmt spot inner, [])

    pub rewrite_list : SelectStmt → AstList → AstList × List Text
    rewrite_list s no_nodes = (no_nodes, [])
    rewrite_list s (node_then node rest) =
        let (node', notes) = rewrite_counts s node in
        let (rest', more) = rewrite_list s rest in (node_then node' rest', notes ++ more)

  unfoldable pub rewrite_option : SelectStmt → AstOption → AstOption × List Text
  rewrite_option s no_node = (no_node, [])
  rewrite_option s (some_node node) =
      let (node', notes) = rewrite_counts s node in (some_node node', notes)
