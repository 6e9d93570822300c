-- ===== src/Ast.antt =====
-- The nodes of src/ast.h that a query is made of: expressions, joins and SelectStmt. A list of nodes
-- and a pointer to a node that may be null are types of their own. The operators, which are strings in
-- the code, are an enumeration of those that it compares with, and any other string.
pub mod Statements
use skibidi_ql.Prelude.{ℕ, Bool, List}

abbrev pub Text : Type 0
Text = List ℕ

pub record Spot : Type 0 where
  pub line : ℕ
  pub col : ℕ

pub data Literal : Type 0 where
  int : ℕ → Literal
  float : ℕ → Literal
  string : Text → Literal
  nul : Literal
  bool : Bool → Literal

pub data Operator : Type 0 where
  op_and op_or op_not op_eq op_neq op_lt op_gt op_lte op_gte : Operator
  op_concat op_plus op_minus op_times op_divide : Operator
  op_other : Text → Operator

pub data JoinType : Type 0 where
  inner_join left_join cross_join : JoinType

mutual
  pub data AstNode : Type 0 where
    literal : Spot → Literal → AstNode
    -- table, column, alias
    column_ref : Spot → Text → Text → Text → AstNode
    -- table, alias
    wildcard : Spot → Text → Text → AstNode
    -- op, left, right, alias
    binary_op : Spot → Operator → AstNode → AstNode → Text → AstNode
    -- op, operand, alias
    unary_op : Spot → Operator → AstNode → Text → AstNode
    -- name, args, distinct, alias
    function_call : Spot → Text → AstList → Bool → Text → AstNode
    -- funcName, partition_by, order_by, alias
    window_func : Spot → Text → AstList → OrderList → Text → AstNode
    select_stmt : Spot → SelectStmt → AstNode

  pub data AstList : Type 0 where
    no_nodes : AstList
    node_then : AstNode → AstList → AstList

  pub data AstOption : Type 0 where
    no_node : AstOption
    some_node : AstNode → AstOption

  -- OrderItem: an expression, and whether it is ascending.
  pub data OrderList : Type 0 where
    no_order : OrderList
    order_then : AstNode → Bool → OrderList → OrderList

  -- JoinClause: type, table, alias, condition.
  pub data JoinList : Type 0 where
    no_joins : JoinList
    join_then : JoinType → Text → Text → AstOption → JoinList → JoinList

  -- distinct, columns, fromTable, fromAlias, joins, where, groupBy, having, orderBy, limit, offset
  pub data SelectStmt : Type 0 where
    select :
        Bool
        → AstList
        → Text
        → Text
        → JoinList
        → AstOption
        → AstList
        → AstOption
        → OrderList
        → AstOption
        → AstOption
        → SelectStmt

abbrev pub columns_of : SelectStmt → AstList
columns_of (select distinct columns table alias joins condition groups having order limit offset) =
    columns

abbrev pub where_of : SelectStmt → AstOption
where_of (select distinct columns table alias joins condition groups having order limit offset) =
    condition

abbrev pub having_of : SelectStmt → AstOption
having_of (select distinct columns table alias joins condition groups having order limit offset) =
    having
