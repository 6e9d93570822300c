-- ===== src/Engine/Eval.antt =====
-- NativeEngine::eval and resolveColumn of src/native_engine.cpp. A message that ends with the name of
-- a column, a function or an operator in the code ends before it in the model.
use skibidi_ql.Prelude.{
  Bool, true, false, not, ◌&&◌, ◌||◌, Option, none, some, List, [], ◌∷◌, Outcome, ok, throws, ◌>>=◌,
  if◌then◌else◌, bytes_eq, is_empty,
}
use skibidi_ql.Ast.{
  Text, Literal, int, float, string, nul, bool, AstNode, literal, column_ref, wildcard, binary_op,
  unary_op, function_call, window_func, select_stmt, AstOption, no_node, some_node,
}
use skibidi_ql.Engine.{Numbers, apply_binary, apply_unary, as_boolean}
use skibidi_ql.Lexer.Token.{codes}
use skibidi_ql.Storage.Value.{Value, null, integer, real, text, boolean}

pub record BoundColumn : Type 0 where
  pub table : Text
  pub alias : Text
  pub name : Text

-- The columns of a row with their values; `none` where the row has no schema.
abbrev pub EvalRow : Type 0
EvalRow = Option (List (BoundColumn × Value))

abbrev pub qualifier_matches : Text → BoundColumn → Bool
qualifier_matches table candidate =
    is_empty table
    || (bytes_eq table candidate.table
        || (not (is_empty candidate.alias) && bytes_eq table candidate.alias))

abbrev pub is_found : Option Value → Bool
is_found none = false
is_found (some _) = true

-- The loop of resolveColumn, with the value found so far.
unfoldable pub resolve_among :
    Text → Text → List (BoundColumn × Value) → Option Value → Outcome Value
resolve_among table column [] none = throws "Unknown column: "
resolve_among table column [] (some value) = ok value
resolve_among table column ((candidate, value) ∷ more) found =
    let named = bytes_eq candidate.name column && qualifier_matches table candidate in
    let rest = resolve_among table column more (if named then some value else found) in
    if named && (is_found found && is_empty table) then throws "Ambiguous column: " else rest

unfoldable pub resolve_column : Text → Text → EvalRow → Outcome Value
resolve_column table column none = throws "Expression row has no schema"
resolve_column table column (some columns) = resolve_among table column columns none

abbrev pub literal_value : Literal → Value
literal_value (int i) = integer i
literal_value (float r) = real r
literal_value (string s) = text s
literal_value nul = null
literal_value (bool b) = boolean b

unfoldable pub is_lone_wolf_name : Text → Bool
is_lone_wolf_name name = bytes_eq name (codes "LONE-WOLF") || bytes_eq name (codes "lone-wolf")

unfoldable pub is_aggregate_name : Text → Bool
is_aggregate_name name =
    bytes_eq name (codes "headcount")
    || (bytes_eq name (codes "stack")
        || (bytes_eq name (codes "mid")
            || (bytes_eq name (codes "goat")
                || (bytes_eq name (codes "L")
                    || (bytes_eq name (codes "mid-fr")
                        || (bytes_eq name (codes "percent-check") || is_lone_wolf_name name))))))

unfoldable pub has_aggregate : AstNode → Bool
has_aggregate (function_call spot name args distinct alias) = is_aggregate_name name
has_aggregate (binary_op spot op left right alias) = has_aggregate left || has_aggregate right
has_aggregate (unary_op spot op operand alias) = has_aggregate operand
has_aggregate _ = false

module _ (n : Numbers) where
  unfoldable pub eval : AstNode → EvalRow → Outcome Value
  eval (literal spot l) row = ok (literal_value l)
  eval (column_ref spot table column alias) row = resolve_column table column row
  eval (binary_op spot op left right alias) row =
      eval left row >>= λ a. eval right row >>= λ b. apply_binary n op a b
  eval (unary_op spot op operand alias) row = eval operand row >>= apply_unary n op
  eval (wildcard spot table alias) row = throws "Wildcard is not a scalar expression"
  eval (function_call spot name args distinct alias) row =
      if is_aggregate_name name
      then throws "Aggregate used outside grouped evaluation"
      else throws "Unknown scalar function: "
  eval (window_func spot name partition order alias) row = throws "Unsupported native expression"
  eval (select_stmt spot s) row = throws "Unsupported native expression"

  -- Whether a row passes the WHERE of a statement, which may have none.
  unfoldable pub passes : AstOption → EvalRow → Outcome Bool
  passes no_node row = ok true
  passes (some_node condition) row = eval condition row >>= λ value. ok (as_boolean n value)
