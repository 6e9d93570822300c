-- ===== src/Parser/Select.antt =====
-- parseSelect of src/parser.cpp with what it is made of, and the recursion through parseExpr.
use skibidi_ql.Prelude.{ℕ, zero, suc, Bool, true, false, Option, List, [], ◌∷◌, if◌then◌else◌}
use skibidi_ql.Ast.{
  Text, AstNode, column_ref, wildcard, binary_op, unary_op, function_call, window_func, select_stmt,
  AstList, no_nodes, node_then, AstOption, no_node, some_node, no_order, JoinType, inner_join,
  left_join, JoinList, no_joins, join_then, SelectStmt, select,
}
use skibidi_ql.Lexer.Token.{
  Token, TokenType, codes, no_cap, only_if, link_up, left_link_up, mid_link_up, fr_fr, vibe_check,
  bussin_only, cap_at, skip,
}
use skibidi_ql.Parser.State.{
  Reply, parsed, stuck, ◌▷◌, spot_of, next_is, rest_of, expect, is_identifier, is_lowkey, is_star,
  items,
}
use skibidi_ql.Parser.Kinds.{is_slay, is_unique_fr, is_hits_different}
use skibidi_ql.Parser.Expr.{node_list, parse_column_list, parse_order_list, parse_or_expr}

abbrev pub is_no_cap : TokenType → Bool
is_no_cap no_cap = true
is_no_cap _ = false

abbrev pub is_only_if : TokenType → Bool
is_only_if only_if = true
is_only_if _ = false

abbrev pub is_link_up : TokenType → Bool
is_link_up link_up = true
is_link_up _ = false

abbrev pub is_left_link_up : TokenType → Bool
is_left_link_up left_link_up = true
is_left_link_up _ = false

abbrev pub is_mid_link_up : TokenType → Bool
is_mid_link_up mid_link_up = true
is_mid_link_up _ = false

abbrev pub is_join : TokenType → Bool
is_join link_up = true
is_join left_link_up = true
is_join mid_link_up = true
is_join _ = false

abbrev pub is_fr_fr : TokenType → Bool
is_fr_fr fr_fr = true
is_fr_fr _ = false

abbrev pub is_vibe_check : TokenType → Bool
is_vibe_check vibe_check = true
is_vibe_check _ = false

abbrev pub is_bussin_only : TokenType → Bool
is_bussin_only bussin_only = true
is_bussin_only _ = false

abbrev pub is_cap_at : TokenType → Bool
is_cap_at cap_at = true
is_cap_at _ = false

abbrev pub is_skip : TokenType → Bool
is_skip skip = true
is_skip _ = false

-- The alias of a select item, on the nodes that have a place for it.
unfoldable pub with_alias : Text → AstNode → AstNode
with_alias alias (column_ref spot table column old) = column_ref spot table column alias
with_alias alias (function_call spot name args distinct old) =
    function_call spot name args distinct alias
with_alias alias (binary_op spot op left right old) = binary_op spot op left right alias
with_alias alias (unary_op spot op operand old) = unary_op spot op operand alias
with_alias alias (window_func spot name partition order old) =
    window_func spot name partition order alias
with_alias alias (wildcard spot table old) = wildcard spot table alias
with_alias alias node = node

-- A clause that begins with a token, or is not there.
unfoldable pub optional {ℓ} :
    {A : Type ℓ} → (TokenType → Bool) → A → (List Token → Reply A) → List Token → Reply A
optional is missing clause tokens =
    if next_is is tokens then clause (rest_of tokens) else parsed missing tokens

module _ (end : Token) where
  abbrev pub parse_alias : List Token → Reply Text
  parse_alias tokens =
      expect end is_identifier (codes "Expected alias name") tokens ▷ λ t rest. parsed t.value rest

  unfoldable pub parse_table_ref : List Token → Reply (Text × Text)
  parse_table_ref tokens = expect end is_identifier (codes "Expected table name") tokens ▷ λ t rest.
      optional is_lowkey [] parse_alias rest ▷ λ alias after. parsed (t.value, alias) after

  -- The keyword of a join; the loop around it has seen one of the three.
  abbrev pub parse_join_keyword : List Token → Reply JoinType
  parse_join_keyword tokens =
      if next_is is_left_link_up tokens
      then parsed left_join (rest_of tokens)
      else if next_is is_mid_link_up tokens
      then parsed inner_join (rest_of tokens)
      else (expect end is_link_up (codes "Expected join keyword") tokens ▷ λ t rest.
          parsed inner_join rest)

module _ (stod : Text → Option ℕ) (end : Token) (fuel : ℕ)
    (self sub : List Token → Reply AstNode) where
  unfoldable pub parse_join : List Token → Reply (JoinType × Text × Text × AstNode)
  parse_join tokens = parse_join_keyword end tokens ▷ λ kind rest.
      parse_table_ref end rest ▷ λ table after.
      expect end is_fr_fr (codes "Expected 'fr-fr' (ON)") after ▷ λ t more.
      self more ▷ λ condition last. parsed (kind, table.0, table.1, condition) last

  unfoldable pub parse_joins : ℕ → List Token → Reply JoinList
  parse_joins n [] = parsed no_joins []
  parse_joins zero (t ∷ rest) = if is_join t.kind then stuck else parsed no_joins (t ∷ rest)
  parse_joins (suc n) (t ∷ rest) =
      let further = parse_join (t ∷ rest) ▷ λ join after. parse_joins n after ▷ λ joins last.
      parsed (join_then join.0 join.1 join.2 (some_node join.3) joins) last in
      if is_join t.kind then further else parsed no_joins (t ∷ rest)

  unfoldable pub parse_select_item : List Token → Reply AstNode
  parse_select_item tokens = self tokens ▷ λ node rest.
      (if next_is is_lowkey rest
        then (parse_alias end (rest_of rest) ▷ λ alias after. parsed (with_alias alias node) after)
        else parsed node rest)

  abbrev pub parse_items : List Token → Reply AstList
  parse_items tokens =
      items fuel parse_select_item tokens ▷ λ nodes rest. parsed (node_list nodes) rest

  unfoldable pub parse_select_list : List Token → Reply AstList
  parse_select_list [] = parse_items []
  parse_select_list (t ∷ rest) =
      if is_star t.kind
      then parsed (node_then (wildcard (spot_of t) [] []) no_nodes) rest
      else parse_items (t ∷ rest)

  abbrev pub parse_condition : List Token → Reply AstOption
  parse_condition tokens = self tokens ▷ λ node rest. parsed (some_node node) rest

  -- From the table on; what comes before it is given.
  unfoldable pub parse_from : Bool → AstList → List Token → Reply SelectStmt
  parse_from distinct columns tokens = parse_table_ref end tokens ▷ λ table a.
      parse_joins fuel a ▷ λ joins b. optional is_only_if no_node parse_condition b ▷ λ condition c.
      optional is_vibe_check no_nodes (parse_column_list stod end fuel self sub) c ▷ λ groups d.
      optional is_bussin_only no_node parse_condition d ▷ λ having e.
      optional is_hits_different no_order (parse_order_list stod end fuel self sub) e ▷ λ order f.
      optional is_cap_at no_node parse_condition f ▷ λ limit g.
      optional is_skip no_node parse_condition g ▷ λ offset last.
      parsed
        (select distinct columns table.0 table.1 joins condition groups having order limit offset)
        last

  unfoldable pub parse_select : List Token → Reply AstNode
  parse_select tokens = expect end is_slay (codes "Expected 'slay'") tokens ▷ λ t a.
      optional is_unique_fr false (λ rest. parsed true rest) a ▷ λ distinct b.
      parse_select_list b ▷ λ columns c.
      expect end is_no_cap (codes "Expected 'no-cap' (FROM)") c ▷ λ from d.
      parse_from distinct columns d ▷ λ statement last.
      parsed (select_stmt (spot_of t) statement) last

-- parseExpr, with as many levels of parentheses and rounds of each loop as there is fuel.
unfoldable pub parse_expr : (Text → Option ℕ) → Token → ℕ → List Token → Reply AstNode
parse_expr stod end zero tokens = stuck
parse_expr stod end (suc fuel) tokens =
    let self = parse_expr stod end fuel in
    parse_or_expr stod end fuel self (parse_select stod end fuel self self) tokens
