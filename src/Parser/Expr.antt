-- ===== src/Parser/Expr.antt =====
-- The expressions of src/parser.cpp. Each level of precedence is a function over the next, and the
-- whole is tied together by `self`, which parses what stands in parentheses, and `sub`, which parses a
-- subquery. std::stoll reads digits; std::stod is the parameter `stod`.
use skibidi_ql.Prelude.{
  ℕ, zero, suc, ◌+◌, ◌-◌, ◌*◌, ◌^◌, Bool, true, false, ◌&&◌, Option, none, some, List, [], ◌∷◌,
  ◌++◌, ltb, if◌then◌else◌, bytes_eq,
}
use skibidi_ql.Ast.{
  Text, Spot, int, float, string, nul, Operator, op_and, op_or, op_not, op_minus, AstNode, literal,
  column_ref, wildcard, binary_op, unary_op, function_call, window_func, AstList, no_nodes,
  node_then, OrderList, no_order, order_then,
}
use skibidi_ql.Lexer.Token.{
  Token, TokenType, codes, ghosted, headcount, stack, mid, goat, l_func, lone_wolf, biggest_w,
  biggest_l, mid_fr, percent_check, era, integer_lit, float_lit, string_lit, identifier, star,
  lparen,
}
use skibidi_ql.Parser.Kinds.{
  is_and, is_comparison, is_down_bad, is_hits_different, is_minus, is_not, is_or, is_product,
  is_slay, is_split_by, is_sum, is_unique_fr, is_up_only, operator_of,
}
use skibidi_ql.Parser.State.{
  out_of_range, parse_error, Reply, parsed, refused, stuck, ◌▷◌, spot_of, next_is, rest_of, expect,
  is_lparen, is_rparen, is_dot, is_star, is_identifier, items,
}

abbrev pub node_list : List AstNode → AstList
node_list [] = no_nodes
node_list (node ∷ nodes) = node_then node (node_list nodes)

abbrev pub order_list : List (AstNode × Bool) → OrderList
order_list [] = no_order
order_list ((node, ascending) ∷ rest) = order_then node ascending (order_list rest)

-- The loop of a level with operators that associate to the left; `op` names the operator of a token.
unfoldable pub chain :
    ℕ
    → (TokenType → Bool)
    → (Token → Operator)
    → (List Token → Reply AstNode)
    → AstNode
    → List Token
    → Reply AstNode
chain fuel is op operand left [] = parsed left []
chain zero is op operand left (t ∷ rest) = if is t.kind then stuck else parsed left (t ∷ rest)
chain (suc fuel) is op operand left (t ∷ rest) =
    let further = operand rest ▷ λ right after.
    chain fuel is op operand (binary_op (spot_of t) (op t) left right []) after in
    if is t.kind then further else parsed left (t ∷ rest)

abbrev pub level :
    ℕ
    → (TokenType → Bool)
    → (Token → Operator)
    → (List Token → Reply AstNode)
    → List Token
    → Reply AstNode
level fuel is op operand tokens = operand tokens ▷ chain fuel is op operand

unfoldable pub digits_value : ℕ → Text → ℕ
digits_value value [] = value
digits_value value (c ∷ text) = digits_value (10 * value + (c - 48)) text

unfoldable pub stoll : Text → Option ℕ
unfolding digits_value
stoll text = if ltb (digits_value 0 text) (2 ^ 63) then some (digits_value 0 text) else none

abbrev pub int_literal : Spot → Option ℕ → List Token → Reply AstNode
int_literal spot none rest = refused out_of_range
int_literal spot (some i) rest = parsed (literal spot (int i)) rest

abbrev pub float_literal : Spot → Option ℕ → List Token → Reply AstNode
float_literal spot none rest = refused out_of_range
float_literal spot (some r) rest = parsed (literal spot (float r)) rest

module _ (stod : Text → Option ℕ) (end : Token) (fuel : ℕ)
    (self sub : List Token → Reply AstNode) where
  unfoldable pub parse_column_list : List Token → Reply AstList
  parse_column_list tokens = items fuel self tokens ▷ λ nodes rest. parsed (node_list nodes) rest

  unfoldable pub parse_order_item : List Token → Reply (AstNode × Bool)
  parse_order_item tokens = self tokens ▷ λ node rest.
      (if next_is is_down_bad rest
        then parsed (node, false) (rest_of rest)
        else if next_is is_up_only rest
        then parsed (node, true) (rest_of rest)
        else parsed (node, true) rest)

  unfoldable pub parse_order_list : List Token → Reply OrderList
  parse_order_list tokens =
      items fuel parse_order_item tokens ▷ λ orders rest. parsed (order_list orders) rest

  -- The arguments behind `(`, up to the `)`.
  abbrev pub closed_call : Text → Spot → Bool → AstList → List Token → Reply AstNode
  closed_call name spot distinct args tokens =
      expect end is_rparen (codes "Expected ')'") tokens ▷ λ t rest.
      parsed (function_call spot name args distinct []) rest

  unfoldable pub parse_arguments : Text → Spot → List Token → Reply AstNode
  parse_arguments name spot tokens =
      if bytes_eq name (codes "headcount") && next_is is_star tokens
      then closed_call name spot false (node_then (wildcard spot [] []) no_nodes) (rest_of tokens)
      else if bytes_eq name (codes "headcount") && next_is is_unique_fr tokens
      then (self (rest_of tokens) ▷ λ arg rest.
          closed_call name spot true (node_then arg no_nodes) rest)
      else if next_is is_rparen tokens
      then parsed (function_call spot name no_nodes false []) (rest_of tokens)
      else (items fuel self tokens ▷ λ args rest. closed_call name spot false (node_list args) rest)

  unfoldable pub parse_function_call : Text → Spot → List Token → Reply AstNode
  parse_function_call name spot tokens =
      expect end is_lparen (codes "Expected '(' after function name") tokens ▷ λ t rest.
      parse_arguments name spot rest

  abbrev pub ordered_era : Spot → AstList → List Token → Reply AstNode
  ordered_era spot partition tokens =
      expect end is_hits_different (codes "Expected 'hits-different' (ORDER BY) in era expression")
        tokens
      ▷ λ t rest. parse_order_list rest ▷ λ order after.
          parsed (window_func spot (codes "RANK") partition order []) after

  unfoldable pub parse_era_expr : Spot → List Token → Reply AstNode
  parse_era_expr spot tokens =
      if next_is is_split_by tokens
      then (parse_column_list (rest_of tokens) ▷ λ partition rest. ordered_era spot partition rest)
      else ordered_era spot no_nodes tokens

  abbrev pub in_parentheses : Reply AstNode → Reply AstNode
  in_parentheses reply = reply ▷ λ node rest.
      expect end is_rparen (codes "Expected ')'") rest ▷ λ t after. parsed node after

  abbrev pub call_or_column : Token → Text → Text → Text → List Token → Reply AstNode
  call_or_column t name table column rest =
      if next_is is_lparen rest
      then parse_function_call name (spot_of t) rest
      else parsed (column_ref (spot_of t) table column []) rest

  -- What follows an identifier and a dot.
  unfoldable pub parse_qualified : Token → List Token → Reply AstNode
  parse_qualified t rest =
      if next_is is_star rest
      then parsed (wildcard (spot_of t) t.value []) (rest_of rest)
      else (expect end is_identifier (codes "Expected column name after '.'") rest ▷ λ column after.
          call_or_column t (t.value ++ codes "." ++ column.value) t.value column.value after)

  unfoldable pub parse_name : Token → List Token → Reply AstNode
  parse_name t rest =
      if next_is is_dot rest
      then parse_qualified t (rest_of rest)
      else call_or_column t t.value [] t.value rest

  -- A primary expression that begins with `t`, whose type is given first.
  unfoldable pub parse_primary_from : TokenType → Token → List Token → Reply AstNode
  parse_primary_from integer_lit t rest = int_literal (spot_of t) (stoll t.value) rest
  parse_primary_from float_lit t rest = float_literal (spot_of t) (stod t.value) rest
  parse_primary_from string_lit t rest = parsed (literal (spot_of t) (string t.value)) rest
  parse_primary_from ghosted t rest = parsed (literal (spot_of t) nul) rest
  parse_primary_from lparen t rest =
      if next_is is_slay rest then in_parentheses (sub rest) else in_parentheses (self rest)
  parse_primary_from star t rest = parsed (wildcard (spot_of t) [] []) rest
  parse_primary_from era t rest = parse_era_expr (spot_of t) rest
  parse_primary_from headcount t rest = parse_function_call t.value (spot_of t) rest
  parse_primary_from stack t rest = parse_function_call t.value (spot_of t) rest
  parse_primary_from mid t rest = parse_function_call t.value (spot_of t) rest
  parse_primary_from goat t rest = parse_function_call t.value (spot_of t) rest
  parse_primary_from l_func t rest = parse_function_call t.value (spot_of t) rest
  parse_primary_from biggest_w t rest = parse_function_call t.value (spot_of t) rest
  parse_primary_from biggest_l t rest = parse_function_call t.value (spot_of t) rest
  parse_primary_from mid_fr t rest = parse_function_call t.value (spot_of t) rest
  parse_primary_from percent_check t rest = parse_function_call t.value (spot_of t) rest
  parse_primary_from lone_wolf t rest = parse_function_call t.value (spot_of t) rest
  parse_primary_from identifier t rest = parse_name t rest
  parse_primary_from kind t rest =
      refused
        (parse_error (codes "Expected expression (got '" ++ t.value ++ codes "')") t.line t.col)

  abbrev pub parse_primary_expr : List Token → Reply AstNode
  parse_primary_expr [] =
      refused (
        parse_error (codes "Expected expression (got '" ++ end.value ++ codes "')") end.line
          end.col)
  parse_primary_expr (t ∷ rest) = parse_primary_from t.kind t rest

  unfoldable pub parse_unary_expr : List Token → Reply AstNode
  parse_unary_expr [] = parse_primary_expr []
  parse_unary_expr (t ∷ rest) =
      let negated = parse_unary_expr rest ▷ λ node after.
      parsed (unary_op (spot_of t) op_minus node []) after in
      if is_minus t.kind then negated else parse_primary_expr (t ∷ rest)

  unfoldable pub parse_mul_expr : List Token → Reply AstNode
  parse_mul_expr = level fuel is_product (λ t. operator_of t.value) parse_unary_expr

  unfoldable pub parse_add_expr : List Token → Reply AstNode
  parse_add_expr = level fuel is_sum (λ t. operator_of t.value) parse_mul_expr

  abbrev pub compared_with : AstNode → List Token → Reply AstNode
  compared_with left [] = parsed left []
  compared_with left (t ∷ rest) =
      if is_comparison t.kind
      then (parse_add_expr rest ▷ λ right after.
          parsed (binary_op (spot_of t) (operator_of t.value) left right []) after)
      else parsed left (t ∷ rest)

  unfoldable pub parse_compare_expr : List Token → Reply AstNode
  parse_compare_expr tokens = parse_add_expr tokens ▷ compared_with

  unfoldable pub parse_not_expr : List Token → Reply AstNode
  parse_not_expr [] = parse_compare_expr []
  parse_not_expr (t ∷ rest) =
      let negated =
        parse_not_expr rest ▷ λ node after. parsed (unary_op (spot_of t) op_not node []) after in
      if is_not t.kind then negated else parse_compare_expr (t ∷ rest)

  unfoldable pub parse_and_expr : List Token → Reply AstNode
  parse_and_expr = level fuel is_and (λ t. op_and) parse_not_expr

  unfoldable pub parse_or_expr : List Token → Reply AstNode
  parse_or_expr = level fuel is_or (λ t. op_or) parse_and_expr
