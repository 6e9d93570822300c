-- ===== src/Parser/ReachExpr.antt =====
-- The expression parsers return, without running out of fuel, where what they recur to does.
use skibidi_ql.Prelude.{
  ℕ, ◌≤◌, ◌<◌, ◌&&◌, Bool, true, false, Option, none, some, List, [], ◌∷◌, arith, length, bytes_eq,
}
use skibidi_ql.Ast.{Text, Spot, AstNode, AstList, no_nodes}
use skibidi_ql.Lexer.Token.{
  Token, TokenType, codes, integer_lit, float_lit, string_lit, ghosted, lparen, star, era,
  headcount, stack, mid, goat, l_func, biggest_w, biggest_l, mid_fr, percent_check, lone_wolf,
  identifier,
}
use skibidi_ql.Parser.State.{
  Reply, rest_of, next_is, is_identifier, spot_of, is_rparen, is_lparen, is_star, is_dot,
}
use skibidi_ql.Parser.Kinds.{
  is_product, is_sum, is_and, is_or, is_minus, is_comparison, is_not, is_slay, is_unique_fr,
  is_down_bad, is_up_only, is_split_by, is_hits_different,
}
use skibidi_ql.Parser.Expr.{
  stoll, parse_column_list, parse_order_item, parse_order_list, parse_arguments,
  parse_function_call, parse_era_expr, ordered_era, closed_call, in_parentheses, call_or_column,
  parse_qualified, parse_name, parse_primary_from, parse_primary_expr, parse_unary_expr,
  parse_mul_expr, parse_add_expr, compared_with, parse_compare_expr, parse_not_expr, parse_and_expr,
  parse_or_expr, int_literal, float_literal,
}
use skibidi_ql.Parser.Reach.{
  Within, within, refusal, Within-weaken, bind-Within, if-Within, Reaches, length-rest_of,
  expect-Within, items-Within, level-Reaches,
}

module _ (stod : Text → Option ℕ) (end : Token) (fuel : ℕ) {self sub : List Token → Reply AstNode}
    (reach : (tokens : List Token) → length tokens < fuel → Within (length tokens) (self tokens))
    (reach_sub : (tokens : List Token)
      → length tokens < fuel
      → Within (length tokens) (sub tokens)) where
  self-Reaches : (most : ℕ) → most < fuel → Reaches most self
  self-Reaches most lt tokens h = reach tokens (omega (arith, lt, h))

  pub column_list-Within :
      (tokens : List Token)
      → length tokens < fuel
      → Within (length tokens) (parse_column_list stod end fuel self sub tokens)
  unfolding parse_column_list
  column_list-Within tokens h =
      bind-Within
        (items-Within (length tokens) (self-Reaches _ h) fuel tokens (omega arith)
          (omega (arith, h)))
        (λ nodes rest l. within l)

  parse_order_item-Within :
      (tokens : List Token)
      → length tokens < fuel
      → Within (length tokens) (parse_order_item stod end fuel self sub tokens)
  unfolding parse_order_item
  parse_order_item-Within tokens h = bind-Within (reach tokens h) (λ node rest l.
      if-Within (next_is is_down_bad rest) (within (omega (arith, l, length-rest_of rest))) (
        if-Within (next_is is_up_only rest) (within (omega (arith, l, length-rest_of rest)))
          (within l)))

  pub order_list-Within :
      (tokens : List Token)
      → length tokens < fuel
      → Within (length tokens) (parse_order_list stod end fuel self sub tokens)
  unfolding parse_order_list
  order_list-Within tokens h =
      bind-Within
        (items-Within (length tokens) (λ ts k. parse_order_item-Within ts (omega (arith, k, h)))
          fuel tokens (omega arith) (omega (arith, h)))
        (λ nodes rest l. within l)

  closed_call-Within :
      (name : Text) (spot : Spot) (distinct : Bool) (args : AstList) (tokens : List Token)
      → Within (length tokens) (closed_call stod end fuel self sub name spot distinct args tokens)
  closed_call-Within name spot distinct args tokens =
      bind-Within (expect-Within end is_rparen _ tokens)
        (λ t rest l. within (omega (arith, l, length-rest_of tokens)))

  arguments-Within :
      (name : Text) (spot : Spot) (tokens : List Token)
      → length tokens < fuel
      → Within (length tokens) (parse_arguments stod end fuel self sub name spot tokens)
  unfolding parse_arguments
  arguments-Within name spot tokens h =
      if-Within (bytes_eq name (codes "headcount") && next_is is_star tokens)
        (Within-weaken (length-rest_of tokens)
          (closed_call-Within name spot false _ (rest_of tokens)))
        (if-Within (bytes_eq name (codes "headcount") && next_is is_unique_fr tokens)
          (bind-Within (reach (rest_of tokens) (omega (arith, h, length-rest_of tokens)))
            (λ arg rest l.
              Within-weaken (omega (arith, l, length-rest_of tokens))
                (closed_call-Within name spot true _ rest)))
          (if-Within (next_is is_rparen tokens) (within (length-rest_of tokens)) (
            bind-Within
              (items-Within (length tokens) (self-Reaches _ h) fuel tokens (omega arith)
                (omega (arith, h)))
              (λ args rest l. Within-weaken l (closed_call-Within name spot false _ rest)))))

  function_call-Within :
      (name : Text) (spot : Spot) (tokens : List Token)
      → length tokens < fuel
      → Within (length tokens) (parse_function_call stod end fuel self sub name spot tokens)
  unfolding parse_function_call
  function_call-Within name spot tokens h =
      bind-Within (expect-Within end is_lparen _ tokens) (λ t rest l.
        Within-weaken (omega (arith, l, length-rest_of tokens))
          (arguments-Within name spot rest (omega (arith, l, h, length-rest_of tokens))))

  ordered_era-Within :
      (spot : Spot) (partition : AstList) (tokens : List Token)
      → length tokens < fuel
      → Within (length tokens) (ordered_era stod end fuel self sub spot partition tokens)
  ordered_era-Within spot partition tokens h =
      bind-Within (expect-Within end is_hits_different _ tokens) (λ t rest l.
        bind-Within (order_list-Within rest (omega (arith, l, h, length-rest_of tokens)))
          (λ order after k. within (omega (arith, l, k, length-rest_of tokens))))

  era_expr-Within :
      (spot : Spot) (tokens : List Token)
      → length tokens < fuel
      → Within (length tokens) (parse_era_expr stod end fuel self sub spot tokens)
  unfolding parse_era_expr
  era_expr-Within spot tokens h =
      if-Within (next_is is_split_by tokens)
        (bind-Within (column_list-Within (rest_of tokens) (omega (arith, h, length-rest_of tokens)))
          (λ partition rest l.
            Within-weaken (omega (arith, l, length-rest_of tokens)) (
              ordered_era-Within spot partition rest (omega (arith, l, h, length-rest_of tokens)))))
        (ordered_era-Within spot no_nodes tokens h)

  parentheses-Within :
      (most : ℕ) (reply : Reply AstNode)
      → Within most reply
      → Within most (in_parentheses stod end fuel self sub reply)
  parentheses-Within most reply h = bind-Within h (λ node rest l.
      bind-Within (expect-Within end is_rparen _ rest)
        (λ t after k. within (omega (arith, l, k, length-rest_of rest))))

  call_or_column-Within :
      (t : Token) (name table column : Text) (tokens : List Token)
      → length tokens < fuel
      → Within (length tokens) (call_or_column stod end fuel self sub t name table column tokens)
  call_or_column-Within t name table column tokens h =
      if-Within (next_is is_lparen tokens) (function_call-Within name (spot_of t) tokens h)
        (within (omega arith))

  name-Within :
      (t : Token) (tokens : List Token)
      → length tokens < fuel
      → Within (length tokens) (parse_name stod end fuel self sub t tokens)
  unfolding parse_name parse_qualified
  name-Within t tokens h =
      if-Within (next_is is_dot tokens)
        (if-Within (next_is is_star (rest_of tokens))
          (within (omega (arith, length-rest_of tokens, length-rest_of (rest_of tokens))))
          (bind-Within (expect-Within end is_identifier _ (rest_of tokens)) (λ column after l.
            Within-weaken (omega (arith, l, length-rest_of tokens, length-rest_of (rest_of tokens)))
              (call_or_column-Within t _ t.value column.value after
                (omega (arith, h, l, length-rest_of tokens, length-rest_of (rest_of tokens)))))))
        (call_or_column-Within t t.value [] t.value tokens h)

  int_literal-Within :
      (spot : Spot) (i : Option ℕ) (rest : List Token)
      → Within (length rest) (int_literal spot i rest)
  int_literal-Within spot none rest = refusal
  int_literal-Within spot (some i) rest = within (omega arith)

  float_literal-Within :
      (spot : Spot) (r : Option ℕ) (rest : List Token)
      → Within (length rest) (float_literal spot r rest)
  float_literal-Within spot none rest = refusal
  float_literal-Within spot (some r) rest = within (omega arith)

  primary-Within :
      (kind : TokenType) (t : Token) (rest : List Token)
      → length rest < fuel
      → Within (length rest) (parse_primary_from stod end fuel self sub kind t rest)
  unfolding parse_primary_from
  primary-Within integer_lit t rest h = int_literal-Within (spot_of t) (stoll t.value) rest
  primary-Within float_lit t rest h = float_literal-Within (spot_of t) (stod t.value) rest
  primary-Within string_lit t rest h = within (omega arith)
  primary-Within ghosted t rest h = within (omega arith)
  primary-Within lparen t rest h =
      if-Within (next_is is_slay rest) (parentheses-Within _ _ (reach_sub rest h))
        (parentheses-Within _ _ (reach rest h))
  primary-Within star t rest h = within (omega arith)
  primary-Within era t rest h = era_expr-Within (spot_of t) rest h
  primary-Within headcount t rest h = function_call-Within t.value (spot_of t) rest h
  primary-Within stack t rest h = function_call-Within t.value (spot_of t) rest h
  primary-Within mid t rest h = function_call-Within t.value (spot_of t) rest h
  primary-Within goat t rest h = function_call-Within t.value (spot_of t) rest h
  primary-Within l_func t rest h = function_call-Within t.value (spot_of t) rest h
  primary-Within biggest_w t rest h = function_call-Within t.value (spot_of t) rest h
  primary-Within biggest_l t rest h = function_call-Within t.value (spot_of t) rest h
  primary-Within mid_fr t rest h = function_call-Within t.value (spot_of t) rest h
  primary-Within percent_check t rest h = function_call-Within t.value (spot_of t) rest h
  primary-Within lone_wolf t rest h = function_call-Within t.value (spot_of t) rest h
  primary-Within identifier t rest h = name-Within t rest h
  primary-Within kind t rest h = refusal

  primary-Reaches : Reaches fuel (parse_primary_expr stod end fuel self sub)
  primary-Reaches [] h = refusal
  primary-Reaches (t ∷ rest) h =
      Within-weaken (omega arith) (primary-Within t.kind t rest (omega (arith, h)))

  unary-Reaches : Reaches fuel (parse_unary_expr stod end fuel self sub)
  unfolding parse_unary_expr
  unary-Reaches [] h = primary-Reaches [] h
  unary-Reaches (t ∷ rest) h =
      if-Within (is_minus t.kind)
        (bind-Within (unary-Reaches rest (omega (arith, h)))
          (λ node after l. within (omega (arith, l))))
        (primary-Reaches (t ∷ rest) h)

  add-Reaches : Reaches fuel (parse_add_expr stod end fuel self sub)
  unfolding parse_add_expr parse_mul_expr
  add-Reaches = level-Reaches fuel is_sum _ (level-Reaches fuel is_product _ unary-Reaches)

  compare-Reaches : Reaches fuel (parse_compare_expr stod end fuel self sub)
  unfolding parse_compare_expr
  compare-Reaches tokens h =
      bind-Within (add-Reaches tokens h)
        (λ left rest l. Within-weaken l (compared-Within left rest (omega (arith, l, h))))
    where
      compared-Within :
          (left : AstNode) (ts : List Token)
          → length ts ≤ fuel
          → Within (length ts) (compared_with stod end fuel self sub left ts)
      compared-Within left [] k = within (omega arith)
      compared-Within left (t ∷ rest) k =
          if-Within (is_comparison t.kind)
            (bind-Within (add-Reaches rest (omega (arith, k)))
              (λ right after l. within (omega (arith, l))))
            (within (omega arith))

  not-Reaches : Reaches fuel (parse_not_expr stod end fuel self sub)
  unfolding parse_not_expr
  not-Reaches [] h = compare-Reaches [] h
  not-Reaches (t ∷ rest) h =
      if-Within (is_not t.kind)
        (bind-Within (not-Reaches rest (omega (arith, h)))
          (λ node after l. within (omega (arith, l))))
        (compare-Reaches (t ∷ rest) h)

  pub or-Reaches : Reaches fuel (parse_or_expr stod end fuel self sub)
  unfolding parse_or_expr parse_and_expr
  or-Reaches = level-Reaches fuel is_or _ (level-Reaches fuel is_and _ not-Reaches)
