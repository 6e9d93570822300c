-- ===== src/Parser/Grammar.antt =====
-- The grammar of expressions by levels of precedence, as it is meant: which tokens stand for which tree.
use skibidi_ql.Prelude.{
  ℕ, ◌≡◌, Bool, true, false, ◌||◌, Option, some, List, [], ◌∷◌, ◌++◌, bytes_eq,
}
use skibidi_ql.Ast.{
  Text, Spot, int, float, string, nul, op_and, op_or, op_not, op_minus, AstNode, literal,
  column_ref, binary_op, unary_op, function_call,
}
use skibidi_ql.Lexer.Token.{
  Token, TokenType, codes, lparen, rparen, comma, dot, identifier, integer_lit, float_lit,
  string_lit, ghosted, no_cap_not, minus,
}
use skibidi_ql.Parser.State.{spot_of, is_dot, is_lparen}
use skibidi_ql.Parser.Kinds.{operator_of, is_or, is_and, is_comparison, is_sum, is_product}
use skibidi_ql.Parser.Expr.{node_list, stoll}

abbrev pub token : TokenType → Text → Spot → Token
token kind value spot = record { kind = kind; value = value; line = spot.line; col = spot.col }

pub data Level : Type 0 where
  or_level and_level not_level compare_level add_level mul_level unary_level primary_level : Level

mutual
  pub data Derives (stod : Text → Option ℕ) : Level → AstNode → List Token → Type 0 where
    or_one :
        {e : AstNode} {ts : List Token} → Derives stod and_level e ts → Derives stod or_level e ts
    or_more :
        {left right : AstNode} {before behind : List Token} (t : Token)
        → Derives stod or_level left before
        → is_or t.kind ≡ true
        → Derives stod and_level right behind
        → Derives stod or_level (binary_op (spot_of t) op_or left right []) (before ++ (t ∷ behind))
    and_one :
        {e : AstNode} {ts : List Token} → Derives stod not_level e ts → Derives stod and_level e ts
    and_more :
        {left right : AstNode} {before behind : List Token} (t : Token)
        → Derives stod and_level left before
        → is_and t.kind ≡ true
        → Derives stod not_level right behind
        → Derives stod and_level
            (binary_op (spot_of t) op_and left right [])
            (before ++ (t ∷ behind))
    not_one :
        {e : AstNode} {ts : List Token}
        → Derives stod compare_level e ts
        → Derives stod not_level e ts
    not_more :
        {e : AstNode} {ts : List Token} {text : Text} {spot : Spot}
        → Derives stod not_level e ts
        → Derives stod not_level (unary_op spot op_not e []) (token no_cap_not text spot ∷ ts)
    compare_one :
        {e : AstNode} {ts : List Token}
        → Derives stod add_level e ts
        → Derives stod compare_level e ts
    compare_two :
        {left right : AstNode} {before behind : List Token} (t : Token)
        → Derives stod add_level left before
        → is_comparison t.kind ≡ true
        → Derives stod add_level right behind
        → Derives stod compare_level
            (binary_op (spot_of t) (operator_of t.value) left right [])
            (before ++ (t ∷ behind))
    add_one :
        {e : AstNode} {ts : List Token} → Derives stod mul_level e ts → Derives stod add_level e ts
    add_more :
        {left right : AstNode} {before behind : List Token} (t : Token)
        → Derives stod add_level left before
        → is_sum t.kind ≡ true
        → Derives stod mul_level right behind
        → Derives stod add_level
            (binary_op (spot_of t) (operator_of t.value) left right [])
            (before ++ (t ∷ behind))
    mul_one :
        {e : AstNode} {ts : List Token}
        → Derives stod unary_level e ts
        → Derives stod mul_level e ts
    mul_more :
        {left right : AstNode} {before behind : List Token} (t : Token)
        → Derives stod mul_level left before
        → is_product t.kind ≡ true
        → Derives stod unary_level right behind
        → Derives stod mul_level
            (binary_op (spot_of t) (operator_of t.value) left right [])
            (before ++ (t ∷ behind))
    unary_one :
        {e : AstNode} {ts : List Token}
        → Derives stod primary_level e ts
        → Derives stod unary_level e ts
    unary_more :
        {e : AstNode} {ts : List Token} {text : Text} {spot : Spot}
        → Derives stod unary_level e ts
        → Derives stod unary_level (unary_op spot op_minus e []) (token minus text spot ∷ ts)
    an_integer :
        {text : Text} {spot : Spot} {i : ℕ}
        → stoll text ≡ some i
        → Derives stod primary_level (literal spot (int i)) (token integer_lit text spot ∷ [])
    a_float :
        {text : Text} {spot : Spot} {r : ℕ}
        → stod text ≡ some r
        → Derives stod primary_level (literal spot (float r)) (token float_lit text spot ∷ [])
    a_string :
        {text : Text} {spot : Spot}
        → Derives stod primary_level (literal spot (string text)) (token string_lit text spot ∷ [])
    a_null :
        {text : Text} {spot : Spot}
        → Derives stod primary_level (literal spot nul) (token ghosted text spot ∷ [])
    a_column :
        {name : Text} {spot : Spot}
        → Derives stod primary_level (column_ref spot [] name []) (token identifier name spot ∷ [])
    a_qualified :
        {table name dot_text : Text} {spot dot_spot name_spot : Spot}
        → Derives stod primary_level (column_ref spot table name []) (
            token identifier table spot
            ∷ token dot dot_text dot_spot
            ∷ token identifier name name_spot
            ∷ [])
    a_group :
        {e : AstNode} {ts : List Token} {open_text : Text} {open_spot : Spot} (close_text : Text)
        (close_spot : Spot)
        → Derives stod or_level e ts
        → Derives stod primary_level e
            (token lparen open_text open_spot ∷ (ts ++ (token rparen close_text close_spot ∷ [])))
    a_call :
        {name open_text : Text} {spot open_spot : Spot} {args : List AstNode} {ts : List Token}
        (close_text : Text) (close_spot : Spot)
        → bytes_eq name (codes "headcount") ≡ false
        → DerivesArgs stod args ts
        → Derives stod primary_level (function_call spot name (node_list args) false []) (
            token identifier name spot
            ∷ token lparen open_text open_spot
            ∷ (ts ++ (token rparen close_text close_spot ∷ [])))

  -- One argument or more, with commas.
  pub data DerivesArgs (stod : Text → Option ℕ) : List AstNode → List Token → Type 0 where
    last_arg :
        {e : AstNode} {ts : List Token} → Derives stod or_level e ts → DerivesArgs stod (e ∷ []) ts
    next_arg :
        {e : AstNode} {args : List AstNode} {before behind : List Token} (text : Text) (spot : Spot)
        → Derives stod or_level e before
        → DerivesArgs stod args behind
        → DerivesArgs stod (e ∷ args) (before ++ (token comma text spot ∷ behind))

-- The tokens with which an expression of each level would go on.
abbrev pub after_name : TokenType → Bool
after_name kind = is_dot kind || is_lparen kind

abbrev pub after_unary : TokenType → Bool
after_unary kind = after_name kind || is_product kind

abbrev pub after_mul : TokenType → Bool
after_mul kind = after_unary kind || is_sum kind

abbrev pub after_add : TokenType → Bool
after_add kind = after_mul kind || is_comparison kind

abbrev pub after_compare : TokenType → Bool
after_compare kind = after_add kind || is_and kind

abbrev pub after_and : TokenType → Bool
after_and kind = after_compare kind || is_or kind
