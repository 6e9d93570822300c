-- ===== src/Parser/Operands.antt =====
-- The parser on the grammar, up to products: parentheses, calls and their arguments, signs.
use skibidi_ql.Prelude.{
  ℕ, zero, suc, ◌≤◌, ◌<◌, ◌≡◌, refl, ap, false, Option, List, [], ◌∷◌, ◌++◌, arith, length,
  length-append,
}
use mathlib.Core.List.{append_assoc}
use skibidi_ql.Ast.{Text, AstNode}
use skibidi_ql.Lexer.Token as Tokens
use skibidi_ql.Lexer.Token.{Token, TokenType, rparen}
use skibidi_ql.Parser.State.{
  Reply, parsed, ◌▷◌, next_is, expect, more_items, items, is_comma, is_dot, is_lparen, is_rparen,
}
use skibidi_ql.Parser.Kinds.{operator_of, is_not, is_product, is_minus}
use skibidi_ql.Parser.Expr.{
  parse_primary_expr, parse_primary_from, parse_name, parse_qualified, parse_function_call,
  parse_arguments, parse_unary_expr, parse_mul_expr, parse_compare_expr, parse_not_expr,
}
use skibidi_ql.Parser.Grammar.{
  token, or_level, mul_level, unary_level, primary_level, Derives, mul_one, mul_more, unary_one,
  unary_more, an_integer, a_float, a_string, a_null, a_column, a_qualified, a_group, a_call,
  DerivesArgs, last_arg, next_arg, after_name, after_unary, after_and,
}
use skibidi_ql.Parser.Rounds.{Runs, runs_one, runs_more, runs_end}
use skibidi_ql.Parser.Levels.{
  Derives-Headed, Headed-append, Headed-slay, Headed-rparen, Headed-minus, product_ends,
  next_is_left, next_is_right,
}

more_items_end :
    (rounds : ℕ) (item : List Token → Reply AstNode) (ts : List Token)
    → next_is is_comma ts ≡ false
    → more_items rounds item ts ≡ parsed [] ts
unfolding more_items
more_items_end rounds item [] h = refl
more_items_end zero item (t ∷ ts) h = rw h refl
more_items_end (suc rounds) item (t ∷ ts) h = rw h refl

args-rparen :
    {stod : Text → Option ℕ} {args : List AstNode} (ts rest : List Token)
    → DerivesArgs stod args ts
    → next_is is_rparen (ts ++ rest) ≡ false
args-rparen ts rest (last_arg d) = Headed-rparen ts rest (Derives-Headed d)
args-rparen _ rest (next_arg {before = before} text spot d more) =
    Headed-rparen _ rest (Headed-append _ (Derives-Headed d))

module _ (stod : Text → Option ℕ) (end : Token) (fuel : ℕ) (self sub : List Token → Reply AstNode)
    (reads : (e : AstNode) (ts rest : List Token)
      → Derives stod or_level e ts
      → length ts < fuel
      → next_is after_and rest ≡ false
      → self (ts ++ rest) ≡ parsed e rest) where
  args_lem :
      (rounds : ℕ) (args : List AstNode) (ts : List Token) (close : Token) (rest : List Token)
      → DerivesArgs stod args ts
      → length ts < fuel
      → length ts ≤ rounds
      → next_is after_and (close ∷ rest) ≡ false
      → next_is is_comma (close ∷ rest) ≡ false
      → items rounds self (ts ++ (close ∷ rest)) ≡ parsed args (close ∷ rest)
  unfolding items more_items
  args_lem rounds _ ts close rest (last_arg {e = e} d) short enough ends last =
      rw (reads e ts (close ∷ rest) d short ends, more_items_end rounds self (close ∷ rest) last)
        refl
  args_lem zero _ _ close rest (next_arg {before = before} {behind = behind} text spot d more) short
        enough ends last =
      absurd (omega (arith, enough, length-append before (token Tokens.comma text spot ∷ behind)))
  args_lem (suc rounds) _ _ close rest
        (next_arg {e = e} {args = args} {before = before} {behind = behind} text spot d more) short
        enough ends last =
      rw
        (
          append_assoc before (token Tokens.comma text spot ∷ behind) (close ∷ rest),
          reads e before (token Tokens.comma text spot ∷ (behind ++ (close ∷ rest))) d
              (omega (arith, short, length-append before (token Tokens.comma text spot ∷ behind)))
              refl,
        )
        (ap (λ r. r ▷ λ xs last_rest. parsed (e ∷ xs) last_rest)
          (args_lem rounds args behind close rest more
            (omega (arith, short, length-append before (token Tokens.comma text spot ∷ behind)))
            (omega (arith, enough, length-append before (token Tokens.comma text spot ∷ behind)))
            ends last))

  primary_lem :
      (e : AstNode) (ts rest : List Token)
      → Derives stod primary_level e ts
      → length ts ≤ fuel
      → next_is after_name rest ≡ false
      → parse_primary_expr stod end fuel self sub (ts ++ rest) ≡ parsed e rest
  unfolding parse_primary_from parse_name parse_qualified parse_function_call parse_arguments expect
  primary_lem _ _ rest (an_integer i) short ends = rw i refl
  primary_lem _ _ rest (a_float r) short ends = rw r refl
  primary_lem _ _ rest a_string short ends = refl
  primary_lem _ _ rest a_null short ends = refl
  primary_lem _ _ rest a_column short ends =
      rw (next_is_left is_dot is_lparen rest ends, next_is_right is_dot is_lparen rest ends) refl
  primary_lem _ _ rest a_qualified short ends = rw (next_is_right is_dot is_lparen rest ends) refl
  primary_lem e _ rest (a_group {ts = ts} text spot d) short ends =
      rw
        (
          append_assoc ts (token rparen text spot ∷ []) rest,
          Headed-slay ts (token rparen text spot ∷ rest) (Derives-Headed d),
          reads e ts (token rparen text spot ∷ rest) d
              (omega (arith, short, length-append ts (token rparen text spot ∷ []))) refl,
        )
        refl
  primary_lem _ _ rest (a_call {args = args} {ts = ts} text spot plain d) short ends =
      rw
        (
          append_assoc ts (token rparen text spot ∷ []) rest,
          plain,
          args-rparen ts (token rparen text spot ∷ rest) d,
          args_lem fuel args ts (token rparen text spot) rest d
              (omega (arith, short, length-append ts (token rparen text spot ∷ [])))
              (omega (arith, short, length-append ts (token rparen text spot ∷ []))) refl refl,
        )
        refl

  unary_skip :
      (ts : List Token)
      → next_is is_minus ts ≡ false
      → parse_unary_expr stod end fuel self sub ts ≡ parse_primary_expr stod end fuel self sub ts
  unfolding parse_unary_expr
  unary_skip [] h = refl
  unary_skip (t ∷ ts) h = rw h refl

  pub not_skip :
      (ts : List Token)
      → next_is is_not ts ≡ false
      → parse_not_expr stod end fuel self sub ts ≡ parse_compare_expr stod end fuel self sub ts
  unfolding parse_not_expr
  not_skip [] h = refl
  not_skip (t ∷ ts) h = rw h refl

  unary_lem :
      (e : AstNode) (ts rest : List Token)
      → Derives stod unary_level e ts
      → length ts ≤ fuel
      → next_is after_name rest ≡ false
      → parse_unary_expr stod end fuel self sub (ts ++ rest) ≡ parsed e rest
  unfolding parse_unary_expr
  unary_lem e ts rest (unary_one d) short ends =
      rw
        (
          unary_skip (ts ++ rest) (Headed-minus ts rest (Derives-Headed d)),
          primary_lem e ts rest d short ends,
        )
        refl
  unary_lem _ _ rest (unary_more {e = e} {ts = ts} d) short ends =
      rw (unary_lem e ts rest d (omega (arith, short)) ends) refl

  mul_runs :
      (e : AstNode) (ts rest : List Token)
      → Derives stod mul_level e ts
      → length ts ≤ fuel
      → next_is after_name rest ≡ false
      → Runs fuel is_product
          (λ t. operator_of t.value)
          (parse_unary_expr stod end fuel self sub)
          e
          ts
          rest
  mul_runs e ts rest (mul_one d) short ends =
      runs_one _ _ _ _ e ts rest (unary_lem e ts rest d short ends)
  mul_runs _ _ rest
        (mul_more {left = left} {right = right} {before = before} {behind = behind} t d op r) short
        ends =
      runs_more _ _ _ _ left right before t behind rest short
        (mul_runs left before (t ∷ (behind ++ rest)) d
          (omega (arith, short, length-append before (t ∷ behind))) (product_ends t.kind op))
        op
        (unary_lem right behind rest r (omega (arith, short, length-append before (t ∷ behind)))
          ends)

  pub mul_lem :
      (e : AstNode) (ts rest : List Token)
      → Derives stod mul_level e ts
      → length ts ≤ fuel
      → next_is after_unary rest ≡ false
      → parse_mul_expr stod end fuel self sub (ts ++ rest) ≡ parsed e rest
  unfolding parse_mul_expr
  mul_lem e ts rest d short ends =
      runs_end _ _ _ _ e ts rest
        (mul_runs e ts rest d short (next_is_left after_name is_product rest ends))
        (next_is_right after_name is_product rest ends)
