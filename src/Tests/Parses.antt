-- ===== src/Tests/Parses.antt =====
-- Parsing on concrete tokens.
use skibidi_ql.Prelude.{compare_bytes, ℕ, ◌≡◌, refl, Option, none, List, [], ◌∷◌, ◌++◌, arith}
use skibidi_ql.Ast.{
  Text, Spot, AstNode, literal, column_ref, int, op_plus, op_times, binary_op, no_node, some_node,
}
use skibidi_ql.Lexer.Token.{
  Token, codes, integer_lit, identifier, plus_op, star, no_cap, eof_token, ratio, semicolon,
  rizz_down, glow_up, be_like, eq, only_if,
}
use skibidi_ql.Parser.State.{expect, parsed}
use skibidi_ql.Parser.Kinds.{operator_of}
use skibidi_ql.Parser.Expr.{stoll, digits_value}
use skibidi_ql.Parser.Select.{parse_expr}
use skibidi_ql.Parser.Reach.{Within}
use skibidi_ql.Ast.Statements.{delete_stmt, drop_stmt, update_stmt}
use skibidi_ql.Parser.Program.{
  parse_all, parse_statements, parse_statement, parse_by_keyword, skip_semicolons,
}
use skibidi_ql.Parser.Tables.{parse_delete, parse_drop}
use skibidi_ql.Parser.Select.{optional}
use skibidi_ql.Parser.ReachProgram.{parse_all-Within}
use skibidi_ql.Parser.Grammar.{
  token, Derives, or_level, or_one, and_one, not_one, compare_one, add_one, add_more, mul_one,
  mul_more, unary_one, an_integer, a_column,
}
use skibidi_ql.Parser.Complete.{parse_expr-Derives}
use skibidi_ql.Parser.Updates.{parse_statement-Assigns, last_one, assigns}

abbrev at : ℕ → Spot
at col = record { line = 1; col = col }

abbrev end_token : Token
end_token = token eof_token [] (at 9)

abbrev no_floats : Text → Option ℕ
no_floats text = none

-- 1 + 2 * x
abbrev sum_tokens : List Token
sum_tokens =
    token integer_lit (codes "1") (at 1)
    ∷ token plus_op (codes "+") (at 3)
    ∷ token integer_lit (codes "2") (at 5)
    ∷ token star (codes "*") (at 7)
    ∷ token identifier (codes "x") (at 9)
    ∷ []

abbrev sum_tree : AstNode
sum_tree =
    binary_op (at 3) op_plus (literal (at 1) (int 1))
      (binary_op (at 7) op_times (literal (at 5) (int 2)) (column_ref (at 9) [] (codes "x") []) [])
      []

sum-Derives : Derives no_floats or_level sum_tree sum_tokens
unfolding operator_of stoll digits_value compare_bytes
sum-Derives = or_one (
    and_one (
      not_one (
        compare_one (
          add_more {before = token integer_lit (codes "1") (at 1) ∷ []}
            (token plus_op (codes "+") (at 3)) (add_one (mul_one (unary_one (an_integer refl))))
            refl
            (mul_more {before = token integer_lit (codes "2") (at 5) ∷ []}
              (token star (codes "*") (at 7)) (mul_one (unary_one (an_integer refl))) refl
              (unary_one a_column))))))

-- ratio t ; ; rizz-down t
abbrev program_tokens : List Token
program_tokens =
    token ratio (codes "ratio") (at 1)
    ∷ token identifier (codes "t") (at 7)
    ∷ token semicolon (codes ";") (at 8)
    ∷ token semicolon (codes ";") (at 9)
    ∷ token rizz_down (codes "rizz-down") (at 11)
    ∷ token identifier (codes "t") (at 21)
    ∷ []

program_parses :
    parse_all no_floats end_token 7 program_tokens
    ≡ parsed (delete_stmt (at 1) (codes "t") no_node ∷ drop_stmt (at 11) (codes "t") ∷ []) []
unfolding parse_all parse_statements parse_statement parse_by_keyword parse_delete parse_drop expect
    optional skip_semicolons
program_parses = refl

parse_all-Within_example : Within 0 (parse_all no_floats end_token 7 program_tokens)
parse_all-Within_example = parse_all-Within no_floats end_token 7 program_tokens (omega arith)

parse_expr-Derives_example :
    parse_expr no_floats end_token 6 (sum_tokens ++ (token no_cap (codes "no-cap") (at 11) ∷ []))
    ≡ parsed sum_tree (token no_cap (codes "no-cap") (at 11) ∷ [])
parse_expr-Derives_example =
    parse_expr-Derives no_floats end_token 6 sum_tree sum_tokens
      (token no_cap (codes "no-cap") (at 11) ∷ []) sum-Derives (omega arith) refl

-- x, at a place.
column-Derives :
    (col : ℕ)
    → Derives no_floats or_level
        (column_ref (at col) [] (codes "x") [])
        (token identifier (codes "x") (at col) ∷ [])
column-Derives col =
    or_one (and_one (not_one (compare_one (add_one (mul_one (unary_one a_column))))))

-- glow-up t be-like x = 1 + 2 * x only-if x
parse_statement-Assigns_example :
    parse_statement no_floats end_token 9 (
      token glow_up (codes "glow-up") (at 1)
      ∷ token identifier (codes "t") (at 2)
      ∷ token be_like (codes "be-like") (at 3)
      ∷ ((token identifier (codes "x") (at 4) ∷ token eq (codes "=") (at 5) ∷ sum_tokens)
          ++ (token only_if (codes "only-if") (at 6)
              ∷ (token identifier (codes "x") (at 7) ∷ [] ++ []))))
    ≡ parsed
        (update_stmt
          (at 1)
          (codes "t")
          ((codes "x", sum_tree) ∷ [])
          (some_node (column_ref (at 7) [] (codes "x") [])))
        []
parse_statement-Assigns_example =
    parse_statement-Assigns no_floats end_token 9 (codes "glow-up") (codes "t") (codes "be-like")
      (codes "only-if") (at 1) (at 2) (at 3) (at 6) ((codes "x", sum_tree) ∷ [])
      (token identifier (codes "x") (at 4) ∷ token eq (codes "=") (at 5) ∷ sum_tokens)
      (column_ref (at 7) [] (codes "x") []) (token identifier (codes "x") (at 7) ∷ []) []
      (last_one (assigns sum-Derives)) (column-Derives 7) (omega arith) (omega arith) refl
