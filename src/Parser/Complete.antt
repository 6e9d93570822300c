-- ===== src/Parser/Complete.antt =====
-- The expression parser accepts the grammar: precedence, associativity, parentheses and calls.
use skibidi_ql.Prelude.{
  ℕ, zero, suc, ◌≤◌, ◌<◌, ◌≡◌, refl, false, Option, List, [], ◌∷◌, ◌++◌, arith, length,
  length-append,
}
use mathlib.Core.List.{append_assoc}
use skibidi_ql.Ast.{Text, op_and, op_or, AstNode}
use skibidi_ql.Lexer.Token.{Token}
use skibidi_ql.Parser.State.{Reply, parsed, next_is}
use skibidi_ql.Parser.Kinds.{operator_of, is_or, is_and, is_comparison, is_sum}
use skibidi_ql.Parser.Expr.{
  parse_mul_expr, parse_add_expr, parse_compare_expr, compared_with, parse_not_expr, parse_and_expr,
  parse_or_expr,
}
use skibidi_ql.Parser.Grammar.{
  or_level, and_level, not_level, compare_level, add_level, Derives, or_one, or_more, and_one,
  and_more, not_one, not_more, compare_one, compare_two, add_one, add_more, after_unary, after_mul,
  after_add, after_compare, after_and,
}
use skibidi_ql.Parser.Rounds.{Runs, runs_one, runs_more, runs_end}
use skibidi_ql.Parser.Operands.{mul_lem, not_skip}
use skibidi_ql.Parser.Levels.{
  Derives-Headed, Headed-not, sum_ends, comparison_ends, and_ends, or_ends, next_is_left,
  next_is_right,
}
use skibidi_ql.Parser.Select.{parse_expr, parse_select}

module _ (stod : Text → Option ℕ) (end : Token) (fuel : ℕ) (self sub : List Token → Reply AstNode)
    (reads : (e : AstNode) (ts rest : List Token)
      → Derives stod or_level e ts
      → length ts < fuel
      → next_is after_and rest ≡ false
      → self (ts ++ rest) ≡ parsed e rest) where
  add_runs :
      (e : AstNode) (ts rest : List Token)
      → Derives stod add_level e ts
      → length ts ≤ fuel
      → next_is after_unary rest ≡ false
      → Runs fuel is_sum
          (λ t. operator_of t.value)
          (parse_mul_expr stod end fuel self sub)
          e
          ts
          rest
  add_runs e ts rest (add_one d) short ends =
      runs_one _ _ _ _ e ts rest (mul_lem stod end fuel self sub reads e ts rest d short ends)
  add_runs _ _ rest
        (add_more {left = left} {right = right} {before = before} {behind = behind} t d op r) short
        ends =
      runs_more _ _ _ _ left right before t behind rest short
        (add_runs left before (t ∷ (behind ++ rest)) d
          (omega (arith, short, length-append before (t ∷ behind))) (sum_ends t.kind op))
        op
        (mul_lem stod end fuel self sub reads right behind rest r
          (omega (arith, short, length-append before (t ∷ behind))) ends)

  add_lem :
      (e : AstNode) (ts rest : List Token)
      → Derives stod add_level e ts
      → length ts ≤ fuel
      → next_is after_mul rest ≡ false
      → parse_add_expr stod end fuel self sub (ts ++ rest) ≡ parsed e rest
  unfolding parse_add_expr
  add_lem e ts rest d short ends =
      runs_end _ _ _ _ e ts rest
        (add_runs e ts rest d short (next_is_left after_unary is_sum rest ends))
        (next_is_right after_unary is_sum rest ends)

  compare_lem :
      (e : AstNode) (ts rest : List Token)
      → Derives stod compare_level e ts
      → length ts ≤ fuel
      → next_is after_add rest ≡ false
      → parse_compare_expr stod end fuel self sub (ts ++ rest) ≡ parsed e rest
  unfolding parse_compare_expr
  compare_lem e ts rest (compare_one d) short ends =
      rw (add_lem e ts rest d short (next_is_left after_mul is_comparison rest ends))
        (compared_end e rest (next_is_right after_mul is_comparison rest ends))
    where
      compared_end :
          (left : AstNode) (us : List Token)
          → next_is is_comparison us ≡ false
          → compared_with stod end fuel self sub left us ≡ parsed left us
      compared_end left [] h = refl
      compared_end left (t ∷ us) h = rw h refl
  compare_lem _ _ rest
        (compare_two {left = left} {right = right} {before = before} {behind = behind} t d op r)
        short ends =
      rw
        (
          append_assoc before (t ∷ behind) rest,
          add_lem left before (t ∷ (behind ++ rest)) d
              (omega (arith, short, length-append before (t ∷ behind))) (comparison_ends t.kind op),
          op,
          add_lem right behind rest r (omega (arith, short, length-append before (t ∷ behind)))
              (next_is_left after_mul is_comparison rest ends),
        )
        refl

  not_lem :
      (e : AstNode) (ts rest : List Token)
      → Derives stod not_level e ts
      → length ts ≤ fuel
      → next_is after_add rest ≡ false
      → parse_not_expr stod end fuel self sub (ts ++ rest) ≡ parsed e rest
  unfolding parse_not_expr
  not_lem e ts rest (not_one d) short ends =
      rw
        (
          not_skip stod end fuel self sub reads (ts ++ rest)
              (Headed-not ts rest (Derives-Headed d)),
          compare_lem e ts rest d short ends,
        )
        refl
  not_lem _ _ rest (not_more {e = e} {ts = ts} d) short ends =
      rw (not_lem e ts rest d (omega (arith, short)) ends) refl

  and_runs :
      (e : AstNode) (ts rest : List Token)
      → Derives stod and_level e ts
      → length ts ≤ fuel
      → next_is after_add rest ≡ false
      → Runs fuel is_and (λ t. op_and) (parse_not_expr stod end fuel self sub) e ts rest
  and_runs e ts rest (and_one d) short ends =
      runs_one _ _ _ _ e ts rest (not_lem e ts rest d short ends)
  and_runs _ _ rest
        (and_more {left = left} {right = right} {before = before} {behind = behind} t d op r) short
        ends =
      runs_more _ _ _ _ left right before t behind rest short
        (and_runs left before (t ∷ (behind ++ rest)) d
          (omega (arith, short, length-append before (t ∷ behind))) (and_ends t.kind op))
        op
        (not_lem right behind rest r (omega (arith, short, length-append before (t ∷ behind))) ends)

  and_lem :
      (e : AstNode) (ts rest : List Token)
      → Derives stod and_level e ts
      → length ts ≤ fuel
      → next_is after_compare rest ≡ false
      → parse_and_expr stod end fuel self sub (ts ++ rest) ≡ parsed e rest
  unfolding parse_and_expr
  and_lem e ts rest d short ends =
      runs_end _ _ _ _ e ts rest
        (and_runs e ts rest d short (next_is_left after_add is_and rest ends))
        (next_is_right after_add is_and rest ends)

  or_runs :
      (e : AstNode) (ts rest : List Token)
      → Derives stod or_level e ts
      → length ts ≤ fuel
      → next_is after_compare rest ≡ false
      → Runs fuel is_or (λ t. op_or) (parse_and_expr stod end fuel self sub) e ts rest
  or_runs e ts rest (or_one d) short ends =
      runs_one _ _ _ _ e ts rest (and_lem e ts rest d short ends)
  or_runs _ _ rest
        (or_more {left = left} {right = right} {before = before} {behind = behind} t d op r) short
        ends =
      runs_more _ _ _ _ left right before t behind rest short
        (or_runs left before (t ∷ (behind ++ rest)) d
          (omega (arith, short, length-append before (t ∷ behind))) (or_ends t.kind op))
        op
        (and_lem right behind rest r (omega (arith, short, length-append before (t ∷ behind))) ends)

  or_lem :
      (e : AstNode) (ts rest : List Token)
      → Derives stod or_level e ts
      → length ts ≤ fuel
      → next_is after_and rest ≡ false
      → parse_or_expr stod end fuel self sub (ts ++ rest) ≡ parsed e rest
  unfolding parse_or_expr
  or_lem e ts rest d short ends =
      runs_end _ _ _ _ e ts rest
        (or_runs e ts rest d short (next_is_left after_compare is_or rest ends))
        (next_is_right after_compare is_or rest ends)

-- Parsing the tokens of an expression of the grammar gives its tree and stops behind it, where the
-- fuel exceeds the number of its tokens and what follows does not go on with the expression. The tree
-- shows precedence and that operators associate to the left.
pub parse_expr-Derives :
    (stod : Text → Option ℕ) (end : Token) (fuel : ℕ) (e : AstNode) (ts rest : List Token)
    → Derives stod or_level e ts
    → length ts < fuel
    → next_is after_and rest ≡ false
    → parse_expr stod end fuel (ts ++ rest) ≡ parsed e rest
unfolding parse_expr
parse_expr-Derives stod end zero e ts rest d short ends = absurd (omega (arith, short))
parse_expr-Derives stod end (suc fuel) e ts rest d short ends =
    or_lem stod end fuel (parse_expr stod end fuel)
      (parse_select stod end fuel (parse_expr stod end fuel) (parse_expr stod end fuel))
      (parse_expr-Derives stod end fuel) e ts rest d (omega (arith, short)) ends
