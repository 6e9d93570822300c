-- ===== src/Parser/Updates.antt =====
-- UPDATE as it is meant: which tokens stand for which statement, and that parseStatement reads it.
use skibidi_ql.Prelude.{
  ℕ, zero, suc, ◌≤◌, ◌<◌, ◌≡◌, refl, ap, false, Option, List, [], ◌∷◌, ◌++◌, arith, length,
  length-append,
}
use mathlib.Core.List.{append_assoc}
use skibidi_ql.Ast.{Text, Spot, AstNode, some_node}
use skibidi_ql.Ast.Statements.{update_stmt}
use skibidi_ql.Lexer.Token.{Token, comma, identifier, eq, glow_up, be_like, only_if}
use skibidi_ql.Parser.State.{Reply, parsed, ◌▷◌, next_is, expect, is_comma, items, more_items}
use skibidi_ql.Parser.Select.{optional, parse_expr}
use skibidi_ql.Parser.Tables.{parse_assignment, parse_update}
use skibidi_ql.Parser.Program.{parse_by_keyword, parse_statement, skip_semicolon}
use skibidi_ql.Parser.Grammar.{token, or_level, Derives, after_and}
use skibidi_ql.Parser.Complete.{parse_expr-Derives}

-- A list with commas between elements.
pub data Listed {ℓ} {A : Type ℓ} (R : A → List Token → Type 0) : List A → List Token → Type ℓ where
  last_one : {a : A} {ts : List Token} → R a ts → Listed R (a ∷ []) ts
  and_then :
      {a : A} {as_well : List A} {before behind : List Token} (text : Text) (spot : Spot)
      → R a before
      → Listed R as_well behind
      → Listed R (a ∷ as_well) (before ++ (token comma text spot ∷ behind))

module _ {ℓ} {A : Type ℓ} (R : A → List Token → Type 0) (item : List Token → Reply A) (fuel : ℕ)
    (reads : (a : A) (ts rest : List Token)
      → R a ts
      → length ts < fuel
      → next_is after_and rest ≡ false
      → item (ts ++ rest) ≡ parsed a rest) where
  items-Listed :
      (rounds : ℕ) (elements : List A) (ts : List Token) (close : Token) (rest : List Token)
      → Listed R elements ts
      → length ts < fuel
      → length ts ≤ rounds
      → after_and close.kind ≡ false
      → is_comma close.kind ≡ false
      → items rounds item (ts ++ (close ∷ rest)) ≡ parsed elements (close ∷ rest)
  unfolding items more_items
  items-Listed zero _ ts close rest (last_one {a = a} r) short enough ends last =
      rw (reads a ts (close ∷ rest) r short ends, last) refl
  items-Listed (suc rounds) _ ts close rest (last_one {a = a} r) short enough ends last =
      rw (reads a ts (close ∷ rest) r short ends, last) refl
  items-Listed zero _ _ close rest (and_then {before = before} {behind = behind} text spot r more)
        short enough ends last =
      absurd (omega (arith, enough, length-append before (token comma text spot ∷ behind)))
  items-Listed (suc rounds) _ _ close rest
        (and_then {a = a} {as_well = others} {before = before} {behind = behind} text spot r more)
        short enough ends last =
      rw
        (
          append_assoc before (token comma text spot ∷ behind) (close ∷ rest),
          reads a before (token comma text spot ∷ (behind ++ (close ∷ rest))) r
              (omega (arith, short, length-append before (token comma text spot ∷ behind))) refl,
        )
        (ap (λ reply. reply ▷ λ xs after. parsed (a ∷ xs) after)
          (items-Listed rounds others behind close rest more
            (omega (arith, short, length-append before (token comma text spot ∷ behind)))
            (omega (arith, enough, length-append before (token comma text spot ∷ behind))) ends
            last))

-- column = expression
pub data Assigns (stod : Text → Option ℕ) : Text × AstNode → List Token → Type 0 where
  assigns :
      {column text : Text} {spot eq_spot : Spot} {e : AstNode} {ts : List Token}
      → Derives stod or_level e ts
      → Assigns stod (column, e) (token identifier column spot ∷ token eq text eq_spot ∷ ts)

assignment-Assigns :
    (stod : Text → Option ℕ) (end : Token) (fuel : ℕ) (set : Text × AstNode) (ts rest : List Token)
    → Assigns stod set ts
    → length ts < fuel
    → next_is after_and rest ≡ false
    → parse_assignment end fuel (parse_expr stod end fuel) (ts ++ rest) ≡ parsed set rest
unfolding parse_assignment expect
assignment-Assigns stod end fuel _ _ rest (assigns {e = e} {ts = ts} d) short ends =
    rw (parse_expr-Derives stod end fuel e ts rest d (omega (arith, short)) ends) refl

-- UPDATE with a WHERE clause, read as a statement: the table, its assignments in order and the filter,
-- up to a semicolon, where the fuel exceeds the number of tokens of the assignments and of the filter
-- and what follows does not go on with the filter.
pub parse_statement-Assigns :
    (stod : Text → Option ℕ) (end : Token) (fuel : ℕ) (update table set filter : Text)
    (here there set_spot filter_spot : Spot) (sets : List (Text × AstNode)) (ts : List Token)
    (condition : AstNode) (us rest : List Token)
    → Listed (Assigns stod) sets ts
    → Derives stod or_level condition us
    → length ts < fuel
    → length us < fuel
    → next_is after_and rest ≡ false
    → parse_statement stod end fuel (
        token glow_up update here
        ∷ token identifier table there
        ∷ token be_like set set_spot
        ∷ (ts ++ (token only_if filter filter_spot ∷ (us ++ rest))))
      ≡ parsed (update_stmt here table sets (some_node condition)) (skip_semicolon rest)
unfolding parse_statement parse_by_keyword parse_update expect optional
parse_statement-Assigns stod end fuel update table set filter here there set_spot filter_spot sets
      ts condition us rest listed d short short_filter ends =
    rw
      (
        items-Listed (Assigns stod) (parse_assignment end fuel (parse_expr stod end fuel)) fuel
            (assignment-Assigns stod end fuel) fuel sets ts (token only_if filter filter_spot)
            (us ++ rest) listed short (omega (arith, short)) refl refl,
        parse_expr-Derives stod end fuel condition us rest d short_filter ends,
      )
      refl
