-- ===== src/Parser/Rounds.antt =====
-- The loop of a level with operators that associate to the left, run over the operands one by one.
use skibidi_ql.Prelude.{
  ℕ, zero, suc, ◌+◌, ◌≤◌, ◌≡◌, refl, ◌∙◌, Bool, true, false, List, [], ◌∷◌, ◌++◌, arith, length,
  length-append,
}
use mathlib.Core.List.{append_assoc}
use skibidi_ql.Ast.{Operator, AstNode, binary_op}
use skibidi_ql.Lexer.Token.{Token, TokenType}
use skibidi_ql.Parser.State.{Reply, parsed, spot_of, next_is}
use skibidi_ql.Parser.Expr.{chain, level}

-- A level over an operand parser that has read an expression and may go on.
module _ (fuel : ℕ) (is : TokenType → Bool) (op : Token → Operator)
    (operand : List Token → Reply AstNode) where
  pub record Runs (e : AstNode) (ts rest : List Token) : Type 0 where
    left_over : ℕ
    bound : fuel ≤ left_over + length ts
    runs : level fuel is op operand (ts ++ rest) ≡ chain left_over is op operand e rest

  pub runs_one :
      (e : AstNode) (ts rest : List Token) → operand (ts ++ rest) ≡ parsed e rest → Runs e ts rest
  runs_one e ts rest h = record { left_over = fuel; bound = omega arith; runs = rw h refl }

  chain_step :
      (rounds : ℕ) (left right : AstNode) (t : Token) (behind rest : List Token)
      → is t.kind ≡ true
      → operand (behind ++ rest) ≡ parsed right rest
      → chain (suc rounds) is op operand left (t ∷ (behind ++ rest))
        ≡ chain rounds is op operand (binary_op (spot_of t) (op t) left right []) rest
  unfolding chain
  chain_step rounds left right t behind rest same h = rw (same, h) refl

  pub runs_more :
      (left right : AstNode) (before : List Token) (t : Token) (behind rest : List Token)
      → length (before ++ (t ∷ behind)) ≤ fuel
      → Runs left before (t ∷ (behind ++ rest))
      → is t.kind ≡ true
      → operand (behind ++ rest) ≡ parsed right rest
      → Runs (binary_op (spot_of t) (op t) left right []) (before ++ (t ∷ behind)) rest
  runs_more left right before t behind rest short r same h = go r.left_over r.bound r.runs
    where
      go :
          (rounds : ℕ)
          → fuel ≤ rounds + length before
          → level fuel is op operand (before ++ (t ∷ (behind ++ rest)))
            ≡ chain rounds is op operand left (t ∷ (behind ++ rest))
          → Runs (binary_op (spot_of t) (op t) left right []) (before ++ (t ∷ behind)) rest
      go zero b runs = absurd (omega (arith, b, short, length-append before (t ∷ behind)))
      go (suc rounds) b runs = record {
        left_over = rounds;
        bound = omega (arith, b, length-append before (t ∷ behind));
        runs =
            rw (append_assoc before (t ∷ behind) rest)
              (runs ∙ chain_step rounds left right t behind rest same h);
      }

  chain_end :
      (rounds : ℕ) (e : AstNode) (rest : List Token)
      → next_is is rest ≡ false
      → chain rounds is op operand e rest ≡ parsed e rest
  unfolding chain
  chain_end rounds e [] h = refl
  chain_end zero e (t ∷ rest) h = rw h refl
  chain_end (suc rounds) e (t ∷ rest) h = rw h refl

  pub runs_end :
      (e : AstNode) (ts rest : List Token)
      → Runs e ts rest
      → next_is is rest ≡ false
      → level fuel is op operand (ts ++ rest) ≡ parsed e rest
  runs_end e ts rest r h = r.runs ∙ chain_end r.left_over e rest h
