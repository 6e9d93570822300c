-- ===== src/Parser/Reach.antt =====
-- Parsing functions that return, without running out of fuel, and leave no more tokens than they got.
use skibidi_ql.Prelude.{
  ℕ, zero, suc, ◌≤◌, Bool, true, false, List, [], ◌∷◌, arith, length, if◌then◌else◌,
}
use skibidi_ql.Ast.{Text, Operator, AstNode}
use skibidi_ql.Lexer.Token.{Token, TokenType}
use skibidi_ql.Parser.State.{
  Refusal, Reply, parsed, refused, ◌▷◌, rest_of, next_is, expect, more_items, items, is_comma,
}
use skibidi_ql.Parser.Expr.{chain, level}
use skibidi_ql.Parser.Select.{optional}

pub data Within {ℓ} {A : Type ℓ} (n : ℕ) : Reply A → Type ℓ where
  within : {a : A} {rest : List Token} → length rest ≤ n → Within n (parsed a rest)
  refusal : {e : Refusal} → Within n (refused e)

pub Within-weaken {ℓ} : {A : Type ℓ} {n k : ℕ} {r : Reply A} → n ≤ k → Within n r → Within k r
Within-weaken le (within h) = within (omega (arith, h, le))
Within-weaken le refusal = refusal

pub bind-Within {ℓ κ} :
    {A : Type ℓ} {B : Type κ} {n k : ℕ} {r : Reply A} {f : A → List Token → Reply B}
    → Within n r
    → ((a : A) (rest : List Token) → length rest ≤ n → Within k (f a rest))
    → Within k (r ▷ f)
bind-Within (within h) go = go _ _ h
bind-Within refusal go = refusal

-- A test of both branches.
pub if-Within {ℓ} :
    {A : Type ℓ} {n : ℕ} (b : Bool) {r s : Reply A}
    → Within n r
    → Within n s
    → Within n (if b then r else s)
if-Within true h k = h
if-Within false h k = k

-- On at most `most` tokens.
abbrev pub Reaches {ℓ} : {A : Type ℓ} → ℕ → (List Token → Reply A) → Type ℓ
Reaches most f = (tokens : List Token) → length tokens ≤ most → Within (length tokens) (f tokens)

pub length-rest_of : (tokens : List Token) → length (rest_of tokens) ≤ length tokens
length-rest_of [] = omega arith
length-rest_of (t ∷ rest) = omega arith

pub expect-Within :
    (end : Token) (is : TokenType → Bool) (message : Text) (tokens : List Token)
    → Within (length (rest_of tokens)) (expect end is message tokens)
unfolding expect
expect-Within end is message [] = refusal
expect-Within end is message (t ∷ rest) = if-Within (is t.kind) (within (omega arith)) refusal

module _ {ℓ} {A : Type ℓ} (most : ℕ) {item : List Token → Reply A} (reach : Reaches most item) where
  more_items-Within :
      (fuel : ℕ) (tokens : List Token)
      → length tokens ≤ most
      → length tokens ≤ fuel
      → Within (length tokens) (more_items fuel item tokens)
  unfolding more_items
  more_items-Within fuel [] f h = within (omega arith)
  more_items-Within zero (t ∷ rest) f h = absurd (omega (arith, h))
  more_items-Within (suc fuel) (t ∷ rest) f h =
      if-Within (is_comma t.kind)
        (bind-Within (reach rest (omega (arith, h, f))) (λ x after l.
          bind-Within (more_items-Within fuel after (omega (arith, f, l)) (omega (arith, h, l)))
            (λ xs last k. within (omega (arith, l, k)))))
        (within (omega arith))

  pub items-Within :
      (fuel : ℕ) (tokens : List Token)
      → length tokens ≤ most
      → length tokens ≤ fuel
      → Within (length tokens) (items fuel item tokens)
  unfolding items
  items-Within fuel tokens f h = bind-Within (reach tokens (omega (arith, h, f))) (λ x after l.
      bind-Within (more_items-Within fuel after (omega (arith, f, l)) (omega (arith, h, l)))
        (λ xs last k. within (omega (arith, l, k))))

  pub optional-Within :
      (is : TokenType → Bool) (missing : A) (tokens : List Token)
      → length tokens ≤ most
      → Within (length tokens) (optional is missing item tokens)
  unfolding optional
  optional-Within is missing tokens h =
      if-Within (next_is is tokens)
        (Within-weaken (length-rest_of tokens)
          (reach (rest_of tokens) (omega (arith, h, length-rest_of tokens))))
        (within (omega arith))

module _ (most : ℕ) (is : TokenType → Bool) (op : Token → Operator)
    {operand : List Token → Reply AstNode} (reach : Reaches most operand) where
  chain-Within :
      (fuel : ℕ) (left : AstNode) (tokens : List Token)
      → fuel ≤ most
      → length tokens ≤ fuel
      → Within (length tokens) (chain fuel is op operand left tokens)
  unfolding chain
  chain-Within fuel left [] f h = within (omega arith)
  chain-Within zero left (t ∷ rest) f h = absurd (omega (arith, h))
  chain-Within (suc fuel) left (t ∷ rest) f h =
      if-Within (is t.kind)
        (bind-Within (reach rest (omega (arith, h, f))) (λ right after l.
          Within-weaken (omega (arith, l))
            (chain-Within fuel _ after (omega (arith, f)) (omega (arith, h, l)))))
        (within (omega arith))

  pub level-Reaches : Reaches most (level most is op operand)
  level-Reaches tokens h = bind-Within (reach tokens h) (λ left after l.
      Within-weaken l (chain-Within most left after (omega arith) (omega (arith, h, l))))
