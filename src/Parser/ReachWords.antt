-- ===== src/Parser/ReachWords.antt =====
-- What the statements share returns, without running out of fuel.
use skibidi_ql.Prelude.{
  ℕ, zero, suc, ◌≤◌, ◌<◌, ◌^◌, Bool, true, false, List, [], ◌∷◌, arith, length, ltb, if◌then◌else◌,
}
use skibidi_ql.Ast.{Text}
use skibidi_ql.Lexer.Token.{Token, TokenType, codes}
use skibidi_ql.Parser.State.{
  Reply, parsed, ◌▷◌, rest_of, next_is, expect, is_comma, is_rparen, is_lparen, is_identifier,
}
use skibidi_ql.Parser.Expr.{digits_value}
use skibidi_ql.Parser.Words.{
  is_string, is_integer_lit, word_equals, next_word, skip_word, is_clause_boundary, parse_spec_text,
  repeated, more_listed, listed, expect_word, parse_unsigned_option, parse_opening, parse_name_as,
  parse_string_as, parse_feature_spec, parse_feature_specs,
}
use skibidi_ql.Parser.Reach.{
  Within, within, refusal, Within-weaken, bind-Within, if-Within, length-rest_of, expect-Within,
}

-- One parser behind another, which leaves no more tokens than it gets.
pub then-Within {ℓ κ} :
    {A : Type ℓ} {B : Type κ} {n : ℕ} {r : Reply A} {f : A → List Token → Reply B}
    → Within n r
    → ((a : A) (rest : List Token) → length rest ≤ n → Within (length rest) (f a rest))
    → Within n (r ▷ f)
then-Within h go = bind-Within h (λ a rest l. Within-weaken l (go a rest l))

-- The last parser of a chain.
pub done-Within {ℓ κ} :
    {A : Type ℓ} {B : Type κ} {n : ℕ} {r : Reply A} (f : A → B)
    → Within n r
    → Within n (r ▷ λ a rest. parsed (f a) rest)
done-Within f h = bind-Within h (λ a rest l. within l)

pub taken-Within :
    (end : Token) (is : TokenType → Bool) (message : Text) (tokens : List Token)
    → Within (length tokens) (expect end is message tokens)
taken-Within end is message tokens =
    Within-weaken (length-rest_of tokens) (expect-Within end is message tokens)

pub length-skip_word :
    (word : Text) (tokens : List Token) → length (skip_word word tokens) ≤ length tokens
length-skip_word word tokens = by_answer (next_word word tokens)
  where
    by_answer : (b : Bool) → length (if b then rest_of tokens else tokens) ≤ length tokens
    by_answer true = length-rest_of tokens
    by_answer false = omega arith

pub spec_text-Within :
    (first : Bool) (tokens : List Token) → Within (length tokens) (parse_spec_text first tokens)
unfolding parse_spec_text
spec_text-Within first [] = within (omega arith)
spec_text-Within first (t ∷ rest) =
    if-Within (is_clause_boundary t.kind t.value) (within (omega arith))
      (Within-weaken (omega arith) (done-Within _ (spec_text-Within false rest)))

pub repeated-Within {ℓ} :
    {A : Type ℓ} (goes : TokenType → Bool) {round : A → Token → List Token → Reply A} (most : ℕ)
    → ((a : A) (t : Token) (rest : List Token)
        → length rest < most
        → Within (length rest) (round a t rest))
    → (fuel : ℕ) (so_far : A) (tokens : List Token) → length tokens ≤ most
    → length tokens ≤ fuel
    → Within (length tokens) (repeated fuel goes round so_far tokens)
unfolding repeated
repeated-Within goes most reach fuel so_far [] m h = within (omega arith)
repeated-Within goes most reach zero so_far (t ∷ rest) m h = absurd (omega (arith, h))
repeated-Within goes most reach (suc fuel) so_far (t ∷ rest) m h =
    if-Within (goes t.kind)
      (Within-weaken (omega arith) (
        then-Within (reach so_far t rest (omega (arith, m))) (λ a after l.
          repeated-Within goes most reach fuel a after (omega (arith, l, m))
            (omega (arith, l, h)))))
      (within (omega arith))

module _ {ℓ} {A : Type ℓ} {item : List Token → Reply A} (most : ℕ)
    (reach : (tokens : List Token)
      → length tokens < most
      → Within (length tokens) (item tokens)) where
  more_listed-Within :
      (fuel : ℕ) (tokens : List Token)
      → length tokens ≤ most
      → length tokens ≤ fuel
      → Within (length tokens) (more_listed fuel item tokens)
  unfolding more_listed
  more_listed-Within fuel [] m h = within (omega arith)
  more_listed-Within zero (t ∷ rest) m h = absurd (omega (arith, h))
  more_listed-Within (suc fuel) (t ∷ rest) m h =
      if-Within (is_comma t.kind)
        (if-Within (next_is is_rparen rest) (within (omega arith)) (
          Within-weaken (omega arith) (
            then-Within (reach rest (omega (arith, m))) (λ x after l.
              done-Within _
                (more_listed-Within fuel after (omega (arith, l, m)) (omega (arith, l, h)))))))
        (within (omega arith))

  pub listed-Within :
      (fuel : ℕ) (tokens : List Token)
      → length tokens < most
      → length tokens ≤ fuel
      → Within (length tokens) (listed fuel item tokens)
  listed-Within fuel tokens m h = then-Within (reach tokens m) (λ x after l.
      done-Within _ (more_listed-Within fuel after (omega (arith, l, m)) (omega (arith, l, h))))

module _ (end : Token) where
  pub expect_word-Within :
      (word message : Text) (tokens : List Token)
      → Within (length (rest_of tokens)) (expect_word end word message tokens)
  unfolding expect_word
  expect_word-Within word message [] = refusal
  expect_word-Within word message (t ∷ rest) =
      if-Within (word_equals t word) (within (omega arith)) refusal

  pub taken_word-Within :
      (word message : Text) (tokens : List Token)
      → Within (length tokens) (expect_word end word message tokens)
  taken_word-Within word message tokens =
      Within-weaken (length-rest_of tokens) (expect_word-Within word message tokens)

  pub unsigned-Within :
      (name : Text) (tokens : List Token)
      → Within (length tokens) (parse_unsigned_option end name tokens)
  unfolding parse_unsigned_option
  unsigned-Within name [] = refusal
  unsigned-Within name (t ∷ rest) =
      if-Within (is_integer_lit t.kind)
        (if-Within (ltb (digits_value 0 t.value) (2 ^ 64)) (within (omega arith)) refusal) refusal

  pub opening-Within :
      (is : TokenType → Bool) (first second : Text) (tokens : List Token)
      → Within (length (rest_of tokens)) (parse_opening end is first second tokens)
  unfolding parse_opening
  opening-Within is first second tokens =
      if-Within (next_is is tokens) (expect-Within end is [] tokens) (
        then-Within (expect_word-Within first _ tokens)
          (λ t rest l. taken_word-Within second _ rest))

  pub name-Within :
      (message : Text) (tokens : List Token)
      → Within (length tokens) (parse_name_as end message tokens)
  name-Within message tokens = done-Within _ (taken-Within end is_identifier message tokens)

  pub string-Within :
      (message : Text) (tokens : List Token)
      → Within (length tokens) (parse_string_as end message tokens)
  string-Within message tokens = done-Within _ (taken-Within end is_string message tokens)

  pub feature_spec-Within :
      (message : Text) (tokens : List Token)
      → Within (length tokens) (parse_feature_spec end message tokens)
  unfolding parse_feature_spec
  feature_spec-Within message tokens =
      then-Within (name-Within message tokens)
        (λ name rest l. done-Within _ (spec_text-Within true rest))

  pub feature_specs-Within :
      (fuel : ℕ) (tokens : List Token)
      → length tokens < fuel
      → Within (length tokens) (parse_feature_specs end fuel tokens)
  unfolding parse_feature_specs
  feature_specs-Within fuel tokens h =
      if-Within (next_is is_lparen tokens)
        (Within-weaken (length-rest_of tokens) (
          if-Within (next_is is_rparen (rest_of tokens)) (within (length-rest_of (rest_of tokens)))
            (then-Within
              (listed-Within fuel (λ ts k. feature_spec-Within (codes "Expected feature column") ts)
                fuel (rest_of tokens) (omega (arith, h, length-rest_of tokens))
                (omega (arith, h, length-rest_of tokens)))
              (λ features rest l.
                done-Within (λ t. features)
                  (taken-Within end is_rparen (codes "Expected ')' after feature list") rest)))))
        (done-Within (λ f. f ∷ []) (feature_spec-Within (codes "Expected feature column") tokens))
