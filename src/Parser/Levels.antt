-- ===== src/Parser/Levels.antt =====
-- How the expressions of each level begin, and which tokens end them.
use skibidi_ql.Prelude.{ℕ, ◌≡◌, refl, Bool, true, false, ◌||◌, Option, List, [], ◌∷◌, ◌++◌, arith}
use skibidi_ql.Ast.{Text, AstNode}
use skibidi_ql.Lexer.Token.{
  Token, TokenType, integer_lit, float_lit, string_lit, ghosted, identifier, lparen, minus,
  no_cap_not, star, slash, plus_op, concat, eq, neq, lt, gt, lte, gte, plus, or_nah, slay, rparen,
}
use skibidi_ql.Parser.State.{next_is, is_rparen}
use skibidi_ql.Parser.Kinds.{
  is_minus, is_not, is_slay, is_product, is_sum, is_comparison, is_and, is_or,
}
use skibidi_ql.Parser.Grammar.{
  Level, or_level, and_level, not_level, compare_level, add_level, mul_level, unary_level,
  primary_level, Derives, or_one, or_more, and_one, and_more, not_one, not_more, compare_one,
  compare_two, add_one, add_more, mul_one, mul_more, unary_one, unary_more, an_integer, a_float,
  a_string, a_null, a_column, a_qualified, a_group, a_call, after_name, after_unary, after_mul,
  after_add, after_compare,
}

abbrev pub opens_primary : TokenType → Bool
opens_primary integer_lit = true
opens_primary float_lit = true
opens_primary string_lit = true
opens_primary ghosted = true
opens_primary identifier = true
opens_primary lparen = true
opens_primary _ = false

abbrev pub opens_unary : TokenType → Bool
opens_unary minus = true
opens_unary kind = opens_primary kind

abbrev pub opens_any : TokenType → Bool
opens_any no_cap_not = true
opens_any kind = opens_unary kind

abbrev pub opens : Level → TokenType → Bool
opens or_level kind = opens_any kind
opens and_level kind = opens_any kind
opens not_level kind = opens_any kind
opens compare_level kind = opens_unary kind
opens add_level kind = opens_unary kind
opens mul_level kind = opens_unary kind
opens unary_level kind = opens_unary kind
opens primary_level kind = opens_primary kind

pub data Headed (level : Level) : List Token → Type 0 where
  headed : {t : Token} {rest : List Token} → opens level t.kind ≡ true → Headed level (t ∷ rest)

pub Headed-append :
    {level : Level} {ts : List Token} (us : List Token) → Headed level ts → Headed level (ts ++ us)
Headed-append us (headed h) = headed h

-- What opens an operand opens the expression.
opens_unary_any : (kind : TokenType) → opens_unary kind ≡ true → opens_any kind ≡ true
opens_unary_any no_cap_not h = refl
opens_unary_any kind h = h

opens_primary_unary : (kind : TokenType) → opens_primary kind ≡ true → opens_unary kind ≡ true
opens_primary_unary minus h = refl
opens_primary_unary kind h = h

raise :
    {low high : Level} {ts : List Token}
    → ((kind : TokenType) → opens low kind ≡ true → opens high kind ≡ true)
    → Headed low ts
    → Headed high ts
raise step (headed {t = t} h) = headed (step t.kind h)

pub Derives-Headed :
    {stod : Text → Option ℕ} {level : Level} {e : AstNode} {ts : List Token}
    → Derives stod level e ts
    → Headed level ts
Derives-Headed (or_one d) = raise (λ kind h. h) (Derives-Headed d)
Derives-Headed (or_more t left op right) = Headed-append _ (Derives-Headed left)
Derives-Headed (and_one d) = raise (λ kind h. h) (Derives-Headed d)
Derives-Headed (and_more t left op right) = Headed-append _ (Derives-Headed left)
Derives-Headed (not_one d) = raise opens_unary_any (Derives-Headed d)
Derives-Headed (not_more d) = headed refl
Derives-Headed (compare_one d) = raise (λ kind h. h) (Derives-Headed d)
Derives-Headed (compare_two t left op right) =
    raise (λ kind h. h) (Headed-append _ (Derives-Headed left))
Derives-Headed (add_one d) = raise (λ kind h. h) (Derives-Headed d)
Derives-Headed (add_more t left op right) = Headed-append _ (Derives-Headed left)
Derives-Headed (mul_one d) = raise (λ kind h. h) (Derives-Headed d)
Derives-Headed (mul_more t left op right) = Headed-append _ (Derives-Headed left)
Derives-Headed (unary_one d) = raise opens_primary_unary (Derives-Headed d)
Derives-Headed (unary_more d) = headed refl
Derives-Headed (an_integer h) = headed refl
Derives-Headed (a_float h) = headed refl
Derives-Headed a_string = headed refl
Derives-Headed a_null = headed refl
Derives-Headed a_column = headed refl
Derives-Headed a_qualified = headed refl
Derives-Headed (a_group text spot d) = headed refl
Derives-Headed (a_call text spot plain args) = headed refl

opens_no_slay : (kind : TokenType) → opens_any kind ≡ true → is_slay kind ≡ false
opens_no_slay slay h = cc
opens_no_slay kind h = refl

opens_no_rparen : (kind : TokenType) → opens_any kind ≡ true → is_rparen kind ≡ false
opens_no_rparen rparen h = cc
opens_no_rparen kind h = refl

unary_no_not : (kind : TokenType) → opens_unary kind ≡ true → is_not kind ≡ false
unary_no_not no_cap_not h = cc
unary_no_not kind h = refl

primary_no_minus : (kind : TokenType) → opens_primary kind ≡ true → is_minus kind ≡ false
primary_no_minus minus h = cc
primary_no_minus kind h = refl

-- What tokens that begin like an expression, with any behind them, do not begin with.
pub Headed-slay : (ts rest : List Token) → Headed or_level ts → next_is is_slay (ts ++ rest) ≡ false
Headed-slay _ rest (headed {t = t} h) = opens_no_slay t.kind h

pub Headed-rparen :
    (ts rest : List Token) → Headed or_level ts → next_is is_rparen (ts ++ rest) ≡ false
Headed-rparen _ rest (headed {t = t} h) = opens_no_rparen t.kind h

pub Headed-not :
    (ts rest : List Token) → Headed compare_level ts → next_is is_not (ts ++ rest) ≡ false
Headed-not _ rest (headed {t = t} h) = unary_no_not t.kind h

pub Headed-minus :
    (ts rest : List Token) → Headed primary_level ts → next_is is_minus (ts ++ rest) ≡ false
Headed-minus _ rest (headed {t = t} h) = primary_no_minus t.kind h

-- An operator ends what binds more tightly.
pub product_ends : (kind : TokenType) → is_product kind ≡ true → after_name kind ≡ false
product_ends star h = refl
product_ends slash h = refl
product_ends kind h = cc

pub sum_ends : (kind : TokenType) → is_sum kind ≡ true → after_unary kind ≡ false
sum_ends plus_op h = refl
sum_ends minus h = refl
sum_ends concat h = refl
sum_ends kind h = cc

pub comparison_ends : (kind : TokenType) → is_comparison kind ≡ true → after_mul kind ≡ false
comparison_ends eq h = refl
comparison_ends neq h = refl
comparison_ends lt h = refl
comparison_ends gt h = refl
comparison_ends lte h = refl
comparison_ends gte h = refl
comparison_ends kind h = cc

pub and_ends : (kind : TokenType) → is_and kind ≡ true → after_add kind ≡ false
and_ends plus h = refl
and_ends kind h = cc

pub or_ends : (kind : TokenType) → is_or kind ≡ true → after_compare kind ≡ false
or_ends or_nah h = refl
or_ends kind h = cc

-- Tokens that begin with neither of two kinds.
pub next_is_left :
    (f g : TokenType → Bool) (ts : List Token)
    → next_is (λ kind. f kind || g kind) ts ≡ false
    → next_is f ts ≡ false
next_is_left f g [] h = refl
next_is_left f g (t ∷ ts) h = ground (arith, h)

pub next_is_right :
    (f g : TokenType → Bool) (ts : List Token)
    → next_is (λ kind. f kind || g kind) ts ≡ false
    → next_is g ts ≡ false
next_is_right f g [] h = refl
next_is_right f g (t ∷ ts) h = ground (arith, h)
