-- ===== src/Parser/State.antt =====
-- Where a parser of src/parser.cpp stands: the tokens from `pos` on, without the EOF token that closes
-- the list. The code never moves past that token, so that no tokens are left where it is current.
use skibidi_ql.Prelude.{ℕ, zero, suc, Bool, true, false, List, [], ◌∷◌, ◌++◌, if◌then◌else◌}
use skibidi_ql.Ast.{Text, Spot}
use skibidi_ql.Lexer.Token.{
  Token, TokenType, codes, lparen, rparen, comma, dot, star, lowkey, identifier,
}

-- ParseError, or what std::stoll throws at a number beyond an int64_t.
pub data Refusal : Type 0 where
  parse_error : Text → ℕ → ℕ → Refusal
  out_of_range : Refusal

-- What a parsing function returns with the tokens that are left, what it throws, or that the fuel of
-- its loops has run out.
pub data Reply {ℓ} (A : Type ℓ) : Type ℓ where
  parsed : A → List Token → Reply A
  refused : Refusal → Reply A
  stuck : Reply A

infixl 5 ◌▷◌
abbrev pub ◌▷◌ {ℓ κ} : {A : Type ℓ} {B : Type κ} → Reply A → (A → List Token → Reply B) → Reply B
parsed a rest ▷ f = f a rest
refused e ▷ f = refused e
stuck ▷ f = stuck

abbrev pub spot_of : Token → Spot
spot_of t = record { line = t.line; col = t.col }

-- The test of check on the current token; `is` is the token type it asks for.
abbrev pub next_is : (TokenType → Bool) → List Token → Bool
next_is is [] = false
next_is is (t ∷ rest) = is t.kind

-- advance
abbrev pub rest_of : List Token → List Token
rest_of [] = []
rest_of (t ∷ rest) = rest

-- The end token, whose place the error messages name.
module _ (end : Token) where
  abbrev pub got : Text → Token → Refusal
  got message t = parse_error (message ++ codes " (got '" ++ t.value ++ codes "')") t.line t.col

  unfoldable pub expect : (TokenType → Bool) → Text → List Token → Reply Token
  expect is message [] = refused (got message end)
  expect is message (t ∷ rest) = if is t.kind then parsed t rest else refused (got message t)

abbrev pub is_lparen : TokenType → Bool
is_lparen lparen = true
is_lparen _ = false

abbrev pub is_rparen : TokenType → Bool
is_rparen rparen = true
is_rparen _ = false

abbrev pub is_comma : TokenType → Bool
is_comma comma = true
is_comma _ = false

abbrev pub is_dot : TokenType → Bool
is_dot dot = true
is_dot _ = false

abbrev pub is_star : TokenType → Bool
is_star star = true
is_star _ = false

abbrev pub is_lowkey : TokenType → Bool
is_lowkey lowkey = true
is_lowkey _ = false

abbrev pub is_identifier : TokenType → Bool
is_identifier identifier = true
is_identifier _ = false

-- The elements behind the first of a list with commas.
unfoldable pub more_items {ℓ} :
    {A : Type ℓ} → ℕ → (List Token → Reply A) → List Token → Reply (List A)
more_items fuel item [] = parsed [] []
more_items zero item (t ∷ rest) = if is_comma t.kind then stuck else parsed [] (t ∷ rest)
more_items (suc fuel) item (t ∷ rest) =
    let further =
      item rest ▷ λ x after. more_items fuel item after ▷ λ xs last. parsed (x ∷ xs) last in
    if is_comma t.kind then further else parsed [] (t ∷ rest)

unfoldable pub items {ℓ} : {A : Type ℓ} → ℕ → (List Token → Reply A) → List Token → Reply (List A)
items fuel item tokens =
    item tokens ▷ λ x after. more_items fuel item after ▷ λ xs last. parsed (x ∷ xs) last
