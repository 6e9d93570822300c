-- ===== src/Parser/Words.antt =====
-- What the statements of src/parser.cpp share: words that are identifiers, options with a number, the
-- loops over options and lists that may end in a comma.
use skibidi_ql.Prelude.{
  ℕ, zero, suc, ◌+◌, ◌^◌, Bool, true, false, ◌&&◌, ◌||◌, List, [], ◌∷◌, ◌++◌, ltb, leb, map, not,
  if◌then◌else◌, bytes_eq,
}
use skibidi_ql.Ast.{Text, Spot}
use skibidi_ql.Ast.Statements.{FeatureSpec}
use skibidi_ql.Lexer.Token.{
  Token, TokenType, codes, semicolon, rparen, comma, eof_token, split_by, with_seed, batch_size,
  world_size, string_lit, integer_lit, identifier,
}
use skibidi_ql.Parser.State.{
  Refusal, out_of_range, parse_error, Reply, parsed, refused, stuck, ◌▷◌, spot_of, next_is, rest_of,
  got, expect, is_comma, is_rparen, is_lparen, is_identifier,
}
use skibidi_ql.Parser.Expr.{digits_value}

abbrev pub is_semicolon : TokenType → Bool
is_semicolon semicolon = true
is_semicolon _ = false

abbrev pub is_string : TokenType → Bool
is_string string_lit = true
is_string _ = false

abbrev pub is_integer_lit : TokenType → Bool
is_integer_lit integer_lit = true
is_integer_lit _ = false

-- std::tolower
abbrev pub lower : ℕ → ℕ
lower ch = if leb 65 ch && leb ch 90 then ch + 32 else ch

unfoldable pub word_equals : Token → Text → Bool
word_equals t word = is_identifier t.kind && bytes_eq (map lower t.value) (map lower word)

-- checkWord
abbrev pub next_word : Text → List Token → Bool
next_word word [] = false
next_word word (t ∷ rest) = word_equals t word

-- matchWord whose answer is not used
abbrev pub skip_word : Text → List Token → List Token
skip_word word tokens = if next_word word tokens then rest_of tokens else tokens

-- The tokens that end the description of a feature; no tokens are left at EOF.
unfoldable pub ends_clause : Text → Bool
ends_clause word =
    bytes_eq word (codes "seed")
    || bytes_eq word (codes "with")
    || bytes_eq word (codes "features")
    || bytes_eq word (codes "feature")
    || bytes_eq word (codes "label")
    || bytes_eq word (codes "shuffle")
    || bytes_eq word (codes "epoch")
    || bytes_eq word (codes "rank")
    || bytes_eq word (codes "worker")
    || bytes_eq word (codes "batch")
    || bytes_eq word (codes "world_size")
    || bytes_eq word (codes "batch_size")

unfoldable pub is_clause_boundary : TokenType → Text → Bool
is_clause_boundary semicolon value = true
is_clause_boundary eof_token value = true
is_clause_boundary comma value = true
is_clause_boundary rparen value = true
is_clause_boundary split_by value = true
is_clause_boundary with_seed value = true
is_clause_boundary batch_size value = true
is_clause_boundary world_size value = true
is_clause_boundary identifier value = ends_clause (map lower value)
is_clause_boundary kind value = false

abbrev pub token_text : Token → Text
token_text t = if is_string t.kind then codes "'" ++ t.value ++ codes "'" else t.value

abbrev pub spaced : Bool → Text → Text
spaced first text = if first then text else codes " " ++ text

unfoldable pub parse_spec_text : Bool → List Token → Reply Text
parse_spec_text first [] = parsed [] []
parse_spec_text first (t ∷ rest) =
    let further = parse_spec_text false rest ▷ λ text after.
    parsed (spaced first (token_text t) ++ text) after in
    if is_clause_boundary t.kind t.value then parsed [] (t ∷ rest) else further

-- A loop over the tokens that `goes` allows; each round begins with one of them.
unfoldable pub repeated {ℓ} :
    {A : Type ℓ}
    → ℕ
    → (TokenType → Bool)
    → (A → Token → List Token → Reply A)
    → A
    → List Token
    → Reply A
repeated fuel goes round so_far [] = parsed so_far []
repeated zero goes round so_far (t ∷ rest) = if goes t.kind then stuck else parsed so_far (t ∷ rest)
repeated (suc fuel) goes round so_far (t ∷ rest) =
    let further = round so_far t rest ▷ λ a after. repeated fuel goes round a after in
    if goes t.kind then further else parsed so_far (t ∷ rest)

-- The elements behind the first, where a comma may stand before the closing parenthesis.
unfoldable pub more_listed {ℓ} :
    {A : Type ℓ} → ℕ → (List Token → Reply A) → List Token → Reply (List A)
more_listed fuel item [] = parsed [] []
more_listed zero item (t ∷ rest) = if is_comma t.kind then stuck else parsed [] (t ∷ rest)
more_listed (suc fuel) item (t ∷ rest) =
    let further =
      item rest ▷ λ x after. more_listed fuel item after ▷ λ xs last. parsed (x ∷ xs) last in
    if is_comma t.kind
    then if next_is is_rparen rest then parsed [] rest else further
    else parsed [] (t ∷ rest)

abbrev pub listed {ℓ} : {A : Type ℓ} → ℕ → (List Token → Reply A) → List Token → Reply (List A)
listed fuel item tokens =
    item tokens ▷ λ x after. more_listed fuel item after ▷ λ xs last. parsed (x ∷ xs) last

abbrev pub more_options : TokenType → Bool
more_options kind = not (is_semicolon kind)

module _ (end : Token) where
  -- current, whose place a statement keeps
  abbrev pub current_spot : List Token → Spot
  current_spot [] = spot_of end
  current_spot (t ∷ rest) = spot_of t

  -- A ParseError at the current token that does not show it.
  abbrev pub error_here : Text → List Token → Refusal
  error_here message tokens =
      parse_error message (current_spot tokens).line (current_spot tokens).col

  unfoldable pub expect_word : Text → Text → List Token → Reply Token
  expect_word word message [] = refused (got end message end)
  expect_word word message (t ∷ rest) =
      if word_equals t word then parsed t rest else refused (got end message t)

  unfoldable pub parse_unsigned_option : Text → List Token → Reply ℕ
  parse_unsigned_option name [] = refused (error_here (codes "Expected integer for " ++ name) [])
  parse_unsigned_option name (t ∷ rest) =
      if is_integer_lit t.kind
      then if ltb (digits_value 0 t.value) (2 ^ 64)
        then parsed (digits_value 0 t.value) rest
        else refused out_of_range
      else refused (error_here (codes "Expected integer for " ++ name) (t ∷ rest))

  -- The keyword of a statement, or the two words that stand for it.
  unfoldable pub parse_opening : (TokenType → Bool) → Text → Text → List Token → Reply Token
  parse_opening is first second tokens =
      if next_is is tokens
      then expect end is [] tokens
      else (expect_word first (codes "Expected '" ++ first ++ codes "'") tokens ▷ λ t rest.
          expect_word second (codes "Expected '" ++ second ++ codes "'") rest)

  abbrev pub parse_name_as : Text → List Token → Reply Text
  parse_name_as message tokens =
      expect end is_identifier message tokens ▷ λ t rest. parsed t.value rest

  abbrev pub parse_string_as : Text → List Token → Reply Text
  parse_string_as message tokens =
      expect end is_string message tokens ▷ λ t rest. parsed t.value rest

  -- parseFeatureSpec and parseLabelSpec, which are the same but for the message
  unfoldable pub parse_feature_spec : Text → List Token → Reply FeatureSpec
  parse_feature_spec message tokens = parse_name_as message tokens ▷ λ name rest.
      parse_spec_text true rest ▷ λ text after. parsed (record { name = name; spec = text }) after

  unfoldable pub parse_feature_specs : ℕ → List Token → Reply (List FeatureSpec)
  parse_feature_specs fuel tokens =
      if next_is is_lparen tokens
      then if next_is is_rparen (rest_of tokens)
        then parsed [] (rest_of (rest_of tokens))
        else (listed fuel (parse_feature_spec (codes "Expected feature column")) (rest_of tokens)
            ▷ λ features rest.
                expect end is_rparen (codes "Expected ')' after feature list") rest ▷ λ t after.
                parsed features after)
      else (parse_feature_spec (codes "Expected feature column") tokens ▷ λ feature rest.
          parsed (feature ∷ []) rest)
