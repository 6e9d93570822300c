-- ===== src/Lexer/Reads.antt =====
-- What a reader of the lexer does to the text: readOperator.
use skibidi_ql.Prelude.{
  ℕ, ◌≤◌, ◌<◌, ◌≡◌, refl, Bool, true, false, List, [], ◌∷◌, length, ◌==◌, if◌then◌else◌, arith,
}
use skibidi_ql.Lexer.Token.{
  eq, neq, lt, gt, lte, gte, plus_op, minus, star, slash, concat, lparen, rparen, comma, semicolon,
  dot, Token, TokenType, eof_token, LexerError, Scan, done, fails,
}
use skibidi_ql.Lexer.Cursor.{Cursor, consume, advance, peek, peek_next}
use skibidi_ql.Lexer.Operators.{one_char, two_chars, unexpected, read_operator}
use skibidi_ql.Lexer.Tokenize.{is_end}

abbrev pub is_eof : TokenType → Bool
is_eof eof_token = true
is_eof _ = false

-- A reader throws, or reads a token that is not the last one and at least one character.
pub data Reads (s : Cursor) : Scan (Token × Cursor) → Type 0 where
  throws : (e : LexerError) → Reads s (fails e)
  reads :
      (token : Token) (u : Cursor)
      → is_eof token.kind ≡ false
      → length u.text < length s.text
      → Reads s (done (token, u))

pub text-advance :
    (c : ℕ) (rest : List ℕ) (s : Cursor) → s.text ≡ c ∷ rest → (advance s).text ≡ rest
unfolding advance consume
text-advance c rest s h = rw h refl

pub length-advance : (s : Cursor) → length (advance s).text ≤ length s.text
unfolding advance consume
length-advance s = go s.text refl
  where
    go : (text : List ℕ) → s.text ≡ text → length (advance s).text ≤ length s.text
    go [] h = rw h (omega arith)
    go (c ∷ rest) h = rw h (omega arith)

pub advance-shorter : (s : Cursor) → is_end s.text ≡ false → length (advance s).text < length s.text
unfolding advance consume
advance-shorter s h = go s.text refl h
  where
    go :
        (text : List ℕ)
        → s.text ≡ text
        → is_end text ≡ false
        → length (advance s).text < length s.text
    go [] e h = cc
    go (c ∷ rest) e h = rw e (omega arith)

one_char-Reads :
    (s : Cursor) (kind : TokenType) (value : List ℕ)
    → is_end s.text ≡ false
    → is_eof kind ≡ false
    → Reads s (one_char s kind value)
unfolding one_char
one_char-Reads s kind value h k = reads _ _ k (advance-shorter s h)

two_chars-Reads :
    (s : Cursor) (kind : TokenType) (value : List ℕ)
    → is_end s.text ≡ false
    → is_eof kind ≡ false
    → Reads s (two_chars s kind value)
unfolding two_chars
two_chars-Reads s kind value h k =
    reads _ _ k (omega (arith, length-advance (advance s), advance-shorter s h))

-- A property of both branches is one of the test.
if_both {ℓ κ} :
    {A : Type ℓ} (P : A → Type κ) (b : Bool) (x y : A) → P x → P y → P (if b then x else y)
if_both P true x y p q = p
if_both P false x y p q = q

either-Reads :
    (s : Cursor) (b : Bool) (x y : Scan (Token × Cursor))
    → Reads s x
    → Reads s y
    → Reads s (if b then x else y)
either-Reads s true x y p q = p
either-Reads s false x y p q = q

pub read_operator-Reads : (s : Cursor) → is_end s.text ≡ false → Reads s (read_operator s)
unfolding read_operator unexpected
read_operator-Reads s h =
    let c = peek s.text in
    let d = peek_next s.text in
    either-Reads s (c == b'=') _ _ (one_char-Reads s eq _ h refl) (
      either-Reads s (c == b'!') _ _
        (either-Reads s (d == b'=') _ _ (two_chars-Reads s neq _ h refl) (throws _))
        (either-Reads s (c == b'<') _ _
          (either-Reads s (d == b'=') _ _ (two_chars-Reads s lte _ h refl)
            (one_char-Reads s lt _ h refl))
          (either-Reads s (c == b'>') _ _
            (either-Reads s (d == b'=') _ _ (two_chars-Reads s gte _ h refl)
              (one_char-Reads s gt _ h refl))
            (either-Reads s (c == b'+') _ _ (one_char-Reads s plus_op _ h refl) (
              either-Reads s (c == b'-') _ _ (one_char-Reads s minus _ h refl) (
                either-Reads s (c == b'*') _ _ (one_char-Reads s star _ h refl) (
                  either-Reads s (c == b'/') _ _ (one_char-Reads s slash _ h refl) (
                    either-Reads s (c == b'|') _ _
                      (either-Reads s (d == b'|') _ _ (two_chars-Reads s concat _ h refl)
                        (throws _))
                      (either-Reads s (c == b'(') _ _ (one_char-Reads s lparen _ h refl) (
                        either-Reads s (c == b')') _ _ (one_char-Reads s rparen _ h refl) (
                          either-Reads s (c == b',') _ _ (one_char-Reads s comma _ h refl) (
                            either-Reads s (c == b';') _ _ (one_char-Reads s semicolon _ h refl) (
                              either-Reads s (c == b'.') _ _ (one_char-Reads s dot _ h refl)
                                (throws _))))))))))))))
