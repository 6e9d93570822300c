-- ===== src/Lexer/Tokenize.antt =====
-- Lexer::tokenize and the comments that it skips.
use skibidi_ql.Prelude.{
  ℕ, zero, suc, Bool, true, false, ◌&&◌, not, Option, none, some, List, [], ◌∷◌, ◌==◌,
  if◌then◌else◌, length,
}
use skibidi_ql.Lexer.Token.{Token, eof_token, LexerError, codes, Scan, done, fails}
use skibidi_ql.Lexer.Cursor.{
  Cursor, consume, advance, scan, is_space, is_digit, is_word_start, newline, peek, peek_next,
}
use skibidi_ql.Lexer.Words.{token_at, read_word}
use skibidi_ql.Lexer.Literals.{fail_at, read_number, read_string}
use skibidi_ql.Lexer.Operators.{read_operator}

unfoldable pub skip_whitespace : Cursor → Cursor
skip_whitespace s = (scan is_space s.text s).1

unfoldable pub skip_line_comment : Cursor → Cursor
skip_line_comment s = (scan (λ c. not (c == newline)) s.text s).1

-- The loop of skipBlockComment, behind the opening of the comment.
unfoldable pub comment_end : Cursor → List ℕ → Cursor → Scan Cursor
comment_end start [] s = fail_at start (codes "Unterminated block comment")
comment_end start (c ∷ rest) s =
    let further = comment_end start rest (consume c rest s) in
    if c == b'*' && peek rest == b'/' then done (advance (consume c rest s)) else further

unfoldable pub skip_block_comment : Cursor → Scan Cursor
skip_block_comment start = let s = advance (advance start) in comment_end start s.text s

-- What one round of the loop does: it ends with the last token, skips a comment, pushes a token or
-- throws.
pub data Round : Type 0 where
  stop : Token → Round
  skip_to : Cursor → Round
  emit : Token → Cursor → Round
  abort : LexerError → Round

abbrev pub emitted : Scan (Token × Cursor) → Round
emitted (fails e) = abort e
emitted (done (token, s)) = emit token s

abbrev pub skipped : Scan Cursor → Round
skipped (fails e) = abort e
skipped (done s) = skip_to s

abbrev pub is_end : List ℕ → Bool
is_end [] = true
is_end _ = false

-- Behind the whitespace.
unfoldable pub round_at : Cursor → Round
round_at s =
    let c = peek s.text in
    let d = peek_next s.text in
    if is_end s.text
    then stop (token_at s eof_token [])
    else if c == b'-' && d == b'-'
    then skip_to (skip_line_comment s)
    else if c == b'/' && d == b'*'
    then skipped (skip_block_comment s)
    else if c == b'\''
    then emitted (read_string s)
    else if is_digit c
    then emitted (read_number s)
    else if is_word_start c
    then emitted (done (read_word s))
    else emitted (read_operator s)

abbrev pub push : Token → Option (Scan (List Token)) → Option (Scan (List Token))
push token none = none
push token (some (fails e)) = some (fails e)
push token (some (done tokens)) = some (done (token ∷ tokens))

abbrev pub follow : (Cursor → Option (Scan (List Token))) → Round → Option (Scan (List Token))
follow loop (stop token) = some (done (token ∷ []))
follow loop (skip_to s) = loop s
follow loop (emit token s) = push token (loop s)
follow loop (abort e) = some (fails e)

-- The loop, `none` when the rounds run out.
unfoldable pub tokenize_from : ℕ → Cursor → Option (Scan (List Token))
tokenize_from zero s = none
tokenize_from (suc fuel) s = follow (λ u. tokenize_from fuel u) (round_at (skip_whitespace s))

-- A round for each character and one for the end.
unfoldable pub tokenize : List ℕ → Option (Scan (List Token))
tokenize source = tokenize_from (suc (length source)) (record { text = source; line = 1; col = 1 })
