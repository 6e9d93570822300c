-- ===== src/Lexer/Operators.antt =====
-- Lexer::readOperator.
use skibidi_ql.Prelude.{ℕ, List, ◌∷◌, ◌++◌, ◌==◌, if◌then◌else◌}
use skibidi_ql.Lexer.Token.{
  Token, TokenType, eq, neq, lt, gt, lte, gte, plus_op, minus, star, slash, concat, lparen, rparen,
  comma, semicolon, dot, codes, Scan, done,
}
use skibidi_ql.Lexer.Cursor.{Cursor, advance, peek, peek_next}
use skibidi_ql.Lexer.Words.{token_at}
use skibidi_ql.Lexer.Literals.{fail_at}

-- A token of one character, and one of two.
unfoldable pub one_char : Cursor → TokenType → List ℕ → Scan (Token × Cursor)
one_char start kind value = done (token_at start kind value, advance start)

unfoldable pub two_chars : Cursor → TokenType → List ℕ → Scan (Token × Cursor)
two_chars start kind value = done (token_at start kind value, advance (advance start))

unfoldable pub unexpected : Cursor → Scan (Token × Cursor)
unexpected start = fail_at start (codes "Unexpected character '" ++ (peek start.text ∷ codes "'"))

unfoldable pub read_operator : Cursor → Scan (Token × Cursor)
read_operator s =
    let c = peek s.text in
    let d = peek_next s.text in
    if c == b'='
    then one_char s eq (codes "=")
    else if c == b'!'
    then (if d == b'=' then two_chars s neq (codes "!=") else unexpected s)
    else if c == b'<'
    then (if d == b'=' then two_chars s lte (codes "<=") else one_char s lt (codes "<"))
    else if c == b'>'
    then (if d == b'=' then two_chars s gte (codes ">=") else one_char s gt (codes ">"))
    else if c == b'+'
    then one_char s plus_op (codes "+")
    else if c == b'-'
    then one_char s minus (codes "-")
    else if c == b'*'
    then one_char s star (codes "*")
    else if c == b'/'
    then one_char s slash (codes "/")
    else if c == b'|'
    then (if d == b'|'
        then two_chars s concat (codes "||")
        else fail_at s (codes "Expected '||' for concatenation"))
    else if c == b'('
    then one_char s lparen (codes "(")
    else if c == b')'
    then one_char s rparen (codes ")")
    else if c == b','
    then one_char s comma (codes ",")
    else if c == b';'
    then one_char s semicolon (codes ";")
    else if c == b'.'
    then one_char s dot (codes ".")
    else unexpected s
