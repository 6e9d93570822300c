-- ===== src/Lexer/Words.antt =====
-- Lexer::readWord: keywords with hyphens, and identifiers, which end before their first hyphen.
use skibidi_ql.Prelude.{
  ℕ, ◌-◌, Bool, true, false, Option, none, some, List, [], ◌∷◌, ◌++◌, ◌==◌, ◌&&◌, if◌then◌else◌,
  length, bytes_eq,
}
use skibidi_ql.Lexer.Token.{Token, TokenType, identifier, l_func, codes, keywords, find_keyword}
use skibidi_ql.Lexer.Cursor.{Cursor, consume, is_word_start, is_word_continue}

abbrev pub starts_word : List ℕ → Bool
starts_word [] = false
starts_word (c ∷ _) = is_word_start c

-- The test of the loop: a hyphen goes on only in front of a letter or an underscore.
abbrev pub goes_on : ℕ → List ℕ → Bool
goes_on c rest = is_word_continue c && (if c == b'-' then starts_word rest else true)

unfoldable pub word_chars : List ℕ → Cursor → List ℕ × Cursor
word_chars [] s = ([], s)
word_chars (c ∷ rest) s =
    let (word, end) = word_chars rest (consume c rest s) in
    if goes_on c rest then (c ∷ word, end) else ([], s)

-- A word up to its first hyphen, and the rest from there on.
unfoldable pub split_hyphen : List ℕ → List ℕ × List ℕ
split_hyphen [] = ([], [])
split_hyphen (c ∷ word) =
    let (ident, rest) = split_hyphen word in if c == b'-' then ([], c ∷ word) else (c ∷ ident, rest)

-- `rest` is put back in front of the cursor.
unfoldable pub back_up : List ℕ → Cursor → Cursor
back_up rest s = record s { text = rest ++ s.text; col = s.col - length rest }

abbrev pub token_at : Cursor → TokenType → List ℕ → Token
token_at start kind value = record {
  kind = kind;
  value = value;
  line = start.line;
  col = start.col;
}

-- A word that is no keyword.
unfoldable pub identifier_of : Cursor → List ℕ → Cursor → Token × Cursor
identifier_of start word end =
    let (ident, rest) = split_hyphen word in (token_at start identifier ident, back_up rest end)

abbrev pub classify : Cursor → List ℕ → Cursor → Option TokenType → Token × Cursor
classify start word end (some kind) = (token_at start kind word, end)
classify start word end none = identifier_of start word end

-- What readWord makes of the characters that it read.
unfoldable pub name_word : Cursor → List ℕ × Cursor → Token × Cursor
name_word start (word, end) =
    if bytes_eq word (codes "L")
    then (token_at start l_func word, end)
    else classify start word end (find_keyword word keywords)

unfoldable pub read_word : Cursor → Token × Cursor
read_word start = name_word start (word_chars start.text start)
