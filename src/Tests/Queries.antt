-- ===== src/Tests/Queries.antt =====
-- A query with a keyword, a quoted text and comments, and a cache with two compilations.
use skibidi_ql.Prelude.{
  ℕ, ◌≤◌, ◌≡◌, refl, Option, none, some, false, List, [], ◌∷◌, arith, length, ◌⊎◌, compare_bytes,
  map,
}
use skibidi_ql.Lexer.Token.{
  Token, TokenType, LexerError, Scan, done, fails, codes, string_lit, find_keyword, slay,
  left_link_up, no_cap, identifier, eof_token,
}
use skibidi_ql.Lexer.Cursor.{Cursor, scan, consume, advance}
use skibidi_ql.Lexer.Words.{
  token_at, read_word, name_word, word_chars, identifier_of, split_hyphen, back_up,
}
use skibidi_ql.Lexer.Literals.{read_string, string_chars}
use skibidi_ql.Lexer.Tokenize.{
  tokenize, tokenize_from, round_at, skip_whitespace, skip_line_comment,
}
use skibidi_ql.Lexer.Total.{EndsInEof, tokenize_lem}
use skibidi_ql.Lexer.Keywords.{read_word-find_keyword}
use skibidi_ql.Lexer.Quote.{quote_chars, read_string-quote}
use skibidi_ql.Cache.{
  Sizes, Cache, CachedCompilation, get, put, estimate_bytes, statements_bytes, notes_bytes,
}
use skibidi_ql.Cache.Bounds.{IsCache, total}
use skibidi_ql.Cache.Put.{put-get_keep_limits}
use skibidi_ql.Cache.Lookup.{get-put}

abbrev query : List ℕ
query = codes "slay 'a' -- all\n no-cap t"

abbrev kinds : Option (Scan (List Token)) → List TokenType
kinds none = []
kinds (some (fails e)) = []
kinds (some (done tokens)) = map (λ (t : Token). t.kind) tokens

kinds_of_query : kinds (tokenize query) ≡ slay ∷ string_lit ∷ no_cap ∷ identifier ∷ eof_token ∷ []
unfolding tokenize tokenize_from round_at skip_whitespace skip_line_comment scan consume advance
    read_word name_word word_chars find_keyword compare_bytes identifier_of split_hyphen back_up
    read_string string_chars
kinds_of_query = refl

tokenize_lem_example :
    ((tokens : List Token) × (tokenize query ≡ some (done tokens)) × EndsInEof tokens)
    ⊎ ((e : LexerError) × (tokenize query ≡ some (fails e)))
tokenize_lem_example = tokenize_lem query

-- The text it's in quotes, with a comma behind.
abbrev quoted : Cursor
quoted = record { text = codes "'it''s', b"; line = 1; col = 1 }

read_string-quote_example :
    (u : Cursor) × (read_string quoted ≡ done (token_at quoted string_lit (codes "it's"), u))
    × (u.text ≡ codes ", b")
unfolding quote_chars
read_string-quote_example = read_string-quote quoted (codes "it's") (codes ", b") refl refl

-- A join.
abbrev join : Cursor
join = record { text = codes "left-link-up x"; line = 1; col = 1 }

read_word-find_keyword_example :
    (u : Cursor) × (read_word join ≡ (token_at join left_link_up (codes "left-link-up"), u))
    × (u.text ≡ codes " x")
unfolding find_keyword compare_bytes
read_word-find_keyword_example =
    read_word-find_keyword join (codes "left-link-up") (codes " x") left_link_up refl refl refl

abbrev sizes : Sizes
sizes = record { capacity = length; notes_capacity = length; entry_size = 96; string_size = 32 }

abbrev compiled : CachedCompilation
compiled = record { sql = codes "SELECT 1"; optimization_notes = []; schema_changing = false } ∷ []

-- Room for two compilations.
abbrev fresh : Cache
fresh = record {
  max_entries = 2;
  max_bytes = 1000;
  bytes = 0;
  hits = 0;
  misses = 0;
  evictions = 0;
  lru = [];
}

fresh-IsCache : IsCache fresh
unfolding total
fresh-IsCache = record { counted = refl; entries_within = omega arith; bytes_within = omega arith }

put-get_keep_limits_example :
    IsCache (put sizes (codes "slay 1") 7 compiled fresh) × IsCache (get (codes "slay 1") 7 fresh).1
put-get_keep_limits_example =
    put-get_keep_limits sizes (codes "slay 1") 7 compiled fresh fresh-IsCache

-- What a query counts.
compiled_small : estimate_bytes sizes (codes "slay 1") compiled ≤ 1000
unfolding estimate_bytes statements_bytes notes_bytes
compiled_small = omega arith

get-put_example :
    (get (codes "slay 1") 7 (put sizes (codes "slay 1") 7 compiled fresh)).0 ≡ some compiled
get-put_example =
    get-put sizes (codes "slay 1") 7 compiled fresh fresh-IsCache (λ e. absurd (ground (arith, e)))
      compiled_small
