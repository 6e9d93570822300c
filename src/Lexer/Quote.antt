-- ===== src/Lexer/Quote.antt =====
-- A text in quotes is read back by readString.
use skibidi_ql.Prelude.{
  eqb→eq, ℕ, ◌≡◌, refl, ap, ◌∙◌, Bool, true, false, List, [], ◌∷◌, ◌++◌, ◌==◌, if◌then◌else◌,
  Bool-cases, inl, inr,
}
use skibidi_ql.Lexer.Token.{string_lit, Scan, done}
use skibidi_ql.Lexer.Cursor.{Cursor, consume, advance, peek}
use skibidi_ql.Lexer.Words.{token_at}
use skibidi_ql.Lexer.Literals.{prepend, unescape, string_chars, finish_string, read_string}
use skibidi_ql.Lexer.Reads.{text-advance}

abbrev is_end : List ℕ → Bool
is_end [] = true
is_end _ = false

-- A text as it is written between quotes: quotes and backslashes are doubled.
unfoldable pub quote_chars : List ℕ → List ℕ
quote_chars [] = []
quote_chars (c ∷ cs) =
    let rest = quote_chars cs in
    if c == b'\''
    then b'\'' ∷ (b'\'' ∷ rest)
    else if c == b'\\'
    then b'\\' ∷ (b'\\' ∷ rest)
    else c ∷ rest

string_chars-plain :
    (start : Cursor) (c : ℕ) (text : List ℕ) (s : Cursor)
    → is_end text ≡ false
    → (c == b'\'') ≡ false
    → (c == b'\\') ≡ false
    → string_chars start (c ∷ text) s
      ≡ prepend (c ∷ []) (string_chars start text (consume c text s))
unfolding string_chars
string_chars-plain start c [] s h q b = cc
string_chars-plain start c (d ∷ rest) s h q b = rw (q, b, string_chars) refl

string_chars-close :
    (start : Cursor) (rest : List ℕ) (s : Cursor)
    → (peek rest == b'\'') ≡ false
    → string_chars start (b'\'' ∷ rest) s ≡ done ([], consume b'\'' rest s)
unfolding string_chars
string_chars-close start [] s h = refl
string_chars-close start (d ∷ rest) s h = rw (h, string_chars) refl

string_chars-twice :
    (start : Cursor) (rest : List ℕ) (s : Cursor)
    → string_chars start (b'\'' ∷ (b'\'' ∷ rest)) s
      ≡ prepend
          (b'\'' ∷ [])
          (string_chars start rest (consume b'\'' rest (consume b'\'' (b'\'' ∷ rest) s)))
unfolding string_chars
string_chars-twice start rest s = refl

string_chars-escape :
    (start : Cursor) (rest : List ℕ) (s : Cursor)
    → string_chars start (b'\\' ∷ (b'\\' ∷ rest)) s
      ≡ prepend
          (b'\\' ∷ [])
          (string_chars start rest (consume b'\\' rest (consume b'\\' (b'\\' ∷ rest) s)))
unfolding string_chars unescape
string_chars-escape start rest s = refl

not_end : (xs : List ℕ) (y : ℕ) (ys : List ℕ) → is_end (xs ++ y ∷ ys) ≡ false
not_end [] y ys = refl
not_end (x ∷ xs) y ys = refl

-- The rest of the text is read as `value`, and `rest` is left.
abbrev Back : Scan (List ℕ × Cursor) → List ℕ → List ℕ → Type 0
Back r value rest = (u : Cursor) × (r ≡ done (value, u)) × (u.text ≡ rest)

prepend-Back :
    (chars : List ℕ) (r : Scan (List ℕ × Cursor)) (value rest : List ℕ)
    → Back r value rest
    → Back (prepend chars r) (chars ++ value) rest
prepend-Back chars r value rest (u, e, k) = (u, ap (prepend chars) e, k)

string_chars-quote :
    (start : Cursor) (value rest : List ℕ) (s : Cursor)
    → (peek rest == b'\'') ≡ false
    → Back (string_chars start (quote_chars value ++ b'\'' ∷ rest) s) value rest
unfolding quote_chars consume
string_chars-quote start [] rest s h = (_, string_chars-close start rest s h, refl)
string_chars-quote start (c ∷ value) rest s h =
    let more = quote_chars value ++ b'\'' ∷ rest in
    elim (Bool-cases (c == b'\'')) [
      | inl quote ↦
          rw (quote, eqb→eq c b'\'' quote, string_chars-twice start more s)
            (prepend-Back (b'\'' ∷ []) _ value rest (string_chars-quote start value rest _ h))
      | inr other ↦ elim (Bool-cases (c == b'\\')) [
        | inl escape ↦
            rw (other, escape, eqb→eq c b'\\' escape, string_chars-escape start more s)
              (prepend-Back (b'\\' ∷ []) _ value rest (string_chars-quote start value rest _ h))
        | inr plain ↦
            rw
              (
                other,
                plain,
                string_chars-plain start c more s (not_end (quote_chars value) b'\'' rest) other
                    plain,
              )
              (prepend-Back (c ∷ []) _ value rest (string_chars-quote start value rest _ h))
      ]
    ]

-- A text in quotes, its quotes and backslashes doubled, is read by readString as one token with that
-- text, and what stands behind is left, unless that begins with another quote.
pub read_string-quote :
    (s : Cursor) (value rest : List ℕ)
    → s.text ≡ b'\'' ∷ (quote_chars value ++ b'\'' ∷ rest)
    → (peek rest == b'\'') ≡ false
    → (u : Cursor) × (read_string s ≡ done (token_at s string_lit value, u)) × (u.text ≡ rest)
unfolding read_string
read_string-quote s value rest h k =
    let behind = text-advance b'\'' (quote_chars value ++ b'\'' ∷ rest) s h in
    let (u, e, left) = string_chars-quote s value rest (advance s) k in
    (u, ap (finish_string s) (ap (λ (t : List ℕ). string_chars s t (advance s)) behind ∙ e), left)
