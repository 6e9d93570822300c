-- ===== src/Lexer/ReadsLiteral.antt =====
-- Lexer::readNumber and Lexer::readString take at least one character.
use skibidi_ql.Prelude.{
  ℕ, ◌≤◌, ◌<◌, ◌≡◌, refl, Bool, true, false, ◌||◌, List, [], ◌∷◌, length, ◌==◌, if◌then◌else◌,
  arith, Bool-cases, inl, inr,
}
use skibidi_ql.Lexer.Token.{float_lit, integer_lit, LexerError, Scan, done, fails}
use skibidi_ql.Lexer.Cursor.{Cursor, consume, advance, scan, text-scan, scan-first, is_digit, peek}
use skibidi_ql.Lexer.Literals.{
  finish_number, finish_string, prepend, fraction, exponent_sign, exponent, read_number,
  string_chars, read_string, unescape,
}
use skibidi_ql.Lexer.Tokenize.{is_end}
use skibidi_ql.Lexer.Reads.{is_eof, Reads, reads, throws, advance-shorter, length-advance}

length-digits : (s : Cursor) → length (scan is_digit s.text s).1.text ≤ length s.text
length-digits s = text-scan is_digit s.text s refl

length-fraction : (s : Cursor) → length (fraction s).2.text ≤ length s.text
unfolding fraction
length-fraction s = ground (arith, length-digits (advance s), length-advance s)

-- Where an exponent is read it ends no earlier than it begins.
data Ends (s : Cursor) : Scan (List ℕ × Bool × Cursor) → Type 0 where
  threw : (e : LexerError) → Ends s (fails e)
  ends :
      (chars : List ℕ) (is_float : Bool) (u : Cursor)
      → length u.text ≤ length s.text
      → Ends s (done (chars, is_float, u))

length-exponent_sign : (s : Cursor) → length (exponent_sign s).1.text ≤ length s.text
unfolding exponent_sign
length-exponent_sign s = ground (arith, length-advance s)

exponent-Ends : (start s : Cursor) → Ends s (exponent start s)
unfolding exponent
exponent-Ends start s = elim (Bool-cases (peek s.text == b'e' || peek s.text == b'E')) [
  | inl present ↦ elim (Bool-cases (is_digit (peek (exponent_sign (advance s)).1.text))) [
    | inl digit ↦
        rw (present, digit)
          (ends _ _ _ (
            omega (
              arith,
              length-digits (exponent_sign (advance s)).1,
              length-exponent_sign (advance s),
              length-advance s,
            )))
    | inr bad ↦ rw (present, bad) (threw _)
  ]
  | inr absent ↦ rw absent (ends _ _ _ (omega arith))
]

either_kind : (b : Bool) → is_eof (if b then float_lit else integer_lit) ≡ false
either_kind true = refl
either_kind false = refl

finish_number-Reads :
    (s t : Cursor) (num : List ℕ) (is_float : Bool) (r : Scan (List ℕ × Bool × Cursor))
    → length t.text < length s.text
    → Ends t r
    → Reads s (finish_number s num is_float r)
finish_number-Reads s t num is_float r h (threw e) = throws e
finish_number-Reads s t num is_float r h (ends chars has_exp u k) =
    reads _ _ (either_kind (is_float || has_exp)) (omega (arith, h, k))

pub read_number-Reads :
    (s : Cursor) (c : ℕ) (rest : List ℕ)
    → s.text ≡ c ∷ rest
    → is_digit c ≡ true
    → Reads s (read_number s)
unfolding read_number
read_number-Reads s c rest h d =
    let whole = (scan is_digit s.text s).1 in
    finish_number-Reads s (fraction whole).2 _ _ _
      (omega (arith, scan-first is_digit s c rest h d, length-fraction whole))
      (exponent-Ends s (fraction whole).2)

-- Where the rest of a text is read it ends within the text.
data Within (text : List ℕ) : Scan (List ℕ × Cursor) → Type 0 where
  broken : (e : LexerError) → Within text (fails e)
  within :
      (value : List ℕ) (u : Cursor) → length u.text ≤ length text → Within text (done (value, u))

prepend-Within :
    (chars longer text : List ℕ) (r : Scan (List ℕ × Cursor))
    → length text ≤ length longer
    → Within text r
    → Within longer (prepend chars r)
prepend-Within chars longer text r h (broken e) = broken e
prepend-Within chars longer text r h (within value u k) = within _ u (omega (arith, h, k))

string_chars-Within :
    (start : Cursor) (text : List ℕ) (s : Cursor) → Within text (string_chars start text s)
unfolding string_chars consume
string_chars-Within start [] s = broken _
string_chars-Within start (c ∷ []) s = elim (Bool-cases (c == b'\'')) [
  | inl quote ↦ rw quote (within _ _ (omega arith))
  | inr other ↦ rw other (broken _)
]
string_chars-Within start (c ∷ (d ∷ rest)) s =
    let s1 = consume c (d ∷ rest) s in
    let s2 = consume d rest s1 in
    elim (Bool-cases (c == b'\'')) [
      | inl quote ↦ elim (Bool-cases (d == b'\'')) [
        | inl twice ↦
            rw (quote, twice, string_chars)
              (prepend-Within (b'\'' ∷ []) _ rest _ (omega arith)
                (string_chars-Within start rest s2))
        | inr once ↦ rw (quote, once, string_chars) (within _ _ (omega arith))
      ]
      | inr other ↦ elim (Bool-cases (c == b'\\')) [
        | inl escape ↦
            rw (other, escape, string_chars)
              (prepend-Within (unescape d) _ rest _ (omega arith)
                (string_chars-Within start rest s2))
        | inr plain ↦
            rw (other, plain, string_chars)
              (prepend-Within (c ∷ []) _ (d ∷ rest) _ (omega arith)
                (string_chars-Within start (d ∷ rest) s1))
      ]
    ]

finish_string-Reads :
    (s t : Cursor) (r : Scan (List ℕ × Cursor))
    → length t.text < length s.text
    → Within t.text r
    → Reads s (finish_string s r)
finish_string-Reads s t r h (broken e) = throws e
finish_string-Reads s t r h (within value u k) = reads _ _ refl (omega (arith, h, k))

pub read_string-Reads : (s : Cursor) → is_end s.text ≡ false → Reads s (read_string s)
unfolding read_string
read_string-Reads s h =
    finish_string-Reads s (advance s) _ (advance-shorter s h)
      (string_chars-Within s (advance s).text (advance s))
