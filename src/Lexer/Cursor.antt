-- ===== src/Lexer/Cursor.antt =====
-- Where the lexer stands: `src` from `pos` on, `line` and `col`; and the loops that read while a test
-- on the next character holds. A text is a list of bytes.
use skibidi_ql.Prelude.{
  ℕ, suc, ◌≤◌, ◌<◌, ◌≡◌, refl, Bool, true, ◌&&◌, ◌||◌, List, [], ◌∷◌, leb, ◌==◌, if◌then◌else◌,
  length, arith, Bool-cases, inl, inr,
}

pub record Cursor : Type 0 where
  pub text : List ℕ
  pub line : ℕ
  pub col : ℕ

abbrev pub newline : ℕ
newline = 10

-- std::isspace, isalpha and isdigit in the C locale.
abbrev pub is_space : ℕ → Bool
is_space c = c == 32 || (leb 9 c && leb c 13)

abbrev pub is_alpha : ℕ → Bool
is_alpha c = (leb b'a' c && leb c b'z') || (leb b'A' c && leb c b'Z')

abbrev pub is_digit : ℕ → Bool
is_digit c = leb b'0' c && leb c b'9'

abbrev pub is_word_start : ℕ → Bool
is_word_start c = is_alpha c || c == b'_'

abbrev pub is_word_continue : ℕ → Bool
is_word_continue c = is_alpha c || (is_digit c || (c == b'_' || c == b'-'))

-- peek(): 0 behind the end.
abbrev pub peek : List ℕ → ℕ
peek [] = 0
peek (c ∷ _) = c

abbrev pub peek_next : List ℕ → ℕ
peek_next [] = 0
peek_next (_ ∷ rest) = peek rest

-- advance over a character that `rest` follows.
unfoldable pub consume : ℕ → List ℕ → Cursor → Cursor
consume c rest s = record {
  text = rest;
  line = if c == newline then suc s.line else s.line;
  col = if c == newline then 1 else suc s.col;
}

abbrev pub advance_over : List ℕ → Cursor → Cursor
advance_over [] s = s
advance_over (c ∷ rest) s = consume c rest s

unfoldable pub advance : Cursor → Cursor
advance s = advance_over s.text s

-- Advance while the test holds; the characters read are returned. The list is the cursor's text.
unfoldable pub scan : (ℕ → Bool) → List ℕ → Cursor → List ℕ × Cursor
unfolding consume
scan test [] s = ([], s)
scan test (c ∷ rest) s =
    let (read, end) = scan test rest (consume c rest s) in
    if test c then (c ∷ read, end) else ([], s)

pub text-scan :
    (test : ℕ → Bool) (text : List ℕ) (s : Cursor)
    → s.text ≡ text
    → length (scan test text s).1.text ≤ length text
unfolding scan consume
text-scan test [] s h = rw h (omega arith)
text-scan test (c ∷ rest) s h = elim (Bool-cases (test c)) [
  | inl holds ↦ rw holds (omega (arith, text-scan test rest (consume c rest s) refl))
  | inr ends ↦ rw (ends, h) (omega arith)
]

pub scan-first :
    (test : ℕ → Bool) (s : Cursor) (c : ℕ) (rest : List ℕ)
    → s.text ≡ c ∷ rest
    → test c ≡ true
    → length (scan test s.text s).1.text < length s.text
unfolding scan consume
scan-first test s c rest h d =
    rw (h, d) (omega (arith, text-scan test rest (consume c rest s) refl))
