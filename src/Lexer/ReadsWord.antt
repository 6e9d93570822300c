-- ===== src/Lexer/ReadsWord.antt =====
-- Lexer::readWord takes at least one character.
use skibidi_ql.Prelude.{
  ℕ, suc, ◌+◌, ◌≤◌, ◌≡◌, refl, sym, ap, subst, ◌∙◌, Bool, true, false, ◌&&◌, not, Option, none,
  some, List, [], ◌∷◌, length, length-append, ◌==◌, arith, Bool-cases, inl, inr, bytes_eq,
}
use skibidi_ql.Lexer.Token.{TokenType, done, find_keyword, keywords, codes}
use skibidi_ql.Lexer.Cursor.{Cursor, consume, is_word_start}
use skibidi_ql.Lexer.Words.{
  word_chars, split_hyphen, back_up, identifier_of, classify, name_word, read_word, goes_on,
}
use skibidi_ql.Lexer.Reads.{is_eof, Reads, reads}

length-word_chars :
    (text : List ℕ) (s : Cursor)
    → s.text ≡ text
    → length (word_chars text s).0 + length (word_chars text s).1.text ≡ length text
unfolding word_chars consume
length-word_chars [] s h = rw h refl
length-word_chars (c ∷ rest) s h = elim (Bool-cases (goes_on c rest)) [
  | inl on ↦ rw on (omega (arith, length-word_chars rest (consume c rest s) refl))
  | inr ends ↦ rw (ends, h) (omega arith)
]

length-split_hyphen : (word : List ℕ) → length (split_hyphen word).1 ≤ length word
unfolding split_hyphen
length-split_hyphen [] = omega arith
length-split_hyphen (c ∷ word) = elim (Bool-cases (c == b'-')) [
  | inl hyphen ↦ rw hyphen (omega arith)
  | inr other ↦ rw other (omega (arith, length-split_hyphen word))
]

abbrev no_eof : List (List ℕ × TokenType) → Bool
no_eof [] = true
no_eof ((key, kind) ∷ table) = not (is_eof kind) && no_eof table

find_keyword-no_eof :
    (word : List ℕ) (table : List (List ℕ × TokenType)) (kind : TokenType)
    → no_eof table ≡ true
    → find_keyword word table ≡ some kind
    → is_eof kind ≡ false
unfolding find_keyword
find_keyword-no_eof word [] kind all h = cc
find_keyword-no_eof word ((key, k) ∷ table) kind all h = elim (Bool-cases (bytes_eq key word)) [
  | inl here ↦ ground (arith, all, h, here)
  | inr there ↦ find_keyword-no_eof word table kind (ground (arith, all)) (ground (arith, h, there))
]

-- A word that begins with no hyphen, with what follows it, makes up the text.
module _ (s end : Cursor) (c : ℕ) (w : List ℕ)
    (whole : suc (length w) + length end.text ≡ length s.text) (begins : (c == b'-') ≡ false) where
  identifier_of-Reads : Reads s (done (identifier_of s (c ∷ w) end))
  unfolding identifier_of split_hyphen back_up
  identifier_of-Reads = rw begins (
      reads _ _ refl
        (omega (arith, whole, length-split_hyphen w, length-append (split_hyphen w).1 end.text)))

  classify-Reads :
      (found : Option TokenType)
      → found ≡ find_keyword (c ∷ w) keywords
      → Reads s (done (classify s (c ∷ w) end found))
  classify-Reads none h = identifier_of-Reads
  classify-Reads (some kind) h =
      reads _ _ (find_keyword-no_eof (c ∷ w) keywords kind refl (sym h)) (omega (arith, whole))

  named-Reads : Reads s (done (name_word s (c ∷ w, end)))
  unfolding name_word
  named-Reads = elim (Bool-cases (bytes_eq (c ∷ w) (codes "L"))) [
    | inl minimum ↦ rw minimum (reads _ _ refl (omega (arith, whole)))
    | inr other ↦ rw other (classify-Reads (find_keyword (c ∷ w) keywords) refl)
  ]

starts-goes_on :
    (c : ℕ) (rest : List ℕ)
    → is_word_start c ≡ true
    → (goes_on c rest ≡ true) × ((c == b'-') ≡ false)
starts-goes_on c rest h = (ground arith, ground arith)

word_chars-first :
    (c : ℕ) (rest : List ℕ) (s : Cursor)
    → goes_on c rest ≡ true
    → word_chars (c ∷ rest) s
      ≡ (c ∷ (word_chars rest (consume c rest s)).0, (word_chars rest (consume c rest s)).1)
unfolding word_chars
word_chars-first c rest s on = rw on refl

pub read_word-Reads :
    (s : Cursor) (c : ℕ) (rest : List ℕ)
    → s.text ≡ c ∷ rest
    → is_word_start c ≡ true
    → Reads s (done (read_word s))
unfolding read_word consume
read_word-Reads s c rest h start =
    let (on, begins) = starts-goes_on c rest start in
    let r = word_chars rest (consume c rest s) in
    let later = length-word_chars rest (consume c rest s) refl in
    let whole = ap length h in
    let same = ap (λ (text : List ℕ). word_chars text s) h ∙ word_chars-first c rest s on in
    subst (λ x. Reads s (done (name_word s x))) (sym same)
      (named-Reads s r.1 c r.0 (omega (arith, later, whole)) begins)
