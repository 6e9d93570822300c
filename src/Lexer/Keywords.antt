-- ===== src/Lexer/Keywords.antt =====
-- Keywords with hyphens are read whole.
use skibidi_ql.Prelude.{
  ℕ, ◌≡◌, refl, ap, ◌∙◌, subst, Bool, true, false, not, ◌&&◌, some, List, [], ◌∷◌, ◌++◌, ◌==◌,
  if◌then◌else◌, bytes_eq, bytes_eq→eq, compare_bytes, Bool-cases, inl, inr, arith,
}
use skibidi_ql.Lexer.Token.{TokenType, find_keyword, keywords, codes}
use skibidi_ql.Lexer.Cursor.{Cursor, consume, is_word_continue}
use skibidi_ql.Lexer.Words.{token_at, goes_on, word_chars, classify, name_word, read_word}

-- A word that the loop of readWord goes through to its end.
abbrev pub whole : List ℕ → Bool
whole [] = false
whole (c ∷ []) = is_word_continue c && not (c == b'-')
whole (c ∷ (d ∷ word)) = goes_on c (d ∷ word) && whole (d ∷ word)

-- A text at which the loop stops.
abbrev pub stops : List ℕ → Bool
stops [] = true
stops (c ∷ rest) = not (goes_on c rest)

-- What the loop reads, and where it ends.
abbrev ReadsTo : List ℕ → List ℕ → List ℕ × Cursor → Type 0
ReadsTo word rest r = (r.0 ≡ word) × (r.1.text ≡ rest)

word_chars-stops :
    (rest : List ℕ) (s : Cursor)
    → s.text ≡ rest
    → stops rest ≡ true
    → ReadsTo [] rest (word_chars rest s)
unfolding word_chars
word_chars-stops [] s h k = (refl, h)
word_chars-stops (c ∷ rest) s h k = elim (Bool-cases (goes_on c rest)) [
  | inl on ↦ absurd (ground (arith, k, on))
  | inr ends ↦ rw ends (refl, h)
]

word_chars-first :
    (c : ℕ) (word more rest : List ℕ) (s : Cursor)
    → goes_on c more ≡ true
    → ReadsTo word rest (word_chars more (consume c more s))
    → ReadsTo (c ∷ word) rest (word_chars (c ∷ more) s)
unfolding word_chars
word_chars-first c word more rest s on (r, e) = rw on (ap (◌∷◌ c) r, e)

last_goes_on :
    (c : ℕ) (rest : List ℕ) → is_word_continue c && not (c == b'-') ≡ true → goes_on c rest ≡ true
last_goes_on c rest h = ground (arith, h)

both_left : (a b : Bool) → a && b ≡ true → a ≡ true
both_left true b h = refl
both_left false b h = cc

both_right : (a b : Bool) → a && b ≡ true → b ≡ true
both_right true b h = h
both_right false b h = cc

turned : (b : Bool) → not b ≡ true → b ≡ false
turned true h = cc
turned false h = refl

word_chars-whole :
    (word rest : List ℕ) (s : Cursor)
    → whole word ≡ true
    → stops rest ≡ true
    → ReadsTo word rest (word_chars (word ++ rest) s)
unfolding consume
word_chars-whole [] rest s h k = cc
word_chars-whole (c ∷ []) rest s h k =
    word_chars-first c [] rest rest s (last_goes_on c rest h)
      (word_chars-stops rest (consume c rest s) refl k)
word_chars-whole (c ∷ (d ∷ word)) rest s h k =
    word_chars-first c (d ∷ word) (d ∷ (word ++ rest)) rest s
      (both_left (goes_on c (d ∷ word)) (whole (d ∷ word)) h)
      (word_chars-whole (d ∷ word) rest (consume c (d ∷ (word ++ rest)) s)
        (both_right (goes_on c (d ∷ word)) (whole (d ∷ word)) h) k)

-- The keys of the table are such words, and none is the name of MIN.
abbrev proper : List (List ℕ × TokenType) → Bool
proper [] = true
proper ((key, kind) ∷ table) = (whole key && not (bytes_eq key (codes "L"))) && proper table

find_keyword-proper :
    (word : List ℕ) (table : List (List ℕ × TokenType)) (kind : TokenType)
    → proper table ≡ true
    → find_keyword word table ≡ some kind
    → whole word && not (bytes_eq word (codes "L")) ≡ true
unfolding find_keyword
find_keyword-proper word [] kind all h = cc
find_keyword-proper word ((key, k) ∷ table) kind all h = elim (Bool-cases (bytes_eq key word)) [
  | inl here ↦
      subst (λ (w : List ℕ). whole w && not (bytes_eq w (codes "L")) ≡ true)
        (bytes_eq→eq key word here)
        (both_left (whole key && not (bytes_eq key (codes "L"))) (proper table) all)
  | inr there ↦
      find_keyword-proper word table kind
        (both_right (whole key && not (bytes_eq key (codes "L"))) (proper table) all)
        (subst (λ (b : Bool). (if b then some k else find_keyword word table) ≡ some kind) there h)
]

name_word-keyword :
    (s end : Cursor) (word : List ℕ) (kind : TokenType)
    → bytes_eq word (codes "L") ≡ false
    → find_keyword word keywords ≡ some kind
    → name_word s (word, end) ≡ (token_at s kind word, end)
unfolding name_word
name_word-keyword s end word kind other found = rw other (ap (classify s word end) found)

-- Every word of the table KEYWORDS is read by readWord as one token of its kind, its hyphens
-- included, where what stands behind it would not go on with the word; that is left.
pub read_word-find_keyword :
    (s : Cursor) (word rest : List ℕ) (kind : TokenType)
    → s.text ≡ word ++ rest
    → find_keyword word keywords ≡ some kind
    → stops rest ≡ true
    → (u : Cursor) × (read_word s ≡ (token_at s kind word, u)) × (u.text ≡ rest)
unfolding read_word compare_bytes
read_word-find_keyword s word rest kind h found k =
    let fine = find_keyword-proper word keywords kind refl found in
    let is_whole = both_left (whole word) (not (bytes_eq word (codes "L"))) fine in
    let other = both_right (whole word) (not (bytes_eq word (codes "L"))) fine in
    let (r, e) = word_chars-whole word rest s is_whole k in
    let end = (word_chars (word ++ rest) s).1 in
    (
      end,
      ap (λ (t : List ℕ). name_word s (word_chars t s)) h
          ∙ ap (λ (w : List ℕ). name_word s (w, end)) r
          ∙ name_word-keyword s end word kind (turned (bytes_eq word (codes "L")) other) found,
      e,
    )
