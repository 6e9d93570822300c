-- ===== src/Lexer/Total.antt =====
-- Every round of tokenize but the last takes at least one character, so that its rounds suffice.
use skibidi_ql.Prelude.{
  ℕ, zero, suc, ◌≤◌, ◌<◌, ◌≡◌, refl, Bool, true, false, ◌&&◌, not, Option, some, List, [], ◌∷◌,
  length, ◌==◌, if◌then◌else◌, arith, Bool-cases, inl, inr, ◌⊎◌,
}
use skibidi_ql.Lexer.Token.{Token, LexerError, Scan, done, fails}
use skibidi_ql.Lexer.Cursor.{
  Cursor, consume, advance, text-scan, scan-first, is_space, is_digit, is_word_start, newline, peek,
  peek_next,
}
use skibidi_ql.Lexer.Tokenize.{
  skip_whitespace, skip_line_comment, comment_end, skip_block_comment, Round, stop, skip_to, emit,
  abort, emitted, skipped, is_end, round_at, push, follow, tokenize_from, tokenize,
}
use skibidi_ql.Lexer.Reads.{
  length-advance, read_operator-Reads, advance-shorter, is_eof, Reads, reads, throws,
}
use skibidi_ql.Lexer.ReadsWord.{read_word-Reads}
use skibidi_ql.Lexer.ReadsLiteral.{read_number-Reads, read_string-Reads}

-- A round ends with the last token, or takes characters and gives no such token.
data Proceeds (s : Cursor) : Round → Type 0 where
  stops : (token : Token) → is_eof token.kind ≡ true → Proceeds s (stop token)
  skips : (u : Cursor) → length u.text < length s.text → Proceeds s (skip_to u)
  emits :
      (token : Token) (u : Cursor)
      → is_eof token.kind ≡ false
      → length u.text < length s.text
      → Proceeds s (emit token u)
  aborts : (e : LexerError) → Proceeds s (abort e)

emitted-Proceeds : (s : Cursor) (r : Scan (Token × Cursor)) → Reads s r → Proceeds s (emitted r)
emitted-Proceeds s r (throws e) = aborts e
emitted-Proceeds s r (reads token u k h) = emits token u k h

-- Where a block comment is read it ends within the text.
data Closes (text : List ℕ) : Scan Cursor → Type 0 where
  unclosed : (e : LexerError) → Closes text (fails e)
  closed : (u : Cursor) → length u.text ≤ length text → Closes text (done u)

comment_end-Closes :
    (start : Cursor) (text longer : List ℕ) (s : Cursor)
    → length text ≤ length longer
    → Closes longer (comment_end start text s)
unfolding comment_end consume
comment_end-Closes start [] longer s h = unclosed _
comment_end-Closes start (c ∷ rest) longer s h =
    elim (Bool-cases (c == b'*' && peek rest == b'/')) [
      | inl found ↦ rw found (closed _ (omega (arith, h, length-advance (consume c rest s))))
      | inr other ↦
          rw other (comment_end-Closes start rest longer (consume c rest s) (omega (arith, h)))
    ]

skipped-Proceeds :
    (s t : Cursor) (r : Scan Cursor)
    → length t.text < length s.text
    → Closes t.text r
    → Proceeds s (skipped r)
skipped-Proceeds s t r h (unclosed e) = aborts e
skipped-Proceeds s t r h (closed u k) = skips u (omega (arith, h, k))

skip_block_comment-Proceeds :
    (s : Cursor) → is_end s.text ≡ false → Proceeds s (skipped (skip_block_comment s))
unfolding skip_block_comment
skip_block_comment-Proceeds s h =
    let t = advance (advance s) in
    skipped-Proceeds s t _ (omega (arith, advance-shorter s h, length-advance (advance s)))
      (comment_end-Closes s t.text t.text t (omega arith))

skip_line_comment-Proceeds :
    (s : Cursor) (c : ℕ) (rest : List ℕ)
    → s.text ≡ c ∷ rest
    → c ≡ b'-'
    → Proceeds s (skip_to (skip_line_comment s))
unfolding skip_line_comment
skip_line_comment-Proceeds s c rest h dash =
    skips _ (scan-first (λ d. not (d == newline)) s c rest h (ground (arith, dash)))

either-Proceeds :
    (s : Cursor) (b : Bool) (x y : Round)
    → (b ≡ true → Proceeds s x)
    → (b ≡ false → Proceeds s y)
    → Proceeds s (if b then x else y)
either-Proceeds s true x y p q = p refl
either-Proceeds s false x y p q = q refl

is_end-cons : (s : Cursor) (c : ℕ) (rest : List ℕ) → s.text ≡ c ∷ rest → is_end s.text ≡ false
is_end-cons s c rest h = rw h refl

peek-cons : (s : Cursor) (c : ℕ) (rest : List ℕ) → s.text ≡ c ∷ rest → peek s.text ≡ c
peek-cons s c rest h = rw h refl

both_true : (a b : Bool) → a && b ≡ true → a ≡ true
both_true true b h = refl
both_true false b h = cc

round_at-Proceeds : (s : Cursor) → Proceeds s (round_at s)
unfolding round_at
round_at-Proceeds s = go s.text refl
  where
    go : (text : List ℕ) → s.text ≡ text → Proceeds s (round_at s)
    go [] h = rw h (stops _ refl)
    go (c ∷ rest) h =
        let full = is_end-cons s c rest h in
        let first = peek-cons s c rest h in
        let d = peek s.text in
        let e = peek_next s.text in
        either-Proceeds s (is_end s.text) _ _ (λ k. cc)
          λ k1.
            either-Proceeds s (d == b'-' && e == b'-') _ _
              (λ k. skip_line_comment-Proceeds s c rest h (ground (arith, k, first)))
              λ k2.
                either-Proceeds s (d == b'/' && e == b'*') _ _
                  (λ k. skip_block_comment-Proceeds s full)
                  λ k3.
                    either-Proceeds s (d == b'\'') _ _
                      (λ k. emitted-Proceeds s _ (read_string-Reads s full))
                      λ k4.
                        either-Proceeds s (is_digit d) _ _
                          (λ k.
                            emitted-Proceeds s _
                              (read_number-Reads s c rest h (ground (arith, k, first))))
                          λ k5.
                            either-Proceeds s (is_word_start d) _ _
                              (λ k.
                                emitted-Proceeds s _
                                  (read_word-Reads s c rest h (ground (arith, k, first))))
                              λ k6. emitted-Proceeds s _ (read_operator-Reads s full)

length-skip_whitespace : (s : Cursor) → length (skip_whitespace s).text ≤ length s.text
unfolding skip_whitespace
length-skip_whitespace s = text-scan is_space s.text s refl

-- The last token and no other is the end.
abbrev pub EndsInEof : List Token → Type 0
EndsInEof [] = ⊥
EndsInEof (t ∷ []) = is_eof t.kind ≡ true
EndsInEof (t ∷ (u ∷ ts)) = (is_eof t.kind ≡ false) × EndsInEof (u ∷ ts)

-- The loop has given the tokens, or thrown.
data Finished : Option (Scan (List Token)) → Type 0 where
  gave : (tokens : List Token) → EndsInEof tokens → Finished (some (done tokens))
  threw : (e : LexerError) → Finished (some (fails e))

push-Finished :
    (token : Token) (r : Option (Scan (List Token)))
    → is_eof token.kind ≡ false
    → Finished r
    → Finished (push token r)
push-Finished token r k (gave (t ∷ ts) w) = gave _ (k, w)
push-Finished token r k (gave [] w) = absurd w
push-Finished token r k (threw e) = threw e

follow-Finished :
    (loop : Cursor → Option (Scan (List Token))) (s : Cursor)
    → ((u : Cursor) → length u.text < length s.text → Finished (loop u))
    → (r : Round) → Proceeds s r
    → Finished (follow loop r)
follow-Finished loop s all r (stops token k) = gave _ k
follow-Finished loop s all r (skips u k) = all u k
follow-Finished loop s all r (emits token u e k) = push-Finished token _ e (all u k)
follow-Finished loop s all r (aborts e) = threw e

tokenize_from-Finished :
    (fuel : ℕ) (s : Cursor) → length s.text < fuel → Finished (tokenize_from fuel s)
unfolding tokenize_from
tokenize_from-Finished zero s h = absurd (omega (arith, h))
tokenize_from-Finished (suc fuel) s h =
    let t = skip_whitespace s in
    follow-Finished (λ u. tokenize_from fuel u) t
      (λ u k. tokenize_from-Finished fuel u (omega (arith, h, k, length-skip_whitespace s)))
      (round_at t) (round_at-Proceeds t)

outcome :
    (r : Option (Scan (List Token)))
    → Finished r
    → ((tokens : List Token) × (r ≡ some (done tokens)) × EndsInEof tokens)
      ⊎ ((e : LexerError) × (r ≡ some (fails e)))
outcome r (gave tokens w) = inl (tokens, refl, w)
outcome r (threw e) = inr (e, refl)

-- On every text tokenize comes to an end within one round for each character and one more. It gives
-- tokens of which the last one and no other is the end token, or throws a LexerError.
pub tokenize_lem :
    (source : List ℕ)
    → ((tokens : List Token) × (tokenize source ≡ some (done tokens)) × EndsInEof tokens)
      ⊎ ((e : LexerError) × (tokenize source ≡ some (fails e)))
unfolding tokenize
tokenize_lem source = outcome _ (
    tokenize_from-Finished (suc (length source)) (record { text = source; line = 1; col = 1 })
      (omega arith))
