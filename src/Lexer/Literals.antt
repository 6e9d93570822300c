-- ===== src/Lexer/Literals.antt =====
-- Lexer::readNumber and Lexer::readString.
use skibidi_ql.Prelude.{ℕ, Bool, true, false, ◌||◌, ◌&&◌, List, [], ◌∷◌, ◌++◌, ◌==◌, if◌then◌else◌}
use skibidi_ql.Lexer.Token.{Token, integer_lit, float_lit, string_lit, codes, Scan, done, fails}
use skibidi_ql.Lexer.Cursor.{Cursor, consume, advance, scan, is_digit, peek, peek_next}
use skibidi_ql.Lexer.Words.{token_at}

abbrev pub fail_at {ℓ} : {A : Type ℓ} → Cursor → List ℕ → Scan A
fail_at start message = fails (record { message = message; line = start.line; col = start.col })

-- What a part of a number reads: its characters, and whether it makes the number a float.
abbrev pub Part : Type 0
Part = List ℕ × Bool × Cursor

unfoldable pub fraction : Cursor → Part
fraction s =
    let after = advance s in
    let (digits, end) = scan is_digit after.text after in
    if peek s.text == b'.' && is_digit (peek_next s.text)
    then (b'.' ∷ digits, true, end)
    else ([], false, s)

-- The sign of an exponent.
unfoldable pub exponent_sign : Cursor → List ℕ × Cursor
exponent_sign s =
    if peek s.text == b'+' || peek s.text == b'-' then (peek s.text ∷ [], advance s) else ([], s)

unfoldable pub exponent : Cursor → Cursor → Scan Part
exponent start s =
    let (sign, from_digits) = exponent_sign (advance s) in
    let (digits, end) = scan is_digit from_digits.text from_digits in
    if peek s.text == b'e' || peek s.text == b'E'
    then (if is_digit (peek from_digits.text)
        then done (peek s.text ∷ (sign ++ digits), true, end)
        else fail_at start (codes "Invalid number literal"))
    else done ([], false, s)

abbrev pub finish_number : Cursor → List ℕ → Bool → Scan Part → Scan (Token × Cursor)
finish_number start num is_float (fails e) = fails e
finish_number start num is_float (done (exp, has_exp, end)) =
    done (token_at start (if is_float || has_exp then float_lit else integer_lit) (num ++ exp), end)

unfoldable pub read_number : Cursor → Scan (Token × Cursor)
read_number start =
    let (whole, s) = scan is_digit start.text start in
    let (part, is_float, t) = fraction s in
    finish_number start (whole ++ part) is_float (exponent start t)

-- The value of an escape.
unfoldable pub unescape : ℕ → List ℕ
unescape c =
    if c == b'n'
    then 10 ∷ []
    else if c == b't'
    then 9 ∷ []
    else if c == b'r'
    then 13 ∷ []
    else if c == b'\\'
    then b'\\' ∷ []
    else if c == b'\''
    then b'\'' ∷ []
    else b'\\' ∷ c ∷ []

abbrev pub prepend : List ℕ → Scan (List ℕ × Cursor) → Scan (List ℕ × Cursor)
prepend chars (fails e) = fails e
prepend chars (done (value, end)) = done (chars ++ value, end)

-- The loop of readString, behind the opening quote.
unfoldable pub string_chars : Cursor → List ℕ → Cursor → Scan (List ℕ × Cursor)
string_chars start [] s = fail_at start (codes "Unterminated string literal")
string_chars start (c ∷ []) s =
    if c == b'\''
    then done ([], consume c [] s)
    else fail_at start (codes "Unterminated string literal")
string_chars start (c ∷ (d ∷ rest)) s =
    let s1 = consume c (d ∷ rest) s in
    let s2 = consume d rest s1 in
    elim (c == b'\'') [
      | true ↦ elim (d == b'\'') [
        | true ↦ prepend (b'\'' ∷ []) (string_chars start rest s2)
        | false ↦ done ([], s1)
      ]
      | false ↦ elim (c == b'\\') [
        | true ↦ prepend (unescape d) (string_chars start rest s2)
        | false ↦ prepend (c ∷ []) (string_chars start (d ∷ rest) s1)
      ]
    ]

abbrev pub finish_string : Cursor → Scan (List ℕ × Cursor) → Scan (Token × Cursor)
finish_string start (fails e) = fails e
finish_string start (done (value, end)) = done (token_at start string_lit value, end)

unfoldable pub read_string : Cursor → Scan (Token × Cursor)
read_string start = let s = advance start in finish_string start (string_chars start s.text s)
