-- ===== src/Engine.antt =====
-- The operators of NativeEngine in src/native_engine.cpp: applyBinary and applyUnary, with the
-- conversions of Value in src/native_storage.cpp that they use. An int64_t is its 64-bit pattern, on
-- which signed overflow wraps around; a double is its pattern too, and what the code does with doubles
-- and how it prints numbers is the parameter `Numbers`.
pub mod Eval
pub mod Aggregate
use skibidi_ql.Prelude.{
  ℕ, zero, suc, ◌+◌, ◌-◌, ◌*◌, ◌/◌, ◌%◌, ◌^◌, Bool, true, false, not, ◌&&◌, ◌||◌, List, [], ◌∷◌,
  ◌++◌, Outcome, ok, throws, ◌>>=◌, leb, ltb, ◌==◌, if◌then◌else◌, Sign, negative, nought, positive,
  by_sign, is_empty,
}
use skibidi_ql.Ast.{
  Text, Operator, op_and, op_or, op_not, op_eq, op_neq, op_lt, op_gt, op_lte, op_gte, op_concat,
  op_plus, op_minus, op_times, op_divide, op_other,
}
use skibidi_ql.Lexer.Token.{codes}
use skibidi_ql.Storage.Value.{
  Doubles, Value, null, integer, real, text, boolean, blob, is_null, is_numeric, real_of, as_real,
  as_integer, compare, equal_values,
}

-- The arithmetic of doubles, std::sqrt, std::fabs and std::ceil, std::to_string of a double, and how a stream prints an int64_t and a
-- double with 15 digits.
pub record Numbers : Type 0 where
  pub doubles : Doubles
  pub plus : ℕ → ℕ → ℕ
  pub minus : ℕ → ℕ → ℕ
  pub times : ℕ → ℕ → ℕ
  pub divide : ℕ → ℕ → ℕ
  pub negate : ℕ → ℕ
  pub square_root : ℕ → ℕ
  pub absolute : ℕ → ℕ
  pub ceiling : ℕ → ℕ
  pub fixed_text : ℕ → Text
  pub integer_text : ℕ → Text
  pub real_text : ℕ → Text

unfoldable pub add64 : ℕ → ℕ → ℕ
add64 a b = (a + b) % 2 ^ 64

unfoldable pub neg64 : ℕ → ℕ
neg64 a = (2 ^ 64 - a) % 2 ^ 64

unfoldable pub sub64 : ℕ → ℕ → ℕ
unfolding neg64 add64
sub64 a b = add64 a (neg64 b)

unfoldable pub mul64 : ℕ → ℕ → ℕ
mul64 a b = (a * b) % 2 ^ 64

abbrev pub is_below_zero : ℕ → Bool
is_below_zero a = leb (2 ^ 63) a

abbrev pub magnitude : ℕ → ℕ
magnitude a = if is_below_zero a then 2 ^ 64 - a else a

-- Division towards zero; the code never divides by zero.
unfoldable pub div64 : ℕ → ℕ → ℕ
unfolding neg64
div64 a zero = 0
div64 a (suc b) =
    if is_below_zero a
    then (if is_below_zero (suc b)
        then magnitude a / magnitude (suc b)
        else neg64 (magnitude a / suc b))
    else if is_below_zero (suc b)
    then neg64 (a / magnitude (suc b))
    else a / suc b

abbrev pub hex_digit : ℕ → ℕ
hex_digit n = if ltb n 10 then 48 + n else 87 + n

unfoldable pub hex_text : List ℕ → Text
hex_text [] = []
hex_text (byte ∷ bytes) = hex_digit (byte / 16) ∷ hex_digit (byte % 16) ∷ hex_text bytes

module _ (n : Numbers) where
  unfoldable pub as_boolean : Value → Bool
  as_boolean null = false
  as_boolean (boolean b) = b
  as_boolean (integer i) = not (n.doubles.equal (n.doubles.of_int i) 0)
  as_boolean (real r) = not (n.doubles.equal r 0)
  as_boolean (text s) = not (is_empty s)
  as_boolean (blob s) = not (is_empty s)

  unfoldable pub to_string : Value → Text
  to_string null = codes "NULL"
  to_string (integer i) = n.integer_text i
  to_string (real r) = n.real_text r
  to_string (text s) = s
  to_string (boolean b) = if b then codes "1" else codes "0"
  to_string (blob s) = codes "0x" ++ hex_text s

  -- An arithmetic operator on two int64_t, or else on two doubles.
  abbrev pub on_numbers : (ℕ → ℕ → ℕ) → (ℕ → ℕ → ℕ) → Value → Value → Outcome Value
  on_numbers ints reals (integer a) (integer b) = ok (integer (ints a b))
  on_numbers ints reals left right =
      as_real n.doubles left >>= λ a. as_real n.doubles right >>= λ b. ok (real (reals a b))

  abbrev pub divide_values : Value → Value → Outcome Value
  divide_values left right = as_real n.doubles right >>= λ b.
      if n.doubles.equal b 0 then ok null else on_numbers div64 n.divide left right

  unfoldable pub apply_arithmetic : Operator → Value → Value → Outcome Value
  apply_arithmetic op_plus left right = on_numbers add64 n.plus left right
  apply_arithmetic op_minus left right = on_numbers sub64 n.minus left right
  apply_arithmetic op_times left right = on_numbers mul64 n.times left right
  apply_arithmetic op_divide left right = divide_values left right
  apply_arithmetic op left right = throws "Unsupported binary operator: "

  -- What applyBinary does to values that are not null.
  unfoldable pub apply_to_values : Operator → Value → Value → Outcome Value
  apply_to_values op_eq left right = ok (boolean (equal_values n.doubles left right))
  apply_to_values op_neq left right = ok (boolean (not (equal_values n.doubles left right)))
  apply_to_values op_lt left right =
      ok (boolean (by_sign (compare n.doubles left right) true false false))
  apply_to_values op_gt left right =
      ok (boolean (by_sign (compare n.doubles left right) false false true))
  apply_to_values op_lte left right =
      ok (boolean (by_sign (compare n.doubles left right) true true false))
  apply_to_values op_gte left right =
      ok (boolean (by_sign (compare n.doubles left right) false true true))
  apply_to_values op_concat left right = ok (text (to_string left ++ to_string right))
  apply_to_values op left right =
      if is_numeric left && is_numeric right
      then apply_arithmetic op left right
      else throws "Arithmetic requires numeric operands"

  unfoldable pub apply_binary : Operator → Value → Value → Outcome Value
  apply_binary op_and left right = ok (boolean (as_boolean left && as_boolean right))
  apply_binary op_or left right = ok (boolean (as_boolean left || as_boolean right))
  apply_binary op left right =
      if is_null left || is_null right then ok null else apply_to_values op left right

  abbrev pub negate_value : Value → Outcome Value
  negate_value (integer i) = ok (integer (neg64 i))
  negate_value value =
      if is_numeric value
      then (as_real n.doubles value >>= λ r. ok (real (n.negate r)))
      else throws "Unsupported unary operator: "

  unfoldable pub apply_unary : Operator → Value → Outcome Value
  apply_unary op_not value = ok (boolean (not (as_boolean value)))
  apply_unary op_minus value = if is_null value then ok null else negate_value value
  apply_unary op value = if is_null value then ok null else throws "Unsupported unary operator: "
