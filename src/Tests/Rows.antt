-- ===== src/Tests/Rows.antt =====
-- Rows that are encoded and decoded, and values that are compared.
use skibidi_ql.Prelude.{
  length, is_nought, ℕ, ◌≡◌, refl, true, List, [], ◌∷◌, ok, arith, ltb, ◌==◌, All, negative,
  opposite, not, ◌&&◌, ◌*◌, ◌/◌,
}
use skibidi_ql.Storage.Value.{
  Hashes, hash, equal_values, is_null, is_numeric, type_of, real_of, Doubles, null, integer, text,
  boolean, compare, real,
}
use skibidi_ql.Storage.Value.Equal.{IsComparison, hash_equal, equal-compare}
use skibidi_ql.Storage.Value.Order.{compare-opposite, compare_trans, compare_cycle}
use skibidi_ql.Storage.Tuple.{Tuple, encode_tuple, decode_tuple, decode_tuple_projected}
use skibidi_ql.Storage.Tuple.Fields.{IsCell}
use skibidi_ql.Storage.Tuple.Loop.{pick}
use skibidi_ql.Storage.Tuple.RoundTrip.{
  decode_tuple-encode_tuple, decode_tuple_projected-encode_tuple,
}

abbrev row : Tuple
row = integer 7 ∷ text (b'h' ∷ b'i' ∷ []) ∷ null ∷ boolean true ∷ []

row_fits : All IsCell row
row_fits = (omega arith, (omega arith, (tt, (tt, tt))))

decode_tuple-encode_tuple_example :
    (bytes : List ℕ) × (encode_tuple row ≡ ok bytes) × (decode_tuple bytes ≡ ok row)
decode_tuple-encode_tuple_example = decode_tuple-encode_tuple row (omega arith) row_fits

decode_tuple_projected-encode_tuple_example :
    (bytes : List ℕ) × (encode_tuple row ≡ ok bytes)
    × (decode_tuple_projected bytes (1 ∷ 3 ∷ []) ≡ ok (text (b'h' ∷ b'i' ∷ []) ∷ boolean true ∷ []))
unfolding pick
decode_tuple_projected-encode_tuple_example =
    decode_tuple_projected-encode_tuple row (1 ∷ 3 ∷ []) (omega arith) row_fits
      (omega arith, omega arith, (omega arith, omega arith, tt))

-- Patterns compared as numbers, with which integers stand for themselves.
abbrev doubles : Doubles
doubles = record { less = ltb; equal = ◌==◌; of_int = λ n. n; to_int = λ n. n }

compare-opposite_example :
    compare doubles (integer 3) (boolean true)
    ≡ opposite (compare doubles (boolean true) (integer 3))
compare-opposite_example =
    compare-opposite doubles (λ x y h. ground arith) (integer 3) (boolean true)

compare_trans_example : compare doubles null (text (b'a' ∷ [])) ≡ negative
unfolding compare
compare_trans_example =
    compare_trans doubles (λ x y z h k. ground arith) null (integer 3) (text (b'a' ∷ [])) refl refl
      refl refl refl

compare_cycle_example :
    (compare doubles (integer 2) (text []) ≡ negative)
    × (compare doubles (text []) (boolean true) ≡ negative)
    × (compare doubles (boolean true) (integer 2) ≡ negative)
compare_cycle_example = compare_cycle doubles 2 [] refl

abbrev hashes : Hashes
hashes = record { of_double = λ n. n; of_string = length }

hash_equal_example : hash doubles hashes (integer 1) ≡ hash doubles hashes (boolean true)
unfolding equal_values is_null is_numeric type_of real_of
hash_equal_example =
    hash_equal doubles hashes (λ x y h. ground (arith, h)) (integer 1) (boolean true) refl

-- Patterns of which 1 is a NaN, and an integer becomes its double, which is even.
abbrev with_nan : Doubles
with_nan = record {
  less = λ x y. ltb x y && not (x == 1) && not (y == 1);
  equal = λ x y. (x == y) && not (x == 1);
  of_int = λ i. i * 2;
  to_int = λ r. r / 2;
}

with_nan-IsComparison : IsComparison with_nan
with_nan-IsComparison = record {
  equal_less = λ x y hx hy. ground (arith, hx, hy);
  of_int_number = λ i. ground arith;
}

equal-compare_example :
    equal_values with_nan (real 2) (boolean true)
    ≡ is_nought (compare with_nan (real 2) (boolean true))
equal-compare_example = equal-compare with_nan with_nan-IsComparison (real 2) (boolean true) refl tt
