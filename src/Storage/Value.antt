-- ===== src/Storage/Value.antt =====
-- Value of src/native_storage.h and native_storage.cpp: a dynamically typed cell. An int64_t and a
-- double stand as their 64-bit patterns; what the code does with doubles is the parameter `Doubles`.
pub mod Order
pub mod Equal
use skibidi_ql.Hash.{combine}
use skibidi_ql.Prelude.{
  bytes_eq, ℕ, zero, suc, ◌+◌, Bool, true, false, not, ◌&&◌, ◌||◌, List, [], ◌∷◌, Outcome, ok,
  throws, ltb, leb, ◌==◌, if◌then◌else◌, Sign, negative, nought, positive, compare_bytes,
}

-- The comparisons of doubles, the conversion of an int64_t to a double and the conversion back, on
-- bit patterns.
pub record Doubles : Type 0 where
  pub less : ℕ → ℕ → Bool
  pub equal : ℕ → ℕ → Bool
  pub of_int : ℕ → ℕ
  pub to_int : ℕ → ℕ

pub data Value : Type 0 where
  null : Value
  integer : ℕ → Value
  real : ℕ → Value
  text : List ℕ → Value
  boolean : Bool → Value
  blob : List ℕ → Value

-- The number of the type, its position in ValueType.
unfoldable pub type_of : Value → ℕ
type_of null = 0
type_of (integer _) = 1
type_of (real _) = 2
type_of (text _) = 3
type_of (boolean _) = 4
type_of (blob _) = 5

unfoldable pub is_null : Value → Bool
unfolding type_of
is_null v = type_of v == 0

unfoldable pub is_numeric : Value → Bool
unfolding type_of
is_numeric v = type_of v == 1 || (type_of v == 2 || type_of v == 4)

abbrev pub of_bool : Bool → ℕ
of_bool true = 1
of_bool false = 0

abbrev pub compare_numbers : ℕ → ℕ → Sign
compare_numbers a b = if ltb a b then negative else if ltb b a then positive else nought

module _ (d : Doubles) where
  unfoldable pub as_integer : Value → Outcome ℕ
  as_integer (integer n) = ok n
  as_integer (real r) = ok (d.to_int r)
  as_integer (boolean b) = ok (of_bool b)
  as_integer _ = throws "Value is not numeric"

  -- The pattern of the number as a double; 0 where the code throws, which compare never reaches.
  unfoldable pub real_of : Value → ℕ
  real_of (integer n) = d.of_int n
  real_of (real r) = r
  real_of (boolean b) = d.of_int (of_bool b)
  real_of _ = 0

  unfoldable pub as_real : Value → Outcome ℕ
  unfolding real_of is_numeric
  as_real v = if is_numeric v then ok (real_of v) else throws "Value is not numeric"

  abbrev pub compare_reals : ℕ → ℕ → Sign
  compare_reals a b = if d.less a b then negative else if d.less b a then positive else nought

  -- The end of compare, for two values of one type.
  unfoldable pub compare_same_type : Value → Value → Sign
  unfolding compare_bytes
  compare_same_type (text a) (text b) = compare_bytes a b
  compare_same_type (blob a) (blob b) = compare_bytes a b
  compare_same_type (boolean a) (boolean b) = compare_numbers (of_bool a) (of_bool b)
  compare_same_type _ _ = nought

  unfoldable pub compare : Value → Value → Sign
  unfolding is_null is_numeric real_of compare_same_type type_of
  compare a b =
      if is_null a || is_null b
      then (if is_null a && is_null b then nought else if is_null a then negative else positive)
      else if is_numeric a && is_numeric b
      then compare_reals (real_of a) (real_of b)
      else if type_of a == type_of b
      then compare_same_type a b
      else if ltb (type_of a) (type_of b)
      then negative
      else positive

  -- The equality of the variants, for values that are not both numeric and not null.
  unfoldable pub data_equal : Value → Value → Bool
  data_equal (text a) (text b) = bytes_eq a b
  data_equal (blob a) (blob b) = bytes_eq a b
  data_equal _ _ = false

  -- operator==
  unfoldable pub equal_values : Value → Value → Bool
  equal_values a b =
      if is_null a || is_null b
      then is_null a && is_null b
      else if is_numeric a && is_numeric b
      then d.equal (real_of a) (real_of b)
      else data_equal a b

-- std::hash of a double and of a string.
pub record Hashes : Type 0 where
  pub of_double : ℕ → ℕ
  pub of_string : List ℕ → ℕ

unfoldable pub hash_bytes : ℕ → List ℕ → ℕ
hash_bytes seed [] = seed
hash_bytes seed (byte ∷ bytes) = hash_bytes (combine seed byte) bytes

unfoldable pub hash : Doubles → Hashes → Value → ℕ
hash d h null = 0
hash d h (text s) = combine 3 (h.of_string s)
hash d h (blob s) = hash_bytes 5 s
hash d h (integer n) = combine 2 (h.of_double (real_of d (integer n)))
hash d h (real r) = combine 2 (h.of_double (real_of d (real r)))
hash d h (boolean b) = combine 2 (h.of_double (real_of d (boolean b)))
