-- ===== src/Storage/Value/Equal.antt =====
-- Value::operator== and Value::hash, on which the hash tables of rows rely.
use skibidi_ql.Prelude.{not, ◌&&◌, is_nought, ℕ, ◌≡◌, refl, ap, true, bytes_eq→eq, arith}
use skibidi_ql.Storage.Value.{
  Doubles, Value, null, integer, real, text, boolean, blob, Hashes, hash, hash_bytes, equal_values,
  of_bool, data_equal, is_null, is_numeric, type_of, real_of, compare, compare_same_type,
}
use skibidi_ql.Hash.{combine}

-- Values that are equal have equal hashes, whatever their types, if doubles that are equal do.
pub hash_equal :
    (d : Doubles) (h : Hashes)
    → ((x y : ℕ) → d.equal x y ≡ true → h.of_double x ≡ h.of_double y)
    → (a b : Value) → equal_values d a b ≡ true
    → hash d h a ≡ hash d h b
unfolding equal_values data_equal is_null is_numeric type_of hash
hash_equal d h same null null e = refl
hash_equal d h same (text a) (text b) e = ap (λ s. combine 3 (h.of_string s)) (bytes_eq→eq a b e)
hash_equal d h same (blob a) (blob b) e = ap (hash_bytes 5) (bytes_eq→eq a b e)
hash_equal d h same (integer a) (integer b) e = ap (combine 2) (same _ _ e)
hash_equal d h same (integer a) (real b) e = ap (combine 2) (same _ _ e)
hash_equal d h same (integer a) (boolean b) e = ap (combine 2) (same _ _ e)
hash_equal d h same (real a) (integer b) e = ap (combine 2) (same _ _ e)
hash_equal d h same (real a) (real b) e = ap (combine 2) (same _ _ e)
hash_equal d h same (real a) (boolean b) e = ap (combine 2) (same _ _ e)
hash_equal d h same (boolean a) (integer b) e = ap (combine 2) (same _ _ e)
hash_equal d h same (boolean a) (real b) e = ap (combine 2) (same _ _ e)
hash_equal d h same (boolean a) (boolean b) e = ap (combine 2) (same _ _ e)
hash_equal d h same a b e = cc

-- What IEEE 754 says of comparisons: a double that is no NaN is equal to itself, two of these are equal
-- exactly if neither is below the other, and an int64_t becomes one of these.
pub record IsComparison (d : Doubles) : Type 0 where
  pub equal_less :
      (x y : ℕ)
      → d.equal x x ≡ true
      → d.equal y y ≡ true
      → d.equal x y ≡ (not (d.less x y) && not (d.less y x))
  pub of_int_number : (i : ℕ) → d.equal (d.of_int i) (d.of_int i) ≡ true

-- A value that is no NaN.
abbrev pub NoNan : Doubles → Value → Type 0
NoNan d (real r) = d.equal r r ≡ true
NoNan d value = Unit {0}

module _ (d : Doubles) (w : IsComparison d) where
  pub real_of-NoNan :
      (v : Value) → NoNan d v → is_numeric v ≡ true → d.equal (real_of d v) (real_of d v) ≡ true
  unfolding real_of is_numeric type_of
  real_of-NoNan (integer i) h k = w.of_int_number i
  real_of-NoNan (real r) h k = h
  real_of-NoNan (boolean b) h k = w.of_int_number (of_bool b)
  real_of-NoNan null h k = cc
  real_of-NoNan (text s) h k = cc
  real_of-NoNan (blob s) h k = cc

  pub equal_less_values :
      (a b : Value)
      → NoNan d a
      → NoNan d b
      → is_numeric a ≡ true
      → is_numeric b ≡ true
      → d.equal (real_of d a) (real_of d b)
        ≡ (not (d.less (real_of d a) (real_of d b)) && not (d.less (real_of d b) (real_of d a)))
  equal_less_values a b ha hb ka kb =
      w.equal_less (real_of d a) (real_of d b) (real_of-NoNan a ha ka) (real_of-NoNan b hb kb)

  -- Of values that are no NaN, those are equal between which compare finds no difference, and no others.
  pub equal-compare :
      (a b : Value) → NoNan d a → NoNan d b → equal_values d a b ≡ is_nought (compare d a b)
  unfolding equal_values data_equal is_null is_numeric type_of compare compare_same_type
  equal-compare null b ha hb = ground arith
  equal-compare a null ha hb = ground arith
  equal-compare (text a) (text b) ha hb = refl
  equal-compare (blob a) (blob b) ha hb = refl
  equal-compare a b ha hb = ground (arith, equal_less_values a b ha hb)
