-- ===== src/Storage/Value/Order.antt =====
-- How far compare is an order.
use skibidi_ql.Prelude.{
  ℕ, ◌≡◌, refl, Bool, true, false, List, arith, negative, opposite, compare_bytes-opposite,
  compare_bytes_trans,
}
use skibidi_ql.Storage.Value.{
  Value, Doubles, null, integer, real, text, boolean, blob, compare, real_of, compare_reals,
  of_bool,
}

signs :
    (d : Doubles)
    → ((x y : ℕ) → d.less x y ≡ true → d.less y x ≡ false)
    → (x y : ℕ) → compare_reals d x y ≡ opposite (compare_reals d y x)
signs d asym x y = ground (arith, asym x y, asym y x)

-- Comparing the other way round gives the opposite sign, whatever the types of the two values, if
-- no double is below another and above it too.
pub compare-opposite :
    (d : Doubles)
    → ((x y : ℕ) → d.less x y ≡ true → d.less y x ≡ false)
    → (a b : Value) → compare d a b ≡ opposite (compare d b a)
unfolding compare
compare-opposite d asym (text a) (text b) = compare_bytes-opposite a b
compare-opposite d asym (blob a) (blob b) = compare_bytes-opposite a b
compare-opposite d asym (integer a) (integer b) = signs d asym (d.of_int a) (d.of_int b)
compare-opposite d asym (integer a) (real b) = signs d asym (d.of_int a) b
compare-opposite d asym (integer a) (boolean b) = signs d asym (d.of_int a) (d.of_int (of_bool b))
compare-opposite d asym (real a) (integer b) = signs d asym a (d.of_int b)
compare-opposite d asym (real a) (real b) = signs d asym a b
compare-opposite d asym (real a) (boolean b) = signs d asym a (d.of_int (of_bool b))
compare-opposite d asym (boolean a) (integer b) = signs d asym (d.of_int (of_bool a)) (d.of_int b)
compare-opposite d asym (boolean a) (real b) = signs d asym (d.of_int (of_bool a)) b
compare-opposite d asym (boolean a) (boolean b) =
    signs d asym (d.of_int (of_bool a)) (d.of_int (of_bool b))
compare-opposite d asym null null = refl
compare-opposite d asym a b = refl

abbrev pub is_boolean : Value → Bool
is_boolean (boolean _) = true
is_boolean _ = false

-- Where no boolean is involved and the doubles below one another are transitive, so is compare.
pub compare_trans :
    (d : Doubles)
    → ((x y z : ℕ) → d.less x y ≡ true → d.less y z ≡ true → d.less x z ≡ true)
    → (a b c : Value) → is_boolean a ≡ false
    → is_boolean b ≡ false
    → is_boolean c ≡ false
    → compare d a b ≡ negative
    → compare d b c ≡ negative
    → compare d a c ≡ negative
unfolding compare
compare_trans d trans (text a) (text b) (text c) na nb nc h k = compare_bytes_trans a b c h k
compare_trans d trans (blob a) (blob b) (blob c) na nb nc h k = compare_bytes_trans a b c h k
compare_trans d trans a b c na nb nc h k =
    ground (arith, trans (real_of d a) (real_of d b) (real_of d c))

-- A boolean is compared with a number by value and with a text by type, and a text with a number by
-- type: so whenever the number is above 1 the three lie on a cycle, each below the next, and compare
-- is no strict weak ordering.
pub compare_cycle :
    (d : Doubles) (n : ℕ) (t : List ℕ)
    → d.less (d.of_int 1) (d.of_int n) ≡ true
    → (compare d (integer n) (text t) ≡ negative)
      × (compare d (text t) (boolean true) ≡ negative)
      × (compare d (boolean true) (integer n) ≡ negative)
unfolding compare
compare_cycle d n t h = (refl, refl, rw h refl)
