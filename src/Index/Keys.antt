-- ===== src/Index/Keys.antt =====
-- What the index asks of Value::compare on the keys of one column: a strict weak ordering.
use skibidi_ql.Prelude.{
  ℕ, ◌≡◌, Bool, true, false, List, arith, Sign, negative, opposite, compare_bytes,
  compare_bytes-opposite, compare_bytes-eq, compare_bytes_trans,
}

abbrev pub is_negative : Sign → Bool
is_negative negative = true
is_negative _ = false

-- A key that is not above `c` is not below what `c` is not below.
pub record IsOrder {ℓ} {K : Type ℓ} (compare : K → K → Sign) : Type ℓ where
  pub compare_opposite : (a b : K) → compare a b ≡ opposite (compare b a)
  pub compare_between :
      (a b c : K)
      → is_negative (compare a c) ≡ true
      → is_negative (compare b c) ≡ false
      → is_negative (compare a b) ≡ true

pub record Order {ℓ} (K : Type ℓ) : Type ℓ where
  pub compare_keys : K → K → Sign
  pub lawful : IsOrder compare_keys
  pub open lawful use *

module _ {ℓ} {K : Type ℓ} ⦃o : Order K⦄ where
  abbrev pub below : K → K → Bool
  below a b = is_negative (o.compare_keys a b)

  pub below_asym : (a b : K) → below a b ≡ true → below b a ≡ false
  below_asym a b h = ground (arith, o.compare_opposite a b)

  pub below_trans : (a b c : K) → below a b ≡ true → below b c ≡ true → below a c ≡ true
  below_trans a b c h k = o.compare_between a c b h (below_asym b c k)

  pub below_self : (a : K) → below a a ≡ false
  below_self a = ground (arith, o.compare_opposite a a)

pub bytes_between :
    (a b c : List ℕ)
    → is_negative (compare_bytes a c) ≡ true
    → is_negative (compare_bytes b c) ≡ false
    → is_negative (compare_bytes a b) ≡ true
bytes_between a b c h k =
    ground (arith, compare_bytes-opposite a b, compare_bytes-eq a b, compare_bytes_trans b a c)

-- The keys of a text column, which compare takes as byte strings.
instance unfoldable pub text_order : Order (List ℕ)
text_order = record {
  compare_keys = compare_bytes;
  lawful = record { compare_opposite = compare_bytes-opposite; compare_between = bytes_between };
}
