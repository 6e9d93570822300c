-- ===== src/Prelude/Compare.antt =====
-- Three-way comparison of byte strings, as std::string::compare and std::lexicographical_compare do.
use Prim.Native.Nat.{ℕ}
use mathlib.Core.Path.{◌≡◌, refl}
use mathlib.Core.Logic.{◌⊎◌, inl, inr}
use mathlib.Core.Bool.{Bool, true, false}
use mathlib.Core.List.{List, [], ◌∷◌}
use native.Mathlib.Omega.{arith}
use skibidi_ql.Prelude.Tests.{ltb, if◌then◌else◌}

pub data Sign : Type 0 where
  negative nought positive : Sign

abbrev pub opposite : Sign → Sign
opposite negative = positive
opposite nought = nought
opposite positive = negative

unfoldable pub compare_bytes : List ℕ → List ℕ → Sign
compare_bytes [] [] = nought
compare_bytes [] (b ∷ bs) = negative
compare_bytes (a ∷ r) [] = positive
compare_bytes (a ∷ r) (b ∷ bs) =
    let rest = compare_bytes r bs in
    if ltb a b then negative else if ltb b a then positive else rest

-- A branch on a three-way result.
abbrev pub by_sign {ℓ} : {A : Type ℓ} → Sign → A → A → A → A
by_sign negative x y z = x
by_sign nought x y z = y
by_sign positive x y z = z

pub Sign-cases : (s : Sign) → (s ≡ negative) ⊎ (s ≡ nought) ⊎ (s ≡ positive)
Sign-cases negative = inl refl
Sign-cases nought = inr (inl refl)
Sign-cases positive = inr (inr refl)

abbrev pub is_nought : Sign → Bool
is_nought nought = true
is_nought _ = false

-- The equality of byte strings.
abbrev pub bytes_eq : List ℕ → List ℕ → Bool
bytes_eq a b = is_nought (compare_bytes a b)

pub compare_bytes-opposite : (a b : List ℕ) → compare_bytes a b ≡ opposite (compare_bytes b a)
unfolding compare_bytes
compare_bytes-opposite [] [] = refl
compare_bytes-opposite [] (b ∷ bs) = refl
compare_bytes-opposite (a ∷ r) [] = refl
compare_bytes-opposite (a ∷ r) (b ∷ bs) = ground (arith, compare_bytes-opposite r bs)

pub compare_bytes-eq : (a b : List ℕ) → compare_bytes a b ≡ nought → a ≡ b
unfolding compare_bytes
compare_bytes-eq [] [] h = refl
compare_bytes-eq [] (b ∷ bs) h = cc
compare_bytes-eq (a ∷ r) [] h = cc
compare_bytes-eq (a ∷ r) (b ∷ bs) h = ground (arith, compare_bytes-eq r bs)

pub compare_bytes_trans :
    (a b c : List ℕ)
    → compare_bytes a b ≡ negative
    → compare_bytes b c ≡ negative
    → compare_bytes a c ≡ negative
unfolding compare_bytes
compare_bytes_trans [] [] [] h k = cc
compare_bytes_trans [] (y ∷ b) [] h k = cc
compare_bytes_trans [] b (z ∷ c) h k = refl
compare_bytes_trans (x ∷ a) [] c h k = cc
compare_bytes_trans (x ∷ a) (y ∷ b) [] h k = cc
compare_bytes_trans (x ∷ a) (y ∷ b) (z ∷ c) h k = ground (arith, compare_bytes_trans a b c)

pub compare_bytes_self : (a : List ℕ) → compare_bytes a a ≡ nought
unfolding compare_bytes
compare_bytes_self [] = refl
compare_bytes_self (x ∷ a) = ground (arith, compare_bytes_self a)

pub bytes_eq_self : (a : List ℕ) → bytes_eq a a ≡ true
bytes_eq_self a = rw (compare_bytes_self a) refl

pub bytes_eq→eq : (a b : List ℕ) → bytes_eq a b ≡ true → a ≡ b
bytes_eq→eq a b h = compare_bytes-eq a b (ground arith)
