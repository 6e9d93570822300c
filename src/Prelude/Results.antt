-- ===== src/Prelude/Results.antt =====
-- What code that may throw `std::runtime_error` returns: a value, or the message of the exception.
use Prim.Native.String.{String}
use mathlib.Core.Path.{◌≡◌, refl}

pub data Outcome {ℓ} (A : Type ℓ) : Type ℓ where
  ok : A → Outcome A
  throws : String → Outcome A

infixl 5 ◌>>=◌
abbrev pub ◌>>=◌ {ℓ κ} : {A : Type ℓ} {B : Type κ} → Outcome A → (A → Outcome B) → Outcome B
ok a >>= f = f a
throws e >>= f = throws e

-- Two ways to go on from a result that agree on its value agree.
pub bind_cong {ℓ κ} :
    {A : Type ℓ} {B : Type κ} (result : Outcome A) (f g : A → Outcome B)
    → ((a : A) → f a ≡ g a)
    → (result >>= f) ≡ (result >>= g)
bind_cong (ok a) f g h = h a
bind_cong (throws e) f g h = refl
