-- ===== src/Prelude/Pod.antt =====
-- Unsigned integers as little-endian bytes: what the code writes and reads with memcpy and streams.
use Prim.Native.Nat.{ℕ, zero, suc, ◌+◌, ◌*◌, ◌/◌, ◌%◌, ◌<◌}
use mathlib.Core.Path.{◌≡◌, refl, ap}
use mathlib.Core.List.{List, [], ◌∷◌, ◌++◌}
use mathlib.Core.Option.{Option, none, some}
use native.Mathlib.Omega.{arith}
use skibidi_ql.Prelude.Lists.{length}

-- 256 to the power of `k`.
abbrev pub pod_limit : ℕ → ℕ
pod_limit zero = 1
pod_limit (suc k) = 256 * pod_limit k

-- The `k` lowest bytes of a number.
unfoldable pub pod_bytes : ℕ → ℕ → List ℕ
pod_bytes zero n = []
pod_bytes (suc k) n = (n % 256) ∷ pod_bytes k (n / 256)

unfoldable pub pod_value : List ℕ → ℕ
pod_value [] = 0
pod_value (b ∷ bs) = b + 256 * pod_value bs

abbrev pub cons_split : ℕ → Option (List ℕ × List ℕ) → Option (List ℕ × List ℕ)
cons_split b none = none
cons_split b (some (bs, rest)) = some (b ∷ bs, rest)

-- The first `n` bytes and the rest, if there are as many.
unfoldable pub split_bytes : ℕ → List ℕ → Option (List ℕ × List ℕ)
split_bytes zero bs = some ([], bs)
split_bytes (suc n) [] = none
split_bytes (suc n) (b ∷ bs) = cons_split b (split_bytes n bs)

pub split_bytes-append : (xs rest : List ℕ) → split_bytes (length xs) (xs ++ rest) ≡ some (xs, rest)
unfolding split_bytes
split_bytes-append [] rest = refl
split_bytes-append (x ∷ xs) rest = rw (split_bytes-append xs rest) refl

pub split_bytes-length :
    (k : ℕ) (xs rest : List ℕ) → length xs ≡ k → split_bytes k (xs ++ rest) ≡ some (xs, rest)
split_bytes-length k xs rest h = rw (← h) (split_bytes-append xs rest)

pub length-pod_bytes : (k n : ℕ) → length (pod_bytes k n) ≡ k
unfolding pod_bytes
length-pod_bytes zero n = refl
length-pod_bytes (suc k) n = ap suc (length-pod_bytes k (n / 256))

pub pod_value-pod_bytes : (k n : ℕ) → n < pod_limit k → pod_value (pod_bytes k n) ≡ n
unfolding pod_bytes pod_value
pod_value-pod_bytes zero n h = omega arith
pod_value-pod_bytes (suc k) n h = omega (arith, pod_value-pod_bytes k (n / 256) (omega arith))

-- readPod: the number in the first `k` bytes, and the bytes behind it.
abbrev pub pod_result : Option (List ℕ × List ℕ) → Option (ℕ × List ℕ)
pod_result none = none
pod_result (some (bs, rest)) = some (pod_value bs, rest)

unfoldable pub read_pod : ℕ → List ℕ → Option (ℕ × List ℕ)
unfolding split_bytes pod_value
read_pod k bs = pod_result (split_bytes k bs)

pub read_pod-pod_bytes :
    (k n : ℕ) (rest : List ℕ)
    → n < pod_limit k
    → read_pod k (pod_bytes k n ++ rest) ≡ some (n, rest)
unfolding read_pod
read_pod-pod_bytes k n rest h =
    rw (split_bytes-length k (pod_bytes k n) rest (length-pod_bytes k n))
      (ap (λ m. some (m, rest)) (pod_value-pod_bytes k n h))
