-- ===== src/Hash.antt =====
-- src/hash_utils.h: FNV-1a over bytes, and combine, in 64-bit arithmetic.
use skibidi_ql.Prelude.{ℕ, ◌+◌, ◌*◌, ◌/◌, ◌%◌, List, [], ◌∷◌}
use Prim.Native.Nat.{bit_xor}

abbrev pub offset_basis : ℕ
offset_basis = 1469598103934665603

abbrev pub prime : ℕ
prime = 1099511628211

unfoldable pub fnv1a64_append_byte : ℕ → ℕ → ℕ
fnv1a64_append_byte hash byte = bit_xor hash byte * prime % 18446744073709551616

unfoldable pub fnv1a64_append : ℕ → List ℕ → ℕ
fnv1a64_append hash [] = hash
fnv1a64_append hash (c ∷ text) = fnv1a64_append (fnv1a64_append_byte hash c) text

unfoldable pub fnv1a64 : List ℕ → ℕ
fnv1a64 text = fnv1a64_append offset_basis text

abbrev pub golden_ratio64 : ℕ
golden_ratio64 = 0x9e3779b97f4a7c15

unfoldable pub combine : ℕ → ℕ → ℕ
combine seed value =
    bit_xor seed (
      (value + golden_ratio64 + seed * 64 % 18446744073709551616 + seed / 4) % 18446744073709551616)
