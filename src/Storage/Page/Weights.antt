-- ===== src/Storage/Page/Weights.antt =====
-- How much of a page its live rows take.
use skibidi_ql.Prelude.{
  ℕ, zero, suc, ◌+◌, ◌≤◌, ◌<◌, ◌≡◌, refl, ap, ◌∙◌, ◌≢◌, inl, inr, arith, ℕ-cases, ◌==◌,
  if◌then◌else◌,
}
use skibidi_ql.Storage.Page.Memory.{Bytes}
use skibidi_ql.Storage.Page.Fields.{size, live, SameSlot}

-- The length of the row of a slot, 0 where the slot is dead.
unfoldable pub weight : Bytes → ℕ → ℕ
weight p s = if live p s == 0 then 0 else size p s

-- The length of the live rows of `n` slots from `s` on.
unfoldable pub total : Bytes → ℕ → ℕ → ℕ
total p s zero = 0
total p s (suc n) = weight p s + total p (suc s) n

pub weight_dead : (p : Bytes) (s : ℕ) → live p s ≡ 0 → weight p s ≡ 0
unfolding weight
weight_dead p s h = ground arith

pub weight-live : (p : Bytes) (s : ℕ) → live p s ≢ 0 → weight p s ≡ size p s
unfolding weight
weight-live p s h = ground arith

pub weight-SameSlot : (p q : Bytes) (s : ℕ) → SameSlot p q s → weight q s ≡ weight p s
unfolding weight
weight-SameSlot p q s h = ground (arith, h.same_size, h.same_live)

pub total_cong :
    (p q : Bytes) (s n : ℕ)
    → ((t : ℕ) → s ≤ t → t < s + n → weight q t ≡ weight p t)
    → total q s n ≡ total p s n
unfolding total
total_cong p q s zero h = refl
total_cong p q s (suc n) h = omega (
  arith,
  h s (omega arith) (omega arith),
  total_cong p q (suc s) n (λ t a b. h t (omega arith) (omega arith)),
)

-- One slot more.
total_last : (p : Bytes) (s n : ℕ) → total p s (suc n) ≡ total p s n + weight p (s + n)
unfolding total
total_last p s zero = omega (arith, ap (weight p) here)
  where
    here : s + 0 ≡ s
    here = omega arith
total_last p s (suc n) = omega (arith, total_last p (suc s) n, ap (weight p) there)
  where
    there : s + suc n ≡ suc s + n
    there = omega arith

pub total_first : (p : Bytes) (n : ℕ) → total p 0 (suc n) ≡ total p 0 n + weight p n
total_first p n = total_last p 0 n ∙ ap (λ k. total p 0 n + weight p k) here
  where
    here : 0 + n ≡ n
    here = omega arith

-- One slot changes.
pub total_one :
    (p q : Bytes) (t s n : ℕ)
    → s ≤ t
    → t < s + n
    → ((u : ℕ) → s ≤ u → u < s + n → u ≢ t → weight q u ≡ weight p u)
    → total q s n + weight p t ≡ total p s n + weight q t
unfolding total
total_one p q t s zero a b h = absurd (omega arith)
total_one p q t s (suc n) a b h = elim (ℕ-cases s t) [
  | inl e ↦ omega (
    arith,
    ap (weight q) e,
    ap (weight p) e,
    total_cong p q (suc s) n (λ u c d. h u (omega arith) (omega arith) (omega arith)),
  )
  | inr ne ↦ omega (
    arith,
    h s (omega arith) (omega arith) ne,
    total_one p q t (suc s) n (omega arith) (omega arith)
        (λ u c d. h u (omega arith) (omega arith)),
  )
]

-- More slots weigh no less.
pub total_mono : (p : Bytes) (s m n : ℕ) → m ≤ n → total p s m ≤ total p s n
unfolding total
total_mono p s zero n h = omega arith
total_mono p s (suc m) zero h = absurd (omega arith)
total_mono p s (suc m) (suc n) h = omega (arith, total_mono p (suc s) m n (omega arith))

pub weight-le-total : (p : Bytes) (t s n : ℕ) → s ≤ t → t < s + n → weight p t ≤ total p s n
unfolding total
weight-le-total p t s zero a b = absurd (omega arith)
weight-le-total p t s (suc n) a b = elim (ℕ-cases s t) [
  | inl e ↦ omega (arith, ap (weight p) e)
  | inr ne ↦ omega (arith, weight-le-total p t (suc s) n (omega arith) (omega arith))
]
