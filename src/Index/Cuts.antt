-- ===== src/Index/Cuts.antt =====
-- Where ascending lists are cut and joined.
use skibidi_ql.Prelude.{
  ◌≡◌, refl, ap, Bool, true, false, not, Option, none, some, List, [], ◌∷◌, ◌++◌, arith,
}
use skibidi_ql.Index.Keys.{Order, below, below_asym, below_trans, below_self}
use skibidi_ql.Index.Sorted.{Floor, least, at, above, reaches, under, Ascends, end, step}
use skibidi_ql.Storage.RowId.{RowId}

module _ {ℓ} {K : Type ℓ} ⦃o : Order K⦄ where
  pub under_below :
      (x k : K) (ceiling : Option K)
      → below x k ≡ true
      → under k ceiling ≡ true
      → under x ceiling ≡ true
  under_below x k none h u = refl
  under_below x k (some c) h u = below_trans x k c h u

  below-Ascends :
      (x k : K) (row : RowId) (left right : List (K × RowId)) {ceiling : Option K}
      → Ascends (above x) ceiling (left ++ ((k, row) ∷ right))
      → below x k ≡ true
  below-Ascends x k row [] right (step _ _ low high more) = low
  below-Ascends x k row ((y, _) ∷ left) right (step _ _ low high more) =
      below_trans x y k low (below-Ascends y k row left right more)

  -- Where an ascending list is cut, the first key of the right part bounds both parts.
  pub append-Ascends :
      (k : K) (row : RowId) (left right : List (K × RowId)) {floor : Floor K} {ceiling : Option K}
      → Ascends floor ceiling (left ++ ((k, row) ∷ right))
      → Ascends floor (some k) left × Ascends (at k) ceiling ((k, row) ∷ right)
  append-Ascends k row [] right (step _ _ low high more) =
      (end, step k row (ap not (below_self k)) high more)
  append-Ascends k row ((x, r) ∷ left) right (step _ _ low high more) =
      let parts = append-Ascends k row left right more in
      (step x r low (below-Ascends x k row left right more) parts.0, parts.1)

  -- A separator behind a bound.
  abbrev pub beyond : Floor K → K → Bool
  beyond least key = true
  beyond (at floor) key = below floor key
  beyond (above floor) key = below floor key

  pub beyond_trans :
      (floor : Floor K) (a b : K) → beyond floor a ≡ true → below a b ≡ true → beyond floor b ≡ true
  beyond_trans least a b h k = refl
  beyond_trans (at floor) a b h k = below_trans floor a b h k
  beyond_trans (above floor) a b h k = below_trans floor a b h k

  pub beyond-reaches :
      (floor : Floor K) (a b : K)
      → reaches floor a ≡ true
      → below a b ≡ true
      → beyond floor b ≡ true
  beyond-reaches least a b h k = refl
  beyond-reaches (at floor) a b h k = ground (arith, o.compare_between a floor b)
  beyond-reaches (above floor) a b h k = below_trans floor a b h k

  pub beyond-Ascends :
      (k x : K) (r : RowId) (left : List (K × RowId)) {floor : Floor K}
      → Ascends floor (some k) ((x, r) ∷ left)
      → beyond floor k ≡ true
  beyond-Ascends k x r left {floor = floor} (step _ _ low high more) =
      beyond-reaches floor x k low high

  reaches_behind :
      (floor : Floor K) (k y : K)
      → beyond floor k ≡ true
      → below y k ≡ false
      → reaches floor y ≡ true
  reaches_behind least k y b h = refl
  reaches_behind (at floor) k y b h = ap not (below_asym floor y (o.compare_between floor y k b h))
  reaches_behind (above floor) k y b h = o.compare_between floor y k b h

  pub under-Ascends :
      (k : K) (r : RowId) (right : List (K × RowId)) {floor : Floor K} {ceiling : Option K}
      → Ascends floor ceiling ((k, r) ∷ right)
      → under k ceiling ≡ true
  under-Ascends k r right (step _ _ low high more) = high

  -- Two ascending lists, the one below a key and the other from it on, ascend together.
  pub join-Ascends :
      (k : K) (left right : List (K × RowId)) {floor : Floor K} {ceiling : Option K}
      → Ascends floor (some k) left
      → under k ceiling ≡ true
      → beyond floor k ≡ true
      → Ascends (at k) ceiling right
      → Ascends floor ceiling (left ++ right)
  join-Ascends k [] [] end u b r = end
  join-Ascends k [] ((y, row) ∷ right) {floor = floor} end u b (step _ _ low high more) =
      step y row (reaches_behind floor k y b (ground (arith, low))) high more
  join-Ascends k ((x, r) ∷ left) right {ceiling = ceiling} (step _ _ low high more) u b rest =
      step x r low (under_below x k ceiling high u) (join-Ascends k left right more u high rest)
