-- ===== src/Index/Between.antt =====
-- The entries between two bounds, in an ascending list: what the loops of range give there.
use skibidi_ql.Prelude.{
  ◌≡◌, refl, Bool, true, false, ◌||◌, Option, none, some, List, [], ◌∷◌, ◌++◌, arith, if◌then◌else◌,
  Bool-cases, inl, inr, drop,
}
use skibidi_ql.Index.{is_above, walk_leaf}
use skibidi_ql.Index.Keys.{Order, below, below_asym, below_trans}
use skibidi_ql.Index.Nodes.{lower_bound}
use skibidi_ql.Index.Sorted.{Floor, at, above, Ascends, end, step}
use skibidi_ql.Storage.RowId.{RowId}

module _ {ℓ} {K : Type ℓ} ⦃o : Order K⦄ where
  -- What is left of entries from a key on.
  abbrev pub since : K → List (K × RowId) → List (K × RowId)
  since key own = drop (lower_bound key own) own

  pub since_front :
      (key k : K) (left right : List (K × RowId)) {ceiling : Option K}
      → Ascends (at k) ceiling right
      → below key k ≡ true
      → since key (left ++ right) ≡ since key left ++ right
  unfolding lower_bound
  since_front key k [] [] end h = refl
  since_front key k [] ((x, r) ∷ right) (step _ _ lo hi more) h =
      ground (arith, below_asym key x, o.compare_between key x k)
  since_front key k ((x, r) ∷ left) right all h = ground (arith, since_front key k left right all h)

  pub since_behind :
      (key k : K) (left right : List (K × RowId)) {floor : Floor K}
      → Ascends floor (some k) left
      → below key k ≡ false
      → since key (left ++ right) ≡ since key right
  unfolding lower_bound
  since_behind key k [] right end h = refl
  since_behind key k ((x, r) ∷ left) right (step _ _ lo hi more) h =
      ground (arith, o.compare_between x key k, since_behind key k left right more h)

  abbrev pub is_under : Option K → K → Bool
  is_under none key = false
  is_under (some lower) key = below key lower

  -- The rows of the keys between two bounds, each of which may be missing, picked one by one.
  unfoldable pub rows_between : Option K → Option K → List (K × RowId) → List RowId
  rows_between lower upper [] = []
  rows_between lower upper ((k, row) ∷ own) =
      let rest = rows_between lower upper own in
      if is_under lower k || is_above upper k then rest else row ∷ rest

  rows_above :
      (lower upper : Option K) (x : K) (own : List (K × RowId)) {ceiling : Option K}
      → Ascends (above x) ceiling own
      → is_above upper x ≡ true
      → rows_between lower upper own ≡ []
  unfolding rows_between
  rows_above lower upper x [] end h = refl
  rows_above lower none x ((k, row) ∷ own) (step _ _ lo hi more) h = cc
  rows_above lower (some u) x ((k, row) ∷ own) (step _ _ lo hi more) h = ground (
    arith,
    o.compare_opposite x u,
    o.compare_opposite k u,
    below_trans u x k,
    rows_above lower (some u) k own more,
  )

  pub walk_leaf-rows_between :
      (upper : Option K) (own : List (K × RowId)) {floor : Floor K} {ceiling : Option K}
      → Ascends floor ceiling own
      → walk_leaf upper own [] ≡ rows_between none upper own
  unfolding walk_leaf rows_between
  walk_leaf-rows_between upper [] end = refl
  walk_leaf-rows_between upper ((k, row) ∷ own) (step _ _ lo hi more) =
      ground (arith, walk_leaf-rows_between upper own more, rows_above none upper k own more)

  rows_from :
      (lower : K) (upper : Option K) (x : K) (own : List (K × RowId)) {ceiling : Option K}
      → Ascends (above x) ceiling own
      → below x lower ≡ false
      → rows_between none upper own ≡ rows_between (some lower) upper own
  unfolding rows_between
  rows_from lower upper x [] end h = refl
  rows_from lower upper x ((k, row) ∷ own) (step _ _ lo hi more) h =
      ground (arith, below_trans x k lower, rows_from lower upper k own more)

  pub since-rows_between :
      (lower : K) (upper : Option K) (own : List (K × RowId)) {floor : Floor K} {ceiling : Option K}
      → Ascends floor ceiling own
      → rows_between none upper (since lower own) ≡ rows_between (some lower) upper own
  unfolding rows_between lower_bound
  since-rows_between lower upper [] end = refl
  since-rows_between lower upper ((k, row) ∷ own) (step _ _ lo hi more) =
      ground (arith, since-rows_between lower upper own more, rows_from lower upper k own more)

  pub since-Ascends :
      (lower : K) (own : List (K × RowId)) {floor : Floor K} {ceiling : Option K}
      → Ascends floor ceiling own
      → (higher : Floor K) × Ascends higher ceiling (since lower own)
  unfolding lower_bound
  since-Ascends lower [] {floor = floor} end = (floor, end)
  since-Ascends lower ((k, row) ∷ own) {floor = floor} (step _ _ lo hi more) =
      elim (Bool-cases (below k lower)) [
        | inl e ↦ rw e (since-Ascends lower own more)
        | inr e ↦ rw e (floor, step k row lo hi more)
      ]
