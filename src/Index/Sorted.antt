-- ===== src/Index/Sorted.antt =====
-- Ascending lists of entries: what the leaves of an index hold from left to right, and the insertion
-- and lookup that the tree is to agree with.
use skibidi_ql.Prelude.{
  suc, ◌≡◌, refl, ap, Bool, true, false, not, Option, none, some, List, [], ◌∷◌, ◌++◌, arith,
  if◌then◌else◌, length, by_sign, Bool-cases, inl, inr,
}
use skibidi_ql.Index.Keys.{Order, below, is_negative, below_asym, below_trans}
use skibidi_ql.Index.Nodes.{lower_bound, find_in_leaf, insert_at}
use skibidi_ql.Storage.RowId.{RowId}

-- A bound from below: none, a key that may be met, or one that may not.
pub data Floor {ℓ} (K : Type ℓ) : Type ℓ where
  least : Floor K
  at : K → Floor K
  above : K → Floor K

module _ {ℓ} {K : Type ℓ} ⦃o : Order K⦄ where
  abbrev pub reaches : Floor K → K → Bool
  reaches least key = true
  reaches (at floor) key = not (below key floor)
  reaches (above floor) key = below floor key

  abbrev pub under : K → Option K → Bool
  under key none = true
  under key (some ceiling) = below key ceiling

  -- Entries with keys between two bounds, each key below the next.
  pub data Ascends : Floor K → Option K → List (K × RowId) → Type ℓ where
    end : {floor : Floor K} {ceiling : Option K} → Ascends floor ceiling []
    step :
        {floor : Floor K} {ceiling : Option K} (key : K) (row : RowId) {entries : List (K × RowId)}
        → reaches floor key ≡ true
        → under key ceiling ≡ true
        → Ascends (above key) ceiling entries
        → Ascends floor ceiling ((key, row) ∷ entries)

  unfoldable pub lookup : K → List (K × RowId) → Option RowId
  lookup key [] = none
  lookup key ((k, row) ∷ entries) =
      let rest = lookup key entries in by_sign (o.compare_keys k key) rest (some row) rest

  -- The entry before the first key that is not below its own.
  unfoldable pub insert_sorted : K → RowId → List (K × RowId) → List (K × RowId)
  insert_sorted key row [] = (key, row) ∷ []
  insert_sorted key row ((k, r) ∷ entries) =
      let rest = insert_sorted key row entries in
      if below k key then (k, r) ∷ rest else (key, row) ∷ (k, r) ∷ entries

  pub lookup_below :
      (key k : K) (entries : List (K × RowId)) {ceiling : Option K}
      → Ascends (above k) ceiling entries
      → is_negative (o.compare_keys k key) ≡ false
      → lookup key entries ≡ none
  unfolding lookup
  lookup_below key k [] end h = refl
  lookup_below key k ((x, row) ∷ entries) (step _ _ lo hi more) h = ground (
    arith,
    o.compare_opposite x key,
    o.compare_between k key x,
    below_asym k x,
    below_trans k x key,
    lookup_below key x entries more,
  )

  pub find_in_leaf-lookup :
      (key : K) (entries : List (K × RowId)) {floor : Floor K} {ceiling : Option K}
      → Ascends floor ceiling entries
      → find_in_leaf key entries ≡ lookup key entries
  unfolding lookup find_in_leaf lower_bound
  find_in_leaf-lookup key [] end = refl
  find_in_leaf-lookup key ((k, row) ∷ entries) (step _ _ lo hi more) =
      ground (arith, find_in_leaf-lookup key entries more, lookup_below key k entries more)

  pub insert_at-lower_bound :
      (key : K) (row : RowId) (entries : List (K × RowId))
      → insert_at (lower_bound key entries) (key, row) entries ≡ insert_sorted key row entries
  unfolding lower_bound insert_sorted
  insert_at-lower_bound key row [] = refl
  insert_at-lower_bound key row ((k, r) ∷ entries) =
      ground (arith, insert_at-lower_bound key row entries)

  pub length-insert_sorted :
      (key : K) (row : RowId) (entries : List (K × RowId))
      → length (insert_sorted key row entries) ≡ suc (length entries)
  unfolding insert_sorted
  length-insert_sorted key row [] = refl
  length-insert_sorted key row (entry ∷ entries) =
      ground (arith, length-insert_sorted key row entries)

  -- A key from `ceiling` on belongs behind the entries below it.
  pub place_behind :
      (key k : K) (row : RowId) (left right : List (K × RowId)) {floor : Floor K}
      → Ascends floor (some k) left
      → below key k ≡ false
      → insert_sorted key row (left ++ right) ≡ left ++ insert_sorted key row right
  unfolding insert_sorted
  place_behind key k row [] right end h = refl
  place_behind key k row ((x, r) ∷ left) right (step _ _ lo hi more) h =
      rw (o.compare_between x key k hi h)
        (ap (◌∷◌ (x, r)) (place_behind key k row left right more h))

  pub lookup_behind :
      (key k : K) (left right : List (K × RowId)) {floor : Floor K}
      → Ascends floor (some k) left
      → below key k ≡ false
      → lookup key (left ++ right) ≡ lookup key right
  unfolding lookup
  lookup_behind key k [] right end h = refl
  lookup_behind key k ((x, r) ∷ left) right (step _ _ lo hi more) h =
      ground (arith, o.compare_between x key k, lookup_behind key k left right more h)

  pub place_front :
      (key k : K) (row : RowId) {ceiling : Option K} (left right : List (K × RowId))
      → Ascends (at k) ceiling right
      → below key k ≡ true
      → insert_sorted key row (left ++ right) ≡ insert_sorted key row left ++ right
  unfolding insert_sorted
  place_front key k row [] [] end h = refl
  place_front key k row [] ((x, r) ∷ right) (step _ _ lo hi more) h =
      rw (below_asym key x (o.compare_between key x k h (ground arith))) refl
  place_front key k row ((x, r) ∷ left) right all h =
      ground (arith, place_front key k row left right all h)

  pub lookup_front :
      (key k : K) {ceiling : Option K} (left right : List (K × RowId))
      → Ascends (at k) ceiling right
      → below key k ≡ true
      → lookup key (left ++ right) ≡ lookup key left
  unfolding lookup
  lookup_front key k [] [] end h = refl
  lookup_front key k [] ((x, r) ∷ right) (step _ _ lo hi more) h =
      ground
        (arith, o.compare_between key x k, o.compare_opposite x key, lookup_below key x right more)
  lookup_front key k ((x, r) ∷ left) right all h =
      ground (arith, lookup_front key k left right all h)

  pub insert_sorted-Ascends :
      (key : K) (row : RowId) (entries : List (K × RowId)) {floor : Floor K} {ceiling : Option K}
      → Ascends floor ceiling entries
      → reaches floor key ≡ true
      → under key ceiling ≡ true
      → lookup key entries ≡ none
      → Ascends floor ceiling (insert_sorted key row entries)
  unfolding insert_sorted lookup
  insert_sorted-Ascends key row [] end lo hi new = step key row lo hi end
  insert_sorted-Ascends key row ((x, r) ∷ entries) (step _ _ low high more) lo hi new =
      elim (Bool-cases (below x key)) [
        | inl e ↦ rw e (
            step x r low high
              (insert_sorted-Ascends key row entries more e hi (ground (arith, new, e))))
        | inr e ↦
            rw e
              (step key row lo hi (step x r (ground (arith, o.compare_opposite key x)) high more))
      ]
