-- ===== src/Index/Follow.antt =====
-- Following the `next` pointers of the leaves, as range of src/native_index.cpp does, leads from a leaf
-- through all leaves on its right.
use skibidi_ql.Prelude.{
  ℕ, zero, suc, ◌≤◌, ◌<◌, ◌≡◌, refl, sym, ap, ◌∙◌, false, Option, none, some, List, [], ◌∷◌, ◌++◌,
  arith, ◌==◌, length, All,
}
use mathlib.Core.List.{append_assoc}
use skibidi_ql.Index.{walk_leaf, walk}
use skibidi_ql.Index.Keys.{Order}
use skibidi_ql.Index.Links.{Relinked, filled, parted, later}
use skibidi_ql.Index.Nodes.{Leaf, leaf_at}
use skibidi_ql.Storage.RowId.{RowId}

-- Each leaf points to the next one of the list, the last one to nothing.
pub data Chain {ℓ} {K : Type ℓ} : List (Leaf K) → Type ℓ where
  chain_end : {id : ℕ} {own : List (K × RowId)} → Chain (((id, none), own) ∷ [])
  chain_more :
      {id id' : ℕ} {next : Option ℕ} {own own' : List (K × RowId)} {more : List (Leaf K)}
      → Chain (((id', next), own') ∷ more)
      → Chain (((id, some id'), own) ∷ ((id', next), own') ∷ more)

-- No leaf has the number `id`.
pub data Absent {ℓ} {K : Type ℓ} (id : ℕ) : List (Leaf K) → Type ℓ where
  nowhere : Absent id []
  elsewhere :
      {first : Leaf K} {more : List (Leaf K)}
      → (id == first.0.0) ≡ false
      → Absent id more
      → Absent id (first ∷ more)

-- No two leaves have the same number, and none is above `bound`.
pub data Distinct {ℓ} {K : Type ℓ} (bound : ℕ) : List (Leaf K) → Type ℓ where
  distinct_none : Distinct bound []
  distinct_more :
      {first : Leaf K} {more : List (Leaf K)}
      → first.0.0 ≤ bound
      → Absent first.0.0 more
      → Distinct bound more
      → Distinct bound (first ∷ more)

module _ {ℓ} {K : Type ℓ} where
  Chain-renamed :
      {id : ℕ} {next : Option ℕ} {own : List (K × RowId)} (id' : ℕ) (held : List (K × RowId))
      (more : List (Leaf K))
      → Chain (((id, next), own) ∷ more)
      → Chain (((id', next), held) ∷ more)
  Chain-renamed id' held [] chain_end = chain_end
  Chain-renamed id' held (_ ∷ more) (chain_more c) = chain_more c

  -- An insertion keeps the chain.
  pub Relinked-Chain :
      {fresh : ℕ} (old new : List (Leaf K)) → Relinked fresh old new → Chain old → Chain new
  Relinked-Chain _ _ (filled {id = id} {held = held} {more = more}) c = Chain-renamed id held more c
  Relinked-Chain {fresh} _ _ (parted {right = right} {more = more}) c =
      chain_more (Chain-renamed fresh right more c)
  Relinked-Chain _ _ (later (filled {id = id} {held = held} {more = more})) (chain_more c) =
      chain_more (Chain-renamed id held more c)
  Relinked-Chain {fresh} _ _ (later (parted {right = right} {more = more})) (chain_more c) =
      chain_more (chain_more (Chain-renamed fresh right more c))
  Relinked-Chain _ _ (later (later {old = old} {new = new} r)) (chain_more c) =
      chain_more (Relinked-Chain _ _ (later r) c)

  pub Chain-suffix :
      (front : List (Leaf K)) (start : Leaf K) (more : List (Leaf K))
      → Chain (front ++ start ∷ more)
      → Chain (start ∷ more)
  Chain-suffix [] start more c = c
  Chain-suffix (x ∷ []) start more (chain_more c) = c
  Chain-suffix (x ∷ y ∷ front) start more (chain_more c) = Chain-suffix (y ∷ front) start more c

  fresh-Absent :
      (fresh : ℕ) {bound : ℕ} (all : List (Leaf K))
      → bound < fresh
      → Distinct bound all
      → Absent fresh all
  fresh-Absent fresh [] h distinct_none = nowhere
  fresh-Absent fresh (x ∷ all) h (distinct_more small absent more) =
      elsewhere (ground (arith, h, small)) (fresh-Absent fresh all h more)

  Relinked-Absent :
      {fresh : ℕ} (id : ℕ) (old new : List (Leaf K))
      → Relinked fresh old new
      → id < fresh
      → Absent id old
      → Absent id new
  Relinked-Absent id _ _ filled h (elsewhere e more) = elsewhere e more
  Relinked-Absent id _ _ parted h (elsewhere e more) =
      elsewhere e (elsewhere (ground (arith, h)) more)
  Relinked-Absent id _ _ (later r) h (elsewhere e more) =
      elsewhere e (Relinked-Absent id _ _ r h more)

  weaken : {bound : ℕ} (all : List (Leaf K)) → Distinct bound all → Distinct (suc bound) all
  weaken [] distinct_none = distinct_none
  weaken (x ∷ all) (distinct_more small absent more) =
      distinct_more (omega (arith, small)) absent (weaken all more)

  -- An insertion keeps the numbers distinct, if that of a new leaf is above all others.
  pub Relinked-Distinct :
      {bound : ℕ} (old new : List (Leaf K))
      → Relinked (suc bound) old new
      → Distinct bound old
      → Distinct (suc bound) new
  Relinked-Distinct _ _ (filled {more = more}) (distinct_more small absent d) =
      distinct_more (omega (arith, small)) absent (weaken more d)
  Relinked-Distinct {bound} _ _ (parted {more = more}) (distinct_more small absent d) =
      distinct_more (omega (arith, small)) (elsewhere (ground (arith, small)) absent) (
        distinct_more (omega arith) (fresh-Absent (suc bound) more (omega arith) d) (weaken more d))
  Relinked-Distinct _ _ (later r) (distinct_more small absent d) =
      distinct_more (omega (arith, small)) (Relinked-Absent _ _ _ r (omega (arith, small)) absent)
        (Relinked-Distinct _ _ r d)

  -- A pointer to a leaf of the list finds it among all leaves.
  abbrev pub IsHeld : List (Leaf K) → Leaf K → Type ℓ
  IsHeld all leaf = leaf_at leaf.0.0 all ≡ some leaf

  IsHeld-more :
      (first : Leaf K) (all suffix : List (Leaf K))
      → Absent first.0.0 suffix
      → All (IsHeld all) suffix
      → All (IsHeld (first ∷ all)) suffix
  unfolding leaf_at
  IsHeld-more first all [] nowhere h = tt
  IsHeld-more first all (x ∷ suffix) (elsewhere e absent) (here, more) =
      (rw (e, here) refl, IsHeld-more first all suffix absent more)

  pub Distinct-Held : {bound : ℕ} (all : List (Leaf K)) → Distinct bound all → All (IsHeld all) all
  unfolding leaf_at
  Distinct-Held [] distinct_none = tt
  Distinct-Held (x ∷ all) (distinct_more small absent d) =
      (ground arith, IsHeld-more x all all absent (Distinct-Held all d))

  pub IsHeld-suffix :
      (all front more : List (Leaf K)) → All (IsHeld all) (front ++ more) → All (IsHeld all) more
  IsHeld-suffix all [] more h = h
  IsHeld-suffix all (x ∷ front) more h = IsHeld-suffix all front more h.1

  abbrev pub concat : List (Leaf K) → List (K × RowId)
  concat [] = []
  concat (leaf ∷ more) = leaf.1 ++ concat more

  pub concat-append : (xs ys : List (Leaf K)) → concat (xs ++ ys) ≡ concat xs ++ concat ys
  concat-append [] ys = refl
  concat-append (x ∷ xs) ys =
      ap (λ rest. x.1 ++ rest) (concat-append xs ys)
      ∙ sym (append_assoc x.1 (concat xs) (concat ys))

module _ {ℓ} {K : Type ℓ} ⦃o : Order K⦄ where
  pub walk_leaf-append :
      (upper : Option K) (xs ys : List (K × RowId))
      → walk_leaf upper xs (walk_leaf upper ys []) ≡ walk_leaf upper (xs ++ ys) []
  unfolding walk_leaf
  walk_leaf-append upper [] ys = refl
  walk_leaf-append upper ((k, row) ∷ xs) ys = rw (walk_leaf-append upper xs ys) refl

  -- The walk from a leaf goes through all leaves on its right, and stops by itself.
  pub walk_lem :
      (upper : Option K) (all : List (Leaf K)) (fuel : ℕ) (start : Leaf K) (more : List (Leaf K))
      → Chain (start ∷ more)
      → All (IsHeld all) more
      → length more ≤ fuel
      → walk upper all fuel start.0.1 ≡ walk_leaf upper (concat more) []
  unfolding walk walk_leaf
  walk_lem upper all fuel _ [] chain_end h few = refl
  walk_lem upper all zero _ (next ∷ more) (chain_more c) h few = absurd (omega (arith, few))
  walk_lem upper all (suc fuel) _ (next ∷ more) (chain_more c) (here, h) few =
      rw (here, walk_lem upper all fuel next more c h (omega (arith, few)))
        (walk_leaf-append upper next.1 (concat more))
