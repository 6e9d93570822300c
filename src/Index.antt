-- ===== src/Index.antt =====
-- BPlusTree of src/native_index.cpp: the tree with its state, over keys with an ordering, and insert,
-- find, range, clear and height.
pub mod Keys
pub mod Nodes
pub mod Sorted
pub mod Cuts
pub mod Shape
pub mod Split
pub mod Insert
pub mod Find
pub mod Links
pub mod Follow
pub mod Between
pub mod Range
pub mod Trees
use skibidi_ql.Prelude.{
  ℕ, zero, suc, Bool, true, false, Option, none, some, List, [], ◌∷◌, ◌++◌, Outcome, ok, throws,
  ◌>>=◌, if◌then◌else◌, max, drop, length, Sign, negative, nought, positive, by_sign,
}
use skibidi_ql.Storage.RowId.{RowId}
use skibidi_ql.Index.Keys.{Order, below}
use skibidi_ql.Index.Nodes.{
  Node, leaf, inner, last, before, Grown, kept, split, insert_node, Leaf, find_leaf, first_leaf,
  leaves, leaf_at, find_in_leaf, lower_bound, height_of,
}

pub record BPlusTree {ℓ} (K : Type ℓ) : Type ℓ where
  pub max_keys : ℕ
  pub size : ℕ
  pub root : Node K

module _ {ℓ} {K : Type ℓ} where
  unfoldable pub new_tree : ℕ → BPlusTree K
  new_tree max_keys = record { max_keys = max 3 max_keys; size = 0; root = leaf (0, none) [] }

  unfoldable pub clear : BPlusTree K → BPlusTree K
  clear tree = record tree { size = 0; root = leaf (0, none) [] }

  unfoldable pub height : BPlusTree K → ℕ
  height tree = height_of tree.root

  abbrev pub grow_root : BPlusTree K → ℕ × Grown K → Outcome (BPlusTree K)
  grow_root tree (size, kept node) = ok (record tree { size = size; root = node })
  grow_root tree (size, split node separator right) =
      ok (record tree { size = size; root = inner (before node separator (last right)) })

module _ {ℓ} {K : Type ℓ} ⦃o : Order K⦄ where
  unfoldable pub insert : K → RowId → BPlusTree K → Outcome (BPlusTree K)
  insert key row tree = insert_node tree.max_keys tree.size key row tree.root >>= grow_root tree

  unfoldable pub find : K → BPlusTree K → Option RowId
  find key tree = find_in_leaf key (find_leaf key tree.root).1

  abbrev pub is_above : Option K → K → Bool
  is_above none key = false
  is_above (some upper) key = by_sign (o.compare_keys key upper) false false true

  -- The loop of range over the entries of a leaf: their rows, and what follows them unless a key is
  -- above `upper`.
  unfoldable pub walk_leaf : Option K → List (K × RowId) → List RowId → List RowId
  walk_leaf upper [] further = further
  walk_leaf upper ((k, row) ∷ entries) further =
      let rest = walk_leaf upper entries further in if is_above upper k then [] else row ∷ rest

  abbrev pub walk_found : Option K → (Option ℕ → List RowId) → Option (Leaf K) → List RowId
  walk_found upper further none = []
  walk_found upper further (some found) = walk_leaf upper found.1 (further found.0.1)

  -- The loop of range over the leaves, from the one that a `next` points to. Every round is at another
  -- leaf, so that as many rounds as there are leaves are enough.
  unfoldable pub walk : Option K → List (Leaf K) → ℕ → Option ℕ → List RowId
  walk upper all fuel none = []
  walk upper all zero (some id) = []
  walk upper all (suc fuel) (some id) = walk_found upper (walk upper all fuel) (leaf_at id all)

  abbrev pub walk_on : Option K → List (Leaf K) → Option ℕ → List RowId
  walk_on upper all next = walk upper all (length all) next

  abbrev pub from_key : K → List (K × RowId) → List (K × RowId)
  from_key key entries = drop (lower_bound key entries) entries

  unfoldable pub range : Option K → Option K → BPlusTree K → List RowId
  range none upper tree =
      let start = first_leaf tree.root in
      walk_leaf upper start.1 (walk_on upper (leaves tree.root) start.0.1)
  range (some lower) upper tree =
      let start = find_leaf lower tree.root in
      walk_leaf upper (from_key lower start.1) (walk_on upper (leaves tree.root) start.0.1)
