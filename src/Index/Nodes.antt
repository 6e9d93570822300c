-- ===== src/Index/Nodes.antt =====
-- BPlusTree::Node of src/native_index.h, and what insert, find and range of src/native_index.cpp do to
-- it. The keys and the rows of a leaf are one list of pairs: the code moves them together. The keys of
-- an inner node stand between its children, one more than there are keys.
-- A pointer to a leaf is a number that the leaf alone has: what size_ was when an insertion made it, or 0
-- for the leaf that a tree begins with.
use skibidi_ql.Prelude.{
  ℕ, zero, suc, ◌/◌, Option, none, some, List, [], ◌∷◌, ◌++◌, Outcome, ok, throws, ◌>>=◌, leb, ◌==◌,
  if◌then◌else◌, length, take, drop, get_elem?, by_sign,
}
use skibidi_ql.Index.Keys.{Order, below}
use skibidi_ql.Storage.RowId.{RowId}

-- The number of a leaf, and its `next`.
abbrev pub Link : Type 0
Link = ℕ × Option ℕ

mutual
  pub data Node {ℓ} (K : Type ℓ) : Type ℓ where
    leaf : Link → List (K × RowId) → Node K
    inner : Children K → Node K

  pub data Children {ℓ} (K : Type ℓ) : Type ℓ where
    last : Node K → Children K
    before : Node K → K → Children K → Children K

-- A leaf: its number and its `next`, its keys and rows.
module _ {ℓ} (K : Type ℓ) where
  abbrev pub Leaf : Type ℓ
  Leaf = Link × List (K × RowId)

-- BPlusTree::Split with the node that was split, or the node that was not.
pub data Grown {ℓ} (K : Type ℓ) : Type ℓ where
  kept : Node K → Grown K
  split : Node K → K → Node K → Grown K

-- The children of an inner node after an insertion into one of them, which was split or not.
pub data Level {ℓ} (K : Type ℓ) : Type ℓ where
  same : Children K → Level K
  wider : Children K → Level K

module _ {ℓ} {K : Type ℓ} where
  -- The keys of an inner node.
  unfoldable pub count : Children K → ℕ
  count (last node) = 0
  count (before node k rest) = suc (count rest)

  -- The first `n` keys with the children beside them, and what begins with the child on their right.
  unfoldable pub take_children : ℕ → Children K → Children K
  take_children n (last node) = last node
  take_children zero (before node k rest) = last node
  take_children (suc n) (before node k rest) = before node k (take_children n rest)

  unfoldable pub drop_children : ℕ → Children K → Children K
  drop_children n (last node) = last node
  drop_children zero (before node k rest) = before node k rest
  drop_children (suc n) (before node k rest) = drop_children n rest

  abbrev pub insert_at : ℕ → K × RowId → List (K × RowId) → List (K × RowId)
  insert_at position entry entries = take position entries ++ (entry ∷ drop position entries)

  -- The new leaf, numbered `fresh`, goes between the leaf and its `next`.
  abbrev pub split_at : Link → ℕ → List (K × RowId) → List (K × RowId) → Grown K
  split_at link fresh left [] = kept (leaf link left)
  split_at link fresh left (entry ∷ more) =
      split (leaf (link.0, some fresh) left) entry.0 (leaf (fresh, link.1) (entry ∷ more))

  -- The leaf with the entry, in two halves if it has more than `most` keys.
  unfoldable pub close_leaf : ℕ → Link → ℕ → List (K × RowId) → Grown K
  close_leaf most link fresh entries =
      if leb (length entries) most
      then kept (leaf link entries)
      else split_at link fresh (take (length entries / 2) entries)
          (drop (length entries / 2) entries)

  abbrev pub split_children : Children K → Children K → Grown K
  split_children left (last node) = kept (inner left)
  split_children left (before node k right) = split (inner left) k (inner right)

  unfoldable pub close_inner : ℕ → Level K → Grown K
  close_inner most (same children) = kept (inner children)
  close_inner most (wider children) =
      if leb (count children) most
      then kept (inner children)
      else split_children (take_children (count children / 2) children)
          (drop_children (count children / 2) children)

  abbrev pub widen_last : Grown K → Level K
  widen_last (kept node) = same (last node)
  widen_last (split node separator right) = wider (before node separator (last right))

  abbrev pub widen_before : K → Children K → Grown K → Level K
  widen_before k rest (kept node) = same (before node k rest)
  widen_before k rest (split node separator right) =
      wider (before node separator (before right k rest))

  abbrev pub put_before : Node K → K → Level K → Level K
  put_before node k (same rest) = same (before node k rest)
  put_before node k (wider rest) = wider (before node k rest)

  -- The leaves that there are, from left to right.
  unfoldable mutual
    pub leaves : Node K → List (Leaf K)
    leaves (leaf link entries) = (link, entries) ∷ []
    leaves (inner children) = child_leaves children

    pub child_leaves : Children K → List (Leaf K)
    child_leaves (last node) = leaves node
    child_leaves (before node k rest) = leaves node ++ child_leaves rest

  -- The leaf that a pointer points to.
  unfoldable pub leaf_at : ℕ → List (Leaf K) → Option (Leaf K)
  leaf_at id [] = none
  leaf_at id (here ∷ more) =
      let rest = leaf_at id more in if here.0.0 == id then some here else rest

  -- The way of range down to the first leaf.
  unfoldable mutual
    pub first_leaf : Node K → Leaf K
    first_leaf (leaf link entries) = (link, entries)
    first_leaf (inner children) = first_child children

    pub first_child : Children K → Leaf K
    first_child (last node) = first_leaf node
    first_child (before node k rest) = first_leaf node

  unfoldable mutual
    pub height_of : Node K → ℕ
    height_of (leaf link entries) = 1
    height_of (inner children) = suc (height_of_first children)

    pub height_of_first : Children K → ℕ
    height_of_first (last node) = height_of node
    height_of_first (before node k rest) = height_of node

module _ {ℓ} {K : Type ℓ} ⦃o : Order K⦄ where
  -- std::lower_bound: the position of the first key that is not below `key`.
  unfoldable pub lower_bound : K → List (K × RowId) → ℕ
  lower_bound key [] = 0
  lower_bound key (entry ∷ entries) =
      let rest = lower_bound key entries in if below entry.0 key then suc rest else 0

  -- The row at a position, if its key compares equal.
  abbrev pub row_if : K → Option (K × RowId) → Option RowId
  row_if key none = none
  row_if key (some (k, row)) = by_sign (o.compare_keys k key) none (some row) none

  unfoldable pub find_in_leaf : K → List (K × RowId) → Option RowId
  find_in_leaf key entries = row_if key (get_elem? entries (lower_bound key entries))

  abbrev pub enter :
      ℕ → ℕ → K → RowId → Link → List (K × RowId) → Option RowId → Outcome (ℕ × Grown K)
  enter most size key row link entries (some _) = throws "Duplicate B+ tree key"
  enter most size key row link entries none = ok (
    suc size,
    close_leaf most link (suc size) (insert_at (lower_bound key entries) (key, row) entries),
  )

  abbrev pub close_with : ℕ → ℕ × Level K → Outcome (ℕ × Grown K)
  close_with most (size, level) = ok (size, close_inner most level)

  abbrev pub widen_last_with : ℕ × Grown K → Outcome (ℕ × Level K)
  widen_last_with (size, grown) = ok (size, widen_last grown)

  abbrev pub widen_before_with : K → Children K → ℕ × Grown K → Outcome (ℕ × Level K)
  widen_before_with k rest (size, grown) = ok (size, widen_before k rest grown)

  abbrev pub put_before_with : Node K → K → ℕ × Level K → Outcome (ℕ × Level K)
  put_before_with node k (size, level) = ok (size, put_before node k level)

  -- insert of a node, and of the child that std::upper_bound of the keys names: the one before the
  -- first key above `key`. `most` is maxKeys_, `size` is size_.
  unfoldable mutual
    pub insert_node : ℕ → ℕ → K → RowId → Node K → Outcome (ℕ × Grown K)
    insert_node most size key row (leaf link entries) =
        enter most size key row link entries (find_in_leaf key entries)
    insert_node most size key row (inner children) =
        insert_child most size key row children >>= close_with most

    pub insert_child : ℕ → ℕ → K → RowId → Children K → Outcome (ℕ × Level K)
    insert_child most size key row (last node) =
        insert_node most size key row node >>= widen_last_with
    insert_child most size key row (before node k rest) =
        let here = insert_node most size key row node in
        let further = insert_child most size key row rest in
        if below key k
        then here >>= widen_before_with k rest
        else further >>= put_before_with node k

  -- The leaf that findLeaf comes to.
  unfoldable mutual
    pub find_leaf : K → Node K → Leaf K
    find_leaf key (leaf link entries) = (link, entries)
    find_leaf key (inner children) = find_child key children

    pub find_child : K → Children K → Leaf K
    find_child key (last node) = find_leaf key node
    find_child key (before node k rest) =
        let here = find_leaf key node in
        let further = find_child key rest in if below key k then here else further
