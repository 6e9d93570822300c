-- ===== src/Index/Trees.antt =====
-- The index as a whole: insert, find, range and height of src/native_index.cpp on a tree that was
-- made by insertions.
use skibidi_ql.Prelude.{
  ℕ, suc, ◌^◌, ◌≤◌, max, ◌≡◌, refl, sym, ap, ◌∙◌, Option, none, some, arith, Outcome, ok, throws,
  ◌>>=◌, length, length-append, by_sign,
}
use skibidi_ql.Index.{BPlusTree, new_tree, clear, height, insert, find, grow_root}
use skibidi_ql.Index.Keys.{Order}
use skibidi_ql.Index.Nodes.{
  Node, leaf, inner, Children, last, before, count, Grown, kept, split, height_of, height_of_first,
  leaves,
}
use skibidi_ql.Index.Sorted.{Floor, least, end, insert_sorted, lookup, length-insert_sorted}
use skibidi_ql.Index.Shape.{
  IsNode, a_leaf, an_inner, AreChildren, a_last, a_before, entries, child_entries, entries-Ascends,
}
use skibidi_ql.Index.Split.{Fits, fits_kept, fits_split}
use skibidi_ql.Index.Insert.{Inserted, new, duplicate, insert_node_lem}
use skibidi_ql.Index.Follow.{
  Chain, chain_end, Distinct, distinct_none, distinct_more, nowhere, Relinked-Chain,
  Relinked-Distinct,
}
use skibidi_ql.Index.Links.{Relinked, Relinks, relinks, grown_leaves, insert_node-Relinked}
use skibidi_ql.Index.Find.{find_leaf-lookup, lookup-insert_sorted}
use skibidi_ql.Storage.RowId.{RowId}

module _ {ℓ} {K : Type ℓ} ⦃o : Order K⦄ where
  -- size_ counts the entries, the root is within the limits of a node, all its leaves are at
  -- one level, `next` of each of them leads to the next one on its right, and they have different numbers.
  pub record IsTree (tree : BPlusTree K) : Type ℓ where
    pub many : 3 ≤ tree.max_keys
    pub counted : tree.size ≡ length (entries tree.root)
    pub levels : ℕ
    pub shaped : IsNode tree.max_keys 0 levels least none tree.root
    pub chained : Chain (leaves tree.root)
    pub distinct : Distinct tree.size (leaves tree.root)

  pub new_tree-IsTree : (max_keys : ℕ) → IsTree (new_tree max_keys)
  unfolding new_tree entries leaves
  new_tree-IsTree max_keys = record {
    many = omega arith;
    counted = refl;
    levels = 1;
    shaped = a_leaf (omega arith) (omega arith) end;
    chained = chain_end;
    distinct = distinct_more (omega arith) nowhere distinct_none;
  }

  pub clear-IsTree : (tree : BPlusTree K) → IsTree tree → IsTree (clear tree)
  unfolding clear entries leaves
  clear-IsTree tree w = record {
    many = w.many;
    counted = refl;
    levels = 1;
    shaped = a_leaf (omega arith) (omega arith) end;
    chained = chain_end;
    distinct = distinct_more (omega arith) nowhere distinct_none;
  }

  pub find_lem :
      (key : K) (tree : BPlusTree K) → IsTree tree → find key tree ≡ lookup key (entries tree.root)
  unfolding find
  find_lem key tree w = find_leaf-lookup key tree.root w.shaped

  -- What insert does to a tree, as the map from keys to rows that find reads.
  pub data Inserts (key : K) (row : RowId) (tree : BPlusTree K)
      : Outcome (BPlusTree K) → Type ℓ where
    inserted :
        {grown : BPlusTree K}
        → IsTree grown
        → grown.size ≡ suc tree.size
        → find key tree ≡ none
        → ((other : K)
            → find other grown
              ≡ by_sign (o.compare_keys key other) (find other tree) (some row) (find other tree))
        → Inserts key row tree (ok grown)
    refused :
        {present : RowId}
        → find key tree ≡ some present
        → Inserts key row tree (throws "Duplicate B+ tree key")

  module _ (key : K) (row : RowId) (tree : BPlusTree K) (w : IsTree tree) where
    grown_lem :
        (node : Node K) (levels : ℕ)
        → IsNode tree.max_keys 0 levels least none node
        → entries node ≡ insert_sorted key row (entries tree.root)
        → lookup key (entries tree.root) ≡ none
        → Relinked (suc tree.size) (leaves tree.root) (leaves node)
        → Inserts key row tree (ok (record tree { size = suc tree.size; root = node }))
    grown_lem node levels n held fresh r =
        inserted grown_w refl (find_lem key tree w ∙ fresh) (λ other.
          find_lem other grown grown_w
          ∙ ap (lookup other) held
          ∙ lookup-insert_sorted key other row (entries tree.root)
              (entries-Ascends tree.root w.shaped) fresh
          ∙ ap (λ found. by_sign (o.compare_keys key other) found (some row) found)
              (sym (find_lem other tree w)))
      where
        grown : BPlusTree K
        grown = record tree { size = suc tree.size; root = node }

        grown_w : IsTree grown
        grown_w = record {
          many = w.many;
          counted =
              ap suc w.counted
              ∙ sym (length-insert_sorted key row (entries tree.root))
              ∙ ap length (sym held);
          levels = levels;
          shaped = n;
          chained = Relinked-Chain _ _ r w.chained;
          distinct = Relinked-Distinct _ _ r w.distinct;
        }

    grow_lem :
        (result : Outcome (ℕ × Grown K))
        → Inserted key row tree.size
            (entries tree.root)
            (Fits tree.max_keys 0 w.levels least none)
            result
        → Relinks tree.size (leaves tree.root) grown_leaves result
        → Inserts key row tree (result >>= grow_root tree)
    unfolding count entries leaves
    grow_lem (ok (size, kept node)) (new fresh (fits_kept n held)) (relinks r) =
        grown_lem node w.levels n held fresh r
    grow_lem (ok (size, split node k right)) (new fresh (fits_split n lo hi right_n held))
          (relinks r) =
        grown_lem (inner (before node k (last right))) (suc w.levels)
          (an_inner (omega arith) (omega (arith, w.many)) (a_before n lo hi (a_last right_n))) held
          fresh r
    grow_lem (throws message) (duplicate there) _ = refused (find_lem key tree w ∙ there)

  -- What insert does as a step from one map of keys to rows to the next: at a key that find knows it
  -- throws. Otherwise the new tree is well-formed, has one row more, finds the row under every key that
  -- compares equal to the new one, and what the old tree finds under every other key.
  pub insert-Inserts :
      (key : K) (row : RowId) (tree : BPlusTree K)
      → IsTree tree
      → Inserts key row tree (insert key row tree)
  unfolding insert
  insert-Inserts key row tree w =
      grow_lem key row tree w _
        (insert_node_lem tree.max_keys tree.size w.many key row tree.root 0 w.levels w.shaped)
        (insert_node-Relinked tree.max_keys tree.size key row tree.root)

  mutual
    unfolding height_of entries count

    height_any :
        (node : Node K) {most levels : ℕ} {floor : Floor K} {ceiling : Option K}
        → IsNode most 2 levels floor ceiling node
        → (height_of node ≡ levels) × (2 ^ levels ≤ length (entries node))
    height_any (leaf link own) (a_leaf few full asc) = (refl, omega (arith, few))
    height_any (inner (last node)) (an_inner few full all) = absurd (omega (arith, few))
    height_any (inner (before node k rest)) (an_inner few full (a_before n lo hi more)) =
        let here = height_any node n in
        let further = height_among rest more in
        (
          ap suc here.0,
          omega (arith, here.1, further.1, length-append (entries node) (child_entries rest)),
        )

    height_among :
        (children : Children K) {most levels : ℕ} {floor : Floor K} {ceiling : Option K}
        → AreChildren most levels floor ceiling children
        → (height_of_first children ≡ levels) × (2 ^ levels ≤ length (child_entries children))
    height_among (last node) (a_last n) = height_any node n
    height_among (before node k rest) (a_before n lo hi more) =
        let here = height_any node n in
        (here.0, omega (arith, here.1, length-append (entries node) (child_entries rest)))

  root_height :
      (node : Node K) {most levels : ℕ}
      → IsNode most 0 levels least none node
      → 2 ^ height_of node ≤ max 2 (length (entries node))
  unfolding height_of entries
  root_height (leaf link own) (a_leaf few full asc) = omega arith
  root_height (inner children) (an_inner few full all) =
      let whole = height_any (inner children) (an_inner few full all) in
      rw whole.0 (omega (arith, whole.1))

  -- A walk from the root to a leaf is short: a tree with more than one level has at least two to the
  -- power of its height entries.
  pub height_lem : (tree : BPlusTree K) → IsTree tree → 2 ^ height tree ≤ max 2 tree.size
  unfolding height
  height_lem tree w = rw w.counted (root_height tree.root w.shaped)
