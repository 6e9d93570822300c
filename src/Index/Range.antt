-- ===== src/Index/Range.antt =====
-- range gives the rows of the keys between its bounds, in the order of the keys.
use skibidi_ql.Prelude.{
  ℕ, ◌≡◌, refl, sym, ap, ◌∙◌, subst, Option, none, some, List, [], ◌∷◌, ◌++◌, arith, Bool-cases,
  inl, inr, length, length-append, All,
}
use mathlib.Core.List.{append_assoc, append-nil}
use skibidi_ql.Index.{BPlusTree, walk_leaf, from_key, range}
use skibidi_ql.Index.Between.{
  since, since_front, since_behind, rows_between, walk_leaf-rows_between, since-rows_between,
  since-Ascends,
}
use skibidi_ql.Index.Follow.{
  Chain, Chain-suffix, Distinct, Distinct-Held, IsHeld, IsHeld-suffix, concat, concat-append,
  walk_leaf-append, walk_lem,
}
use skibidi_ql.Index.Keys.{Order, below}
use skibidi_ql.Index.Nodes.{
  Leaf, Node, leaf, inner, Children, last, before, find_leaf, find_child, first_leaf, first_child,
  leaves, child_leaves,
}
use skibidi_ql.Index.Sorted.{Floor}
use skibidi_ql.Index.Shape.{
  IsNode, a_leaf, an_inner, AreChildren, a_last, a_before, entries, child_entries, entries-Ascends,
  child_entries-Ascends,
}
use skibidi_ql.Storage.RowId.{RowId}

module _ {ℓ} {K : Type ℓ} where
  mutual
    unfolding leaves entries

    concat-leaves : (node : Node K) → concat (leaves node) ≡ entries node
    concat-leaves (leaf link own) = append-nil own
    concat-leaves (inner children) = concat_children children

    concat_children :
        (children : Children K) → concat (child_leaves children) ≡ child_entries children
    concat_children (last node) = concat-leaves node
    concat_children (before node k rest) =
        rw
          (
            concat-append (leaves node) (child_leaves rest),
            concat-leaves node,
            concat_children rest,
          )
          refl

  mutual
    unfolding leaves first_leaf

    first_leaf-leaves :
        (node : Node K) → (more : List (Leaf K)) × (leaves node ≡ first_leaf node ∷ more)
    first_leaf-leaves (leaf link own) = ([], refl)
    first_leaf-leaves (inner children) = first_child-leaves children

    first_child-leaves :
        (children : Children K)
        → (more : List (Leaf K)) × (child_leaves children ≡ first_child children ∷ more)
    first_child-leaves (last node) = first_leaf-leaves node
    first_child-leaves (before node k rest) =
        let here = first_leaf-leaves node in
        (here.0 ++ child_leaves rest, ap (λ found. found ++ child_leaves rest) here.1)

module _ {ℓ} {K : Type ℓ} ⦃o : Order K⦄ where
  -- The leaf of findLeaf among all leaves: those before it, those behind it, and what is left of the
  -- entries from a key on.
  Located : K → Leaf K → List (Leaf K) → List (K × RowId) → Type ℓ
  Located key found all own =
      (front : List (Leaf K)) × (behind : List (Leaf K)) × (all ≡ front ++ found ∷ behind)
      × (since key found.1 ++ concat behind ≡ since key own)

  module _ (key : K) where
    mutual
      unfolding find_leaf entries leaves Located

      locate :
          (node : Node K) {most fewest height : ℕ} {floor : Floor K} {ceiling : Option K}
          → IsNode most fewest height floor ceiling node
          → Located key (find_leaf key node) (leaves node) (entries node)
      locate (leaf link own) (a_leaf few full asc) = ([], [], refl, append-nil (since key own))
      locate (inner children) (an_inner few full all) = locate_child children all

      locate_child :
          (children : Children K) {most height : ℕ} {floor : Floor K} {ceiling : Option K}
          → AreChildren most height floor ceiling children
          → Located key (find_child key children) (child_leaves children) (child_entries children)
      locate_child (last node) (a_last n) = locate node n
      locate_child (before node k rest) (a_before n lo hi all) = elim (Bool-cases (below key k)) [
        | inl e ↦
            let (front, behind, split, held) = locate node n in
            rw e (
              front,
              behind ++ child_leaves rest,
              ap (λ found. found ++ child_leaves rest) split
                  ∙ append_assoc front (find_leaf key node ∷ behind) (child_leaves rest),
              rw
                  (
                    concat-append behind (child_leaves rest),
                    concat_children rest,
                    since_front key k (entries node) (child_entries rest)
                        (child_entries-Ascends rest all) e,
                  )
                  (sym (
                      append_assoc (since key (find_leaf key node).1) (concat behind)
                        (child_entries rest))
                    ∙ ap (λ own. own ++ child_entries rest) held),
            )
        | inr e ↦
            let (front, behind, split, held) = locate_child rest all in
            rw e (
              leaves node ++ front,
              behind,
              ap (λ found. leaves node ++ found) split
                  ∙ sym (append_assoc (leaves node) front (find_child key rest ∷ behind)),
              held
                  ∙ sym (
                      since_behind key k (entries node) (child_entries rest)
                        (entries-Ascends node n) e),
            )
      ]

  -- range follows the chain of leaves from the leaf of its lower bound.
  pub range_from :
      (lower : K) (upper : Option K) (tree : BPlusTree K) {most fewest height bound : ℕ}
      {floor : Floor K} {ceiling : Option K}
      → IsNode most fewest height floor ceiling tree.root
      → Chain (leaves tree.root)
      → Distinct bound (leaves tree.root)
      → range (some lower) upper tree ≡ rows_between (some lower) upper (entries tree.root)
  unfolding range Located
  range_from lower upper tree n c d =
      let root = tree.root in
      let start = find_leaf lower root in
      let (front, behind, split, held) = locate lower root n in
      ap (walk_leaf upper (from_key lower start.1)) (
        walk_lem upper (leaves root) (length (leaves root)) start behind
          (Chain-suffix front start behind (subst Chain split c))
          (IsHeld-suffix (leaves root) front (start ∷ behind)
            (subst (All (IsHeld (leaves root))) split (Distinct-Held (leaves root) d))).1
          (omega (arith, ap length split, length-append front (start ∷ behind))))
      ∙ walk_leaf-append upper (since lower start.1) (concat behind)
      ∙ ap (λ own. walk_leaf upper own []) held
      ∙ walk_leaf-rows_between upper (since lower (entries root))
          (since-Ascends lower (entries root) (entries-Ascends root n)).1
      ∙ since-rows_between lower upper (entries root) (entries-Ascends root n)

  pub range_all :
      (upper : Option K) (tree : BPlusTree K) {most fewest height bound : ℕ} {floor : Floor K}
      {ceiling : Option K}
      → IsNode most fewest height floor ceiling tree.root
      → Chain (leaves tree.root)
      → Distinct bound (leaves tree.root)
      → range none upper tree ≡ rows_between none upper (entries tree.root)
  unfolding range
  range_all upper tree n c d =
      let root = tree.root in
      let start = first_leaf root in
      let (behind, split) = first_leaf-leaves root in
      ap (walk_leaf upper start.1) (
        walk_lem upper (leaves root) (length (leaves root)) start behind (subst Chain split c)
          (subst (All (IsHeld (leaves root))) split (Distinct-Held (leaves root) d)).1
          (omega (arith, ap length split)))
      ∙ walk_leaf-append upper start.1 (concat behind)
      ∙ ap (λ own. walk_leaf upper own []) (sym (ap concat split) ∙ concat-leaves root)
      ∙ walk_leaf-rows_between upper (entries root) (entries-Ascends root n)
