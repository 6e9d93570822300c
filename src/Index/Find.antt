-- ===== src/Index/Find.antt =====
-- find looks a key up in the entries of the whole tree.
use skibidi_ql.Prelude.{
  ℕ, ◌≡◌, refl, sym, ◌∙◌, Option, none, some, List, [], ◌∷◌, arith, Bool-cases, inl, inr, by_sign,
}
use skibidi_ql.Index.Keys.{Order, below}
use skibidi_ql.Index.Nodes.{
  Node, leaf, inner, Children, last, before, find_leaf, find_child, find_in_leaf,
}
use skibidi_ql.Index.Sorted.{
  Floor, Ascends, end, step, lookup, insert_sorted, find_in_leaf-lookup, lookup_behind,
  lookup_front,
}
use skibidi_ql.Index.Shape.{
  IsNode, a_leaf, an_inner, AreChildren, a_last, a_before, entries, child_entries, entries-Ascends,
  child_entries-Ascends,
}
use skibidi_ql.Storage.RowId.{RowId}

module _ {ℓ} {K : Type ℓ} ⦃o : Order K⦄ where
  mutual
    unfolding find_leaf entries

    find_any :
        (key : K) (node : Node K) {most fewest height : ℕ} {floor : Floor K} {ceiling : Option K}
        → IsNode most fewest height floor ceiling node
        → find_in_leaf key (find_leaf key node).1 ≡ lookup key (entries node)
    find_any key (leaf link own) (a_leaf few full asc) = find_in_leaf-lookup key own asc
    find_any key (inner children) (an_inner few full all) = find_among key children all

    find_among :
        (key : K) (children : Children K) {most height : ℕ} {floor : Floor K} {ceiling : Option K}
        → AreChildren most height floor ceiling children
        → find_in_leaf key (find_child key children).1 ≡ lookup key (child_entries children)
    find_among key (last node) (a_last n) = find_any key node n
    find_among key (before node k rest) (a_before n lo hi all) = elim (Bool-cases (below key k)) [
      | inl e ↦ rw e (
          find_any key node n
          ∙ sym (
              lookup_front key k (entries node) (child_entries rest)
                (child_entries-Ascends rest all) e))
      | inr e ↦ rw e (
          find_among key rest all
          ∙ sym
              (lookup_behind key k (entries node) (child_entries rest) (entries-Ascends node n) e))
    ]

  pub find_leaf-lookup :
      (key : K) (node : Node K) {most fewest height : ℕ} {floor : Floor K} {ceiling : Option K}
      → IsNode most fewest height floor ceiling node
      → find_in_leaf key (find_leaf key node).1 ≡ lookup key (entries node)
  find_leaf-lookup key node n = find_any key node n

  -- What a lookup gives after a placement.
  pub lookup-insert_sorted :
      (key other : K) (row : RowId) (own : List (K × RowId)) {floor : Floor K} {ceiling : Option K}
      → Ascends floor ceiling own
      → lookup key own ≡ none
      → lookup other (insert_sorted key row own)
        ≡ by_sign (o.compare_keys key other) (lookup other own) (some row) (lookup other own)
  unfolding lookup insert_sorted
  lookup-insert_sorted key other row [] end h = refl
  lookup-insert_sorted key other row ((x, r) ∷ own) (step _ _ lo hi more) h = ground (
    arith,
    lookup-insert_sorted key other row own more,
    o.compare_between x other key,
    o.compare_between x key other,
    o.compare_opposite x key,
    o.compare_opposite key other,
    o.compare_opposite x other,
  )
