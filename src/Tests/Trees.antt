-- ===== src/Tests/Trees.antt =====
-- An index over texts with two leaves, made by four insertions.
use skibidi_ql.Prelude.{
  ℕ, ◌≡◌, ◌≤◌, ◌^◌, max, refl, none, some, List, [], ◌∷◌, ok, ◌>>=◌, arith, compare_bytes,
}
use skibidi_ql.Index.{BPlusTree, new_tree, insert, find, range, height, walk, walk_leaf}
use skibidi_ql.Index.Keys.{text_order}
use skibidi_ql.Index.Nodes.{
  leaf, inner, last, before, insert_node, find_leaf, lower_bound, find_in_leaf, close_leaf, count,
  leaves, leaf_at,
}
use skibidi_ql.Index.Sorted.{end, step}
use skibidi_ql.Index.Shape.{a_leaf, an_inner, a_last, a_before, entries}
use skibidi_ql.Index.Follow.{
  chain_end, chain_more, nowhere, elsewhere, distinct_none, distinct_more,
}
use skibidi_ql.Index.Trees.{IsTree, Inserts, insert-Inserts, height_lem}
use skibidi_ql.Storage.RowId.{RowId}

abbrev row : ℕ → RowId
row n = record { page = 0; slot = n }

abbrev two_leaves : BPlusTree (List ℕ)
two_leaves = record {
  max_keys = 3;
  size = 4;
  root = inner (
      before (leaf (0, some 4) (((1 ∷ []), row 0) ∷ ((2 ∷ []), row 1) ∷ [])) (3 ∷ [])
        (last (leaf (4, none) (((3 ∷ []), row 2) ∷ ((4 ∷ []), row 3) ∷ []))));
}

four_inserted :
    (insert (3 ∷ []) (row 2) (new_tree 1)
      >>= insert (1 ∷ []) (row 0)
      >>= insert (4 ∷ []) (row 3)
      >>= insert (2 ∷ []) (row 1))
    ≡ ok two_leaves
unfolding insert new_tree insert_node close_leaf lower_bound find_in_leaf text_order compare_bytes
four_inserted = refl

two_leaves-IsTree : IsTree two_leaves
unfolding entries text_order count compare_bytes leaves
two_leaves-IsTree = record {
  many = omega arith;
  counted = refl;
  levels = 2;
  shaped = an_inner (omega arith) (omega arith) (
      a_before (a_leaf (omega arith) (omega arith) (step _ _ refl refl (step _ _ refl refl end)))
        refl refl
        (a_last
          (a_leaf (omega arith) (omega arith) (step _ _ refl refl (step _ _ refl refl end)))));
  chained = chain_more chain_end;
  distinct =
      distinct_more (omega arith) (elsewhere refl nowhere)
        (distinct_more (omega arith) nowhere distinct_none);
}

insert-Inserts_example : Inserts (3 ∷ []) (row 9) two_leaves (insert (3 ∷ []) (row 9) two_leaves)
insert-Inserts_example = insert-Inserts (3 ∷ []) (row 9) two_leaves two_leaves-IsTree

height_lem_example : 2 ^ height two_leaves ≤ max 2 4
height_lem_example = height_lem two_leaves two_leaves-IsTree

row_found : find (3 ∷ []) two_leaves ≡ some (row 2)
unfolding find find_leaf find_in_leaf lower_bound text_order compare_bytes
row_found = refl

range_found : range (some (2 ∷ [])) none two_leaves ≡ row 1 ∷ row 2 ∷ row 3 ∷ []
unfolding range find_leaf leaves leaf_at lower_bound text_order walk walk_leaf compare_bytes
range_found = refl
