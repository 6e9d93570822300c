-- ===== src/Index/Shape.antt =====
-- The invariant of a tree of an index: separators between the keys on their sides, all leaves at one
-- height, no node above maxKeys_, no leaf but the root below two entries.
use skibidi_ql.Prelude.{ℕ, suc, ◌≤◌, ◌≡◌, true, Option, some, List, ◌++◌, length}
use skibidi_ql.Index.Keys.{Order}
use skibidi_ql.Index.Nodes.{Link, Node, leaf, inner, Children, last, before, count}
use skibidi_ql.Index.Sorted.{Floor, at, under, Ascends}
use skibidi_ql.Index.Cuts.{beyond, join-Ascends}
use skibidi_ql.Storage.RowId.{RowId}

module _ {ℓ} {K : Type ℓ} where
  unfoldable mutual
    pub entries : Node K → List (K × RowId)
    entries (leaf link own) = own
    entries (inner children) = child_entries children

    pub child_entries : Children K → List (K × RowId)
    child_entries (last node) = entries node
    child_entries (before node k rest) = entries node ++ child_entries rest

mutual
  -- A node of a given height with keys between two bounds, its leaves with `fewest` entries or more.
  pub data IsNode {ℓ} {K : Type ℓ} ⦃o : Order K⦄ (most : ℕ)
      : ℕ → ℕ → Floor K → Option K → Node K → Type ℓ where
    a_leaf :
        {fewest : ℕ} {floor : Floor K} {ceiling : Option K} {link : Link} {own : List (K × RowId)}
        → fewest ≤ length own
        → length own ≤ most
        → Ascends floor ceiling own
        → IsNode most fewest 1 floor ceiling (leaf link own)
    an_inner :
        {fewest height : ℕ} {floor : Floor K} {ceiling : Option K} {children : Children K}
        → 1 ≤ count children
        → count children ≤ most
        → AreChildren most height floor ceiling children
        → IsNode most fewest (suc height) floor ceiling (inner children)

  pub data AreChildren {ℓ} {K : Type ℓ} ⦃o : Order K⦄ (most : ℕ)
      : ℕ → Floor K → Option K → Children K → Type ℓ where
    a_last :
        {height : ℕ} {floor : Floor K} {ceiling : Option K} {node : Node K}
        → IsNode most 2 height floor ceiling node
        → AreChildren most height floor ceiling (last node)
    a_before :
        {height : ℕ} {floor : Floor K} {ceiling : Option K} {node : Node K} {k : K}
        {rest : Children K}
        → IsNode most 2 height floor (some k) node
        → beyond floor k ≡ true
        → under k ceiling ≡ true
        → AreChildren most height (at k) ceiling rest
        → AreChildren most height floor ceiling (before node k rest)

module _ {ℓ} {K : Type ℓ} ⦃o : Order K⦄ where
  mutual
    unfolding entries

    entries_ascend :
        (node : Node K) {most fewest height : ℕ} {floor : Floor K} {ceiling : Option K}
        → IsNode most fewest height floor ceiling node
        → Ascends floor ceiling (entries node)
    entries_ascend (leaf link own) (a_leaf few many asc) = asc
    entries_ascend (inner children) (an_inner few many all) = child_entries_ascend children all

    child_entries_ascend :
        (children : Children K) {most height : ℕ} {floor : Floor K} {ceiling : Option K}
        → AreChildren most height floor ceiling children
        → Ascends floor ceiling (child_entries children)
    child_entries_ascend (last node) (a_last n) = entries_ascend node n
    child_entries_ascend (before node k rest) (a_before n lo hi more) =
        join-Ascends k (entries node) (child_entries rest) (entries_ascend node n) hi lo
          (child_entries_ascend rest more)

  pub entries-Ascends :
      (node : Node K) {most fewest height : ℕ} {floor : Floor K} {ceiling : Option K}
      → IsNode most fewest height floor ceiling node
      → Ascends floor ceiling (entries node)
  entries-Ascends node n = entries_ascend node n

  pub child_entries-Ascends :
      (children : Children K) {most height : ℕ} {floor : Floor K} {ceiling : Option K}
      → AreChildren most height floor ceiling children
      → Ascends floor ceiling (child_entries children)
  child_entries-Ascends children n = child_entries_ascend children n
