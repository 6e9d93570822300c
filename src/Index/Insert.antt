-- ===== src/Index/Insert.antt =====
-- insert keeps the invariant and does to the entries what an insertion into a sorted list does.
use skibidi_ql.Prelude.{
  ℕ, suc, ◌≤◌, ◌≡◌, refl, sym, ap, ◌∙◌, true, not, Option, none, some, List, ◌++◌, arith, Outcome,
  ok, throws, ◌>>=◌, length, Bool-cases, Option-cases, inl, inr,
}
use mathlib.Core.List.{append_assoc}
use skibidi_ql.Index.Keys.{Order, below}
use skibidi_ql.Index.Nodes.{
  Link, Node, leaf, inner, Children, last, before, count, Grown, kept, split, Level, same, wider,
  close_inner, insert_node, insert_child, find_in_leaf, enter, widen_last, widen_before, put_before,
}
use skibidi_ql.Index.Sorted.{
  Floor, least, at, reaches, under, Ascends, lookup, insert_sorted, find_in_leaf-lookup,
  insert_at-lower_bound, length-insert_sorted, insert_sorted-Ascends, place_behind, place_front,
  lookup_behind, lookup_front,
}
use skibidi_ql.Index.Cuts.{beyond, under_below}
use skibidi_ql.Index.Shape.{
  IsNode, a_leaf, an_inner, AreChildren, a_last, a_before, entries, child_entries, entries-Ascends,
  child_entries-Ascends,
}
use skibidi_ql.Index.Split.{
  Fits, fits_kept, fits_split, FitsLevel, fits_same, fits_wider, close_leaf_lem, close_inner_lem,
}
use skibidi_ql.Storage.RowId.{RowId}

module _ {ℓ} {K : Type ℓ} ⦃o : Order K⦄ where
  -- An insertion next to entries: it throws at a key that is there, or gives one row more and what
  -- `Result` says of the entries with the new one.
  pub data Inserted (key : K) (row : RowId) (size : ℕ) (held : List (K × RowId)) {A : Type ℓ}
      (Result : A → List (K × RowId) → Type ℓ) : Outcome (ℕ × A) → Type ℓ where
    new :
        {a : A}
        → lookup key held ≡ none
        → Result a (insert_sorted key row held)
        → Inserted key row size held Result (ok (suc size, a))
    duplicate :
        {r : RowId}
        → lookup key held ≡ some r
        → Inserted key row size held Result (throws "Duplicate B+ tree key")

  module _ (key : K) (row : RowId) (size : ℕ) {A : Type ℓ} {B : Type ℓ}
      {P : A → List (K × RowId) → Type ℓ} {Q : B → List (K × RowId) → Type ℓ} (f : A → B)
      (held wide : List (K × RowId)) where
    -- The code around an insertion.
    around :
        (lookup key wide ≡ lookup key held)
        → ((a : A) → P a (insert_sorted key row held) → Q (f a) (insert_sorted key row wide))
        → (result : Outcome (ℕ × A)) → Inserted key row size held P result
        → Inserted key row size wide Q (result >>= λ found. ok (found.0, f found.1))
    around finds gives _ (new none_there fits) = new (finds ∙ none_there) (gives _ fits)
    around finds gives _ (duplicate there) = duplicate (finds ∙ there)

  module _ (most size : ℕ) (many : 3 ≤ most) (key : K) (row : RowId) where
    enter_lem :
        (fewest : ℕ) (link : Link) {floor : Floor K} {ceiling : Option K} (own : List (K × RowId))
        → fewest ≤ length own
        → length own ≤ most
        → Ascends floor ceiling own
        → reaches floor key ≡ true
        → under key ceiling ≡ true
        → Inserted key row size own
            (Fits most fewest 1 floor ceiling)
            (enter most size key row link own (find_in_leaf key own))
    enter_lem fewest link {floor = floor} {ceiling = ceiling} own few full asc lo hi =
        rw (find_in_leaf-lookup key own asc) (elim (Option-cases (lookup key own)) [
          | inl e ↦
              rw (e, insert_at-lower_bound key row own)
                (new e (
                  close_leaf_lem most fewest (suc size) link (insert_sorted key row own) many
                    (omega (arith, few, length-insert_sorted key row own))
                    (omega (arith, full, length-insert_sorted key row own))
                    (insert_sorted-Ascends key row own asc lo hi e)))
          | inr (r, e) ↦ rw e (duplicate e)
        ])

    widen_last_lem :
        (height : ℕ) {floor : Floor K} {ceiling : Option K} (grown : Grown K)
        (held : List (K × RowId))
        → Fits most 2 height floor ceiling grown held
        → FitsLevel most 0 height floor ceiling (widen_last grown) held
    unfolding count entries
    widen_last_lem height (kept node) held (fits_kept n h) = fits_same refl (a_last n) h
    widen_last_lem height (split node k right) held (fits_split n lo hi r h) =
        fits_wider refl (a_before n lo hi (a_last r)) h

    widen_before_lem :
        (height : ℕ) {floor : Floor K} {ceiling : Option K} (k : K) (rest : Children K)
        (grown : Grown K) (held : List (K × RowId))
        → beyond floor k ≡ true
        → under k ceiling ≡ true
        → AreChildren most height (at k) ceiling rest
        → Fits most 2 height floor (some k) grown held
        → FitsLevel most
            (suc (count rest))
            height
            floor
            ceiling
            (widen_before k rest grown)
            (held ++ child_entries rest)
    unfolding count entries
    widen_before_lem height k rest (kept node) held lo hi more (fits_kept n h) =
        fits_same refl (a_before n lo hi more) (ap (λ own. own ++ child_entries rest) h)
    widen_before_lem height {ceiling = ceiling} k rest (split node s right) held lo hi more
          (fits_split n lo' hi' r h) =
        fits_wider refl (a_before n lo' (under_below s k ceiling hi' hi) (a_before r hi' hi more)) (
          sym (append_assoc (entries node) (entries right) (child_entries rest))
          ∙ ap (λ own. own ++ child_entries rest) h)

    put_before_lem :
        (height keys : ℕ) {floor : Floor K} {ceiling : Option K} (node : Node K) (k : K)
        (level : Level K) (held : List (K × RowId))
        → IsNode most 2 height floor (some k) node
        → beyond floor k ≡ true
        → under k ceiling ≡ true
        → FitsLevel most keys height (at k) ceiling level held
        → FitsLevel most
            (suc keys)
            height
            floor
            ceiling
            (put_before node k level)
            (entries node ++ held)
    unfolding count entries
    put_before_lem height keys node k (same rest) held n lo hi (fits_same counted more h) =
        fits_same (ap suc counted) (a_before n lo hi more) (ap (λ own. entries node ++ own) h)
    put_before_lem height keys node k (wider rest) held n lo hi (fits_wider counted more h) =
        fits_wider (ap suc counted) (a_before n lo hi more) (ap (λ own. entries node ++ own) h)

    mutual
      unfolding insert_node entries count

      insert_any :
          (node : Node K) {fewest height : ℕ} {floor : Floor K} {ceiling : Option K}
          → IsNode most fewest height floor ceiling node
          → reaches floor key ≡ true
          → under key ceiling ≡ true
          → Inserted key row size
              (entries node)
              (Fits most fewest height floor ceiling)
              (insert_node most size key row node)
      insert_any (leaf link own) (a_leaf few full asc) lo hi =
          enter_lem _ link own few full asc lo hi
      insert_any (inner children) (an_inner few full all) lo hi =
          around key row size (close_inner most) (child_entries children) (child_entries children)
            refl (λ level fits. close_inner_lem most _ _ _ level _ many few full fits) _
            (insert_among children all lo hi)

      insert_among :
          (children : Children K) {height : ℕ} {floor : Floor K} {ceiling : Option K}
          → AreChildren most height floor ceiling children
          → reaches floor key ≡ true
          → under key ceiling ≡ true
          → Inserted key row size
              (child_entries children)
              (FitsLevel most (count children) height floor ceiling)
              (insert_child most size key row children)
      insert_among (last node) (a_last n) lo hi =
          around key row size widen_last (entries node) (entries node) refl
            (λ grown fits. widen_last_lem _ grown _ fits) _ (insert_any node n lo hi)
      insert_among (before node k rest) {floor = floor} {ceiling = ceiling}
            (a_before n lo' hi' more) lo hi =
          elim (Bool-cases (below key k)) [
            | inl e ↦ rw e (
                around key row size (widen_before k rest) (entries node)
                  (entries node ++ child_entries rest)
                  (lookup_front key k (entries node) (child_entries rest)
                    (child_entries-Ascends rest more) e)
                  (λ grown fits.
                    rw
                      (place_front key k row (entries node) (child_entries rest)
                        (child_entries-Ascends rest more) e)
                      (widen_before_lem _ k rest grown _ lo' hi' more fits))
                  _ (insert_any node n lo e))
            | inr e ↦ rw e (
                around key row size (put_before node k) (child_entries rest)
                  (entries node ++ child_entries rest)
                  (lookup_behind key k (entries node) (child_entries rest) (entries-Ascends node n)
                    e)
                  (λ level fits.
                    rw
                      (place_behind key k row (entries node) (child_entries rest)
                        (entries-Ascends node n) e)
                      (put_before_lem _ _ node k level _ n lo' hi' fits))
                  _ (insert_among rest more (ap not e) hi))
          ]

  pub insert_node_lem :
      (most size : ℕ)
      → 3 ≤ most
      → (key : K) (row : RowId) (node : Node K) (fewest height : ℕ)
      → IsNode most fewest height least none node
      → Inserted key row size
          (entries node)
          (Fits most fewest height least none)
          (insert_node most size key row node)
  insert_node_lem most size many key row node fewest height n =
      insert_any most size many key row node n refl refl
