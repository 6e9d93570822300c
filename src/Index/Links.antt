-- ===== src/Index/Links.antt =====
-- What insert of src/native_index.cpp does to the `next` pointers of the leaves.
use skibidi_ql.Prelude.{
  ℕ, zero, suc, ◌/◌, ◌<◌, ◌≡◌, refl, sym, ap, ◌∙◌, Option, none, some, List, [], ◌∷◌, ◌++◌, arith,
  String, leb, length, take, drop, Outcome, ok, throws, ◌>>=◌, Bool-cases, inl, inr,
}
use mathlib.Core.List.{append_assoc}
use skibidi_ql.Index.Keys.{Order, below}
use skibidi_ql.Index.Nodes.{
  Link, Leaf, Node, leaf, inner, Children, last, before, count, Grown, kept, split, Level, same,
  wider, close_leaf, close_inner, split_at, split_children, take_children, drop_children,
  insert_node, insert_child, find_in_leaf, enter, widen_last, widen_before, put_before, leaves,
  child_leaves,
}
use skibidi_ql.Storage.RowId.{RowId}

-- Leaves from left to right before and after an insertion: one of them has other entries, or has become
-- two, of which the right one is numbered `fresh` and stands between the left one and its `next`.
pub data Relinked {ℓ} {K : Type ℓ} (fresh : ℕ) : List (Leaf K) → List (Leaf K) → Type ℓ where
  filled :
      {id : ℕ} {next : Option ℕ} {own held : List (K × RowId)} {more : List (Leaf K)}
      → Relinked fresh (((id, next), own) ∷ more) (((id, next), held) ∷ more)
  parted :
      {id : ℕ} {next : Option ℕ} {own left right : List (K × RowId)} {more : List (Leaf K)}
      → Relinked fresh
          (((id, next), own) ∷ more)
          (((id, some fresh), left) ∷ ((fresh, next), right) ∷ more)
  later :
      {first : Leaf K} {old new : List (Leaf K)}
      → Relinked fresh old new
      → Relinked fresh (first ∷ old) (first ∷ new)

module _ {ℓ} {K : Type ℓ} where
  relinked_front :
      {fresh : ℕ} (old new more : List (Leaf K))
      → Relinked fresh old new
      → Relinked fresh (old ++ more) (new ++ more)
  relinked_front _ _ more filled = filled
  relinked_front _ _ more parted = parted
  relinked_front _ _ more (later {old = old} {new = new} r) = later (relinked_front old new more r)

  relinked_behind :
      {fresh : ℕ} (front old new : List (Leaf K))
      → Relinked fresh old new
      → Relinked fresh (front ++ old) (front ++ new)
  relinked_behind [] old new r = r
  relinked_behind (x ∷ front) old new r = later (relinked_behind front old new r)

  abbrev pub grown_leaves : Grown K → List (Leaf K)
  grown_leaves (kept node) = leaves node
  grown_leaves (split node k right) = leaves node ++ leaves right

  abbrev level_leaves : Level K → List (Leaf K)
  level_leaves (same children) = child_leaves children
  level_leaves (wider children) = child_leaves children

  split_at-Relinked :
      (link : Link) (fresh : ℕ) (own left right : List (K × RowId))
      → Relinked fresh ((link, own) ∷ []) (grown_leaves (split_at link fresh left right))
  unfolding leaves
  split_at-Relinked link fresh own left [] = filled
  split_at-Relinked link fresh own left (entry ∷ right) = parted

  close_leaf-Relinked :
      (most : ℕ) (link : Link) (fresh : ℕ) (own held : List (K × RowId))
      → Relinked fresh ((link, own) ∷ []) (grown_leaves (close_leaf most link fresh held))
  unfolding close_leaf leaves
  close_leaf-Relinked most link fresh own held = elim (Bool-cases (leb (length held) most)) [
    | inl e ↦ rw e filled
    | inr e ↦ rw e (
        split_at-Relinked link fresh own (take (length held / 2) held)
          (drop (length held / 2) held))
  ]

  leaves-split_before :
      (node : Node K) (k : K) (left right : Children K)
      → grown_leaves (split_children (before node k left) right)
        ≡ leaves node ++ grown_leaves (split_children left right)
  unfolding leaves
  leaves-split_before node k left (last right) = refl
  leaves-split_before node k left (before cut k' right) =
      append_assoc (leaves node) (child_leaves left) (child_leaves right)

  leaves-split_children :
      (n : ℕ) (children : Children K)
      → n < count children
      → grown_leaves (split_children (take_children n children) (drop_children n children))
        ≡ child_leaves children
  unfolding take_children drop_children count leaves
  leaves-split_children n (last node) h = absurd (omega (arith, h))
  leaves-split_children zero (before node k rest) h = refl
  leaves-split_children (suc n) (before node k rest) h =
      leaves-split_before node k (take_children n rest) (drop_children n rest)
      ∙ ap (λ more. leaves node ++ more) (leaves-split_children n rest (omega (arith, h)))

  leaves-close_inner :
      (most : ℕ) (level : Level K) → grown_leaves (close_inner most level) ≡ level_leaves level
  unfolding close_inner leaves
  leaves-close_inner most (same children) = refl
  leaves-close_inner most (wider children) = elim (Bool-cases (leb (count children) most)) [
    | inl e ↦ rw e refl
    | inr e ↦ rw e (leaves-split_children (count children / 2) children (ground (arith, e)))
  ]

  leaves-widen_last : (grown : Grown K) → level_leaves (widen_last grown) ≡ grown_leaves grown
  unfolding leaves
  leaves-widen_last (kept node) = refl
  leaves-widen_last (split node k right) = refl

  leaves-widen_before :
      (k : K) (rest : Children K) (grown : Grown K)
      → level_leaves (widen_before k rest grown) ≡ grown_leaves grown ++ child_leaves rest
  unfolding leaves
  leaves-widen_before k rest (kept node) = refl
  leaves-widen_before k rest (split node s right) =
      sym (append_assoc (leaves node) (leaves right) (child_leaves rest))

  leaves-put_before :
      (node : Node K) (k : K) (level : Level K)
      → level_leaves (put_before node k level) ≡ leaves node ++ level_leaves level
  unfolding leaves
  leaves-put_before node k (same rest) = refl
  leaves-put_before node k (wider rest) = refl

  -- An insertion throws, or changes one leaf in the chain.
  pub data Relinks (size : ℕ) (old : List (Leaf K)) {A : Type ℓ} (of : A → List (Leaf K))
      : Outcome (ℕ × A) → Type ℓ where
    relinks :
        {total : ℕ} {a : A} → Relinked (suc size) old (of a) → Relinks size old of (ok (total, a))
    throwing : {message : String} → Relinks size old of (throws message)

  module _ (size : ℕ) {old wide : List (Leaf K)} {A : Type ℓ} {B : Type ℓ} (P : A → List (Leaf K))
      (Q : B → List (Leaf K)) (f : A → B) where
    -- The code around an insertion.
    Relinks-around :
        ((a : A) → Relinked (suc size) old (P a) → Relinked (suc size) wide (Q (f a)))
        → (result : Outcome (ℕ × A)) → Relinks size old P result
        → Relinks size wide Q (result >>= λ found. ok (found.0, f found.1))
    Relinks-around gives _ (relinks r) = relinks (gives _ r)
    Relinks-around gives _ throwing = throwing

module _ {ℓ} {K : Type ℓ} ⦃o : Order K⦄ where
  module _ (most size : ℕ) (key : K) (row : RowId) where
    enter-Relinks :
        (link : Link) (own : List (K × RowId)) (found : Option RowId)
        → Relinks size ((link, own) ∷ []) grown_leaves (enter most size key row link own found)
    enter-Relinks link own (some present) = throwing
    enter-Relinks link own none = relinks (close_leaf-Relinked most link (suc size) own _)

    mutual
      unfolding insert_node leaves

      insert_node-Relinks :
          (node : Node K)
          → Relinks size (leaves node) grown_leaves (insert_node most size key row node)
      insert_node-Relinks (leaf link own) = enter-Relinks link own (find_in_leaf key own)
      insert_node-Relinks (inner children) =
          Relinks-around size level_leaves grown_leaves (close_inner most)
            (λ level r. rw (leaves-close_inner most level) r) _ (insert_child-Relinks children)

      insert_child-Relinks :
          (children : Children K)
          → Relinks size
              (child_leaves children)
              level_leaves
              (insert_child most size key row children)
      insert_child-Relinks (last node) =
          Relinks-around size grown_leaves level_leaves widen_last
            (λ grown r. rw (leaves-widen_last grown) r) _ (insert_node-Relinks node)
      insert_child-Relinks (before node k rest) = elim (Bool-cases (below key k)) [
        | inl e ↦ rw e (
            Relinks-around size grown_leaves level_leaves (widen_before k rest)
              (λ grown r.
                rw (leaves-widen_before k rest grown)
                  (relinked_front (leaves node) (grown_leaves grown) (child_leaves rest) r))
              _ (insert_node-Relinks node))
        | inr e ↦ rw e (
            Relinks-around size level_leaves level_leaves (put_before node k)
              (λ level r.
                rw (leaves-put_before node k level)
                  (relinked_behind (leaves node) (child_leaves rest) (level_leaves level) r))
              _ (insert_child-Relinks rest))
      ]

  pub insert_node-Relinked :
      (most size : ℕ) (key : K) (row : RowId) (node : Node K)
      → Relinks size (leaves node) grown_leaves (insert_node most size key row node)
  insert_node-Relinked most size key row node = insert_node-Relinks most size key row node
