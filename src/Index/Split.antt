-- ===== src/Index/Split.antt =====
-- What a node is after an insertion: closed as it is, or split in two.
use skibidi_ql.Prelude.{
  ℕ, zero, suc, ◌+◌, ◌/◌, ◌≤◌, ◌<◌, ◌≡◌, refl, sym, ap, ◌∙◌, subst, true, Option, some, List, [],
  ◌∷◌, ◌++◌, arith, leb, length, take, drop, take-drop, length-take, length-drop, Bool-cases, inl,
  inr,
}
use mathlib.Core.List.{append_assoc}
use skibidi_ql.Index.Keys.{Order}
use skibidi_ql.Index.Nodes.{
  Link, Node, Children, last, before, count, Grown, kept, split, Level, same, wider, close_leaf,
  close_inner, split_at, take_children, drop_children, split_children,
}
use skibidi_ql.Index.Sorted.{Floor, at, under, Ascends}
use skibidi_ql.Index.Cuts.{beyond, beyond_trans, beyond-Ascends, append-Ascends, under-Ascends}
use skibidi_ql.Index.Shape.{
  IsNode, a_leaf, an_inner, AreChildren, a_last, a_before, entries, child_entries,
}
use skibidi_ql.Storage.RowId.{RowId}

module _ {ℓ} {K : Type ℓ} ⦃o : Order K⦄ where
  -- The nodes in place of one, with the entries that they hold.
  pub data Fits (most fewest height : ℕ) (floor : Floor K) (ceiling : Option K)
      : Grown K → List (K × RowId) → Type ℓ where
    fits_kept :
        {node : Node K} {held : List (K × RowId)}
        → IsNode most fewest height floor ceiling node
        → entries node ≡ held
        → Fits most fewest height floor ceiling (kept node) held
    fits_split :
        {node right : Node K} {k : K} {held : List (K × RowId)}
        → IsNode most 2 height floor (some k) node
        → beyond floor k ≡ true
        → under k ceiling ≡ true
        → IsNode most 2 height (at k) ceiling right
        → entries node ++ entries right ≡ held
        → Fits most fewest height floor ceiling (split node k right) held

  -- The children in place of others with `keys` keys.
  pub data FitsLevel (most keys height : ℕ) (floor : Floor K) (ceiling : Option K)
      : Level K → List (K × RowId) → Type ℓ where
    fits_same :
        {children : Children K} {held : List (K × RowId)}
        → count children ≡ keys
        → AreChildren most height floor ceiling children
        → child_entries children ≡ held
        → FitsLevel most keys height floor ceiling (same children) held
    fits_wider :
        {children : Children K} {held : List (K × RowId)}
        → count children ≡ suc keys
        → AreChildren most height floor ceiling children
        → child_entries children ≡ held
        → FitsLevel most keys height floor ceiling (wider children) held

  split_at_lem :
      (most fewest fresh : ℕ) (link : Link) {floor : Floor K} {ceiling : Option K}
      (left right : List (K × RowId))
      → 2 ≤ length left
      → length left ≤ most
      → 2 ≤ length right
      → length right ≤ most
      → Ascends floor ceiling (left ++ right)
      → Fits most fewest 1 floor ceiling (split_at link fresh left right) (left ++ right)
  unfolding entries
  split_at_lem most fewest fresh link left [] a b c d asc = absurd (omega (arith, c))
  split_at_lem most fewest fresh link [] right a b c d asc = absurd (omega (arith, a))
  split_at_lem most fewest fresh link ((x, r) ∷ left) ((k, row) ∷ right) a b c d asc =
      let parts = append-Ascends k row ((x, r) ∷ left) right asc in
      fits_split (a_leaf a b parts.0) (beyond-Ascends k x r left parts.0)
        (under-Ascends k row right parts.1) (a_leaf c d parts.1) refl

  pub close_leaf_lem :
      (most fewest fresh : ℕ) (link : Link) {floor : Floor K} {ceiling : Option K}
      (own : List (K × RowId))
      → 3 ≤ most
      → fewest ≤ length own
      → length own ≤ suc most
      → Ascends floor ceiling own
      → Fits most fewest 1 floor ceiling (close_leaf most link fresh own) own
  unfolding close_leaf entries
  close_leaf_lem most fewest fresh link {floor = floor} {ceiling = ceiling} own many few full asc =
      elim (Bool-cases (leb (length own) most)) [
        | inl e ↦ rw e (fits_kept (a_leaf few (ground (arith, e)) asc) refl)
        | inr e ↦ rw e (
            subst
              (λ (held : List (K × RowId)).
                Fits most fewest 1 floor ceiling
                  (split_at link fresh (take (length own / 2) own) (drop (length own / 2) own))
                  held)
              (take-drop (length own / 2) own)
              (split_at_lem most fewest fresh link (take (length own / 2) own)
                (drop (length own / 2) own) (ground (arith, length-take (length own / 2) own, e))
                (ground (arith, length-take (length own / 2) own, e))
                (ground (arith, length-drop (length own / 2) own, e))
                (ground (arith, length-drop (length own / 2) own, e))
                (subst (λ (held : List (K × RowId)). Ascends floor ceiling held)
                  (sym (take-drop (length own / 2) own)) asc)))
      ]

  -- Children cut behind `n` of their keys: what is before the next key, and what is behind it.
  data Halves (most height : ℕ) (floor : Floor K) (ceiling : Option K) (n : ℕ)
      (children left : Children K) : Children K → Type ℓ where
    halves :
        {node : Node K} {k : K} {right : Children K}
        → AreChildren most height floor (some k) left
        → beyond floor k ≡ true
        → under k ceiling ≡ true
        → AreChildren most height (at k) ceiling right
        → count left ≡ n
        → count children ≡ suc (n + count right)
        → child_entries left ++ child_entries right ≡ child_entries children
        → Halves most height floor ceiling n children left (before node k right)

  cut_before :
      (n : ℕ) (node : Node K) (k : K) (rest left right : Children K) {most height : ℕ}
      {floor : Floor K} {ceiling : Option K}
      → IsNode most 2 height floor (some k) node
      → beyond floor k ≡ true
      → Halves most height (at k) ceiling n rest left right
      → Halves most height floor ceiling (suc n) (before node k rest) (before node k left) right
  unfolding count entries
  cut_before n node k rest left (before node' k' right) {floor = floor} first lo
        (halves below_k beyond_k under_k from_k counted sum held) =
      halves (a_before first lo beyond_k below_k) (beyond_trans floor k k' lo beyond_k) under_k
        from_k (ap suc counted) (omega (arith, sum))
        (append_assoc (entries node) (child_entries left) (child_entries right)
          ∙ ap (λ more. entries node ++ more) held)
  cut_before n node k rest left (last node') first lo h = elim h [ ]

  cut :
      (n : ℕ) (children : Children K) {most height : ℕ} {floor : Floor K} {ceiling : Option K}
      → n < count children
      → AreChildren most height floor ceiling children
      → Halves most height floor ceiling n children
          (take_children n children)
          (drop_children n children)
  unfolding count take_children drop_children entries
  cut n (last node) h all = absurd (omega (arith, h))
  cut zero (before node k rest) h (a_before first lo hi more) =
      halves (a_last first) lo hi more refl (omega arith) refl
  cut (suc n) (before node k rest) h (a_before first lo hi more) =
      cut_before n node k rest _ _ first lo (cut n rest (omega (arith, h)) more)

  from_Halves :
      (most fewest height n : ℕ) {floor : Floor K} {ceiling : Option K}
      (children left right : Children K)
      → 1 ≤ n
      → suc n < count children
      → count children ≤ suc most
      → Halves most height floor ceiling n children left right
      → Fits most fewest
          (suc height)
          floor
          ceiling
          (split_children left right)
          (child_entries children)
  unfolding count entries
  from_Halves most fewest height n children left (before node k right) a b c
        (halves below_k beyond_k under_k from_k counted sum held) =
      fits_split (an_inner (omega (arith, a, counted)) (omega (arith, b, c, counted)) below_k)
        beyond_k under_k (an_inner (omega (arith, b, sum)) (omega (arith, c, sum)) from_k) held
  from_Halves most fewest height n children left (last node) a b c h = elim h [ ]

  pub close_inner_lem :
      (most fewest keys height : ℕ) {floor : Floor K} {ceiling : Option K} (level : Level K)
      (held : List (K × RowId))
      → 3 ≤ most
      → 1 ≤ keys
      → keys ≤ most
      → FitsLevel most keys height floor ceiling level held
      → Fits most fewest (suc height) floor ceiling (close_inner most level) held
  unfolding close_inner entries
  close_inner_lem most fewest keys height (same children) held many few full
        (fits_same counted all held_is) =
      fits_kept (an_inner (omega (arith, counted, few)) (omega (arith, counted, full)) all) held_is
  close_inner_lem most fewest keys height {floor = floor} {ceiling = ceiling} (wider children) held
        many few full (fits_wider counted all held_is) =
      elim (Bool-cases (leb (count children) most)) [
        | inl e ↦
            rw e
              (fits_kept (an_inner (omega (arith, counted, few)) (ground (arith, e)) all) held_is)
        | inr e ↦ rw e (
            subst
              (λ (held' : List (K × RowId)).
                Fits most fewest (suc height) floor ceiling
                  (split_children (take_children (count children / 2) children)
                    (drop_children (count children / 2) children))
                  held')
              held_is
              (from_Halves most fewest height (count children / 2) children _ _ (ground (arith, e))
                (ground (arith, e)) (ground (arith, counted, full))
                (cut (count children / 2) children (ground (arith, e)) all)))
      ]
