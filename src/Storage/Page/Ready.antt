-- ===== src/Storage/Page/Ready.antt =====
-- The last writes of insert: a page whose header and row are written gets the entry of the slot.
use skibidi_ql.Prelude.{
  ℕ, suc, ◌+◌, ◌*◌, ◌≤◌, ◌<◌, ◌≡◌, ap, ◌∙◌, sym, ◌≢◌, ◌⊎◌, inl, inr, true, arith, List, length,
}
use skibidi_ql.Storage.Page.Memory.{Bytes, slice, slice_cong}
use skibidi_ql.Storage.Page.{page_size, slot_offset, valid, set_slot}
use skibidi_ql.Storage.Page.Fields.{
  count, start, end, offset, size, live, SameSlot, SameSlot-of, Same, Same-trans, Same-set_slot,
  read16-Same, read32-Same, live-set_slot, size-set_slot, offset-set_slot,
}
use skibidi_ql.Storage.Page.Weights.{
  weight, total, weight-live, weight_dead, weight-SameSlot, total_one, total_first, total_cong,
}
use skibidi_ql.Storage.Page.Invariant.{IsPage}
use skibidi_ql.Storage.Page.Entered.{Entered}

-- A page whose header is ready and whose row is written, before slot `s` is entered.
pub record Ready (p q : Bytes) (s o : ℕ) (row : List ℕ) : Type 0 where
  pub same : (lo hi : ℕ) → (hi ≤ 4) ⊎ (10 ≤ lo) → (hi ≤ o) ⊎ (end p ≤ lo) → Same lo hi p q
  pub at_end : end q ≡ o
  pub has_row : slice q o (length row) ≡ row
  pub header : start q ≡ 16 + count q * 6
  pub ordered : start q ≤ o
  pub slots :
      ((s < count p) × (live p s ≡ 0) × (count q ≡ count p))
      ⊎ ((s ≡ count p) × (count q ≡ suc (count p)))

module _ (p q : Bytes) (s o : ℕ) (row : List ℕ) (w : IsPage p) (at : o + length row ≡ end p)
    (r : Ready p q s o row) where
  unfoldable pub entered : Bytes
  entered = set_slot q s o (length row)

  entered-Same :
      (lo hi : ℕ) → (hi ≤ slot_offset s) ⊎ (slot_offset s + 6 ≤ lo) → Same lo hi q entered
  unfolding entered
  entered-Same lo hi h = Same-set_slot lo hi q s o (length row) h

  header_same : Same 0 16 q entered
  header_same = entered-Same 0 16 (inl (omega arith))

  entered-count : count entered ≡ count q
  entered-count = read16-Same 0 16 q entered 4 header_same (omega arith) (omega arith)

  entered-start : start entered ≡ start q
  entered-start = read16-Same 0 16 q entered 6 header_same (omega arith) (omega arith)

  entered-end : end entered ≡ o
  entered-end = read16-Same 0 16 q entered 8 header_same (omega arith) (omega arith) ∙ r.at_end

  entered-valid : valid entered ≡ true
  entered-valid =
      rw
        (
          read32-Same 16 q entered header_same (omega arith),
          read32-Same 4 p q
              (r.same 0 4 (inl (omega arith)) (inl (omega (arith, r.header, r.ordered))))
              (omega arith),
        )
        w.is_valid

  entered_others : (u : ℕ) → u < count p → u ≢ s → SameSlot p entered u
  entered_others u h ne =
      SameSlot-of (slot_offset u) (slot_offset u + 6) p entered u
        (Same-trans _ _ p q entered
          (r.same _ _ (inr (omega arith)) (inl (omega (arith, r.header, r.ordered, r.slots))))
          (entered-Same _ _ (omega arith)))
        (omega arith) (omega arith)

  pub entered-size : size entered s ≡ length row
  unfolding entered
  entered-size = size-set_slot q s o (length row) (omega (arith, w.room))

  pub entered-live : live entered s ≡ 1
  unfolding entered
  entered-live = live-set_slot q s o (length row)

  entered-offset : offset entered s ≡ o
  unfolding entered
  entered-offset = offset-set_slot q s o (length row) (omega (arith, w.room))

  entered-row : slice entered o (length row) ≡ row
  entered-row =
      slice_cong q entered o (length row) (λ i a b.
        entered-Same o page_size (inr (omega (arith, r.header, r.ordered, r.slots))) i a
          (omega (arith, w.room)))
      ∙ r.has_row

  entered_bytes : Same (end p) page_size p entered
  entered_bytes =
      Same-trans _ _ p q entered
        (r.same _ _ (inr (omega (arith, r.header, r.ordered))) (inr (omega arith)))
        (entered-Same _ _ (inr (omega (arith, r.header, r.ordered, r.slots))))

  entered-weight : weight entered s ≡ length row
  entered-weight = weight-live entered s (λ d. absurd (omega (arith, entered-live))) ∙ entered-size

  entered_weights : total entered 0 (count entered) ≡ total p 0 (count p) + length row
  entered_weights = elim r.slots [
    | inl (h, dead, e) ↦
        rw (entered-count, e)
          (omega (
            arith,
            weight_dead p s dead,
            entered-weight,
            total_one p entered s 0 (count p) (omega arith) (omega arith)
                (λ u a b ne. weight-SameSlot p entered u (entered_others u (omega arith) ne)),
          ))
    | inr (h, e) ↦
        rw (entered-count, e)
          (omega (
            arith,
            total_first entered (count p),
            ap (weight entered) h,
            entered-weight,
            total_cong p entered 0 (count p) (λ u a b.
                weight-SameSlot p entered u (entered_others u (omega arith) (omega arith))),
          ))
  ]

  vacant : s < count p → live p s ≡ 0
  vacant h = elim r.slots [ inl (_, dead, _) ↦ dead | inr (e, _) ↦ absurd (omega arith) ]

  pub Ready-Entered : Entered p entered s row
  Ready-Entered = record {
    is_valid = entered-valid;
    new_end = omega (arith, entered-end);
    header = omega (arith, entered-start, entered-count, r.header);
    ordered = omega (arith, entered-start, entered-end, r.ordered);
    slots = omega (arith, entered-count, r.slots);
    known = omega (arith, entered-count, r.slots);
    rest = λ u h ne. omega (arith, entered-count, r.slots);
    vacant = vacant;
    is_live = entered-live;
    has_size = entered-size;
    at_offset = entered-offset ∙ sym entered-end;
    has_row = rw entered-end entered-row;
    others = entered_others;
    bytes = entered_bytes;
    weights = entered_weights;
  }
