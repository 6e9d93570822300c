-- ===== src/Storage/Page/Compact.antt =====
-- compact: the rows of a page move to its end, and what is read stays.
use skibidi_ql.Prelude.{
  ℕ, suc, ◌+◌, ◌-◌, ◌*◌, ◌≤◌, ◌<◌, ◌≡◌, refl, ap, ◌∙◌, sym, ◌≢◌, inl, inr, true, arith, some, ok,
  ℕ-cases,
}
use skibidi_ql.Storage.Page.Memory.{Bytes, write16, read16-write16_self}
use skibidi_ql.Storage.Page.{page_size, slot_offset, valid, free_space, slot_count, compact, read}
use skibidi_ql.Storage.Page.Fields.{
  count, start, end, live, SameSlot, SameSlot-of, SameSlot-trans, Same, Same-trans, Same-write16,
  read16-Same, read32-Same,
}
use skibidi_ql.Storage.Page.Weights.{
  weight, total, weight-live, total_cong, total_mono, total_first, weight-SameSlot,
}
use skibidi_ql.Storage.Page.Invariant.{IsPage, Within, Apart}
use skibidi_ql.Storage.Page.Rows.{row_at, row_at-live, row_at_dead, read-row_at}
use skibidi_ql.Storage.Page.Pack.{
  pack, place_lem, collect_lem, Packed, pack-Packed, pack_dead, pack-Same, Packed-Same,
}

module _ (p : Bytes) (w : IsPage p) where
  -- The length of all the rows, and the page that compact returns.
  pub all_rows : ℕ
  all_rows = total p 0 (count p)

  packed : Bytes
  packed = pack p p 0 (count p) page_size

  pub compacted : Bytes
  unfolding packed all_rows
  compacted = write16 packed 8 (page_size - all_rows)

  slot_count_lem : slot_count p ≡ count p
  unfolding slot_count
  slot_count_lem = rw w.is_valid refl

  fits : slot_offset (count p) + all_rows ≤ page_size
  unfolding all_rows
  fits = omega (arith, w.header, w.ordered, w.room)

  pub compact-eq : compact p ≡ ok compacted
  unfolding compact compacted
  compact-eq =
      rw
        (
          slot_count_lem,
          collect_lem p 0 (count p) w (omega arith),
          place_lem p p 0 (count p) page_size (omega (arith, fits)) (omega arith),
        )
        refl

  -- The loop starts on `p` and writes no header; compact then sets the start of the row data.
  low : Same 0 8 p compacted
  unfolding compacted packed
  low =
      Same-trans 0 8 p packed compacted
        (pack-Same 0 8 p p 0 (count p) page_size (omega (arith, fits)) (inl (omega arith))
          (inl (omega (arith, fits))))
        (Same-write16 0 8 packed 8 (page_size - all_rows) (inl (omega arith)))

  last_write : (lo hi : ℕ) → 10 ≤ lo → Same lo hi packed compacted
  unfolding compacted
  last_write lo hi h = Same-write16 lo hi packed 8 (page_size - all_rows) (inr h)

  pub dead_slot : (s : ℕ) → s < count p → live p s ≡ 0 → SameSlot p compacted s
  unfolding packed
  dead_slot s h dead =
      SameSlot-trans p packed compacted s
        (pack_dead p p 0 (count p) page_size s (omega (arith, fits)) (omega arith) (omega arith)
          dead)
        (SameSlot-of (slot_offset s) (slot_offset s + 6) packed compacted s
          (last_write _ _ (omega arith)) (omega arith) (omega arith))

  up_to : (s : ℕ) → s < count p → total p 0 (suc s) ≤ all_rows
  unfolding all_rows
  up_to s h = total_mono p 0 (suc s) (count p) h

  live_slot :
      (s : ℕ) → s < count p → live p s ≢ 0 → Packed p compacted s (page_size - total p 0 (suc s))
  unfolding packed
  live_slot s h alive =
      Packed-Same p packed compacted s (page_size - total p 0 (suc s)) page_size
        (pack-Packed p p 0 (count p) page_size s s (page_size - total p 0 (suc s))
          (omega (arith, fits)) (omega arith) h (omega arith) alive
          (omega (arith, fits, up_to s h)))
        (SameSlot-of (slot_offset s) (slot_offset s + 6) packed compacted s
          (last_write _ _ (omega arith)) (omega arith) (omega arith))
        (last_write _ _ (omega (arith, fits, up_to s h)))
        (omega (arith, fits, up_to s h, total_first p s, weight-live p s alive))

  same_weight : (s : ℕ) → s < count p → weight compacted s ≡ weight p s
  same_weight s h = elim (ℕ-cases (live p s) 0) [
    | inl dead ↦ weight-SameSlot p compacted s (dead_slot s h dead)
    | inr alive ↦
        let packed_slot = live_slot s h alive in
        weight-live compacted s (λ e. absurd (omega (arith, packed_slot.is_live)))
        ∙ packed_slot.has_size
        ∙ sym (weight-live p s alive)
  ]

  same_row : (s : ℕ) → s < count p → row_at compacted s ≡ row_at p s
  same_row s h = elim (ℕ-cases (live p s) 0) [
    | inl dead ↦
        row_at_dead compacted s ((dead_slot s h dead).same_live ∙ dead) ∙ sym (row_at_dead p s dead)
    | inr alive ↦
        let packed_slot = live_slot s h alive in
        row_at-live compacted s (λ e. absurd (omega (arith, packed_slot.is_live)))
        ∙ ap some (rw (packed_slot.at_offset, packed_slot.has_size) packed_slot.has_row)
        ∙ sym (row_at-live p s alive)
  ]

  pub count-compacted : count compacted ≡ count p
  count-compacted = read16-Same 0 8 p compacted 4 low (omega arith) (omega arith)

  pub start-compacted : start compacted ≡ start p
  start-compacted = read16-Same 0 8 p compacted 6 low (omega arith) (omega arith)

  pub end-compacted : end compacted ≡ page_size - all_rows
  unfolding compacted
  end-compacted = read16-write16_self packed 8 (page_size - all_rows) (omega arith)

  valid-compacted : valid compacted ≡ true
  valid-compacted = rw (read32-Same 8 p compacted low (omega arith)) w.is_valid

  total-compacted : total compacted 0 (count compacted) ≡ all_rows
  unfolding all_rows
  total-compacted =
      rw count-compacted (total_cong p compacted 0 (count p) (λ s a b. same_weight s (omega arith)))

  -- A slot that is live after compact was live before.
  was_live : (s : ℕ) → s < count p → live compacted s ≢ 0 → live p s ≢ 0
  was_live s h alive dead = alive ((dead_slot s h dead).same_live ∙ dead)

  Within-compacted :
      (s : ℕ) → s < count compacted → live compacted s ≢ 0 → Within compacted (end compacted) s
  Within-compacted s h alive =
      let inside : s < count p = omega (arith, count-compacted) in
      let slot = live_slot s inside (was_live s inside alive) in
      record {
        above = omega (arith, slot.at_offset, end-compacted, up_to s inside, fits);
        below = omega (
          arith,
          slot.at_offset,
          slot.has_size,
          weight-live p s (was_live s inside alive),
          total_first p s,
          up_to s inside,
          fits,
        );
      }

  Apart-compacted :
      (s t : ℕ)
      → s < t
      → t < count compacted
      → live compacted s ≢ 0
      → live compacted t ≢ 0
      → Apart compacted s t
  Apart-compacted s t o h live_s live_t =
      let inside : t < count p = omega (arith, count-compacted) in
      let before : s < count p = omega arith in
      let first = live_slot s before (was_live s before live_s) in
      let second = live_slot t inside (was_live t inside live_t) in
      inr (
        omega (
          arith,
          first.at_offset,
          second.at_offset,
          second.has_size,
          total_first p t,
          up_to t inside,
          weight-live p t (was_live t inside live_t),
          total_mono p 0 (suc s) t o,
          fits,
        ))

  pub compacted-IsPage : IsPage compacted
  compacted-IsPage = record {
    is_valid = valid-compacted;
    header = omega (arith, w.header, start-compacted, count-compacted);
    ordered = omega (arith, w.header, start-compacted, end-compacted, fits);
    room = omega (arith, total-compacted, end-compacted, fits);
    within = Within-compacted;
    apart = Apart-compacted;
  }

  pub read-compacted : (s : ℕ) → read compacted s ≡ read p s
  read-compacted s = read-row_at p compacted w compacted-IsPage count-compacted s (same_row s)

  pub free_space-compacted :
      free_space compacted + (16 + count p * 6) + total p 0 (count p) ≡ page_size
  unfolding free_space all_rows
  free_space-compacted =
      rw valid-compacted (ground (arith, start-compacted, end-compacted, w.header, fits))

-- On a well-formed page compact never throws. The page that it leaves is well formed, has the same
-- slots, reads the same at every slot, and its free space is all that its header, its directory and
-- its live rows do not take.
pub compact_keeps_rows :
    (p : Bytes)
    → IsPage p
    → (q : Bytes) × (compact p ≡ ok q)
      × IsPage q
      × (count q ≡ count p)
      × ((s : ℕ) → read q s ≡ read p s)
      × (free_space q + (16 + count p * 6) + total p 0 (count p) ≡ page_size)
compact_keeps_rows p w = (
  compacted p w,
  compact-eq p w,
  compacted-IsPage p w,
  count-compacted p w,
  read-compacted p w,
  free_space-compacted p w,
)
