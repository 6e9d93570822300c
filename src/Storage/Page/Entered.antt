-- ===== src/Storage/Page/Entered.antt =====
-- A page that got one row more: what the two branches at the end of insert have in common.
use skibidi_ql.Prelude.{
  ℕ, ◌+◌, ◌*◌, ◌≤◌, ◌<◌, ◌≡◌, ap, ◌∙◌, sym, ◌≢◌, inl, inr, true, arith, some, List, ok, ℕ-cases,
  lt-cases, length,
}
use skibidi_ql.Storage.Page.Memory.{Bytes, slice}
use skibidi_ql.Storage.Page.{page_size, valid, read}
use skibidi_ql.Storage.Page.Fields.{count, start, end, offset, size, live, SameSlot, Same}
use skibidi_ql.Storage.Page.Weights.{total}
use skibidi_ql.Storage.Page.Invariant.{IsPage, Within, Apart}
use skibidi_ql.Storage.Page.Rows.{row_at-Same, read_in, read_beyond, read-live}

pub record Entered (p q : Bytes) (t : ℕ) (row : List ℕ) : Type 0 where
  pub is_valid : valid q ≡ true
  pub new_end : end q + length row ≡ end p
  pub header : start q ≡ 16 + count q * 6
  pub ordered : start q ≤ end q
  pub slots : count p ≤ count q
  pub known : t < count q
  pub rest : (u : ℕ) → u < count q → u ≢ t → u < count p
  pub vacant : t < count p → live p t ≡ 0
  pub is_live : live q t ≡ 1
  pub has_size : size q t ≡ length row
  pub at_offset : offset q t ≡ end q
  pub has_row : slice q (end q) (length row) ≡ row
  pub others : (u : ℕ) → u < count p → u ≢ t → SameSlot p q u
  pub bytes : Same (end p) page_size p q
  pub weights : total q 0 (count q) ≡ total p 0 (count p) + length row

module _ (p q : Bytes) (t : ℕ) (row : List ℕ) (w : IsPage p) (e : Entered p q t row) where
  below_top : end p ≤ page_size
  below_top = omega (arith, w.room)

  -- An old live row stays where it was, above the new one.
  old_row :
      (u : ℕ)
      → u < count q
      → u ≢ t
      → live q u ≢ 0
      → (end p ≤ offset q u) × (offset q u + size q u ≤ page_size)
  old_row u h ne alive =
      let inside = e.rest u h ne in
      let same = e.others u inside ne in
      let old = w.within u inside (λ d. alive (same.same_live ∙ d)) in
      (
        omega (arith, same.same_offset, old.above),
        omega (arith, same.same_offset, same.same_size, old.below),
      )

  within_lem : (u : ℕ) → u < count q → live q u ≢ 0 → Within q (end q) u
  within_lem u h alive = elim (ℕ-cases u t) [
    | inl here ↦ rw here (record {
      above = omega (arith, e.at_offset);
      below = omega (arith, e.at_offset, e.has_size, e.new_end, below_top);
    })
    | inr ne ↦ record {
      above = omega (arith, old_row u h ne alive, e.new_end);
      below = (old_row u h ne alive).1;
    }
  ]

  apart_new : (u : ℕ) → u < count q → u ≢ t → live q u ≢ 0 → offset q t + size q t ≤ offset q u
  apart_new u h ne alive = omega (arith, old_row u h ne alive, e.at_offset, e.has_size, e.new_end)

  apart_lem : (u v : ℕ) → u < v → v < count q → live q u ≢ 0 → live q v ≢ 0 → Apart q u v
  apart_lem u v o h live_u live_v = elim (ℕ-cases u t) [
    | inl here ↦ inl (rw here (apart_new v h (omega arith) live_v))
    | inr ne ↦ elim (ℕ-cases v t) [
      | inl there ↦ inr (rw there (apart_new u (omega arith) ne live_u))
      | inr nv ↦
          let old_u = e.others u (e.rest u (omega arith) ne) ne in
          let old_v = e.others v (e.rest v h nv) nv in
          rw (old_u.same_offset, old_u.same_size, old_v.same_offset, old_v.same_size)
            (w.apart u v o (e.rest v h nv) (λ d. live_u (old_u.same_live ∙ d))
              (λ d. live_v (old_v.same_live ∙ d)))
    ]
  ]

  pub Entered-IsPage : IsPage q
  Entered-IsPage = record {
    is_valid = e.is_valid;
    header = e.header;
    ordered = e.ordered;
    room = omega (arith, e.weights, e.new_end, w.room);
    within = within_lem;
    apart = apart_lem;
  }

  pub read-Entered_self : read q t ≡ ok (some row)
  read-Entered_self =
      read-live q t e.is_valid e.known (λ d. absurd (omega (arith, e.is_live)))
        (omega (arith, e.at_offset, e.has_size, e.new_end, below_top))
      ∙ ap (λ r. ok (some r)) (rw (e.at_offset, e.has_size) e.has_row)

  pub read-Entered_ne : (u : ℕ) → u ≢ t → read q u ≡ read p u
  read-Entered_ne u ne = elim (lt-cases u (count p)) [
    | inl inside ↦
        read_in q u Entered-IsPage (omega (arith, e.slots))
        ∙ ap ok (
            row_at-Same p q u (e.others u inside ne) (λ alive i a b.
              e.bytes i (omega (arith, (w.within u inside alive).above))
                (omega (arith, (w.within u inside alive).below))))
        ∙ sym (read_in p u w inside)
    | inr beyond ↦ read_beyond q u e.is_valid (out beyond) ∙ sym (read_beyond p u w.is_valid beyond)
  ]
    where
      out : count p ≤ u → count q ≤ u
      out beyond = elim (lt-cases u (count q)) [
        | inl h ↦ absurd (omega (arith, e.rest u h ne))
        | inr h ↦ h
      ]
