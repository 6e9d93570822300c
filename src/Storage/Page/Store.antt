-- ===== src/Storage/Page/Store.antt =====
-- The end of insert, where there is room: the row goes below the others, and a slot is entered.
use skibidi_ql.Prelude.{
  ℕ, ◌+◌, ◌*◌, ◌%◌, ◌≤◌, ◌<◌, ◌≡◌, refl, ap, ◌∙◌, ◌⊎◌, inl, inr, arith, Option, none, some, List,
  ok, Outcome, length,
}
use skibidi_ql.Storage.Page.Memory.{
  Bytes, slice, write16, copy, sub16, sub16_lem, read16-write16_self, read16-write16_ne, slice_cong,
  slice-copy-length,
}
use skibidi_ql.Storage.Page.{page_size, free_space, store, write_row, grow, enter_slot}
use skibidi_ql.Storage.Page.Fields.{
  count, start, end, live, Same, Same-trans, Same-write16, Same-copy, read16-Same,
}
use skibidi_ql.Storage.Page.Invariant.{IsPage}
use skibidi_ql.Storage.Page.Ready.{Ready, entered}

store_at : Bytes → Option ℕ → List ℕ → ℕ → Outcome (Option ℕ) × Bytes
unfolding write_row
store_at p r row o = enter_slot (grow (write_row p row o) r) o (length row)

store_at_lem :
    (p : Bytes) (row : List ℕ) (r : Option ℕ) (o : ℕ)
    → sub16 (end p) (length row) ≡ o
    → store p r row ≡ store_at p r row o
unfolding store store_at
store_at_lem p row r o h = rw h refl

-- What the search for a slot to use again may have found.
abbrev pub Reusable : Bytes → Option ℕ → Type 0
Reusable p none = Unit
Reusable p (some s) = (s < count p) × (live p s ≡ 0)

-- The slot that the row gets.
abbrev pub slot_of : Bytes → Option ℕ → ℕ
slot_of p none = count p
slot_of p (some s) = s

pub free_space-IsPage : (p : Bytes) → IsPage p → free_space p + start p ≡ end p
unfolding free_space
free_space-IsPage p w = rw w.is_valid (ground (arith, w.ordered))

module _ (p : Bytes) (row : List ℕ) (o : ℕ) (w : IsPage p) (at : o + length row ≡ end p) where
  -- The page with the bytes of the row and the new start of the row data.
  pub written : Bytes
  unfolding write_row
  written = write_row p row o

  pub new_end-eq : sub16 (end p) (length row) ≡ o
  new_end-eq = sub16_lem (end p) (length row) (omega arith) (omega (arith, w.room)) ∙ omega arith

  top : end p ≤ page_size
  top = omega (arith, w.room)

  written-Same : (lo hi : ℕ) → (hi ≤ 8) ⊎ (10 ≤ lo) → (hi ≤ o) ⊎ (end p ≤ lo) → Same lo hi p written
  unfolding written
  written-Same lo hi h k =
      Same-trans lo hi p (copy p o row) written (Same-copy lo hi p o row (omega arith))
        (Same-write16 lo hi _ 8 o h)

  written-end : end written ≡ o
  unfolding written
  written-end = read16-write16_self _ 8 o (omega (arith, w.room))

  written-row : 10 ≤ o → slice written o (length row) ≡ row
  unfolding written
  written-row h =
      slice_cong (copy p o row) written o (length row)
        (λ i a b. Same-write16 o page_size (copy p o row) 8 o (inr h) i a (omega (arith, top)))
      ∙ slice-copy-length p o row (length row) refl

module _ (p : Bytes) (row : List ℕ) (o : ℕ) (w : IsPage p) (at : o + length row ≡ end p) where
  pub reused-Ready :
      (s : ℕ) → s < count p → live p s ≡ 0 → start p ≤ o → Ready p (written p row o w at) s o row
  reused-Ready s h dead room = record {
    same = λ lo hi h k. written-Same p row o w at lo hi (omega arith) k;
    at_end = written-end p row o w at;
    has_row = written-row p row o w at (omega (arith, w.header));
    header = omega (arith, w.header, start_lem, count_lem);
    ordered = omega (arith, start_lem);
    slots = inl (h, dead, count_lem);
  }
    where
      header_same : Same 0 8 p (written p row o w at)
      header_same =
          written-Same p row o w at 0 8 (inl (omega arith)) (inl (omega (arith, w.header)))

      count_lem : count (written p row o w at) ≡ count p
      count_lem = read16-Same 0 8 p _ 4 header_same (omega arith) (omega arith)

      start_lem : start (written p row o w at) ≡ start p
      start_lem = read16-Same 0 8 p _ 6 header_same (omega arith) (omega arith)

  pub grown : Bytes
  grown = write16 (write16 (written p row o w at) 4 (count p + 1)) 6 (16 + (count p + 1) * 6)

  pub grown-Ready : start p + 6 ≤ o → Ready p grown (count p) o row
  unfolding grown
  grown-Ready room = record {
    same = λ lo hi h k.
        Same-trans lo hi p base grown (written-Same p row o w at lo hi (omega arith) k) (
          Same-trans lo hi base _ grown (Same-write16 lo hi base 4 (count p + 1) (omega arith))
            (Same-write16 lo hi _ 6 (16 + (count p + 1) * 6) (omega arith)));
    at_end =
        read16-Same 8 page_size base grown 8 above_header (omega arith) (omega arith)
        ∙ written-end p row o w at;
    has_row =
        slice_cong base grown o (length row)
          (λ i a b. above_header i (omega (arith, w.header)) (omega (arith, w.room)))
        ∙ written-row p row o w at (omega (arith, w.header));
    header = omega (arith, start_lem, count_lem);
    ordered = omega (arith, start_lem, w.header);
    slots = inr (refl, count_lem ∙ omega arith);
  }
    where
      base : Bytes
      base = written p row o w at

      above_header : Same 8 page_size base grown
      above_header =
          Same-trans 8 page_size base _ grown
            (Same-write16 8 page_size base 4 (count p + 1) (inr (omega arith)))
            (Same-write16 8 page_size _ 6 (16 + (count p + 1) * 6) (inr (omega arith)))

      count_lem : count grown ≡ count p + 1
      count_lem =
          read16-write16_ne _ 6 (16 + (count p + 1) * 6) 4 (inl (omega arith))
          ∙ read16-write16_self base 4 (count p + 1) (omega (arith, w.header, w.room, w.ordered))

      start_lem : start grown ≡ 16 + (count p + 1) * 6
      start_lem =
          read16-write16_self _ 6 (16 + (count p + 1) * 6)
            (omega (arith, w.header, w.room, w.ordered))

  small : (n : ℕ) → n < 65536 → n % 65536 ≡ n
  small n h = omega arith

  grow_lem : start p + 6 ≤ o → grow (written p row o w at) none ≡ (count p, grown)
  unfolding grow grown
  grow_lem room =
      rw
        (
          count_written,
          small (count p + 1) (omega (arith, w.header, w.room)),
          small (16 + (count p + 1) * 6) (omega (arith, w.header, w.room)),
        )
        refl
    where
      count_written : count (written p row o w at) ≡ count p
      count_written =
          read16-Same 0 8 p _ 4
            (written-Same p row o w at 0 8 (inl (omega arith)) (inl (omega (arith, w.header))))
            (omega arith) (omega arith)

  pub store-reused :
      (s : ℕ) (h : s < count p) (dead : live p s ≡ 0) (room : start p ≤ o)
      → store p (some s) row ≡ (ok (some s), entered p _ s o row w at (reused-Ready s h dead room))
  unfolding store entered written
  store-reused s h dead room = rw (new_end-eq p row o w at) refl

  pub store-grown :
      (room : start p + 6 ≤ o)
      → store p none row
        ≡ (ok (some (count p)), entered p _ (count p) o row w at (grown-Ready room))
  unfolding entered written store_at
  store-grown room =
      store_at_lem p row none o (new_end-eq p row o w at)
      ∙ ap (λ g. enter_slot g o (length row)) (grow_lem room)
