-- ===== src/Storage/Page/Change.antt =====
-- erase and update, by the rows that read finds before and after.
use skibidi_ql.Prelude.{
  ℕ, suc, ◌+◌, ◌≤◌, ◌<◌, ◌≡◌, refl, ap, ◌∙◌, sym, ◌≢◌, ◌⊎◌, inl, inr, true, false, arith, ◌==◌,
  if◌then◌else◌, none, some, List, ok, ℕ-cases, lt-cases, length, lt→ltb, le→ltb,
}
use skibidi_ql.Storage.Page.Memory.{
  Bytes, slice, copy, write16, read16-write16_self, read16-write16_ne, slice_cong,
  slice-copy-length, length-slice,
}
use skibidi_ql.Storage.Page.{page_size, slot_offset, valid, read, erase, update, missing}
use skibidi_ql.Storage.Page.Fields.{
  count, live, offset, size, Same, Same-trans, Same-write16, Same-copy, SameSlot-of, read16-Same,
}
use skibidi_ql.Storage.Page.Invariant.{IsPage}
use skibidi_ql.Storage.Page.Rows.{read_beyond, read_dead, read-live, read_one}
use skibidi_ql.Storage.Page.Shrink.{Shrunk, Shrunk-IsPage, Shrunk-read, count_lem, valid_lem}

missing_beyond : (p : Bytes) (s : ℕ) → valid p ≡ true → count p ≤ s → missing p s ≡ true
unfolding missing
missing_beyond p s v h = ground arith

missing_dead : (p : Bytes) (s : ℕ) → live p s ≡ 0 → missing p s ≡ true
unfolding missing
missing_dead p s h = ground arith

missing-live :
    (p : Bytes) (s : ℕ) → valid p ≡ true → s < count p → live p s ≢ 0 → missing p s ≡ false
unfolding missing
missing-live p s v h alive = ground arith

-- A slot that reads as a row.
record Stored (p : Bytes) (s : ℕ) : Type 0 where
  inside : s < count p
  alive : live p s ≢ 0
  found : missing p s ≡ false
  reads : read p s ≡ ok (some (slice p (offset p s) (size p s)))

Stored-cases :
    (p : Bytes) (s : ℕ) → IsPage p → ((read p s ≡ ok none) × (missing p s ≡ true)) ⊎ Stored p s
Stored-cases p s w = elim (lt-cases s (count p)) [
  | inr beyond ↦ inl (read_beyond p s w.is_valid beyond, missing_beyond p s w.is_valid beyond)
  | inl inside ↦ elim (ℕ-cases (live p s) 0) [
    | inl dead ↦ inl (read_dead p s dead, missing_dead p s dead)
    | inr alive ↦ inr (record {
      inside = inside;
      alive = alive;
      found = missing-live p s w.is_valid inside alive;
      reads = read-live p s w.is_valid inside alive (w.within s inside alive).below;
    })
  ]
]

module _ (p : Bytes) (s : ℕ) (w : IsPage p) (stored : Stored p s) where
  erased : Bytes
  erased = write16 (write16 p (slot_offset s + 4) 0) (slot_offset s + 2) 0

  erased-Same :
      (lo hi : ℕ) → (hi ≤ slot_offset s + 2) ⊎ (slot_offset s + 6 ≤ lo) → Same lo hi p erased
  unfolding erased
  erased-Same lo hi h =
      Same-trans lo hi p _ erased (Same-write16 lo hi p (slot_offset s + 4) 0 (omega arith))
        (Same-write16 lo hi _ (slot_offset s + 2) 0 (omega arith))

  erased-live : live erased s ≡ 0
  unfolding erased
  erased-live =
      read16-write16_ne _ (slot_offset s + 2) 0 (slot_offset s + 4) (inr (omega arith))
      ∙ read16-write16_self p (slot_offset s + 4) 0 (omega arith)

  erased-size : size erased s ≡ 0
  unfolding erased
  erased-size = read16-write16_self _ (slot_offset s + 2) 0 (omega arith)

  erased-Shrunk : Shrunk p erased s
  erased-Shrunk = record {
    header = erased-Same 0 16 (inl (omega arith));
    others = λ u h ne.
        SameSlot-of (slot_offset u) (slot_offset u + 6) p erased u (erased-Same _ _ (omega arith))
          (omega arith) (omega arith);
    smaller = omega (arith, erased-size);
    kept = λ live_q. absurd (live_q erased-live);
    bytes = λ i a b.
        erased-Same i (suc i) (inr (omega (arith, stored.inside))) i (omega arith) (omega arith);
  }

  module _ (row : List ℕ) (short : length row ≤ size p s) where
    updated : Bytes
    updated = write16 (copy p (offset p s) row) (slot_offset s + 2) (length row)

    low_row : slot_offset (count p) ≤ offset p s
    low_row = omega (arith, (w.within s stored.inside stored.alive).above, w.header, w.ordered)

    high_row : offset p s + size p s ≤ page_size
    high_row = (w.within s stored.inside stored.alive).below

    updated-Same :
        (lo hi : ℕ)
        → (hi ≤ offset p s) ⊎ (offset p s + length row ≤ lo)
        → (hi ≤ slot_offset s + 2) ⊎ (slot_offset s + 4 ≤ lo)
        → Same lo hi p updated
    unfolding updated
    updated-Same lo hi h k =
        Same-trans lo hi p (copy p (offset p s) row) updated (Same-copy lo hi p (offset p s) row h)
          (Same-write16 lo hi _ (slot_offset s + 2) (length row) (omega arith))

    updated-size : size updated s ≡ length row
    unfolding updated
    updated-size = read16-write16_self _ (slot_offset s + 2) (length row) (omega (arith, high_row))

    updated-offset : offset updated s ≡ offset p s
    updated-offset =
        read16-Same (slot_offset s) (slot_offset s + 2) p updated (slot_offset s)
          (updated-Same _ _ (inl (omega (arith, low_row, stored.inside))) (inl (omega arith)))
          (omega arith) (omega arith)

    updated-live : live updated s ≡ live p s
    updated-live =
        read16-Same (slot_offset s + 4) (slot_offset s + 6) p updated (slot_offset s + 4)
          (updated-Same _ _ (inl (omega (arith, low_row, stored.inside))) (inr (omega arith)))
          (omega arith) (omega arith)

    updated-Shrunk : Shrunk p updated s
    updated-Shrunk = record {
      header = updated-Same 0 16 (inl (omega (arith, low_row))) (inl (omega arith));
      others = λ u h ne.
          SameSlot-of (slot_offset u) (slot_offset u + 6) p updated u
            (updated-Same _ _ (inl (omega (arith, low_row))) (omega arith)) (omega arith)
            (omega arith);
      smaller = omega (arith, updated-size);
      kept = λ live_q. updated-offset;
      bytes = λ i a b.
          updated-Same i (suc i) (omega arith) (inr (omega (arith, stored.inside))) i (omega arith)
            (omega arith);
    }

    updated-row : slice updated (offset p s) (length row) ≡ row
    unfolding updated
    updated-row =
        slice_cong (copy p (offset p s) row) updated (offset p s) (length row) (λ i a b.
          Same-write16 (offset p s) page_size _ (slot_offset s + 2) (length row)
            (inr (omega (arith, low_row, stored.inside))) i a (omega (arith, high_row)))
        ∙ slice-copy-length p (offset p s) row (length row) refl

    read-updated : read updated s ≡ ok (some row)
    read-updated =
        read-live updated s (valid_lem p updated s w stored.inside stored.alive updated-Shrunk)
          (omega (
            arith,
            count_lem p updated s w stored.inside stored.alive updated-Shrunk,
            stored.inside,
          ))
          (λ d. stored.alive (sym updated-live ∙ d))
          (omega (arith, updated-offset, updated-size, high_row))
        ∙ ap (λ r. ok (some r)) (rw (updated-offset, updated-size) updated-row)

    update-eq : update p s row ≡ (true, updated)
    unfolding update updated
    update-eq = rw (stored.found, le→ltb (size p s) (length row) short) refl

  erase-eq : erase p s ≡ (true, erased)
  unfolding erase erased
  erase-eq = rw stored.found refl

  update_long : (row : List ℕ) → size p s < length row → update p s row ≡ (false, p)
  unfolding update
  update_long row h = rw (stored.found, lt→ltb (size p s) (length row) h) refl

erase-missing : (p : Bytes) (s : ℕ) → missing p s ≡ true → erase p s ≡ (false, p)
unfolding erase
erase-missing p s h = rw h refl

update-missing :
    (p : Bytes) (s : ℕ) (row : List ℕ) → missing p s ≡ true → update p s row ≡ (false, p)
unfolding update
update-missing p s row h = rw h refl

-- On a well-formed page erase answers no exactly at a slot that reads as nothing, and then leaves
-- the page as it was. Otherwise the slot held a row and reads as nothing afterwards, every other
-- slot reads as before, and the page is well formed.
pub erase_lem :
    (p : Bytes) (s : ℕ)
    → IsPage p
    → ((read p s ≡ ok none) × (erase p s ≡ (false, p)))
      ⊎ ((row : List ℕ) × (q : Bytes) × (read p s ≡ ok (some row))
          × (erase p s ≡ (true, q))
          × IsPage q
          × ((u : ℕ) → read q u ≡ (if u == s then ok none else read p u)))
erase_lem p s w = elim (Stored-cases p s w) [
  | inl (none_read, gone) ↦ inl (none_read, erase-missing p s gone)
  | inr stored ↦
      let shrunk = erased-Shrunk p s w stored in
      inr (
        slice p (offset p s) (size p s),
        erased p s w stored,
        stored.reads,
        erase-eq p s w stored,
        Shrunk-IsPage p _ s w stored.inside stored.alive shrunk,
        read_one p _ s (ok none) (read_dead _ s (erased-live p s w stored))
            (Shrunk-read p _ s w stored.inside stored.alive shrunk),
      )
]

-- On a well-formed page update succeeds exactly where a row no shorter than the new one is stored:
-- then the slot reads as the new row, every other slot reads as before, and the page is well formed.
-- Otherwise the slot reads as nothing or as a shorter row, and the page is left as it was.
pub update_lem :
    (p : Bytes) (s : ℕ) (row : List ℕ)
    → IsPage p
    → (((read p s ≡ ok none)
          ⊎ ((old : List ℕ) × (read p s ≡ ok (some old)) × (length old < length row)))
        × (update p s row ≡ (false, p)))
      ⊎ ((old : List ℕ) × (q : Bytes) × (read p s ≡ ok (some old))
          × (length row ≤ length old)
          × (update p s row ≡ (true, q))
          × IsPage q
          × ((u : ℕ) → read q u ≡ (if u == s then ok (some row) else read p u)))
update_lem p s row w = elim (Stored-cases p s w) [
  | inl (none_read, gone) ↦ inl (inl none_read, update-missing p s row gone)
  | inr stored ↦
      let same_length = length-slice p (offset p s) (size p s) in
      elim (lt-cases (size p s) (length row)) [
        | inl long ↦ inl (
          inr (slice p (offset p s) (size p s), stored.reads, omega (arith, same_length)),
          update_long p s w stored row long,
        )
        | inr short ↦
            let shrunk = updated-Shrunk p s w stored row short in
            inr (
              slice p (offset p s) (size p s),
              updated p s w stored row short,
              stored.reads,
              omega (arith, same_length),
              update-eq p s w stored row short,
              Shrunk-IsPage p _ s w stored.inside stored.alive shrunk,
              read_one p _ s (ok (some row)) (read-updated p s w stored row short)
                  (Shrunk-read p _ s w stored.inside stored.alive shrunk),
            )
      ]
]
