-- ===== src/Storage/Page/Pack.antt =====
-- The two loops of compact: the rows of a page are read, and then packed at its end.
use skibidi_ql.Prelude.{
  ℕ, zero, suc, ◌+◌, ◌-◌, ◌≤◌, ◌<◌, ◌≡◌, refl, ◌∙◌, subst, sym, ◌≢◌, ◌⊎◌, inl, inr, arith, ◌==◌,
  if◌then◌else◌, List, [], ◌∷◌, ok, ℕ-cases, length,
}
use skibidi_ql.Storage.Page.Memory.{
  Bytes, slice, slice_cong, copy, slice-copy-length, length-slice, sub16_lem,
}
use skibidi_ql.Storage.Page.{page_size, slot_offset, set_slot, collect, push_row, place}
use skibidi_ql.Storage.Page.Fields.{
  count, offset, size, live, SameSlot, SameSlot-of, SameSlot-trans, Same, Same-trans, Same-copy,
  Same-set_slot, live-set_slot, size-set_slot, offset-set_slot,
}
use skibidi_ql.Storage.Page.Weights.{weight, total, weight_dead, weight-live}
use skibidi_ql.Storage.Page.Invariant.{IsPage}
use skibidi_ql.Storage.Page.Rows.{row_at, row_at-live, row_at_dead, read_in}

-- The rows that the first loop finds.
pub live_rows : Bytes → ℕ → ℕ → List (ℕ × List ℕ)
live_rows p s zero = []
live_rows p s (suc n) = push_row s (row_at p s) (live_rows p (suc s) n)

pub collect_lem :
    (p : Bytes) (s n : ℕ) → IsPage p → s + n ≤ count p → collect p s n ≡ ok (live_rows p s n)
unfolding collect live_rows
collect_lem p s zero v h = refl
collect_lem p s (suc n) v h =
    rw (read_in p s v (omega arith), collect_lem p (suc s) n v (omega arith)) refl

-- One round of the second loop: the row of slot `s` of `p` goes to `o` in `q`.
put : Bytes → Bytes → ℕ → ℕ → Bytes
put p q s o = set_slot (copy q o (slice p (offset p s) (size p s))) s o (size p s)

put_live : Bytes → Bytes → ℕ → ℕ → Bytes
unfolding put
put_live p q s o = if live p s == 0 then q else put p q s o

-- The second loop, with the rows read from the page that it started on.
pub pack : Bytes → Bytes → ℕ → ℕ → ℕ → Bytes
pack p q s zero e = q
pack p q s (suc n) e = pack p (put_live p q s (e - weight p s)) (suc s) n (e - weight p s)

put_live_dead : (p q : Bytes) (s o : ℕ) → live p s ≡ 0 → put_live p q s o ≡ q
unfolding put_live
put_live_dead p q s o h = ground arith

put_live-live : (p q : Bytes) (s o : ℕ) → live p s ≢ 0 → put_live p q s o ≡ put p q s o
unfolding put_live
put_live-live p q s o h = ground arith

place_dead :
    (p q : Bytes) (s n e : ℕ)
    → live p s ≡ 0
    → place q (live_rows p s (suc n)) e ≡ place q (live_rows p (suc s) n) e
unfolding live_rows
place_dead p q s n e h = rw (row_at_dead p s h) refl

place_cons :
    (q : Bytes) (s : ℕ) (row : List ℕ) (rows : List (ℕ × List ℕ)) (e m : ℕ)
    → length row ≡ m
    → m ≤ e
    → e ≤ page_size
    → place q ((s, row) ∷ rows) e ≡ place (set_slot (copy q (e - m) row) s (e - m) m) rows (e - m)
unfolding place
place_cons q s row rows e m h fits low = rw (h, sub16_lem e m fits (omega arith)) refl

place-live :
    (p q : Bytes) (s n e : ℕ)
    → live p s ≢ 0
    → size p s ≤ e
    → e ≤ page_size
    → place q (live_rows p s (suc n)) e
      ≡ place (put p q s (e - size p s)) (live_rows p (suc s) n) (e - size p s)
unfolding live_rows put
place-live p q s n e h fits low = rw (row_at-live p s h) (
    place_cons q s (slice p (offset p s) (size p s)) (live_rows p (suc s) n) e (size p s)
      (length-slice p (offset p s) (size p s)) fits low)

place_nil : (p q : Bytes) (s e : ℕ) → place q (live_rows p s 0) e ≡ (q, e)
unfolding place live_rows
place_nil p q s e = refl

pub place_lem :
    (p q : Bytes) (s n e : ℕ)
    → total p s n ≤ e
    → e ≤ page_size
    → place q (live_rows p s n) e ≡ (pack p q s n e, e - total p s n)
unfolding pack total
place_lem p q s zero e h low = place_nil p q s e ∙ ground arith
place_lem p q s (suc n) e h low = elim (ℕ-cases (live p s) 0) [
  | inl dead ↦
      rw (place_dead p q s n e dead, weight_dead p s dead, put_live_dead p q s (e - 0) dead)
        (place_lem p q (suc s) n e (omega (arith, weight_dead p s dead)) low ∙ ground arith)
  | inr alive ↦
      rw
        (
          place-live p q s n e alive (omega (arith, weight-live p s alive)) low,
          weight-live p s alive,
          put_live-live p q s (e - size p s) alive,
        )
        (place_lem p (put p q s (e - size p s)) (suc s) n (e - size p s)
            (omega (arith, weight-live p s alive)) (omega arith)
          ∙ ground arith)
]

-- What one round leaves alone: all but the entry of its slot and the new row.
put_live-Same :
    (lo hi : ℕ) (p q : Bytes) (s e : ℕ)
    → weight p s ≤ e
    → (hi ≤ slot_offset s) ⊎ (slot_offset s + 6 ≤ lo)
    → (hi ≤ e - weight p s) ⊎ (e ≤ lo)
    → Same lo hi q (put_live p q s (e - weight p s))
unfolding put
put_live-Same lo hi p q s e fits entry row = elim (ℕ-cases (live p s) 0) [
  | inl dead ↦ rw (put_live_dead p q s (e - weight p s) dead) (λ i a b. refl)
  | inr alive ↦ rw (put_live-live p q s (e - weight p s) alive) (
      Same-trans lo hi q _ _
        (Same-copy lo hi q (e - weight p s) (slice p (offset p s) (size p s))
          (omega (arith, weight-live p s alive, length-slice p (offset p s) (size p s))))
        (Same-set_slot lo hi _ s (e - weight p s) (size p s) entry))
]

-- So the whole loop leaves alone all but the entries of its slots and the rows that it places.
pub pack-Same :
    (lo hi : ℕ) (p q : Bytes) (s n e : ℕ)
    → total p s n ≤ e
    → (hi ≤ slot_offset s) ⊎ (slot_offset (s + n) ≤ lo)
    → (hi ≤ e - total p s n) ⊎ (e ≤ lo)
    → Same lo hi q (pack p q s n e)
unfolding pack total
pack-Same lo hi p q s zero e fits entries rows = λ i a b. refl
pack-Same lo hi p q s (suc n) e fits entries rows =
    Same-trans lo hi q _ _ (put_live-Same lo hi p q s e (omega arith) (omega arith) (omega arith)) (
      pack-Same lo hi p (put_live p q s (e - weight p s)) (suc s) n (e - weight p s) (omega arith)
        (omega arith) (omega arith))

-- Slot `t` of `q` has the row that it has in `p`, at the offset `o`.
pub record Packed (p q : Bytes) (t o : ℕ) : Type 0 where
  pub is_live : live q t ≡ 1
  pub has_size : size q t ≡ size p t
  pub at_offset : offset q t ≡ o
  pub has_row : slice q o (size p t) ≡ slice p (offset p t) (size p t)

pub Packed-Same :
    (p q r : Bytes) (t o hi : ℕ)
    → Packed p q t o
    → SameSlot q r t
    → Same o hi q r
    → o + size p t ≤ hi
    → Packed p r t o
Packed-Same p q r t o hi h same bytes fits = record {
  is_live = same.same_live ∙ h.is_live;
  has_size = same.same_size ∙ h.has_size;
  at_offset = same.same_offset ∙ h.at_offset;
  has_row = slice_cong q r o (size p t) (λ i a b. bytes i a (omega arith)) ∙ h.has_row;
}

put-Packed :
    (p q : Bytes) (s o : ℕ)
    → slot_offset (suc s) ≤ o
    → o + size p s ≤ page_size
    → Packed p (put p q s o) s o
unfolding put
put-Packed p q s o low high = record {
  is_live = live-set_slot _ s o (size p s);
  has_size = size-set_slot _ s o (size p s) (omega arith);
  at_offset = offset-set_slot _ s o (size p s) (omega arith);
  has_row =
      slice_cong (copy q o row) _ o (size p s)
        (λ i a b. Same-set_slot o page_size _ s o (size p s) (inr (omega arith)) i a (omega arith))
      ∙ slice-copy-length q o row (size p s) (length-slice p (offset p s) (size p s));
}
  where
    row : List ℕ
    row = slice p (offset p s) (size p s)

-- After the loop the rows lie one below the other, in the order of their slots.
pub pack-Packed :
    (p q : Bytes) (s n e t k o : ℕ)
    → slot_offset (s + n) + total p s n ≤ e
    → e ≤ page_size
    → k < n
    → s + k ≡ t
    → live p t ≢ 0
    → o + total p s (suc k) ≡ e
    → Packed p (pack p q s n e) t o
unfolding pack total
pack-Packed p q s zero e t k o fits low h at alive off = absurd (omega arith)
pack-Packed p q s (suc n) e t zero o fits low h at alive off =
    subst (λ u. Packed p (pack p q s (suc n) e) u o) here
      (Packed-Same p (put_live p q s (e - weight p s)) _ s o e first
        (SameSlot-of (slot_offset s) (slot_offset (suc s)) _ _ s
          (pack-Same _ _ p _ (suc s) n (e - weight p s) (omega arith) (inl (omega arith))
            (inl (omega arith)))
          (omega arith) (omega arith))
        (pack-Same o e p _ (suc s) n (e - weight p s) (omega arith) (inr (omega arith))
          (inr (omega arith)))
        (omega (arith, weight-live p s live_here)))
  where
    here : s ≡ t
    here = omega arith

    live_here : live p s ≢ 0
    live_here = subst (λ u. live p u ≢ 0) (sym here) alive

    is_o : e - weight p s ≡ o
    is_o = omega arith

    first : Packed p (put_live p q s (e - weight p s)) s o
    first =
        rw (put_live-live p q s (e - weight p s) live_here, is_o)
          (put-Packed p q s o (omega arith) (omega (arith, weight-live p s live_here)))
pack-Packed p q s (suc n) e t (suc k) o fits low h at alive off =
    pack-Packed p (put_live p q s (e - weight p s)) (suc s) n (e - weight p s) t k o (omega arith)
      (omega arith) (omega arith) (omega arith) alive (omega arith)

-- The entry of a dead slot is left alone.
pub pack_dead :
    (p q : Bytes) (s n e t : ℕ)
    → slot_offset (s + n) + total p s n ≤ e
    → s ≤ t
    → t < s + n
    → live p t ≡ 0
    → SameSlot q (pack p q s n e) t
unfolding pack total
pack_dead p q s zero e t fits a b dead = absurd (omega arith)
pack_dead p q s (suc n) e t fits a b dead = elim (ℕ-cases s t) [
  | inl here ↦
      subst (λ u. SameSlot q (pack p q s (suc n) e) u) here
        (SameSlot-of (slot_offset s) (slot_offset (suc s)) q _ s
          (subst (λ r. Same (slot_offset s) (slot_offset (suc s)) r (pack p q s (suc n) e))
            (put_live_dead p q s (e - weight p s) (subst (λ u. live p u ≡ 0) (sym here) dead))
            (pack-Same _ _ p _ (suc s) n (e - weight p s) (omega arith) (inl (omega arith))
              (inl (omega arith))))
          (omega arith) (omega arith))
  | inr ne ↦
      SameSlot-trans q (put_live p q s (e - weight p s)) _ t
        (SameSlot-of (slot_offset t) (slot_offset (suc t)) q _ t
          (put_live-Same _ _ p q s e (omega arith) (inr (omega arith)) (inl (omega arith)))
          (omega arith) (omega arith))
        (pack_dead p (put_live p q s (e - weight p s)) (suc s) n (e - weight p s) t (omega arith)
          (omega arith) (omega arith) dead)
]
