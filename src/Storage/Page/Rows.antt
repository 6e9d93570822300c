-- ===== src/Storage/Page/Rows.antt =====
-- What `read` returns on a well-formed page, and which writes leave it alone.
use skibidi_ql.Prelude.{
  ℕ, ◌+◌, ◌≤◌, ◌<◌, ◌≡◌, ap, ◌∙◌, sym, ◌≢◌, inl, inr, true, arith, ◌==◌, if◌then◌else◌, Option,
  none, some, List, ok, Outcome, ℕ-cases, lt-cases, ==_refl, ne→eqb,
}
use skibidi_ql.Storage.Page.Memory.{Bytes, slice, slice_cong}
use skibidi_ql.Storage.Page.{page_size, valid, missing, read}
use skibidi_ql.Storage.Page.Fields.{count, offset, size, live, SameSlot}
use skibidi_ql.Storage.Page.Invariant.{IsPage}

-- The row of a slot of the directory.
unfoldable pub row_at : Bytes → ℕ → Option (List ℕ)
row_at p s = if live p s == 0 then none else some (slice p (offset p s) (size p s))

pub row_at-live :
    (p : Bytes) (s : ℕ) → live p s ≢ 0 → row_at p s ≡ some (slice p (offset p s) (size p s))
unfolding row_at
row_at-live p s h = ground arith

pub row_at_dead : (p : Bytes) (s : ℕ) → live p s ≡ 0 → row_at p s ≡ none
unfolding row_at
row_at_dead p s h = ground arith

pub read_beyond : (p : Bytes) (s : ℕ) → valid p ≡ true → count p ≤ s → read p s ≡ ok none
unfolding read missing
read_beyond p s v h = ground arith

pub read_dead : (p : Bytes) (s : ℕ) → live p s ≡ 0 → read p s ≡ ok none
unfolding read missing
read_dead p s h = ground arith

pub read-live :
    (p : Bytes) (s : ℕ)
    → valid p ≡ true
    → s < count p
    → live p s ≢ 0
    → offset p s + size p s ≤ page_size
    → read p s ≡ ok (some (slice p (offset p s) (size p s)))
unfolding read missing
read-live p s v h l b = ground arith

pub read_in : (p : Bytes) (s : ℕ) → IsPage p → s < count p → read p s ≡ ok (row_at p s)
read_in p s w h = elim (ℕ-cases (live p s) 0) [
  | inl dead ↦ read_dead p s dead ∙ ap ok (sym (row_at_dead p s dead))
  | inr alive ↦
      read-live p s w.is_valid h alive (w.within s h alive).below
      ∙ ap ok (sym (row_at-live p s alive))
]

-- A change that keeps the entry of a slot and the bytes of its row keeps its row.
pub row_at-Same :
    (p q : Bytes) (s : ℕ)
    → SameSlot p q s
    → (live p s ≢ 0 → (i : ℕ) → offset p s ≤ i → i < offset p s + size p s → q i ≡ p i)
    → row_at q s ≡ row_at p s
row_at-Same p q s same bytes = elim (ℕ-cases (live p s) 0) [
  | inl dead ↦ row_at_dead q s (same.same_live ∙ dead) ∙ sym (row_at_dead p s dead)
  | inr alive ↦
      row_at-live q s (λ e. alive (sym same.same_live ∙ e))
      ∙ ap some (
          rw (same.same_offset, same.same_size)
            (slice_cong p q (offset p s) (size p s) (bytes alive)))
      ∙ sym (row_at-live p s alive)
]

-- So two well-formed pages with as many slots are read alike where their rows are alike.
pub read-row_at :
    (p q : Bytes)
    → IsPage p
    → IsPage q
    → count q ≡ count p
    → (s : ℕ) → (s < count p → row_at q s ≡ row_at p s)
    → read q s ≡ read p s
read-row_at p q vp vq e s h = elim (lt-cases s (count p)) [
  | inl inside ↦ read_in q s vq (omega arith) ∙ ap ok (h inside) ∙ sym (read_in p s vp inside)
  | inr beyond ↦
      read_beyond q s vq.is_valid (omega arith) ∙ sym (read_beyond p s vp.is_valid beyond)
]

-- One slot reads as `x` and the others as before, in one equation.
pub read_one :
    (p q : Bytes) (t : ℕ) (x : Outcome (Option (List ℕ)))
    → read q t ≡ x
    → ((u : ℕ) → u ≢ t → read q u ≡ read p u)
    → (u : ℕ) → read q u ≡ (if u == t then x else read p u)
read_one p q t x at rest u = elim (ℕ-cases u t) [
  | inl here ↦ rw (here, ==_refl t) at
  | inr other ↦ rw (ne→eqb u t other) (rest u other)
]
