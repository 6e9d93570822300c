-- ===== src/Storage/Page/Views.antt =====
-- initialize, and the three ways to read a slot: a copy of the row, a view of it, and a view in a
-- mapped file.
use skibidi_ql.Prelude.{
  ℕ, ◌+◌, ◌≡◌, refl, inl, inr, arith, Option, none, some, List, ok, throws, Outcome, ℕ-cases,
  lt-cases,
}
use skibidi_ql.Storage.Page.Memory.{Bytes, read16, read32, write16, write32, slice}
use skibidi_ql.Storage.Page.{page_size, read, read_view, mapped_read_view, initialize, free_space}
use skibidi_ql.Storage.Page.Fields.{count, live}
use skibidi_ql.Storage.Page.Weights.{total}
use skibidi_ql.Storage.Page.Invariant.{IsPage}
use skibidi_ql.Storage.Page.Rows.{read_beyond}

initialize-IsPage : (p : Bytes) → IsPage (initialize p)
unfolding initialize read16 read32 write16 write32 total
initialize-IsPage p = record {
  is_valid = refl;
  header = refl;
  ordered = omega arith;
  room = omega arith;
  within = λ s h alive. absurd (omega arith);
  apart = λ s t a b c d. absurd (omega arith);
}

free_space-initialize : (p : Bytes) → free_space (initialize p) ≡ 4080
unfolding initialize read16 read32 write16 write32 free_space
free_space-initialize p = refl

count-initialize : (p : Bytes) → count (initialize p) ≡ 0
unfolding initialize read16 read32 write16 write32
count-initialize p = refl

-- A fresh page is well formed and empty, whatever the bytes were, and all of it behind the header is
-- free.
pub initialize_lem :
    (p : Bytes)
    → IsPage (initialize p)
      × ((s : ℕ) → read (initialize p) s ≡ ok none)
      × (free_space (initialize p) + 16 ≡ page_size)
initialize_lem p = (
  initialize-IsPage p,
  λ s.
      read_beyond (initialize p) s (initialize-IsPage p).is_valid
        (omega (arith, count-initialize p)),
  omega (arith, free_space-initialize p),
)

-- The bytes behind a view.
abbrev pub bytes_of : Bytes → Outcome (Option (ℕ × ℕ)) → Outcome (Option (List ℕ))
bytes_of p (throws message) = throws message
bytes_of p (ok none) = ok none
bytes_of p (ok (some (o, n))) = ok (some (slice p o n))

read-view : (p : Bytes) (s : ℕ) → read p s ≡ bytes_of p (read_view p s)
unfolding read read_view
read-view p s = ground arith

-- The tests of the mapped reader, split as in read_view.
mapped-view : (p : Bytes) (s : ℕ) → IsPage p → mapped_read_view p s ≡ read_view p s
unfolding mapped_read_view read_view
mapped-view p s w = elim (lt-cases s (count p)) [
  | inr beyond ↦ ground (arith, w.is_valid)
  | inl inside ↦ elim (ℕ-cases (live p s) 0) [
    | inl dead ↦ ground (arith, w.is_valid)
    | inr alive ↦ ground (arith, w.is_valid, (w.within s inside alive).below)
  ]
]

-- On a well-formed page the three readers agree: read returns the bytes of the view that readView
-- returns, and the reader of mapped files returns the same view.
pub views_agree :
    (p : Bytes) (s : ℕ)
    → IsPage p
    → (read p s ≡ bytes_of p (read_view p s)) × (mapped_read_view p s ≡ read_view p s)
views_agree p s w = (read-view p s, mapped-view p s w)
