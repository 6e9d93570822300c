-- ===== src/Storage/Page/Shrink.antt =====
-- What erase and update have in common: a row goes or gets shorter in its place.
use skibidi_ql.Prelude.{
  ℕ, ◌+◌, ◌≤◌, ◌<◌, ◌≡◌, ◌∙◌, subst, ◌≢◌, ◌⊎◌, inl, inr, true, arith, ℕ-cases, lt-cases,
}
use skibidi_ql.Storage.Page.Memory.{Bytes}
use skibidi_ql.Storage.Page.{slot_offset, valid, read}
use skibidi_ql.Storage.Page.Fields.{
  count, start, end, live, offset, size, Same, SameSlot, read16-Same, read32-Same,
}
use skibidi_ql.Storage.Page.Weights.{
  total, weight, total_one, weight-SameSlot, weight-live, weight_dead,
}
use skibidi_ql.Storage.Page.Invariant.{IsPage, Within, Apart}
use skibidi_ql.Storage.Page.Rows.{read-row_at, row_at-Same}

-- `q` is `p` with the row of slot `s` removed, or replaced by one that is no longer.
pub record Shrunk (p q : Bytes) (s : ℕ) : Type 0 where
  pub header : Same 0 16 p q
  pub others : (u : ℕ) → u < count p → u ≢ s → SameSlot p q u
  pub smaller : size q s ≤ size p s
  pub kept : live q s ≢ 0 → offset q s ≡ offset p s
  pub bytes :
      (i : ℕ)
      → slot_offset (count p) ≤ i
      → (i < offset p s) ⊎ (offset p s + size p s ≤ i)
      → q i ≡ p i

module _ (p q : Bytes) (s : ℕ) (w : IsPage p) (inside : s < count p) (alive : live p s ≢ 0)
    (k : Shrunk p q s) where
  pub count_lem : count q ≡ count p
  count_lem = read16-Same 0 16 p q 4 k.header (omega arith) (omega arith)

  start_lem : start q ≡ start p
  start_lem = read16-Same 0 16 p q 6 k.header (omega arith) (omega arith)

  end_lem : end q ≡ end p
  end_lem = read16-Same 0 16 p q 8 k.header (omega arith) (omega arith)

  pub valid_lem : valid q ≡ true
  valid_lem = rw (read32-Same 16 p q k.header (omega arith)) w.is_valid

  weight_le : weight q s ≤ weight p s
  weight_le = elim (ℕ-cases (live q s) 0) [
    | inl dead ↦ omega (arith, weight_dead q s dead)
    | inr live_q ↦ omega (arith, weight-live q s live_q, weight-live p s alive, k.smaller)
  ]

  total_le : total q 0 (count q) ≤ total p 0 (count p)
  total_le = rw count_lem (
      omega (
        arith,
        weight_le,
        total_one p q s 0 (count p) (omega arith) (omega arith)
            (λ u a b ne. weight-SameSlot p q u (k.others u (omega arith) ne)),
      ))

  -- A row of `q` lies inside the row of the same slot of `p`.
  inner :
      (u : ℕ)
      → u < count p
      → live q u ≢ 0
      → (live p u ≢ 0) × (offset q u ≡ offset p u) × (size q u ≤ size p u)
  inner u h live_q = elim (ℕ-cases u s) [
    | inl here ↦ rw here (alive, k.kept (subst (λ v. live q v ≢ 0) here live_q), k.smaller)
    | inr ne ↦
        let same = k.others u h ne in
        (λ d. live_q (same.same_live ∙ d), same.same_offset, omega (arith, same.same_size))
  ]

  within_lem : (u : ℕ) → u < count q → live q u ≢ 0 → Within q (end q) u
  within_lem u h live_q =
      let inside_u : u < count p = omega (arith, count_lem) in
      let (live_p, at, fits) = inner u inside_u live_q in
      let old = w.within u inside_u live_p in
      record {
        above = omega (arith, at, end_lem, old.above);
        below = omega (arith, at, fits, old.below);
      }

  apart_lem : (u v : ℕ) → u < v → v < count q → live q u ≢ 0 → live q v ≢ 0 → Apart q u v
  apart_lem u v o h live_u live_v =
      let inside_v : v < count p = omega (arith, count_lem) in
      let (live_pu, at_u, fits_u) = inner u (omega arith) live_u in
      let (live_pv, at_v, fits_v) = inner v inside_v live_v in
      omega (arith, at_u, at_v, fits_u, fits_v, w.apart u v o inside_v live_pu live_pv)

  pub Shrunk-IsPage : IsPage q
  Shrunk-IsPage = record {
    is_valid = valid_lem;
    header = omega (arith, start_lem, count_lem, w.header);
    ordered = omega (arith, start_lem, end_lem, w.ordered);
    room = omega (arith, total_le, end_lem, w.room);
    within = within_lem;
    apart = apart_lem;
  }

  either-Apart : (u : ℕ) → u < count p → u ≢ s → live p u ≢ 0 → Apart p u s
  either-Apart u h ne live_u = elim (lt-cases u s) [
    | inl less ↦ w.apart u s less inside live_u alive
    | inr more ↦ omega (arith, w.apart s u (omega arith) h alive live_u)
  ]

  pub Shrunk-read : (u : ℕ) → u ≢ s → read q u ≡ read p u
  Shrunk-read u ne = read-row_at p q w Shrunk-IsPage count_lem u (λ h.
      row_at-Same p q u (k.others u h ne) (λ live_u i a b.
        k.bytes i (omega (arith, (w.within u h live_u).above, w.header, w.ordered))
          (omega (arith, either-Apart u h ne live_u))))
