-- ===== src/Storage/Page/Invariant.antt =====
-- The well-formedness of a page.
use skibidi_ql.Prelude.{ℕ, ◌+◌, ◌*◌, ◌≤◌, ◌<◌, ◌≡◌, ◌≢◌, ◌⊎◌, true}
use skibidi_ql.Storage.Page.Memory.{Bytes}
use skibidi_ql.Storage.Page.{page_size, valid}
use skibidi_ql.Storage.Page.Fields.{count, start, end, offset, size, live}
use skibidi_ql.Storage.Page.Weights.{total}

-- Where a live row lies.
pub record Within (p : Bytes) (low s : ℕ) : Type 0 where
  pub above : low ≤ offset p s
  pub below : offset p s + size p s ≤ page_size

abbrev pub Apart : Bytes → ℕ → ℕ → Type 0
Apart p s t = (offset p s + size p s ≤ offset p t) ⊎ (offset p t + size p t ≤ offset p s)

-- The header fits the directory, the live rows lie between the header's `end` and the end of the
-- page without overlapping, and together they are no longer than that part of the page.
pub record IsPage (p : Bytes) : Type 0 where
  pub is_valid : valid p ≡ true
  pub header : start p ≡ 16 + count p * 6
  pub ordered : start p ≤ end p
  pub room : end p + total p 0 (count p) ≤ page_size
  pub within : (s : ℕ) → s < count p → live p s ≢ 0 → Within p (end p) s
  pub apart : (s t : ℕ) → s < t → t < count p → live p s ≢ 0 → live p t ≢ 0 → Apart p s t
