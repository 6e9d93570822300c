-- ===== src/Tests/Buffers.antt =====
-- A pool of one frame, which is dirty, when another page is fetched.
use skibidi_ql.Prelude.{
  ℕ, ◌≡◌, refl, none, some, Bool, true, false, [], ◌∷◌, arith, compare_bytes, bytes_eq,
  if◌then◌else◌,
}
use skibidi_ql.Storage.Page.Memory.{Bytes}
use skibidi_ql.Buffer.{PageKey, same_key, Frame, absent, Pool, flush_all, flush_file, find_frame}
use skibidi_ql.Buffer.Views.{on_disk, view, Distinct}
use skibidi_ql.Buffer.Evict.{IsPool}
use skibidi_ql.Storage.Page.{zeros}
use skibidi_ql.Buffer.Guard.{written, set_bytes_lem}
use skibidi_ql.Buffer.Flush.{flush_all_lem}
use skibidi_ql.Buffer.FlushFile.{flush_file_lem}

abbrev page_at : ℕ → PageKey
page_at n = record { file = b't' ∷ []; page = n }

-- Every byte of the page is 5 in memory; the file has no page yet.
abbrev dirty_page : Bytes
dirty_page = λ i. 5

abbrev frame : Frame
frame = record { key = page_at 0; bytes = dirty_page; pins = 0; dirty = true }

abbrev pool : Pool
pool = record {
  capacity = 1;
  frames = frame ∷ [];
  page_reads = 1;
  evictions = 0;
  store = record { has_file = λ file. false; content = λ key. absent };
}

pool-IsPool : IsPool pool
unfolding find_frame Distinct
pool-IsPool = record {
  distinct = (refl, tt);
  clean = λ key f h c. go (same_key (page_at 0) key) f h c;
  missing = λ key h. refl;
  room = omega arith;
}
  where
    go :
        (b : Bool) (f : Frame)
        → (if b then some frame else none) ≡ some f
        → f.dirty ≡ false
        → on_disk absent ≡ f.bytes
    go true f h c = cc
    go false f h c = cc

flush_all_lem_example : on_disk ((flush_all pool).store.content (page_at 0)) ≡ dirty_page
unfolding view find_frame same_key compare_bytes
flush_all_lem_example = flush_all_lem pool (page_at 0) pool-IsPool

set_bytes_lem_example :
    IsPool (written (page_at 0) zeros pool)
    × ((other : PageKey)
        → view (written (page_at 0) zeros pool) other
          ≡ (if same_key (page_at 0) other then zeros else view pool other))
unfolding find_frame same_key compare_bytes
set_bytes_lem_example = set_bytes_lem (page_at 0) zeros pool frame pool-IsPool refl

flush_file_lem_example :
    IsPool (flush_file (b't' ∷ []) pool)
    × ((key : PageKey) → view (flush_file (b't' ∷ []) pool) key ≡ view pool key)
    × ((key : PageKey)
        → bytes_eq key.file (b't' ∷ []) ≡ true
        → on_disk ((flush_file (b't' ∷ []) pool).store.content key) ≡ view pool key)
    × ((key : PageKey)
        → bytes_eq key.file (b't' ∷ []) ≡ false
        → (flush_file (b't' ∷ []) pool).store.content key ≡ pool.store.content key)
flush_file_lem_example = flush_file_lem (b't' ∷ []) pool pool-IsPool
