-- ===== src/Buffer/Fetch.antt =====
-- What fetch does, for a page that is in the pool and for one that is not.
use skibidi_ql.Prelude.{
  String, suc, ◌≤◌, ◌<◌, ◌≡◌, ◌≢◌, Bool, true, false, none, some, Outcome, ok, throws, length, ◌⊎◌,
}
use skibidi_ql.Storage.Page.Memory.{Bytes}
use skibidi_ql.Buffer.{PageKey, same_key, Frame, partial, Store, Pool, find_frame}
use skibidi_ql.Buffer.Views.{AllPinned, on_disk, view}
use skibidi_ql.Buffer.Evict.{IsPool, Same}

-- The frame is in the pool, pinned, with the bytes of the page; every page is seen as before, and the
-- other pinned frames are as they were.
pub record Fetched (p : Pool) (key : PageKey) (q : Pool) (f : Frame) : Type 0 where
  pub is_pool : IsPool q
  pub found : find_frame key q.frames ≡ some f
  pub bytes_seen : view p key ≡ f.bytes
  pub has_pin : 1 ≤ f.pins
  pub views : (other : PageKey) → view q other ≡ view p other
  pub others :
      (other : PageKey) (g : Frame)
      → same_key key other ≡ false
      → find_frame other p.frames ≡ some g
      → g.pins ≢ 0
      → find_frame other q.frames ≡ some g
  pub within : length q.frames ≤ p.capacity

-- A read of the page throws: its file is missing and is not to be made, or ends within the page.
abbrev pub Unreadable : Store → PageKey → Bool → Type 0
Unreadable store key create =
    ((store.has_file key.file ≡ false) × (create ≡ false))
    ⊎ ((store.has_file key.file ≡ true) × ((bytes : Bytes) × (store.content key ≡ partial bytes)))

-- Why fetch throws on a pool that it leaves as `q`.
abbrev pub Refusal : Pool → PageKey → Bool → Type 0
Refusal q key create =
    (AllPinned q.frames × (q.capacity ≤ length q.frames)) ⊎ Unreadable q.store key create

-- What fetch returns on each of its branches.
data Fetches (p : Pool) (key : PageKey) (create : Bool) : Outcome Frame × Pool → Type 0 where
  gives : (q : Pool) (f : Frame) → Fetched p key q f → Fetches p key create (ok f, q)
  refuses :
      (q : Pool) (message : String)
      → Same p q
      → Refusal q key create
      → Fetches p key create (throws message, q)

-- A page that is in the pool.
module _ (p : Pool) (w : IsPool p) (key : PageKey) (f : Frame)
    (found : find_frame key p.frames ≡ some f) (fits : length p.frames ≤ p.capacity) where
  pinned : Frame
  pinned = record f { pins = suc f.pins }

-- A page that is read into a pool with room.
module _ (p : Pool) (w : IsPool p) (key : PageKey) (new : find_frame key p.frames ≡ none)
    (fits : length p.frames < p.capacity) (bytes : Bytes)
    (on_file : on_disk (p.store.content key) ≡ bytes) where
  fresh : Frame
  fresh = record { key = key; bytes = bytes; pins = 1; dirty = false }
