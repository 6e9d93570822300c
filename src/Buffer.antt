-- ===== src/Buffer.antt =====
-- BufferPool of src/native_storage.cpp: pages of heap files in memory. `frames` is frames_ in the order
-- of lru_, the most recently used first; the two hold the same keys. A guard is the key of its frame.
-- What the file system holds is `store`: whether a file is there, and what a read at a page gives,
-- nothing behind the end of the file, the part of a page before it, or a page. A part of a page is kept
-- with zeros behind it: a write to a later page fills the file with zeros up to that page. Writes are
-- taken to succeed.
pub mod Views
pub mod Evict
pub mod Front
pub mod Fetch
pub mod Flush
pub mod FlushFile
pub mod Guard
use skibidi_ql.Prelude.{
  ℕ, zero, suc, ◌-◌, Bool, true, false, ◌&&◌, ◌||◌, not, Option, none, some, List, [], ◌∷◌, Outcome,
  ok, throws, leb, ltb, ◌==◌, if◌then◌else◌, length, bytes_eq,
}
use skibidi_ql.Storage.Page.Memory.{Bytes}
use skibidi_ql.Storage.Page.{zeros}

pub record PageKey : Type 0 where
  pub file : List ℕ
  pub page : ℕ

unfoldable pub same_key : PageKey → PageKey → Bool
same_key a b = bytes_eq a.file b.file && (a.page == b.page)

pub record Frame : Type 0 where
  pub key : PageKey
  pub bytes : Bytes
  pub pins : ℕ
  pub dirty : Bool

pub data Stored : Type 0 where
  absent : Stored
  partial : Bytes → Stored
  whole : Bytes → Stored

pub record Store : Type 0 where
  pub has_file : List ℕ → Bool
  pub content : PageKey → Stored

pub record Pool : Type 0 where
  pub capacity : ℕ
  pub frames : List Frame
  pub page_reads : ℕ
  pub evictions : ℕ
  pub store : Store

abbrev pub page_of : Stored → Outcome Bytes
page_of absent = ok zeros
page_of (partial bytes) = throws "Partial page in heap file"
page_of (whole bytes) = ok bytes

unfoldable pub read_page : PageKey → Bool → Store → Outcome Bytes
read_page key create store =
    if store.has_file key.file
    then page_of (store.content key)
    else if create
    then ok zeros
    else throws "Cannot open heap file"

-- A page before one that is written.
abbrev pub filled : Stored → Stored
filled absent = whole zeros
filled (partial bytes) = whole bytes
filled (whole bytes) = whole bytes

unfoldable pub write_page : PageKey → Bytes → Store → Store
write_page key bytes store = record {
  has_file = λ file. if bytes_eq key.file file then true else store.has_file file;
  content = λ other.
      if same_key key other
      then whole bytes
      else if bytes_eq key.file other.file && ltb other.page key.page
      then filled (store.content other)
      else store.content other;
}

-- What flush does to the files.
unfoldable pub flush : Frame → Store → Store
flush frame store = if frame.dirty then write_page frame.key frame.bytes store else store

unfoldable pub find_frame : PageKey → List Frame → Option Frame
find_frame key [] = none
find_frame key (f ∷ frames) =
    let rest = find_frame key frames in if same_key f.key key then some f else rest

unfoldable pub drop_frame : PageKey → List Frame → List Frame
drop_frame key [] = []
drop_frame key (f ∷ frames) =
    let rest = drop_frame key frames in if same_key f.key key then frames else f ∷ rest

-- The walk of evictOne from the back: the last frame without pins.
abbrev pub victim_or : Frame → Option Frame → Option Frame
victim_or f (some victim) = some victim
victim_or f none = if f.pins == 0 then some f else none

unfoldable pub find_victim : List Frame → Option Frame
find_victim [] = none
find_victim (f ∷ frames) = victim_or f (find_victim frames)

abbrev pub evict_victim : Option Frame → Pool → Outcome Bool × Pool
evict_victim none p = (throws "All buffer pool pages are pinned", p)
evict_victim (some f) p = (
  ok true,
  record p {
    frames = drop_frame f.key p.frames;
    store = flush f p.store;
    evictions = suc p.evictions;
  },
)

unfoldable pub evict_one : Pool → Outcome Bool × Pool
evict_one p = evict_victim (find_victim p.frames) p

abbrev pub go_on_evicting : (Pool → Outcome Bool × Pool) → Outcome Bool × Pool → Outcome Bool × Pool
go_on_evicting loop (throws message, p) = (throws message, p)
go_on_evicting loop (ok done, p) = loop p

-- The loop of fetch that makes room.
unfoldable pub make_room : ℕ → Pool → Outcome Bool × Pool
make_room zero p = (ok true, p)
make_room (suc fuel) p =
    let rest = go_on_evicting (λ q. make_room fuel q) (evict_one p) in
    if leb p.capacity (length p.frames) then rest else (ok true, p)

abbrev pub insert_frame : PageKey → Outcome Bytes → Pool → Outcome Frame × Pool
insert_frame key (throws message) p = (throws message, p)
insert_frame key (ok bytes) p =
    let frame : Frame = record { key = key; bytes = bytes; pins = 1; dirty = false } in
    (ok frame, record p { frames = frame ∷ p.frames; page_reads = suc p.page_reads })

abbrev pub load : PageKey → Bool → Outcome Bool × Pool → Outcome Frame × Pool
load key create (throws message, p) = (throws message, p)
load key create (ok done, p) = insert_frame key (read_page key create p.store) p

abbrev pub fetch_found : PageKey → Bool → Pool → Option Frame → Outcome Frame × Pool
fetch_found key create p (some f) =
    let pinned : Frame = record f { pins = suc f.pins } in
    (ok pinned, record p { frames = pinned ∷ drop_frame key p.frames })
fetch_found key create p none = load key create (make_room (length p.frames) p)

unfoldable pub fetch : PageKey → Bool → Pool → Outcome Frame × Pool
fetch key create p = fetch_found key create p (find_frame key p.frames)

-- flush on every frame, which is clean afterwards.
unfoldable pub flush_frames : List Frame → Store → List Frame × Store
flush_frames [] store = ([], store)
flush_frames (f ∷ frames) store =
    let (flushed, end) = flush_frames frames (flush f store) in
    (record f { dirty = false } ∷ flushed, end)

unfoldable pub flush_all : Pool → Pool
flush_all p = record p {
  frames = (flush_frames p.frames p.store).0;
  store = (flush_frames p.frames p.store).1;
}

-- The release of a guard on a frame.
unfoldable pub unpin : Frame → Outcome Frame
unpin f =
    if f.pins == 0 then throws "Buffer pool pin underflow" else ok (record f { pins = f.pins - 1 })

unfoldable pub any_pinned : List Frame → Bool
any_pinned [] = false
any_pinned (f ∷ frames) = not (f.pins == 0) || any_pinned frames

unfoldable pub discard_all : Pool → Outcome Bool × Pool
discard_all p =
    if any_pinned p.frames
    then (throws "Cannot discard buffer pool with pinned pages", p)
    else (ok true, record p { frames = [] })

-- A guard: the page of its frame, or nothing once it is moved from or released.
abbrev pub PageGuard : Type 0
PageGuard = Option PageKey

-- A change of the frame of a page.
unfoldable pub change_frame : PageKey → (Frame → Frame) → List Frame → List Frame
change_frame key change [] = []
change_frame key change (f ∷ frames) =
    let rest = change_frame key change frames in
    if same_key f.key key then change f ∷ frames else f ∷ rest

-- Writing to bytes() and markDirty, one after the other as HeapFile does.
unfoldable pub set_bytes : PageGuard → Bytes → Pool → Outcome Bool × Pool
set_bytes none bytes p = (throws "Invalid page guard", p)
set_bytes (some key) bytes p =
    (ok true, record p { frames = change_frame key (λ f. record f { bytes = bytes }) p.frames })

unfoldable pub mark_dirty : PageGuard → Pool → Outcome Bool × Pool
mark_dirty none p = (throws "Invalid page guard", p)
mark_dirty (some key) p =
    (ok true, record p { frames = change_frame key (λ f. record f { dirty = true }) p.frames })

abbrev pub unpinned : Outcome Frame → Frame → Frame
unpinned (throws message) f = f
unpinned (ok g) f = g

-- The end of a guard.
unfoldable pub release : PageGuard → Pool → PageGuard × Pool
release none p = (none, p)
release (some key) p =
    (none, record p { frames = change_frame key (λ f. unpinned (unpin f) f) p.frames })

-- flush on one frame of the loop of flushFile, if it is of the file.
abbrev pub flush_of : List ℕ → Frame → Store → Frame × Store
flush_of file f store =
    if bytes_eq f.key.file file then (record f { dirty = false }, flush f store) else (f, store)

unfoldable pub flush_file_frames : List ℕ → List Frame → Store → List Frame × Store
flush_file_frames file [] store = ([], store)
flush_file_frames file (f ∷ frames) store =
    let (flushed, next) = flush_of file f store in
    let (rest, end) = flush_file_frames file frames next in (flushed ∷ rest, end)

unfoldable pub flush_file : List ℕ → Pool → Pool
flush_file file p = record p {
  frames = (flush_file_frames file p.frames p.store).0;
  store = (flush_file_frames file p.frames p.store).1;
}

-- The loop of invalidateFile: a pinned frame of the file stops it.
unfoldable pub invalidate_frames : List ℕ → List Frame → Outcome Bool × List Frame
invalidate_frames file [] = (ok true, [])
invalidate_frames file (f ∷ frames) =
    let (result, rest) = invalidate_frames file frames in
    if not (bytes_eq f.key.file file)
    then (result, f ∷ rest)
    else if f.pins == 0
    then (result, rest)
    else (throws "Cannot invalidate pinned page", f ∷ frames)

unfoldable pub invalidate_file : List ℕ → Pool → Outcome Bool × Pool
invalidate_file file p =
    let (result, frames) = invalidate_frames file p.frames in (result, record p { frames = frames })
