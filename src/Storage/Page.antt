-- ===== src/Storage/Page.antt =====
-- SlottedPage of src/native_storage.cpp and native_storage.h: rows in one 4096-byte page. The header
-- holds a magic number at 0, the number of slots at 4, the end of the slot directory at 6 and the
-- start of the row data at 8; the directory follows from 16 on, six bytes a slot (offset, length and
-- a live flag), and the rows fill the page from its end downwards. A method that may throw returns
-- the page beside the outcome, since what was written before a throw stays written.
pub mod Memory
pub mod Fields
pub mod Weights
pub mod Invariant
pub mod Rows
pub mod Pack
pub mod Compact
pub mod Entered
pub mod Ready
pub mod Store
pub mod Insert
pub mod Shrink
pub mod Change
pub mod Views
use skibidi_ql.Prelude.{
  ℕ, zero, suc, ◌+◌, ◌-◌, ◌*◌, ◌%◌, Bool, true, false, ◌||◌, not, Option, none, some, List, [], ◌∷◌,
  Outcome, ok, throws, ◌>>=◌, ltb, leb, ◌==◌, if◌then◌else◌, length,
}
use Memory.{Bytes, read16, read32, write16, write32, copy, slice, sub16}

abbrev pub page_size : ℕ
page_size = 4096

abbrev pub magic : ℕ
magic = 0x534B5047

abbrev pub zeros : Bytes
zeros i = 0

pub initialize : Bytes → Bytes
initialize p = write16 (write16 (write16 (write32 zeros 0 magic) 4 0) 6 16) 8 page_size

abbrev pub valid : Bytes → Bool
valid p = read32 p 0 == magic

unfoldable pub free_space : Bytes → ℕ
free_space p =
    if valid p then (if leb (read16 p 6) (read16 p 8) then read16 p 8 - read16 p 6 else 0) else 0

unfoldable pub slot_count : Bytes → ℕ
slot_count p = if valid p then read16 p 4 else 0

abbrev pub slot_offset : ℕ → ℕ
slot_offset slot = 16 + slot * 6

-- The test that opens read, readView, erase and update: no page, no slot, or a dead one.
unfoldable pub missing : Bytes → ℕ → Bool
unfolding slot_count
missing p slot = not (valid p) || leb (slot_count p) slot || (read16 p (slot_offset slot + 4) == 0)

pub read_view : Bytes → ℕ → Outcome (Option (ℕ × ℕ))
unfolding missing
read_view p slot =
    let offset = read16 p (slot_offset slot) in
    let size = read16 p (slot_offset slot + 2) in
    if missing p slot
    then ok none
    else if ltb page_size (offset + size)
    then throws "Corrupt slotted page"
    else ok (some (offset, size))

pub read : Bytes → ℕ → Outcome (Option (List ℕ))
unfolding missing
read p slot =
    let offset = read16 p (slot_offset slot) in
    let size = read16 p (slot_offset slot + 2) in
    if missing p slot
    then ok none
    else if ltb page_size (offset + size)
    then throws "Corrupt slotted page"
    else ok (some (slice p offset size))

-- The directory entry of a slot, as insert and compact write it.
unfoldable pub set_slot : Bytes → ℕ → ℕ → ℕ → Bytes
set_slot p slot offset size =
    write16 (write16 (write16 p (slot_offset slot) offset) (slot_offset slot + 2) size)
      (slot_offset slot + 4) 1

abbrev pub push_row : ℕ → Option (List ℕ) → List (ℕ × List ℕ) → List (ℕ × List ℕ)
push_row slot none rows = rows
push_row slot (some row) rows = (slot, row) ∷ rows

-- The first loop of compact: the rows of `n` slots from `slot` on.
pub collect : Bytes → ℕ → ℕ → Outcome (List (ℕ × List ℕ))
collect p slot zero = ok []
collect p slot (suc n) = do
  row ← read p slot
  rows ← collect p (suc slot) n
  ok (push_row slot row rows)

-- The second loop of compact: the page and the start of the row data.
pub place : Bytes → List (ℕ × List ℕ) → ℕ → Bytes × ℕ
unfolding set_slot
place p [] end = (p, end)
place p ((slot, row) ∷ rows) end =
    place
      (set_slot (copy p (sub16 end (length row)) row) slot (sub16 end (length row)) (length row))
      rows (sub16 end (length row))

abbrev finish_compact : Bytes × ℕ → Bytes
finish_compact (p, end) = write16 p 8 end

-- It reads every row before it writes, so a throw leaves the page as it was.
pub compact : Bytes → Outcome Bytes
unfolding slot_count
compact p = do rows ← collect p 0 (slot_count p); ok (finish_compact (place p rows page_size))

-- The loop of insert that looks for a dead slot.
pub find_reusable : Bytes → ℕ → ℕ → Option ℕ
find_reusable p slot zero = none
find_reusable p slot (suc n) =
    if read16 p (slot_offset slot + 4) == 0 then some slot else find_reusable p (suc slot) n

abbrev pub slot_bytes : Option ℕ → ℕ
slot_bytes none = 6
slot_bytes (some _) = 0

-- The row data and its start.
pub write_row : Bytes → List ℕ → ℕ → Bytes
write_row p row new_end = write16 (copy p new_end row) 8 new_end

-- The slot that a row gets, and the header when the directory grows.
pub grow : Bytes → Option ℕ → ℕ × Bytes
grow p (some slot) = (slot, p)
grow p none = (
  read16 p 4,
  write16 (write16 p 4 ((read16 p 4 + 1) % 65536)) 6 ((16 + (read16 p 4 + 1) * 6) % 65536),
)

abbrev pub enter_slot : ℕ × Bytes → ℕ → ℕ → Outcome (Option ℕ) × Bytes
enter_slot (slot, p) offset size = (ok (some slot), set_slot p slot offset size)

-- The end of insert, once there is room.
pub store : Bytes → Option ℕ → List ℕ → Outcome (Option ℕ) × Bytes
unfolding set_slot write_row grow
store p reusable row =
    let new_end = sub16 (read16 p 8) (length row) in
    enter_slot (grow (write_row p row new_end) reusable) new_end (length row)

pub compact_if_full : Bytes → ℕ → Outcome Bytes
unfolding compact free_space
compact_if_full p need = if ltb (free_space p) need then compact p else ok p

pub insert_valid : Bytes → List ℕ → Outcome (Option ℕ) × Bytes
insert_valid p row =
    let reusable = find_reusable p 0 (slot_count p) in
    let need = length row + slot_bytes reusable in
    elim (compact_if_full p need) [
      | throws message ↦ (throws message, p)
      | ok q ↦ if ltb (free_space q) need then (ok none, q) else store q reusable row
    ]

pub insert : Bytes → List ℕ → Outcome (Option ℕ) × Bytes
insert p row =
    let q = if valid p then p else initialize p in
    if ltb 65535 (length row) then (throws "Tuple is too large", q) else insert_valid q row

pub erase : Bytes → ℕ → Bool × Bytes
unfolding missing
erase p slot =
    if missing p slot
    then (false, p)
    else (true, write16 (write16 p (slot_offset slot + 4) 0) (slot_offset slot + 2) 0)

pub update : Bytes → ℕ → List ℕ → Bool × Bytes
unfolding missing
update p slot row =
    if missing p slot || ltb (read16 p (slot_offset slot + 2)) (length row) then (false, p) else (
      true,
      write16 (copy p (read16 p (slot_offset slot)) row) (slot_offset slot + 2) (length row),
    )

-- The copy of this reader for memory-mapped heap files, MappedHeapFile::readView.
unfoldable pub mapped_slot_count : Bytes → ℕ
mapped_slot_count p = if read32 p 0 == magic then read16 p 4 else 0

pub mapped_read_view : Bytes → ℕ → Outcome (Option (ℕ × ℕ))
unfolding mapped_slot_count
mapped_read_view p slot =
    let position = 16 + slot * 6 in
    let offset = read16 p position in
    let size = read16 p (position + 2) in
    if not (read32 p 0 == magic) || leb (mapped_slot_count p) slot
    then ok none
    else if read16 p (position + 4) == 0
    then ok none
    else if ltb page_size (offset + size)
    then throws "Corrupt mapped slotted page"
    else ok (some (offset, size))
