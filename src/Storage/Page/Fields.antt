-- ===== src/Storage/Page/Fields.antt =====
-- The header and the slot directory of a page, and what the writes of the methods do to them.
use skibidi_ql.Prelude.{ℕ, ◌+◌, ◌≤◌, ◌<◌, ◌≡◌, refl, ◌∙◌, ◌≢◌, ◌⊎◌, inl, List, arith, length}
use skibidi_ql.Storage.Page.Memory.{
  Bytes, read16, read32, write16, copy, write16_frame, read16-write16_self, read16_cong,
  read16-write16_ne, copy_frame,
}
use skibidi_ql.Storage.Page.{slot_offset, set_slot}

abbrev pub count : Bytes → ℕ
count p = read16 p 4

abbrev pub start : Bytes → ℕ
start p = read16 p 6

abbrev pub end : Bytes → ℕ
end p = read16 p 8

abbrev pub offset : Bytes → ℕ → ℕ
offset p s = read16 p (slot_offset s)

abbrev pub size : Bytes → ℕ → ℕ
size p s = read16 p (slot_offset s + 2)

abbrev pub live : Bytes → ℕ → ℕ
live p s = read16 p (slot_offset s + 4)

-- A write that leaves the bytes from `lo` up to `hi` alone leaves what is read there alone.
abbrev pub Same : ℕ → ℕ → Bytes → Bytes → Type 0
Same lo hi p q = (i : ℕ) → lo ≤ i → i < hi → q i ≡ p i

pub read16-Same :
    (lo hi : ℕ) (p q : Bytes) (o : ℕ)
    → Same lo hi p q
    → lo ≤ o
    → o + 2 ≤ hi
    → read16 q o ≡ read16 p o
read16-Same lo hi p q o h a b =
    read16_cong p q o (h o a (omega arith)) (h (o + 1) (omega arith) (omega arith))

pub read32-Same : (hi : ℕ) (p q : Bytes) → Same 0 hi p q → 4 ≤ hi → read32 q 0 ≡ read32 p 0
unfolding read32
read32-Same hi p q h k = omega (
  arith,
  h 0 (omega arith) (omega arith),
  h 1 (omega arith) (omega arith),
  h 2 (omega arith) (omega arith),
  h 3 (omega arith) (omega arith),
)

pub Same-trans : (lo hi : ℕ) (p q r : Bytes) → Same lo hi p q → Same lo hi q r → Same lo hi p r
Same-trans lo hi p q r h k i a b = k i a b ∙ h i a b

pub Same-write16 :
    (lo hi : ℕ) (p : Bytes) (o v : ℕ) → (hi ≤ o) ⊎ (o + 2 ≤ lo) → Same lo hi p (write16 p o v)
Same-write16 lo hi p o v h i a b = write16_frame p o v i (omega arith)

pub Same-copy :
    (lo hi : ℕ) (p : Bytes) (o : ℕ) (row : List ℕ)
    → (hi ≤ o) ⊎ (o + length row ≤ lo)
    → Same lo hi p (copy p o row)
Same-copy lo hi p o row h i a b = copy_frame p o row i (omega arith)

-- An entry of the directory is six bytes.
pub Same-set_slot :
    (lo hi : ℕ) (p : Bytes) (s o n : ℕ)
    → (hi ≤ slot_offset s) ⊎ (slot_offset s + 6 ≤ lo)
    → Same lo hi p (set_slot p s o n)
unfolding set_slot
Same-set_slot lo hi p s o n h i a b =
    write16_frame _ (slot_offset s + 4) 1 i (omega arith)
    ∙ write16_frame _ (slot_offset s + 2) n i (omega arith)
    ∙ write16_frame p (slot_offset s) o i (omega arith)

module _ (p : Bytes) (s o n : ℕ) where
  pub live-set_slot : live (set_slot p s o n) s ≡ 1
  unfolding set_slot
  live-set_slot = read16-write16_self _ (slot_offset s + 4) 1 (omega arith)

  pub size-set_slot : n < 65536 → size (set_slot p s o n) s ≡ n
  unfolding set_slot
  size-set_slot h =
      read16-write16_ne _ (slot_offset s + 4) 1 (slot_offset s + 2) (inl (omega arith))
      ∙ read16-write16_self _ (slot_offset s + 2) n h

  pub offset-set_slot : o < 65536 → offset (set_slot p s o n) s ≡ o
  unfolding set_slot
  offset-set_slot h =
      read16-write16_ne _ (slot_offset s + 4) 1 (slot_offset s) (inl (omega arith))
      ∙ read16-write16_ne _ (slot_offset s + 2) n (slot_offset s) (inl (omega arith))
      ∙ read16-write16_self p (slot_offset s) o h

-- One slot of two pages has the same entry.
pub record SameSlot (p q : Bytes) (s : ℕ) : Type 0 where
  pub same_offset : offset q s ≡ offset p s
  pub same_size : size q s ≡ size p s
  pub same_live : live q s ≡ live p s

pub SameSlot-of :
    (lo hi : ℕ) (p q : Bytes) (s : ℕ)
    → Same lo hi p q
    → lo ≤ slot_offset s
    → slot_offset s + 6 ≤ hi
    → SameSlot p q s
SameSlot-of lo hi p q s h a b = record {
  same_offset = read16-Same lo hi p q (slot_offset s) h a (omega arith);
  same_size = read16-Same lo hi p q (slot_offset s + 2) h (omega arith) (omega arith);
  same_live = read16-Same lo hi p q (slot_offset s + 4) h (omega arith) (omega arith);
}

pub SameSlot-set_slot : (p : Bytes) (s t o n : ℕ) → s ≢ t → SameSlot p (set_slot p s o n) t
SameSlot-set_slot p s t o n ne =
    SameSlot-of (slot_offset t) (slot_offset t + 6) p _ t
      (Same-set_slot (slot_offset t) (slot_offset t + 6) p s o n (omega arith)) (omega arith)
      (omega arith)

pub SameSlot-refl : (p : Bytes) (s : ℕ) → SameSlot p p s
SameSlot-refl p s = record { same_offset = refl; same_size = refl; same_live = refl }

pub SameSlot-trans : (p q r : Bytes) (s : ℕ) → SameSlot p q s → SameSlot q r s → SameSlot p r s
SameSlot-trans p q r s h k = record {
  same_offset = k.same_offset ∙ h.same_offset;
  same_size = k.same_size ∙ h.same_size;
  same_live = k.same_live ∙ h.same_live;
}
