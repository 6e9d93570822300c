-- ===== src/Storage/Page/Memory.antt =====
-- The byte array of a page and the accessors read16, read32, write16, write32 and memcpy.
use skibidi_ql.Prelude.{
  ℕ, zero, suc, ◌+◌, ◌-◌, ◌*◌, ◌/◌, ◌%◌, ◌≤◌, ◌<◌, ◌≡◌, refl, ap, ◌⊎◌, inl, ◌∙◌, List, [], ◌∷◌,
  arith, ◌==◌, if◌then◌else◌, length,
}

-- One byte for each offset.
abbrev pub Bytes : Type 0
Bytes = ℕ → ℕ

pub set_byte : Bytes → ℕ → ℕ → Bytes
set_byte p o b i = if i == o then b else p i

unfoldable pub read16 : Bytes → ℕ → ℕ
read16 p o = p o + 256 * p (o + 1)

unfoldable pub read32 : Bytes → ℕ → ℕ
read32 p o = p o + 256 * p (o + 1) + 65536 * p (o + 2) + 16777216 * p (o + 3)

unfoldable pub write16 : Bytes → ℕ → ℕ → Bytes
unfolding set_byte
write16 p o v = set_byte (set_byte p o (v % 256)) (o + 1) (v / 256 % 256)

unfoldable pub write32 : Bytes → ℕ → ℕ → Bytes
unfolding write16
write32 p o v = write16 (write16 p o (v % 65536)) (o + 2) (v / 65536 % 65536)

-- memcpy into the page.
unfoldable pub copy : Bytes → ℕ → List ℕ → Bytes
unfolding set_byte
copy p o [] = p
copy p o (b ∷ bs) = copy (set_byte p o b) (o + 1) bs

-- The bytes from an offset on.
unfoldable pub slice : Bytes → ℕ → ℕ → List ℕ
slice p o zero = []
slice p o (suc n) = p o ∷ slice p (o + 1) n

-- A conversion of `a - b` to uint16_t.
unfoldable pub sub16 : ℕ → ℕ → ℕ
sub16 a b = (a + 65536 - b % 65536) % 65536

pub sub16_lem : (a b : ℕ) → b ≤ a → a < 65536 → sub16 a b ≡ a - b
unfolding sub16
sub16_lem a b h k = omega arith

-- Which bytes a write leaves alone.
abbrev pub Outside : ℕ → ℕ → ℕ → Type 0
Outside o n i = (i < o) ⊎ (o + n ≤ i)

pub write16_frame : (p : Bytes) (o v i : ℕ) → Outside o 2 i → write16 p o v i ≡ p i
unfolding write16
write16_frame p o v i h = ground arith

pub read16-write16_self : (p : Bytes) (o v : ℕ) → v < 65536 → read16 (write16 p o v) o ≡ v
unfolding write16 read16
read16-write16_self p o v h = ground arith

pub read16_cong :
    (p q : Bytes) (o : ℕ) → q o ≡ p o → q (o + 1) ≡ p (o + 1) → read16 q o ≡ read16 p o
unfolding read16
read16_cong p q o h k = ground arith

pub read16-write16_ne :
    (p : Bytes) (o v i : ℕ) → (i + 2 ≤ o) ⊎ (o + 2 ≤ i) → read16 (write16 p o v) i ≡ read16 p i
read16-write16_ne p o v i h =
    read16_cong p _ i (write16_frame p o v i (ground arith))
      (write16_frame p o v (i + 1) (ground arith))

pub copy_frame :
    (p : Bytes) (o : ℕ) (row : List ℕ) (i : ℕ) → Outside o (length row) i → copy p o row i ≡ p i
unfolding copy
copy_frame p o [] i h = refl
copy_frame p o (b ∷ bs) i h = copy_frame (set_byte p o b) (o + 1) bs i (ground arith) ∙ ground arith

pub slice_cong :
    (p q : Bytes) (o n : ℕ) → ((i : ℕ) → o ≤ i → i < o + n → q i ≡ p i) → slice q o n ≡ slice p o n
unfolding slice
slice_cong p q o zero h = refl
slice_cong p q o (suc n) h = cc (
  h o (omega arith) (omega arith),
  slice_cong p q (o + 1) n (λ i a b. h i (omega arith) (omega arith)),
)

-- What memcpy wrote is read back.
slice-copy : (p : Bytes) (o : ℕ) (row : List ℕ) → slice (copy p o row) o (length row) ≡ row
unfolding copy slice
slice-copy p o [] = refl
slice-copy p o (b ∷ bs) = cc (
  copy_frame (set_byte p o b) (o + 1) bs o (inl (omega arith)),
  first,
  slice-copy (set_byte p o b) (o + 1) bs,
)
  where
    first : set_byte p o b o ≡ b
    first = ground arith

pub slice-copy-length :
    (p : Bytes) (o : ℕ) (row : List ℕ) (n : ℕ) → length row ≡ n → slice (copy p o row) o n ≡ row
slice-copy-length p o row n h = rw (← h) (slice-copy p o row)

pub length-slice : (p : Bytes) (o n : ℕ) → length (slice p o n) ≡ n
unfolding slice
length-slice p o zero = refl
length-slice p o (suc n) = ap suc (length-slice p (o + 1) n)
