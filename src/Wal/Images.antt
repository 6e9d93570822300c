-- ===== src/Wal/Images.antt =====
-- The before-images of one transaction: the first that was logged for a file is the one restored.
use skibidi_ql.Prelude.{
  ◌≡◌, refl, false, Option, none, some, [], ◌∷◌, if◌then◌else◌, negative, positive, compare_bytes,
  bytes_eq, compare_bytes_self, compare_bytes_trans, compare_bytes-opposite, inl, inr, Bool-cases,
  by_sign, Sign-cases,
}
use skibidi_ql.Wal.{FilePath, FileImage, Disk, ImageMap, emplace, restore_file, restore_images}

-- The image that is stored for a path.
unfoldable pub image_at : FilePath → ImageMap → Option FileImage
image_at p [] = none
image_at p ((q, image) ∷ m) = if bytes_eq q p then some image else image_at p m

-- The names rise along the map, and all are above `low`.
abbrev pub Above : FilePath → ImageMap → Type 0
Above low [] = Unit
Above low ((q, image) ∷ m) = (compare_bytes low q ≡ negative) × Above q m

abbrev pub IsSorted : ImageMap → Type 0
IsSorted [] = Unit
IsSorted ((q, image) ∷ m) = Above q m

abbrev pub or_else {ℓ} : {A : Type ℓ} → Option A → A → Option A
or_else none a = some a
or_else (some b) a = some b

Above-IsSorted : (q : FilePath) (m : ImageMap) → Above q m → IsSorted m
Above-IsSorted q [] w = tt
Above-IsSorted q ((r, image) ∷ m) w = w.1

abbrev pub image_or : Option FileImage → FileImage → FileImage
image_or none image = image
image_or (some other) image = other

pub restore_images_lem :
    (m : ImageMap) (disk : Disk) (p : FilePath)
    → restore_images m disk p ≡ image_or (image_at p m) (disk p)
unfolding restore_images restore_file image_at
restore_images_lem [] disk p = refl
restore_images_lem ((q, image) ∷ m) disk p = elim (Bool-cases (bytes_eq q p)) [
  | inl hit ↦ rw hit refl
  | inr miss ↦ rw miss (restore_images_lem m disk p)
]

-- A path below all names of the map has no image in it.
image_at_below :
    (p low : FilePath) (m : ImageMap)
    → compare_bytes p low ≡ negative
    → Above low m
    → image_at p m ≡ none
unfolding image_at
image_at_below p low [] h w = refl
image_at_below p low ((q, image) ∷ m) h w =
    let below = compare_bytes_trans p low q h w.0 in
    rw (compare_bytes-opposite q p, below) (image_at_below p q m below w.1)

swap_negative : (p q : FilePath) → compare_bytes p q ≡ positive → compare_bytes q p ≡ negative
swap_negative p q h = rw (compare_bytes-opposite q p, h) refl

emplace-Above :
    (low p : FilePath) (image : FileImage) (m : ImageMap)
    → compare_bytes low p ≡ negative
    → Above low m
    → Above low (emplace p image m)
unfolding emplace
emplace-Above low p image [] h w = (h, tt)
emplace-Above low p image ((q, other) ∷ m) h w = elim (Sign-cases (compare_bytes p q)) [
  | inl less ↦ rw (less, by_sign) (h, (less, w.1))
  | inr (inl same) ↦ rw (same, by_sign) w
  | inr (inr more) ↦
      rw (more, by_sign) (w.0, emplace-Above q p image m (swap_negative p q more) w.1)
]

pub emplace-IsSorted :
    (p : FilePath) (image : FileImage) (m : ImageMap) → IsSorted m → IsSorted (emplace p image m)
unfolding emplace
emplace-IsSorted p image [] w = tt
emplace-IsSorted p image ((q, other) ∷ m) w = elim (Sign-cases (compare_bytes p q)) [
  | inl less ↦ rw (less, by_sign) (less, w)
  | inr (inl same) ↦ rw (same, by_sign) w
  | inr (inr more) ↦ rw (more, by_sign) (emplace-Above q p image m (swap_negative p q more) w)
]

-- The first image for a path stays, and a new one is taken only where there was none.
pub image_at-emplace_self :
    (p : FilePath) (image : FileImage) (m : ImageMap)
    → IsSorted m
    → image_at p (emplace p image m) ≡ or_else (image_at p m) image
unfolding emplace image_at
image_at-emplace_self p image [] w = rw (compare_bytes_self p) refl
image_at-emplace_self p image ((q, other) ∷ m) w = elim (Sign-cases (compare_bytes p q)) [
  | inl less ↦
      rw
        (
          less,
          by_sign,
          compare_bytes_self p,
          compare_bytes-opposite q p,
          less,
          image_at_below p q m less w,
        )
        refl
  | inr (inl same) ↦ rw (same, by_sign, compare_bytes-opposite q p, same) refl
  | inr (inr more) ↦
      rw (more, by_sign, swap_negative p q more)
        (image_at-emplace_self p image m (Above-IsSorted q m w))
]

pub image_at-emplace_ne :
    (p j : FilePath) (image : FileImage) (m : ImageMap)
    → bytes_eq p j ≡ false
    → image_at j (emplace p image m) ≡ image_at j m
unfolding emplace image_at
image_at-emplace_ne p j image [] ne = rw ne refl
image_at-emplace_ne p j image ((q, other) ∷ m) ne = elim (Sign-cases (compare_bytes p q)) [
  | inl less ↦ rw (less, by_sign, ne) refl
  | inr (inl same) ↦ rw (same, by_sign) refl
  | inr (inr more) ↦ rw (more, by_sign, image_at-emplace_ne p j image m ne) refl
]
