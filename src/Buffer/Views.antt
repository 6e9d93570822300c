-- ===== src/Buffer/Views.antt =====
-- What is read of a page through the pool.
use skibidi_ql.Prelude.{
  suc, ◌≡◌, ◌≢◌, refl, sym, ◌∙◌, subst, Bool, true, false, Option, none, some, List, [], ◌∷◌, ◌==◌,
  if◌then◌else◌, length, bytes_eq_self, bytes_eq→eq, ==_refl, eqb→eq, Bool-cases, inl, inr, arith,
}
use mathlib.Core.Path.{ap₂}
use skibidi_ql.Storage.Page.Memory.{Bytes}
use skibidi_ql.Storage.Page.{zeros}
use skibidi_ql.Buffer.{
  PageKey, same_key, Frame, Stored, absent, partial, whole, Store, Pool, find_frame, drop_frame,
  find_victim, victim_or, filled,
}

-- The bytes of a page on file, zeros behind the end of the file, also where the file ends within the
-- page and a read throws.
abbrev pub on_disk : Stored → Bytes
on_disk absent = zeros
on_disk (partial bytes) = bytes
on_disk (whole bytes) = bytes

pub on_disk-filled : (c : Stored) → on_disk (filled c) ≡ on_disk c
on_disk-filled absent = refl
on_disk-filled (partial bytes) = refl
on_disk-filled (whole bytes) = refl

abbrev pub seen : Store → PageKey → Option Frame → Bytes
seen store key none = on_disk (store.content key)
seen store key (some f) = f.bytes

unfoldable pub view : Pool → PageKey → Bytes
view p key = seen p.store key (find_frame key p.frames)

pub same_key→eq : (a b : PageKey) → same_key a b ≡ true → a ≡ b
unfolding same_key
same_key→eq a b h =
    ap₂ (λ f n. record { file = f; page = n }) (bytes_eq→eq a.file b.file (ground (arith, h)))
      (ground (arith, h))

pub same_key_refl : (a : PageKey) → same_key a a ≡ true
unfolding same_key
same_key_refl a = rw (bytes_eq_self a.file, ==_refl a.page) refl

-- No two frames are of one page.
unfoldable pub Distinct : List Frame → Type 0
Distinct [] = Unit
Distinct (f ∷ frames) = (find_frame f.key frames ≡ none) × Distinct frames

pub find-drop_self :
    (key : PageKey) (frames : List Frame)
    → Distinct frames
    → find_frame key (drop_frame key frames) ≡ none
unfolding find_frame drop_frame Distinct
find-drop_self key [] w = refl
find-drop_self key (f ∷ frames) w = elim (Bool-cases (same_key f.key key)) [
  | inl same ↦
      rw same (subst (λ (k : PageKey). find_frame k frames ≡ none) (same_key→eq f.key key same) w.0)
  | inr other ↦ rw (other, other) (find-drop_self key frames w.1)
]

pub find-drop_other :
    (key other : PageKey) (frames : List Frame)
    → same_key key other ≡ false
    → find_frame other (drop_frame key frames) ≡ find_frame other frames
unfolding find_frame drop_frame
find-drop_other key other [] h = refl
find-drop_other key other (f ∷ frames) h = elim (Bool-cases (same_key f.key key)) [
  | inl same ↦
      rw
        (
          same,
          subst (λ (k : PageKey). same_key k other ≡ false) (sym (same_key→eq f.key key same)) h,
        )
        refl
  | inr differ ↦ rw differ (elim (Bool-cases (same_key f.key other)) [
    | inl found ↦ rw found refl
    | inr later ↦ rw later (find-drop_other key other frames h)
  ])
]

-- A frame that is not there is not there without another.
pub drop-none :
    (key other : PageKey) (frames : List Frame)
    → find_frame other frames ≡ none
    → Distinct frames
    → find_frame other (drop_frame key frames) ≡ none
drop-none key other frames h w = elim (Bool-cases (same_key key other)) [
  | inl same ↦
      subst (λ (k : PageKey). find_frame k (drop_frame key frames) ≡ none)
        (same_key→eq key other same) (find-drop_self key frames w)
  | inr differ ↦ find-drop_other key other frames differ ∙ h
]

pub drop-Distinct :
    (key : PageKey) (frames : List Frame) → Distinct frames → Distinct (drop_frame key frames)
unfolding drop_frame Distinct
drop-Distinct key [] w = tt
drop-Distinct key (f ∷ frames) w = elim (Bool-cases (same_key f.key key)) [
  | inl same ↦ rw same w.1
  | inr differ ↦ rw differ (drop-none key f.key frames w.0 w.1, drop-Distinct key frames w.1)
]

pub length-drop :
    (key : PageKey) (frames : List Frame) (f : Frame)
    → find_frame key frames ≡ some f
    → suc (length (drop_frame key frames)) ≡ length frames
unfolding find_frame drop_frame
length-drop key [] f h = cc
length-drop key (g ∷ frames) f h = elim (Bool-cases (same_key g.key key)) [
  | inl same ↦ rw same refl
  | inr differ ↦ rw differ (
      omega (
        arith,
        length-drop key frames f
            (subst (λ (b : Bool). (if b then some g else find_frame key frames) ≡ some f) differ h),
      ))
]

-- The frame that is found is of the key.
pub find-key :
    (key : PageKey) (frames : List Frame) (f : Frame) → find_frame key frames ≡ some f → f.key ≡ key
unfolding find_frame
find-key key [] f h = cc
find-key key (g ∷ frames) f h = elim (Bool-cases (same_key g.key key)) [
  | inl same ↦
      let here =
        subst (λ (b : Bool). (if b then some g else find_frame key frames) ≡ some f) same h in
      subst (λ (x : Frame). x.key ≡ key) (some_eq g f here) (same_key→eq g.key key same)
  | inr differ ↦
      find-key key frames f
        (subst (λ (b : Bool). (if b then some g else find_frame key frames) ≡ some f) differ h)
]
  where
    some_eq : (x y : Frame) → some x ≡ some y → x ≡ y
    some_eq x y e = cc

-- Every frame is pinned.
unfoldable pub AllPinned : List Frame → Type 0
AllPinned [] = Unit
AllPinned (f ∷ frames) = (f.pins ≢ 0) × AllPinned frames

pub find_victim-AllPinned : (frames : List Frame) → find_victim frames ≡ none → AllPinned frames
unfolding find_victim AllPinned
find_victim-AllPinned [] h = tt
find_victim-AllPinned (f ∷ frames) h =
    go (find_victim frames) h (λ e. find_victim-AllPinned frames e)
  where
    pinned : (b : Bool) → (f.pins == 0) ≡ b → (if b then some f else none) ≡ none → f.pins ≢ 0
    pinned true e k = cc
    pinned false e k = λ free. ground (arith, e, free)

    go :
        (o : Option Frame)
        → victim_or f o ≡ none
        → (o ≡ none → AllPinned frames)
        → (f.pins ≢ 0) × AllPinned frames
    go (some v) k rest = cc
    go none k rest = (pinned (f.pins == 0) refl k, rest refl)

-- The victim is a frame of the pool, without pins.
pub find_victim_lem :
    (frames : List Frame) (f : Frame)
    → Distinct frames
    → find_victim frames ≡ some f
    → (find_frame f.key frames ≡ some f) × (f.pins ≡ 0)
unfolding find_victim find_frame Distinct
find_victim_lem [] f w h = cc
find_victim_lem (g ∷ frames) f w h =
    go (find_victim frames) h (λ v e. find_victim_lem frames v w.1 e)
  where
    alone : (v : Frame) → find_frame v.key frames ≡ some v → same_key g.key v.key ≡ false
    alone v e = elim (Bool-cases (same_key g.key v.key)) [
      | inr differ ↦ differ
      | inl same ↦ absurd (
          none_ne_some v (
            sym (
              subst (λ (k : PageKey). find_frame k frames ≡ none) (same_key→eq g.key v.key same)
                w.0)
            ∙ e))
    ]
      where
        none_ne_some : (x : Frame) → none ≡ some x → ⊥
        none_ne_some x e = cc

    some_eq : (x y : Frame) → some x ≡ some y → x ≡ y
    some_eq x y e = cc

    go :
        (o : Option Frame)
        → victim_or g o ≡ some f
        → ((v : Frame) → o ≡ some v → (find_frame v.key frames ≡ some v) × (v.pins ≡ 0))
        → (find_frame f.key (g ∷ frames) ≡ some f) × (f.pins ≡ 0)
    go (some v) k back =
        let (found, free) = back v refl in
        subst (λ (x : Frame). (find_frame x.key (g ∷ frames) ≡ some x) × (x.pins ≡ 0))
          (some_eq v f k) (rw (alone v found) found, free)
    go none k back = elim (Bool-cases (g.pins == 0)) [
      | inl free ↦
          subst (λ (x : Frame). (find_frame x.key (g ∷ frames) ≡ some x) × (x.pins ≡ 0))
            (some_eq g f (subst (λ (b : Bool). (if b then some g else none) ≡ some f) free k))
            (rw (same_key_refl g.key) refl, eqb→eq g.pins 0 free)
      | inr pinned ↦
          absurd (none_ne f (subst (λ (b : Bool). (if b then some g else none) ≡ some f) pinned k))
    ]
      where
        none_ne : (x : Frame) → none ≡ some x → ⊥
        none_ne x e = cc
