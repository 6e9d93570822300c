-- ===== src/Buffer/Guard.antt =====
-- Writing a page through a guard.
use skibidi_ql.Prelude.{
  not, List, [], ◌∷◌, ◌≡◌, refl, sym, ap, ◌∙◌, subst, Bool, true, false, Option, none, some,
  if◌then◌else◌, Bool-cases, inl, inr, arith,
}
use skibidi_ql.Storage.Page.Memory.{Bytes}
use skibidi_ql.Buffer.{
  change_frame, set_bytes, mark_dirty, PageKey, same_key, Frame, Pool, find_frame,
}
use skibidi_ql.Buffer.Views.{on_disk, seen, view, same_key→eq, Distinct}
use skibidi_ql.Buffer.Evict.{IsPool}

-- The frame of the page is changed, and no other.
module _ (key : PageKey) (change : Frame → Frame)
    (keeps : (f : Frame) → (change f).key ≡ f.key) where
  find-change_self :
      (frames : List Frame) (f : Frame)
      → find_frame key frames ≡ some f
      → find_frame key (change_frame key change frames) ≡ some (change f)
  unfolding find_frame change_frame
  find-change_self [] f h = cc
  find-change_self (g ∷ frames) f h = elim (Bool-cases (same_key g.key key)) [
    | inl same ↦
        rw
          (
            same,
            subst (λ (k : PageKey). same_key k key ≡ true) (sym (keeps g)) same,
            some_eq g f (
                subst (λ (b : Bool). (if b then some g else find_frame key frames) ≡ some f) same
                  h),
          )
          refl
    | inr differ ↦
        rw (differ, differ)
          (find-change_self frames f
            (subst (λ (b : Bool). (if b then some g else find_frame key frames) ≡ some f) differ h))
  ]
    where
      some_eq : (x y : Frame) → some x ≡ some y → x ≡ y
      some_eq x y e = cc

  find-change_other :
      (other : PageKey) (frames : List Frame)
      → same_key key other ≡ false
      → find_frame other (change_frame key change frames) ≡ find_frame other frames
  unfolding find_frame change_frame
  find-change_other other [] h = refl
  find-change_other other (g ∷ frames) h = elim (Bool-cases (same_key g.key key)) [
    | inl same ↦
        let apart =
          subst (λ (k : PageKey). same_key k other ≡ false) (sym (same_key→eq g.key key same)) h in
        rw (same, apart, subst (λ (k : PageKey). same_key k other ≡ false) (sym (keeps g)) apart)
          refl
    | inr differ ↦ rw differ (elim (Bool-cases (same_key g.key other)) [
      | inl found ↦ rw found refl
      | inr later ↦ rw later (find-change_other other frames h)
    ])
  ]

  change-none :
      (other : PageKey) (frames : List Frame)
      → find_frame other frames ≡ none
      → find_frame other (change_frame key change frames) ≡ none
  unfolding find_frame change_frame
  change-none other [] h = refl
  change-none other (g ∷ frames) h = elim (Bool-cases (same_key g.key other)) [
    | inl found ↦ absurd (
        some_ne
          (subst (λ (b : Bool). (if b then some g else find_frame other frames) ≡ none) found h))
    | inr later ↦
        let rest =
          subst (λ (b : Bool). (if b then some g else find_frame other frames) ≡ none) later h in
        elim (Bool-cases (same_key g.key key)) [
          | inl same ↦
              rw (same, subst (λ (k : PageKey). same_key k other ≡ false) (sym (keeps g)) later)
                rest
          | inr differ ↦ rw (differ, later) (change-none other frames rest)
        ]
  ]
    where
      some_ne : some g ≡ none → ⊥
      some_ne e = cc

  change-Distinct :
      (frames : List Frame) → Distinct frames → Distinct (change_frame key change frames)
  unfolding change_frame Distinct
  change-Distinct [] w = tt
  change-Distinct (g ∷ frames) w = elim (Bool-cases (same_key g.key key)) [
    | inl same ↦
        rw same (subst (λ (k : PageKey). find_frame k frames ≡ none) (sym (keeps g)) w.0, w.1)
    | inr differ ↦ rw differ (change-none g.key frames w.0, change-Distinct frames w.1)
  ]

dirtied : Bytes → Frame → Frame
dirtied bytes f = record f { bytes = bytes; dirty = true }

-- Both changes in one.
change-change :
    (key : PageKey) (bytes : Bytes) (frames : List Frame)
    → change_frame key
        (λ f. record f { dirty = true })
        (change_frame key (λ f. record f { bytes = bytes }) frames)
      ≡ change_frame key (dirtied bytes) frames
unfolding change_frame dirtied
change-change key bytes [] = refl
change-change key bytes (f ∷ frames) = elim (Bool-cases (same_key f.key key)) [
  | inl same ↦ rw (same, same) refl
  | inr differ ↦ rw (differ, differ) (ap (◌∷◌ f) (change-change key bytes frames))
]

-- What writing through a guard makes of the pool.
abbrev pub written : PageKey → Bytes → Pool → Pool
written key bytes p = (mark_dirty (some key) (set_bytes (some key) bytes p).1).1

written_eq :
    (key : PageKey) (bytes : Bytes) (p : Pool)
    → written key bytes p ≡ record p { frames = change_frame key (dirtied bytes) p.frames }
unfolding set_bytes mark_dirty
written_eq key bytes p =
    ap (λ (frames : List Frame). record p { frames = frames }) (change-change key bytes p.frames)

abbrev is_clean : Option Frame → Bool
is_clean none = true
is_clean (some g) = not g.dirty

module _ (key : PageKey) (bytes : Bytes) (p : Pool) (w : IsPool p) (f : Frame)
    (found : find_frame key p.frames ≡ some f) where
  after : Pool
  after = record p { frames = change_frame key (dirtied bytes) p.frames }

  after_found : find_frame key (change_frame key (dirtied bytes) p.frames) ≡ some (dirtied bytes f)
  unfolding dirtied
  after_found = find-change_self key (dirtied bytes) (λ g. refl) p.frames f found

  after_other :
      (other : PageKey)
      → same_key key other ≡ false
      → find_frame other (change_frame key (dirtied bytes) p.frames) ≡ find_frame other p.frames
  unfolding dirtied
  after_other other differ = find-change_other key (dirtied bytes) (λ g. refl) other p.frames differ

  after_clean :
      (other : PageKey) (g : Frame)
      → find_frame other (change_frame key (dirtied bytes) p.frames) ≡ some g
      → g.dirty ≡ false
      → on_disk (p.store.content other) ≡ g.bytes
  unfolding dirtied
  after_clean other g h c = elim (Bool-cases (same_key key other)) [
    | inr differ ↦ w.clean other g (sym (after_other other differ) ∙ h) c
    | inl same ↦ absurd (
        clash (
          sym after_found
          ∙ ap (λ (k : PageKey). find_frame k (change_frame key (dirtied bytes) p.frames))
              (same_key→eq key other same)
          ∙ h))
  ]
    where
      clash : some (dirtied bytes f) ≡ some g → ⊥
      clash e = ground (arith, c, ap is_clean e)

  after-IsPool : IsPool after
  unfolding after dirtied
  after-IsPool = record {
    distinct = change-Distinct key (dirtied bytes) (λ g. refl) p.frames w.distinct;
    clean = after_clean;
    missing = w.missing;
    room = w.room;
  }

  after-view :
      (other : PageKey) → view after other ≡ (if same_key key other then bytes else view p other)
  unfolding view after dirtied
  after-view other = elim (Bool-cases (same_key key other)) [
    | inl same ↦ rw same (
        subst (λ (k : PageKey). view after k ≡ bytes) (same_key→eq key other same)
          (ap (seen p.store key) after_found))
    | inr differ ↦ rw differ (ap (seen p.store other) (after_other other differ))
  ]

-- In a pool where no page has two frames and clean frames are what the files hold, writing to the
-- frame of a page and marking it dirty keeps that so. The page is then seen with the new bytes, and
-- every other page as before.
pub set_bytes_lem :
    (key : PageKey) (bytes : Bytes) (p : Pool) (f : Frame)
    → IsPool p
    → find_frame key p.frames ≡ some f
    → IsPool (written key bytes p)
      × ((other : PageKey)
          → view (written key bytes p) other ≡ (if same_key key other then bytes else view p other))
unfolding after
set_bytes_lem key bytes p f w found =
    subst
      (λ (q : Pool).
        IsPool q
        × ((other : PageKey) → view q other ≡ (if same_key key other then bytes else view p other)))
      (sym (written_eq key bytes p))
      (after-IsPool key bytes p w f found, after-view key bytes p w f found)
