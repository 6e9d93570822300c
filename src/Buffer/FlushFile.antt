-- ===== src/Buffer/FlushFile.antt =====
-- What flushFile leaves on file and in the pool.
use skibidi_ql.Prelude.{
  ℕ, ◌≡◌, refl, sym, ap, ◌∙◌, subst, bytes_eq, bytes_eq→eq, true, false, Option, none, some, List,
  [], ◌∷◌, Bool-cases, inl, inr, if◌then◌else◌,
}
use skibidi_ql.Buffer.{
  flush_of, flush_file_frames, flush_file, PageKey, same_key, Frame, absent, Store, Pool,
  find_frame, flush, write_page,
}
use skibidi_ql.Buffer.Views.{on_disk, seen, view, same_key→eq, same_key_refl, Distinct, find-key}
use skibidi_ql.Buffer.Evict.{IsPool, flush-content, flush-content_other, flush-missing, seen_cong}
use skibidi_ql.Buffer.Flush.{some_first, other_page}

flush_of-same :
    (file : List ℕ) (f : Frame) (store : Store) (key : PageKey)
    → ((flush_of file f store).0.key ≡ f.key)
      × ((flush_of file f store).0.bytes ≡ f.bytes)
      × (same_key f.key key ≡ false
          → on_disk ((flush_of file f store).1.content key) ≡ on_disk (store.content key))
flush_of-same file f store key = elim (Bool-cases (bytes_eq f.key.file file)) [
  | inl ours ↦ rw ours (refl, refl, λ h. flush-content_other f store key h)
  | inr other ↦ rw other (refl, refl, λ h. refl)
]

flush_file_frames-seen :
    (file : List ℕ) (frames : List Frame) (store : Store) (key : PageKey)
    → seen
        (flush_file_frames file frames store).1
        key
        (find_frame key (flush_file_frames file frames store).0)
      ≡ seen store key (find_frame key frames)
unfolding flush_file_frames find_frame
flush_file_frames-seen file [] store key = refl
flush_file_frames-seen file (f ∷ frames) store key =
    let (named, bytes, content) = flush_of-same file f store key in
    elim (Bool-cases (same_key f.key key)) [
      | inl same ↦ rw (same, subst (λ (k : PageKey). same_key k key ≡ true) (sym named) same) bytes
      | inr differ ↦
          rw (differ, subst (λ (k : PageKey). same_key k key ≡ false) (sym named) differ)
            (flush_file_frames-seen file frames (flush_of file f store).1 key
              ∙ seen_cong store (flush_of file f store).1 key (find_frame key frames)
                  (content differ))
    ]

-- A frame that flushFile has gone over.
abbrev settled : List ℕ → Frame → Frame
settled file f = if bytes_eq f.key.file file then record f { dirty = false } else f

settled-bytes : (file : List ℕ) (f : Frame) → (settled file f).bytes ≡ f.bytes
settled-bytes file f = elim (Bool-cases (bytes_eq f.key.file file)) [
  | inl ours ↦ rw ours refl
  | inr other ↦ rw other refl
]

settled-away : (file : List ℕ) (f : Frame) → bytes_eq f.key.file file ≡ false → settled file f ≡ f
settled-away file f h = rw h refl

flush_of-settled :
    (file : List ℕ) (f : Frame) (store : Store) → (flush_of file f store).0 ≡ settled file f
flush_of-settled file f store = elim (Bool-cases (bytes_eq f.key.file file)) [
  | inl ours ↦ rw ours refl
  | inr other ↦ rw other refl
]

abbrev settled_option : List ℕ → Option Frame → Option Frame
settled_option file none = none
settled_option file (some f) = some (settled file f)

find-flush_file_frames :
    (file : List ℕ) (frames : List Frame) (store : Store) (key : PageKey)
    → find_frame key (flush_file_frames file frames store).0
      ≡ settled_option file (find_frame key frames)
unfolding flush_file_frames find_frame
find-flush_file_frames file [] store key = refl
find-flush_file_frames file (f ∷ frames) store key =
    let (named, bytes, content) = flush_of-same file f store key in
    elim (Bool-cases (same_key f.key key)) [
      | inl same ↦
          rw (same, subst (λ (k : PageKey). same_key k key ≡ true) (sym named) same)
            (ap some (flush_of-settled file f store))
      | inr differ ↦
          rw (differ, subst (λ (k : PageKey). same_key k key ≡ false) (sym named) differ)
            (find-flush_file_frames file frames (flush_of file f store).1 key)
    ]

flush_file_frames-Distinct :
    (file : List ℕ) (frames : List Frame) (store : Store)
    → Distinct frames
    → Distinct (flush_file_frames file frames store).0
unfolding flush_file_frames Distinct
flush_file_frames-Distinct file [] store w = tt
flush_file_frames-Distinct file (f ∷ frames) store w =
    let (named, bytes, content) = flush_of-same file f store f.key in
    (
      subst
          (λ (k : PageKey).
            find_frame k (flush_file_frames file frames (flush_of file f store).1).0 ≡ none)
          (sym named)
          (find-flush_file_frames file frames (flush_of file f store).1 f.key
            ∙ ap (settled_option file) w.0),
      flush_file_frames-Distinct file frames (flush_of file f store).1 w.1,
    )

-- What flush does to a page of another file.
flush-content_elsewhere :
    (f : Frame) (store : Store) (key : PageKey)
    → bytes_eq f.key.file key.file ≡ false
    → (flush f store).content key ≡ store.content key
unfolding flush write_page same_key
flush-content_elsewhere f store key h = elim (Bool-cases f.dirty) [
  | inl dirty ↦ rw (dirty, h) refl
  | inr clean ↦ rw clean refl
]

other_file :
    (file own key_file : List ℕ)
    → bytes_eq own file ≡ true
    → bytes_eq key_file file ≡ false
    → bytes_eq own key_file ≡ false
other_file file own key_file ours h = elim (Bool-cases (bytes_eq own key_file)) [
  | inr differ ↦ differ
  | inl same ↦
      cc (h, subst (λ (x : List ℕ). bytes_eq x file ≡ true) (bytes_eq→eq own key_file same) ours)
]

flush_file_frames-elsewhere :
    (file : List ℕ) (frames : List Frame) (store : Store) (key : PageKey)
    → bytes_eq key.file file ≡ false
    → (flush_file_frames file frames store).1.content key ≡ store.content key
unfolding flush_file_frames
flush_file_frames-elsewhere file [] store key h = refl
flush_file_frames-elsewhere file (f ∷ frames) store key h =
    flush_file_frames-elsewhere file frames (flush_of file f store).1 key h
    ∙ elim (Bool-cases (bytes_eq f.key.file file)) [
      | inl ours ↦
          rw ours (flush-content_elsewhere f store key (other_file file f.key.file key.file ours h))
      | inr other ↦ rw other refl
    ]

flush_file_frames-missing :
    (file : List ℕ) (frames : List Frame) (store : Store)
    → ((key : PageKey) → store.has_file key.file ≡ false → store.content key ≡ absent)
    → (key : PageKey) → (flush_file_frames file frames store).1.has_file key.file ≡ false
    → (flush_file_frames file frames store).1.content key ≡ absent
unfolding flush_file_frames
flush_file_frames-missing file [] store all key h = all key h
flush_file_frames-missing file (f ∷ frames) store all key h =
    flush_file_frames-missing file frames (flush_of file f store).1 here key h
  where
    here :
        (other : PageKey)
        → (flush_of file f store).1.has_file other.file ≡ false
        → (flush_of file f store).1.content other ≡ absent
    here other = elim (Bool-cases (bytes_eq f.key.file file)) [
      | inl ours ↦ rw ours (flush-missing f store all other)
      | inr away ↦ rw away (all other)
    ]

flush_of-written :
    (file : List ℕ) (f : Frame) (store : Store)
    → bytes_eq f.key.file file ≡ true
    → (f.dirty ≡ false → on_disk (store.content f.key) ≡ f.bytes)
    → on_disk ((flush_of file f store).1.content f.key) ≡ f.bytes
flush_of-written file f store ours h = rw ours (flush-content f store h)

-- The pages of the file are then on file as they were seen.
flush_file_frames-written :
    (file : List ℕ) (frames : List Frame) (store : Store)
    → Distinct frames
    → ((key : PageKey) (f : Frame)
        → find_frame key frames ≡ some f
        → f.dirty ≡ false
        → on_disk (store.content key) ≡ f.bytes)
    → (key : PageKey) → bytes_eq key.file file ≡ true
    → on_disk ((flush_file_frames file frames store).1.content key)
      ≡ seen store key (find_frame key frames)
unfolding flush_file_frames find_frame Distinct
flush_file_frames-written file [] store w clean key ours = refl
flush_file_frames-written file (f ∷ frames) store w clean key ours =
    flush_file_frames-written file frames (flush_of file f store).1 w.1 later key ours
    ∙ elim (Bool-cases (same_key f.key key)) [
      | inl same ↦ rw same (
          subst (λ (k : PageKey). seen (flush_of file f store).1 k (find_frame k frames) ≡ f.bytes)
            (same_key→eq f.key key same)
            (ap (seen (flush_of file f store).1 f.key) w.0
              ∙ flush_of-written file f store
                  (subst (λ (k : PageKey). bytes_eq k.file file ≡ true)
                    (sym (same_key→eq f.key key same)) ours)
                  (clean f.key f (rw (same_key_refl f.key) refl))))
      | inr differ ↦ rw differ (
          seen_cong store (flush_of file f store).1 key (find_frame key frames)
            ((flush_of-same file f store key).2 differ))
    ]
  where
    later :
        (other : PageKey) (g : Frame)
        → find_frame other frames ≡ some g
        → g.dirty ≡ false
        → on_disk ((flush_of file f store).1.content other) ≡ g.bytes
    later other g h c =
        let differ = other_page f frames other g w.0 h in
        (flush_of-same file f store other).2 differ
        ∙ clean other g (some_first f frames other differ ∙ h) c

module _ (file : List ℕ) (p : Pool) (w : IsPool p) where
  -- A clean frame of the pool after flushFile is what the file holds.
  clean_after :
      (key : PageKey) (g : Frame)
      → find_frame key (flush_file_frames file p.frames p.store).0 ≡ some g
      → g.dirty ≡ false
      → on_disk ((flush_file_frames file p.frames p.store).1.content key) ≡ g.bytes
  clean_after key g h c =
      go (find_frame key p.frames) refl (sym (find-flush_file_frames file p.frames p.store key) ∙ h)
    where
      settled_eq : (f : Frame) → some (settled file f) ≡ some g → settled file f ≡ g
      settled_eq f e = cc

      go :
          (o : Option Frame)
          → find_frame key p.frames ≡ o
          → settled_option file o ≡ some g
          → on_disk ((flush_file_frames file p.frames p.store).1.content key) ≡ g.bytes
      go none found e = cc
      go (some f) found e = elim (Bool-cases (bytes_eq key.file file)) [
        | inl ours ↦
            flush_file_frames-written file p.frames p.store w.distinct w.clean key ours
            ∙ ap (seen p.store key) found
            ∙ sym (settled-bytes file f)
            ∙ ap (λ (x : Frame). x.bytes) (settled_eq f e)
        | inr away ↦
            let same =
              sym (
                settled-away file f (
                  subst (λ (k : PageKey). bytes_eq k.file file ≡ false)
                    (sym (find-key key p.frames f found)) away))
              ∙ settled_eq f e in
            ap on_disk (flush_file_frames-elsewhere file p.frames p.store key away)
            ∙ w.clean key f found (ap (λ (x : Frame). x.dirty) same ∙ c)
            ∙ ap (λ (x : Frame). x.bytes) same
      ]

-- In a pool where no page has two frames and clean frames are what the files hold, flushFile keeps
-- that so and changes no page as it is seen. Every page of the file is then on file as it is seen, also
-- the pages that are not in the pool, and what is on file of other files is as before.
pub flush_file_lem :
    (file : List ℕ) (p : Pool)
    → IsPool p
    → IsPool (flush_file file p)
      × ((key : PageKey) → view (flush_file file p) key ≡ view p key)
      × ((key : PageKey)
          → bytes_eq key.file file ≡ true
          → on_disk ((flush_file file p).store.content key) ≡ view p key)
      × ((key : PageKey)
          → bytes_eq key.file file ≡ false
          → (flush_file file p).store.content key ≡ p.store.content key)
unfolding flush_file view
flush_file_lem file p w = (
  record {
    distinct = flush_file_frames-Distinct file p.frames p.store w.distinct;
    clean = clean_after file p w;
    missing = flush_file_frames-missing file p.frames p.store w.missing;
    room = w.room;
  },
  λ key. flush_file_frames-seen file p.frames p.store key,
  λ key. flush_file_frames-written file p.frames p.store w.distinct w.clean key,
  λ key. flush_file_frames-elsewhere file p.frames p.store key,
)
