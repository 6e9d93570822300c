-- ===== src/Buffer/Evict.antt =====
-- Making room in the pool keeps every page as it is seen, and every pinned frame.
use skibidi_ql.Prelude.{
  String, ℕ, zero, suc, ◌≤◌, ◌<◌, ◌≡◌, ◌≢◌, refl, sym, ap, ◌∙◌, subst, Bool, true, false, Option,
  none, some, Outcome, ok, throws, leb, ltb, ◌&&◌, if◌then◌else◌, length, bytes_eq, Bool-cases, inl,
  inr, arith,
}
use skibidi_ql.Storage.Page.Memory.{Bytes}
use skibidi_ql.Buffer.{
  evict_victim, evict_one, make_room, go_on_evicting, PageKey, same_key, Frame, absent, Store, Pool,
  find_frame, drop_frame, find_victim, flush, write_page,
}
use skibidi_ql.Buffer.Views.{
  AllPinned, find_victim-AllPinned, on_disk, on_disk-filled, seen, view, same_key→eq, same_key_refl,
  Distinct, find-drop_self, drop-none, find-drop_other, drop-Distinct, length-drop, find_victim_lem,
}

-- One frame for a page; a clean frame is what the file holds; a page of a missing file is absent.
pub record IsPool (p : Pool) : Type 0 where
  pub distinct : Distinct p.frames
  pub clean :
      (key : PageKey) (f : Frame)
      → find_frame key p.frames ≡ some f
      → f.dirty ≡ false
      → on_disk (p.store.content key) ≡ f.bytes
  pub missing : (key : PageKey) → p.store.has_file key.file ≡ false → p.store.content key ≡ absent
  pub room : 1 ≤ p.capacity

-- The pool has changed, and nothing that its users rely on.
pub record Same (p q : Pool) : Type 0 where
  pub is_pool : IsPool q
  pub views : (key : PageKey) → view q key ≡ view p key
  pub pinned :
      (key : PageKey) (f : Frame)
      → find_frame key p.frames ≡ some f
      → f.pins ≢ 0
      → find_frame key q.frames ≡ some f
  pub gone : (key : PageKey) → find_frame key p.frames ≡ none → find_frame key q.frames ≡ none
  pub capacity_same : q.capacity ≡ p.capacity

pub Same_refl : (p : Pool) → IsPool p → Same p p
Same_refl p w = record {
  is_pool = w;
  views = λ key. refl;
  pinned = λ key f h k. h;
  gone = λ key h. h;
  capacity_same = refl;
}

pub Same_trans : (p q r : Pool) → Same p q → Same q r → Same p r
Same_trans p q r a b = record {
  is_pool = b.is_pool;
  views = λ key. b.views key ∙ a.views key;
  pinned = λ key f h k. b.pinned key f (a.pinned key f h k) k;
  gone = λ key h. b.gone key (a.gone key h);
  capacity_same = b.capacity_same ∙ a.capacity_same;
}

-- After a flush of a frame the file holds its bytes, and the other pages are as before.
pub flush-content :
    (f : Frame) (store : Store)
    → (f.dirty ≡ false → on_disk (store.content f.key) ≡ f.bytes)
    → on_disk ((flush f store).content f.key) ≡ f.bytes
unfolding flush write_page
flush-content f store h = elim (Bool-cases f.dirty) [
  | inl dirty ↦ rw (dirty, same_key_refl f.key) refl
  | inr clean ↦ rw clean (h clean)
]

pub flush-content_other :
    (f : Frame) (store : Store) (key : PageKey)
    → same_key f.key key ≡ false
    → on_disk ((flush f store).content key) ≡ on_disk (store.content key)
unfolding flush write_page
flush-content_other f store key h = elim (Bool-cases f.dirty) [
  | inl dirty ↦
      rw (dirty, h)
        (elim (Bool-cases (bytes_eq f.key.file key.file && ltb key.page f.key.page)) [
          | inl earlier ↦ rw earlier (on_disk-filled (store.content key))
          | inr later ↦ rw later refl
        ])
  | inr clean ↦ rw clean refl
]

write-missing :
    (written : PageKey) (bytes : Bytes) (store : Store)
    → ((key : PageKey) → store.has_file key.file ≡ false → store.content key ≡ absent)
    → (key : PageKey) → (write_page written bytes store).has_file key.file ≡ false
    → (write_page written bytes store).content key ≡ absent
unfolding write_page same_key
write-missing written bytes store all key h = elim (Bool-cases (bytes_eq written.file key.file)) [
  | inl same ↦ absurd (ground (arith, same, h))
  | inr differ ↦ rw differ (all key (ground (arith, differ, h)))
]

pub flush-missing :
    (f : Frame) (store : Store)
    → ((key : PageKey) → store.has_file key.file ≡ false → store.content key ≡ absent)
    → (key : PageKey) → (flush f store).has_file key.file ≡ false
    → (flush f store).content key ≡ absent
unfolding flush
flush-missing f store all key = go f.dirty
  where
    go :
        (b : Bool)
        → (if b then write_page f.key f.bytes store else store).has_file key.file ≡ false
        → (if b then write_page f.key f.bytes store else store).content key ≡ absent
    go true h = write-missing f.key f.bytes store all key h
    go false h = all key h

pub seen_cong :
    (store other : Store) (key : PageKey) (o : Option Frame)
    → on_disk (other.content key) ≡ on_disk (store.content key)
    → seen other key o ≡ seen store key o
seen_cong store other key none h = h
seen_cong store other key (some f) h = refl

module _ (p : Pool) (w : IsPool p) (f : Frame) (found : find_frame f.key p.frames ≡ some f)
    (free : f.pins ≡ 0) where
  evicted : Pool
  evicted = (evict_victim (some f) p).1

  evicted-view : (key : PageKey) → view evicted key ≡ view p key
  unfolding view evicted
  evicted-view key = elim (Bool-cases (same_key f.key key)) [
    | inl same ↦
        subst (λ (k : PageKey). view evicted k ≡ view p k) (same_key→eq f.key key same)
          (rw (find-drop_self f.key p.frames w.distinct, found)
            (flush-content f p.store (w.clean f.key f found)))
    | inr differ ↦
        ap (seen (flush f p.store) key) (find-drop_other f.key key p.frames differ)
        ∙ seen_cong p.store (flush f p.store) key (find_frame key p.frames)
            (flush-content_other f p.store key differ)
  ]

  -- A frame that is still there was there, and is not the victim.
  still :
      (key : PageKey) (g : Frame)
      → find_frame key (drop_frame f.key p.frames) ≡ some g
      → (same_key f.key key ≡ false) × (find_frame key p.frames ≡ some g)
  still key g h = elim (Bool-cases (same_key f.key key)) [
    | inr differ ↦ (differ, sym (find-drop_other f.key key p.frames differ) ∙ h)
    | inl same ↦ absurd (
        none_ne g (
          sym (
            subst (λ (k : PageKey). find_frame k (drop_frame f.key p.frames) ≡ none)
              (same_key→eq f.key key same) (find-drop_self f.key p.frames w.distinct))
          ∙ h))
  ]
    where
      none_ne : (x : Frame) → none ≡ some x → ⊥
      none_ne x e = cc

  -- A pinned frame is not the victim.
  kept :
      (key : PageKey) (g : Frame)
      → find_frame key p.frames ≡ some g
      → g.pins ≢ 0
      → find_frame key (drop_frame f.key p.frames) ≡ some g
  kept key g h pinned = elim (Bool-cases (same_key f.key key)) [
    | inr differ ↦ find-drop_other f.key key p.frames differ ∙ h
    | inl same ↦ absurd (
        pinned (
          pins_eq g (
            sym h
            ∙ sym (ap (λ (k : PageKey). find_frame k p.frames) (same_key→eq f.key key same))
            ∙ found)
          ∙ free))
  ]
    where
      pins_eq : (x : Frame) → some x ≡ some f → x.pins ≡ f.pins
      pins_eq x e = cc

  evicted-Same : Same p evicted
  unfolding evicted
  evicted-Same = record {
    is_pool = record {
      distinct = drop-Distinct f.key p.frames w.distinct;
      clean = λ key g h c.
          flush-content_other f p.store key (still key g h).0 ∙ w.clean key g (still key g h).1 c;
      missing = flush-missing f p.store w.missing;
      room = w.room;
    };
    views = evicted-view;
    pinned = kept;
    gone = λ key h. drop-none f.key key p.frames h w.distinct;
    capacity_same = refl;
  }

-- What a round of the loop leaves: the same pool with one frame less, or the pool and an error where
-- every frame is pinned.
data Round (p : Pool) : Outcome Bool × Pool → Type 0 where
  dropped :
      (q : Pool) (b : Bool) → Same p q → suc (length q.frames) ≡ length p.frames → Round p (ok b, q)
  stuck : (message : String) → AllPinned p.frames → Round p (throws message, p)

evict_one-Round : (p : Pool) → IsPool p → Round p (evict_one p)
unfolding evict_one evicted
evict_one-Round p w = go (find_victim p.frames) refl
  where
    go : (o : Option Frame) → find_victim p.frames ≡ o → Round p (evict_victim o p)
    go none h = stuck _ (find_victim-AllPinned p.frames h)
    go (some f) h =
        let (found, free) = find_victim_lem p.frames f w.distinct h in
        dropped _ true (evicted-Same p w f found free) (length-drop f.key p.frames f found)

-- What making room leaves: the same pool with room for a frame, or the same pool and an error.
pub data Roomy (p : Pool) : Outcome Bool × Pool → Type 0 where
  has_room : (q : Pool) (b : Bool) → Same p q → length q.frames < p.capacity → Roomy p (ok b, q)
  no_room :
      (q : Pool) (message : String)
      → Same p q
      → AllPinned q.frames
      → p.capacity ≤ length q.frames
      → Roomy p (throws message, q)

Roomy-after : (p q : Pool) (r : Outcome Bool × Pool) → Same p q → Roomy q r → Roomy p r
Roomy-after p q r s (has_room u b t h) =
    has_room u b (Same_trans p q u s t) (omega (arith, h, s.capacity_same))
Roomy-after p q r s (no_room u message t h k) =
    no_room u message (Same_trans p q u s t) h (omega (arith, k, s.capacity_same))

pub make_room-Roomy :
    (fuel : ℕ) (p : Pool) → IsPool p → length p.frames ≤ fuel → Roomy p (make_room fuel p)
unfolding make_room
make_room-Roomy zero p w h = has_room p true (Same_refl p w) (omega (arith, h, w.room))
make_room-Roomy (suc fuel) p w h = elim (Bool-cases (leb p.capacity (length p.frames))) [
  | inr room ↦ rw room (has_room p true (Same_refl p w) (ground (arith, room)))
  | inl full ↦ rw full (
      go (ground (arith, full)) (evict_one p) (evict_one-Round p w)
        (λ q v k. make_room-Roomy fuel q v k))
]
  where
    go :
        p.capacity ≤ length p.frames
        → (r : Outcome Bool × Pool) → Round p r
        → ((q : Pool) → IsPool q → length q.frames ≤ fuel → Roomy q (make_room fuel q))
        → Roomy p (go_on_evicting (λ q. make_room fuel q) r)
    go most r (dropped q b s k) back = Roomy-after p q _ s (back q s.is_pool (omega (arith, h, k)))
    go most r (stuck message k) back = no_room p message (Same_refl p w) k most
