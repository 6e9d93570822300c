-- ===== src/Buffer/Flush.antt =====
-- What flushAll leaves on file and in the pool.
use skibidi_ql.Prelude.{
  ◌≡◌, refl, sym, ap, ◌∙◌, subst, false, none, some, List, [], ◌∷◌, Bool-cases, inl, inr,
}
use skibidi_ql.Buffer.{
  flush_frames, flush_all, PageKey, same_key, Frame, Store, Pool, find_frame, flush,
}
use skibidi_ql.Buffer.Views.{on_disk, seen, view, same_key→eq, same_key_refl, Distinct}
use skibidi_ql.Buffer.Evict.{IsPool, flush-content, flush-content_other, seen_cong}

pub none_ne_some : (x : Frame) → none ≡ some x → ⊥
none_ne_some x e = cc

pub some_first :
    (f : Frame) (frames : List Frame) (key : PageKey)
    → same_key f.key key ≡ false
    → find_frame key (f ∷ frames) ≡ find_frame key frames
unfolding find_frame
some_first f frames key h = rw h refl

-- A frame behind the first one is of another page.
pub other_page :
    (f : Frame) (frames : List Frame) (key : PageKey) (g : Frame)
    → find_frame f.key frames ≡ none
    → find_frame key frames ≡ some g
    → same_key f.key key ≡ false
other_page f frames key g gone h = elim (Bool-cases (same_key f.key key)) [
  | inr differ ↦ differ
  | inl same ↦ absurd (
      none_ne_some g (
        sym (subst (λ (k : PageKey). find_frame k frames ≡ none) (same_key→eq f.key key same) gone)
        ∙ h))
]

flush_frames-seen :
    (frames : List Frame) (store : Store)
    → Distinct frames
    → ((key : PageKey) (f : Frame)
        → find_frame key frames ≡ some f
        → f.dirty ≡ false
        → on_disk (store.content key) ≡ f.bytes)
    → (key : PageKey)
    → on_disk ((flush_frames frames store).1.content key) ≡ seen store key (find_frame key frames)
unfolding flush_frames find_frame Distinct
flush_frames-seen [] store w clean key = refl
flush_frames-seen (f ∷ frames) store w clean key =
    flush_frames-seen frames (flush f store) w.1 later key
    ∙ elim (Bool-cases (same_key f.key key)) [
      | inl same ↦ rw same (
          subst (λ (k : PageKey). seen (flush f store) k (find_frame k frames) ≡ f.bytes)
            (same_key→eq f.key key same)
            (ap (seen (flush f store) f.key) w.0
              ∙ flush-content f store (clean f.key f (rw (same_key_refl f.key) refl))))
      | inr differ ↦ rw differ (
          seen_cong store (flush f store) key (find_frame key frames)
            (flush-content_other f store key differ))
    ]
  where
    later :
        (other : PageKey) (g : Frame)
        → find_frame other frames ≡ some g
        → g.dirty ≡ false
        → on_disk ((flush f store).content other) ≡ g.bytes
    later other g h c =
        let differ = other_page f frames other g w.0 h in
        flush-content_other f store other differ
        ∙ clean other g (some_first f frames other differ ∙ h) c

-- In a pool where no page has two frames and clean frames are what the files hold, flushAll leaves on
-- file every page as it was seen, also the pages that are not in the pool.
pub flush_all_lem :
    (p : Pool) (key : PageKey) → IsPool p → on_disk ((flush_all p).store.content key) ≡ view p key
unfolding flush_all view
flush_all_lem p key w = flush_frames-seen p.frames p.store w.distinct w.clean key
