-- ===== src/Buffer/Front.antt =====
-- The pool with a frame at its front for a page that has no other.
use skibidi_ql.Prelude.{
  ℕ, ◌≡◌, refl, sym, ap, ◌∙◌, subst, true, false, none, some, List, ◌∷◌, Bool-cases, inl, inr,
}
use skibidi_ql.Buffer.{PageKey, same_key, Frame, Pool, find_frame}
use skibidi_ql.Buffer.Views.{on_disk, seen, view, same_key→eq, same_key_refl, Distinct}
use skibidi_ql.Buffer.Evict.{IsPool}

-- A frame for a page is put in front of frames that have none for it.
module _ (p : Pool) (w : IsPool p) (key : PageKey) (g : Frame) (frames : List Frame) (reads : ℕ)
    (named : g.key ≡ key) (new : find_frame key frames ≡ none) (distinct : Distinct frames)
    (rest : (other : PageKey)
      → same_key key other ≡ false
      → find_frame other frames ≡ find_frame other p.frames)
    (clean : g.dirty ≡ false → on_disk (p.store.content key) ≡ g.bytes)
    (bytes_seen : view p key ≡ g.bytes) where
  unfoldable pub front : Pool
  front = record p { frames = g ∷ frames; page_reads = reads }

  pub front_found : find_frame key (g ∷ frames) ≡ some g
  unfolding find_frame
  front_found =
      rw (subst (λ (k : PageKey). same_key g.key k ≡ true) named (same_key_refl g.key)) refl

  pub front_other :
      (other : PageKey)
      → same_key key other ≡ false
      → find_frame other (g ∷ frames) ≡ find_frame other p.frames
  unfolding find_frame
  front_other other differ =
      rw (subst (λ (k : PageKey). same_key k other ≡ false) (sym named) differ) (rest other differ)

  pub front_views : (other : PageKey) → view front other ≡ view p other
  unfolding front view
  front_views other = elim (Bool-cases (same_key key other)) [
    | inl same ↦
        subst (λ (k : PageKey). view front k ≡ view p k) (same_key→eq key other same)
          (ap (seen p.store key) front_found ∙ sym bytes_seen)
    | inr differ ↦ ap (seen p.store other) (front_other other differ)
  ]

  front_clean :
      (other : PageKey) (f : Frame)
      → find_frame other (g ∷ frames) ≡ some f
      → f.dirty ≡ false
      → on_disk (p.store.content other) ≡ f.bytes
  front_clean other f h c = elim (Bool-cases (same_key key other)) [
    | inl same ↦
        subst (λ (k : PageKey). on_disk (p.store.content k) ≡ f.bytes) (same_key→eq key other same)
          (subst (λ (x : Frame). on_disk (p.store.content key) ≡ x.bytes) (is_front same)
            (clean (ap (λ (x : Frame). x.dirty) (is_front same) ∙ c)))
    | inr differ ↦ w.clean other f (sym (front_other other differ) ∙ h) c
  ]
    where
      some_eq : some g ≡ some f → g ≡ f
      some_eq e = cc

      is_front : same_key key other ≡ true → g ≡ f
      is_front same = some_eq (
          sym front_found
          ∙ ap (λ (k : PageKey). find_frame k (g ∷ frames)) (same_key→eq key other same)
          ∙ h)

  pub front-IsPool : IsPool front
  unfolding front Distinct
  front-IsPool = record {
    distinct = (subst (λ (k : PageKey). find_frame k frames ≡ none) (sym named) new, distinct);
    clean = front_clean;
    missing = w.missing;
    room = w.room;
  }
