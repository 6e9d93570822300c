-- ===== src/Wal/Replay.antt =====
-- What recovery makes of a log whose records are all of one transaction.
use skibidi_ql.Prelude.{
  ℕ, ◌≡◌, ◌≢◌, refl, ap, ◌∙◌, Bool, true, false, List, [], ◌∷◌, ◌++◌, arith, if◌then◌else◌, All,
  ==_refl, le→ltb,
}
use skibidi_ql.Wal.{
  FilePath, FileImage, Disk, Entry, Transaction, fresh, apply_record, update_transaction,
  collect_transactions, restore_images, undo,
}
use skibidi_ql.Wal.Images.{image_at, restore_images_lem, image_or}

-- The records of one transaction, applied in order.
unfoldable pub apply_all : List Entry → Transaction → Transaction
apply_all [] t = t
apply_all (e ∷ es) t = apply_all es (apply_record e t)

pub apply_all-append :
    (es : List Entry) (e : Entry) (t : Transaction)
    → apply_all (es ++ e ∷ []) t ≡ apply_record e (apply_all es t)
unfolding apply_all
apply_all-append [] e t = refl
apply_all-append (x ∷ es) e t = apply_all-append es e (apply_record x t)

abbrev pub Belongs : ℕ → List Entry → Type 0
Belongs t = All (λ e. e.transaction ≡ t)

pub Belongs-append :
    (t : ℕ) (es : List Entry) (e : Entry)
    → Belongs t es
    → e.transaction ≡ t
    → Belongs t (es ++ e ∷ [])
Belongs-append t [] e h k = (k, tt)
Belongs-append t (x ∷ es) e h k = (h.0, Belongs-append t es e h.1 k)

update_same :
    (e : Entry) (t : ℕ) (x : Transaction)
    → e.transaction ≡ t
    → update_transaction e ((t, x) ∷ []) ≡ (t, apply_record e x) ∷ []
unfolding update_transaction
update_same e t x h = rw (h, le→ltb t t (omega arith), ==_refl t) refl

collect_same :
    (es : List Entry) (t : ℕ) (x : Transaction)
    → Belongs t es
    → collect_transactions es ((t, x) ∷ []) ≡ (t, apply_all es x) ∷ []
unfolding collect_transactions apply_all
collect_same [] t x h = refl
collect_same (e ∷ es) t x h = rw (update_same e t x h.0) (collect_same es t (apply_record e x) h.1)

if_at : (b : Bool) (f g : Disk) (p : FilePath) → (if b then f else g) p ≡ (if b then f p else g p)
if_at true f g p = refl
if_at false f g p = refl

-- What recovery makes of a log of one transaction.
unfoldable pub undo_one : Transaction → Disk → FilePath → FileImage
undo_one x disk p = if x.committed then disk p else image_or (image_at p x.before_images) (disk p)

undo_single :
    (t : ℕ) (x : Transaction) (disk : Disk) (p : FilePath)
    → undo ((t, x) ∷ []) disk p ≡ undo_one x disk p
unfolding undo undo_one
undo_single t x disk p =
    if_at x.committed disk (restore_images x.before_images disk) p
    ∙ rw (restore_images_lem x.before_images disk p) refl

collect_cons :
    (e : Entry) (es : List Entry) (t : ℕ)
    → Belongs t (e ∷ es)
    → collect_transactions (e ∷ es) [] ≡ (t, apply_all (e ∷ es) fresh) ∷ []
unfolding collect_transactions update_transaction apply_all
collect_cons e es t h =
    ap (λ n. collect_transactions es ((n, apply_record e fresh) ∷ [])) h.0
    ∙ collect_same es t (apply_record e fresh) h.1

pub undo_lem :
    (es : List Entry) (t : ℕ) (disk : Disk)
    → Belongs t es
    → es ≢ []
    → (p : FilePath)
    → undo (collect_transactions es []) disk p ≡ undo_one (apply_all es fresh) disk p
undo_lem [] t disk h ne p = absurd (ne refl)
undo_lem (e ∷ es) t disk h ne p =
    rw (collect_cons e es t h) (undo_single t (apply_all (e ∷ es) fresh) disk p)
