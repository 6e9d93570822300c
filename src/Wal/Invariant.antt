-- ===== src/Wal/Invariant.antt =====
-- What the steps of a transaction keep of its log and its files.
use skibidi_ql.Prelude.{
  ℕ, ◌==◌, ◌∙◌, ◌≡◌, ◌≢◌, refl, sym, ap, ◌∙◌, true, false, none, some, List, [], ◌∷◌, ◌++◌,
  bytes_eq, bytes_eq→eq, inl, inr, Bool-cases, subst,
}
use skibidi_ql.Wal.{
  FilePath, FileImage, Disk, Entry, Transaction, fresh, begin, log_before, apply_record,
  restore_file, emplace,
}
use skibidi_ql.Wal.Images.{
  image_at, IsSorted, emplace-IsSorted, image_at-emplace_self, image_at-emplace_ne,
}
use skibidi_ql.Wal.Session.{
  Session, member, begin_wal, idle, record_wal_before, write, Step, before, flush, Reach, start,
  next,
}
use skibidi_ql.Wal.Replay.{apply_all, apply_all-append, Belongs, Belongs-append}

true_ne_false : true ≡ false → ⊥
true_ne_false h = cc

-- What holds of a session all along: its records are of its transaction, and a file has an image
-- exactly if it was logged, namely what it held at first; the other files hold that still.
pub record Inv (disk : Disk) (s : Session) : Type 0 where
  pub belongs : Belongs s.transaction s.log
  pub nonempty : s.log ≢ []
  pub open_still : (apply_all s.log fresh).committed ≡ false
  pub sorted : IsSorted (apply_all s.log fresh).before_images
  pub logged_image :
      (p : FilePath)
      → member p s.logged ≡ true
      → image_at p (apply_all s.log fresh).before_images ≡ some (disk p)
  pub other_image :
      (p : FilePath)
      → member p s.logged ≡ false
      → (image_at p (apply_all s.log fresh).before_images ≡ none) × (s.disk p ≡ disk p)

begin_wal-Inv : (t : ℕ) (disk : Disk) → Inv disk (begin_wal t (idle disk))
unfolding begin_wal apply_all apply_record begin member image_at
begin_wal-Inv t disk = record {
  belongs = (refl, tt);
  nonempty = λ e. cc;
  open_still = refl;
  sorted = tt;
  logged_image = λ p h. cc;
  other_image = λ p h. (refl, refl);
}

pub nonempty-append : {A : Type 0} (xs : List A) (x : A) → xs ++ x ∷ [] ≢ []
nonempty-append [] x e = cc
nonempty-append (y ∷ xs) x e = cc

-- The record that is logged for a file adds its image.
apply_before :
    (t : ℕ) (path : FilePath) (image : FileImage) (x : Transaction)
    → path ≢ []
    → apply_record (log_before t path image) x
      ≡ record x { before_images = emplace path image x.before_images }
unfolding apply_record log_before
apply_before t [] image x ne = absurd (ne refl)
apply_before t (b ∷ path) none x ne = refl
apply_before t (b ∷ path) (some content) x ne = refl

log_before_transaction :
    (t : ℕ) (path : FilePath) (image : FileImage) → (log_before t path image).transaction ≡ t
unfolding log_before
log_before_transaction t path none = refl
log_before_transaction t path (some content) = refl

-- The invariant is kept where the records and the logged files stay as they are.
module _ (disk : Disk) (s : Session) (v : Inv disk s) where
  images : List (FilePath × FileImage)
  images = (apply_all s.log fresh).before_images

  module _ (path : FilePath) (nonempty_path : path ≢ [])
      (unlogged : member path s.logged ≡ false) where
    entry : Entry
    entry = log_before s.transaction path (s.disk path)

    logged : Session
    logged = record s { log = s.log ++ entry ∷ []; logged = path ∷ s.logged }

    applied :
        apply_all logged.log fresh
        ≡ record (apply_all s.log fresh) { before_images = emplace path (s.disk path) images }
    unfolding logged entry images
    applied =
        apply_all-append s.log entry fresh
        ∙ apply_before s.transaction path (s.disk path) (apply_all s.log fresh) nonempty_path

    applied_images : (apply_all logged.log fresh).before_images ≡ emplace path (s.disk path) images
    applied_images = ap (λ (x : Transaction). x.before_images) applied

    old_image : image_at path images ≡ none
    unfolding images
    old_image = (v.other_image path unlogged).0

    new_image : image_at path (emplace path (s.disk path) images) ≡ some (disk path)
    unfolding images
    new_image =
        image_at-emplace_self path (s.disk path) images v.sorted
        ∙ rw (old_image) (ap some (v.other_image path unlogged).1)

    member_here : (p : FilePath) → bytes_eq path p ≡ true → member p logged.logged ≡ true
    unfolding logged member
    member_here p e = rw e refl

    member_other :
        (p : FilePath) → bytes_eq path p ≡ false → member p logged.logged ≡ member p s.logged
    unfolding logged member
    member_other p e = rw e refl

    logged-IsSorted : IsSorted (apply_all logged.log fresh).before_images
    unfolding images
    logged-IsSorted = rw applied_images (emplace-IsSorted path (s.disk path) images v.sorted)

    logged_case :
        (p : FilePath)
        → member p logged.logged ≡ true
        → image_at p (apply_all logged.log fresh).before_images ≡ some (disk p)
    unfolding images
    logged_case p h = elim (Bool-cases (bytes_eq path p)) [
      | inl here ↦ rw applied_images (
          subst (λ q. image_at q (emplace path (s.disk path) images) ≡ some (disk q))
            (bytes_eq→eq path p here) new_image)
      | inr other ↦
          rw (applied_images, image_at-emplace_ne path p (s.disk path) images other)
            (v.logged_image p (sym (member_other p other) ∙ h))
    ]

    other_case :
        (p : FilePath)
        → member p logged.logged ≡ false
        → (image_at p (apply_all logged.log fresh).before_images ≡ none) × (s.disk p ≡ disk p)
    unfolding images
    other_case p h = elim (Bool-cases (bytes_eq path p)) [
      | inl here ↦ absurd (true_ne_false (sym (member_here p here) ∙ h))
      | inr other ↦
          let old = v.other_image p (sym (member_other p other) ∙ h) in
          (rw (applied_images, image_at-emplace_ne path p (s.disk path) images other) old.0, old.1)
    ]

    logged_open : (apply_all logged.log fresh).committed ≡ false
    logged_open = ap (λ (x : Transaction). x.committed) applied ∙ v.open_still

    logged-Belongs : Belongs s.transaction logged.log
    unfolding logged entry
    logged-Belongs =
        Belongs-append s.transaction s.log entry v.belongs
          (log_before_transaction s.transaction path (s.disk path))

    logged_nonempty : logged.log ≢ []
    unfolding logged
    logged_nonempty = nonempty-append s.log entry

    logged-Inv : Inv disk logged
    unfolding logged
    logged-Inv = record {
      belongs = logged-Belongs;
      nonempty = logged_nonempty;
      open_still = logged_open;
      sorted = logged-IsSorted;
      logged_image = logged_case;
      other_image = other_case;
    }

  record_wal_before-Inv : (path : FilePath) → path ≢ [] → Inv disk (record_wal_before path s)
  unfolding record_wal_before logged entry
  record_wal_before-Inv path ne = elim (Bool-cases (s.transaction == 0)) [
    | inl closed ↦ rw closed v
    | inr opened ↦ elim (Bool-cases (member path s.logged)) [
      | inl known ↦ rw (opened, known) v
      | inr new ↦ rw (opened, new) (logged-Inv path ne new)
    ]
  ]

  write-Inv :
      (path : FilePath) (image : FileImage)
      → member path s.logged ≡ true
      → Inv disk (write path image s)
  unfolding write restore_file
  write-Inv path image known = record {
    belongs = v.belongs;
    nonempty = v.nonempty;
    open_still = v.open_still;
    sorted = v.sorted;
    logged_image = v.logged_image;
    other_image = λ p h. elim (Bool-cases (bytes_eq path p)) [
      | inl here ↦ absurd (
          true_ne_false
            (sym (subst (λ q. member q s.logged ≡ true) (bytes_eq→eq path p here) known) ∙ h))
      | inr other ↦ rw other (v.other_image p h)
    ];
  }

Step-Inv : {disk : Disk} {s u : Session} → Step s u → Inv disk s → Inv disk u
Step-Inv {disk} (before s path ne) v = record_wal_before-Inv disk s v path ne
Step-Inv {disk} (flush s path image known) v = write-Inv disk s v path image known

pub Reach-Inv : {t : ℕ} {disk : Disk} {s : Session} → Reach t disk s → Inv disk s
Reach-Inv {t} {disk} start = begin_wal-Inv t disk
Reach-Inv (next r st) = Step-Inv st (Reach-Inv r)

Step-transaction : {s u : Session} → Step s u → u.transaction ≡ s.transaction
unfolding record_wal_before write
Step-transaction (before s path ne) = elim (Bool-cases (s.transaction == 0)) [
  | inl closed ↦ rw closed refl
  | inr opened ↦ elim (Bool-cases (member path s.logged)) [
    | inl known ↦ rw (opened, known) refl
    | inr new ↦ rw (opened, new) refl
  ]
]
Step-transaction (flush s path image known) = refl

pub Reach-transaction : {t : ℕ} {disk : Disk} {s : Session} → Reach t disk s → s.transaction ≡ t
unfolding begin_wal
Reach-transaction start = refl
Reach-transaction (next r st) = Step-transaction st ∙ Reach-transaction r
