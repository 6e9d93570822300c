-- ===== src/Wal/Session.antt =====
-- How native_engine.cpp drives the log in one transaction: beginWalTransaction, recordWalBefore,
-- the flush of a file, and commitWalTransaction. The engine logs a file's image before it first
-- writes the file, which is the condition on `write` below.
use skibidi_ql.Prelude.{
  ℕ, ◌==◌, ◌≡◌, ◌≢◌, Bool, true, false, ◌||◌, List, [], ◌∷◌, ◌++◌, if◌then◌else◌, bytes_eq,
}
use skibidi_ql.Wal.{FilePath, FileImage, Disk, Entry, begin, log_before, commit, restore_file}

-- The log since the last checkpoint, the files, walTransactionId_ (0 outside a transaction) and
-- walLoggedFiles_.
pub record Session : Type 0 where
  pub log : List Entry
  pub disk : Disk
  pub transaction : ℕ
  pub logged : List FilePath

unfoldable pub member : FilePath → List FilePath → Bool
member p [] = false
member p (q ∷ l) = bytes_eq q p || member p l

-- After a checkpoint, outside a transaction.
abbrev pub idle : Disk → Session
idle disk = record { log = []; disk = disk; transaction = 0; logged = [] }

-- `fresh` is the number that the log gives the transaction.
unfoldable pub begin_wal : ℕ → Session → Session
begin_wal fresh s =
    if s.transaction == 0
    then record s { log = s.log ++ begin fresh ∷ []; transaction = fresh; logged = [] }
    else s

unfoldable pub record_wal_before : FilePath → Session → Session
record_wal_before path s = if s.transaction == 0 || member path s.logged then s else record s {
  log = s.log ++ log_before s.transaction path (s.disk path) ∷ [];
  logged = path ∷ s.logged;
}

-- A file is written, or removed.
unfoldable pub write : FilePath → FileImage → Session → Session
write path image s = record s { disk = restore_file path image s.disk }

unfoldable pub commit_wal : Session → Session
commit_wal s =
    if s.transaction == 0
    then s
    else record s { log = s.log ++ commit s.transaction ∷ []; transaction = 0; logged = [] }

pub data Step : Session → Session → Type 0 where
  before : (s : Session) (path : FilePath) → path ≢ [] → Step s (record_wal_before path s)
  flush :
      (s : Session) (path : FilePath) (image : FileImage)
      → member path s.logged ≡ true
      → Step s (write path image s)

-- The sessions that a transaction on a disk can reach before it commits.
pub data Reach (t : ℕ) (disk : Disk) : Session → Type 0 where
  start : Reach t disk (begin_wal t (idle disk))
  next : {s u : Session} → Reach t disk s → Step s u → Reach t disk u
