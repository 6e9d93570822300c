-- ===== src/Wal/Atomic.antt =====
-- A transaction that a crash interrupts leaves no trace, and one that committed stays.
use skibidi_ql.Prelude.{
  ne→eqb, ◌≢◌, sym, ℕ, ◌≡◌, refl, ap, ◌∙◌, true, List, [], ◌∷◌, ◌++◌, inl, inr, All, Bool-cases,
}
use skibidi_ql.Wal.{
  FilePath, Disk, Entry, Transaction, fresh, commit, apply_record, collect_transactions, undo,
  recover,
}
use skibidi_ql.Wal.Format.{IsEntry, log_bytes, Tail, read_records-log_bytes}
use skibidi_ql.Wal.Session.{Session, member, commit_wal, Reach}
use skibidi_ql.Wal.Replay.{apply_all, apply_all-append, Belongs-append, undo_one, undo_lem}
use skibidi_ql.Wal.Invariant.{Inv, Reach-Inv, Reach-transaction, nonempty-append}

undo_open :
    (disk : Disk) (s : Session)
    → Inv disk s
    → (p : FilePath) → undo_one (apply_all s.log fresh) s.disk p ≡ disk p
unfolding undo_one
undo_open disk s v p = elim (Bool-cases (member p s.logged)) [
  | inl known ↦ rw (v.open_still, v.logged_image p known) refl
  | inr new ↦ rw (v.open_still, (v.other_image p new).0) (v.other_image p new).1
]

commit_transaction : (t : ℕ) → (commit t).transaction ≡ t
unfolding commit
commit_transaction t = refl

apply_commit : (t : ℕ) (x : Transaction) → apply_record (commit t) x ≡ record x { committed = true }
unfolding apply_record commit
apply_commit t x = refl

undo_closed :
    (s : Session) (p : FilePath)
    → undo_one (apply_all (s.log ++ commit s.transaction ∷ []) fresh) s.disk p ≡ s.disk p
unfolding undo_one
undo_closed s p =
    rw
      (
        apply_all-append s.log (commit s.transaction) fresh,
        apply_commit s.transaction (apply_all s.log fresh),
      )
      refl

recover_log :
    (es : List Entry) (torn : List ℕ) (disk : Disk)
    → All IsEntry es
    → Tail torn
    → recover (log_bytes es torn) disk ≡ undo (collect_transactions es []) disk
unfolding recover
recover_log es torn disk w t = rw (read_records-log_bytes es torn w t) refl

committed_log :
    (s : Session) → s.transaction ≢ 0 → (commit_wal s).log ≡ s.log ++ commit s.transaction ∷ []
unfolding commit_wal
committed_log s h = rw (ne→eqb s.transaction 0 h) refl

-- Let a transaction log images and write files in any order in which no file is written before its
-- image is logged, and let a crash come before the commit record, whether between two steps or in
-- the middle of appending a record. Recovery then gives every file the content, or the absence, that
-- it had when the transaction began. Paths, contents and numbers fit the fields of their records.
pub crash_undoes :
    {t : ℕ} {disk : Disk} {s : Session}
    → Reach t disk s
    → (torn : List ℕ) → All IsEntry s.log
    → Tail torn
    → (p : FilePath) → recover (log_bytes s.log torn) s.disk p ≡ disk p
crash_undoes {t} {disk} {s} r torn w tail p =
    let v = Reach-Inv r in
    ap (λ (d : Disk). d p) (recover_log s.log torn s.disk w tail)
    ∙ undo_lem s.log s.transaction s.disk v.belongs v.nonempty p
    ∙ undo_open disk s v p

-- Once the commit record of a transaction is in the log, recovery leaves every file as the
-- transaction left it, also if a crash cut short a record behind the commit. The number of the
-- transaction is not 0, and paths, contents and numbers fit the fields of their records.
pub commit_stays :
    {t : ℕ} {disk : Disk} {s : Session}
    → Reach t disk s
    → t ≢ 0
    → (torn : List ℕ) → All IsEntry (commit_wal s).log
    → Tail torn
    → (p : FilePath) → recover (log_bytes (commit_wal s).log torn) s.disk p ≡ s.disk p
commit_stays {t} {disk} {s} r begun torn w tail p =
    let v = Reach-Inv r in
    let done = commit s.transaction in
    let grown = committed_log s (λ e. begun (sym (Reach-transaction r) ∙ e)) in
    ap (λ (d : Disk). d p) (recover_log (commit_wal s).log torn s.disk w tail)
    ∙ ap (λ (l : List Entry). undo (collect_transactions l []) s.disk p) grown
    ∙ undo_lem (s.log ++ done ∷ []) s.transaction s.disk
        (Belongs-append s.transaction s.log done v.belongs (commit_transaction s.transaction))
        (nonempty-append s.log done) p
    ∙ undo_closed s p
