-- ===== src/Tests/Logs.antt =====
-- A transaction that writes one file, with a crash in the middle of its next record.
use skibidi_ql.Prelude.{
  ℕ, ◌≡◌, ◌≢◌, refl, some, List, [], ◌∷◌, arith, length, ◌≤◌, compare_bytes, pod_bytes, inr, All,
}
use skibidi_ql.Wal.{
  Disk, FilePath, Entry, begin, log_before, commit, append_record, read_records, recover,
  restore_file,
}
use skibidi_ql.Wal.Format.{IsEntry, Tail, log_bytes, read_records-log_bytes}
use skibidi_ql.Wal.Session.{
  Session, member, begin_wal, idle, record_wal_before, write, commit_wal, Reach, start, next,
  before, flush,
}
use skibidi_ql.Wal.Atomic.{crash_undoes, commit_stays}

-- Every file holds one byte.
abbrev disk : Disk
disk = λ path. some (1 ∷ [])

abbrev file : FilePath
file = b't' ∷ []

abbrev logged : Session
logged = record_wal_before file (begin_wal 5 (idle disk))

-- The file is written anew with two bytes.
abbrev session : Session
session = write file (some (8 ∷ 9 ∷ [])) logged

file_named : file ≢ []
file_named e = cc

session-Reach : Reach 5 disk session
unfolding member record_wal_before begin_wal compare_bytes
session-Reach =
    next (next start (before (begin_wal 5 (idle disk)) file file_named))
      (flush logged file (some (8 ∷ 9 ∷ [])) refl)

small : (e : Entry) → e.transaction ≡ 5 → length e.path ≤ 1 → length e.content ≤ 1 → IsEntry e
small e t p c = record {
  transaction_fits = omega (arith, t);
  path_fits = omega (arith, p);
  content_fits = omega (arith, c);
}

commit_fits : IsEntry (commit 5)
unfolding commit
commit_fits = small (commit 5) refl (omega arith) (omega arith)

entries_fit : All IsEntry session.log
unfolding write record_wal_before member begin_wal begin log_before
entries_fit = (
  small (begin 5) refl (omega arith) (omega arith),
  (small (log_before 5 file (disk file)) refl (omega arith) (omega arith), tt),
)

entries_committed : All IsEntry (commit_wal session).log
unfolding commit_wal write record_wal_before member begin_wal compare_bytes
entries_committed = (entries_fit.0, (entries_fit.1.0, (commit_fits, tt)))

-- One byte of a commit record.
abbrev torn : List ℕ
torn = b'C' ∷ []

abbrev missing : List ℕ
missing = 5 ∷ 0 ∷ 0 ∷ 0 ∷ 0 ∷ 0 ∷ 0 ∷ 0 ∷ 0 ∷ 0 ∷ 0 ∷ 0 ∷ 0 ∷ 0 ∷ 0 ∷ 0 ∷ 0 ∷ 0 ∷ 0 ∷ 0 ∷ 0 ∷ []

torn-Tail : Tail torn
unfolding append_record commit pod_bytes
torn-Tail = inr (commit 5, missing, commit_fits, (λ e. cc), refl)

crash_undoes_example : recover (log_bytes session.log torn) session.disk file ≡ some (1 ∷ [])
crash_undoes_example = crash_undoes session-Reach torn entries_fit torn-Tail file

commit_stays_example :
    recover (log_bytes (commit_wal session).log torn) session.disk file ≡ some (8 ∷ 9 ∷ [])
unfolding restore_file compare_bytes write
commit_stays_example =
    commit_stays session-Reach (λ e. absurd (ground (arith, e))) torn entries_committed torn-Tail
      file

read_records-log_bytes_example :
    read_records (length (log_bytes session.log torn)) (log_bytes session.log torn) ≡ session.log
read_records-log_bytes_example = read_records-log_bytes session.log torn entries_fit torn-Tail
