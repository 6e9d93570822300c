-- ===== src/Wal.antt =====
-- native_wal.h and native_wal.cpp, with the steps of native_engine.cpp that drive the log: the undo
-- log of before-images, and the recovery that plays it back. A file is named by its path below the
-- database's root. Reads and writes of files are taken to succeed.
pub mod Format
pub mod Images
pub mod Replay
pub mod Session
pub mod Invariant
pub mod Atomic
use skibidi_ql.Prelude.{
  is_empty, ℕ, zero, suc, ◌+◌, ◌%◌, Bool, true, false, not, ◌&&◌, ◌||◌, Option, none, some, List,
  [], ◌∷◌, ◌++◌, ltb, ◌==◌, if◌then◌else◌, length, pod_bytes, read_pod, split_bytes, by_sign,
  compare_bytes, bytes_eq,
}
use mathlib.Core.Option

abbrev pub FilePath : Type 0
FilePath = List ℕ

-- WalFileImage: what a file held before, `none` where there was no file.
abbrev pub FileImage : Type 0
FileImage = Option (List ℕ)

abbrev pub Disk : Type 0
Disk = FilePath → FileImage

pub record Entry : Type 0 where
  pub kind : ℕ
  pub transaction : ℕ
  pub path : FilePath
  pub existed : Bool
  pub content : List ℕ

abbrev pub kind_begin : ℕ
kind_begin = b'B'

abbrev pub kind_file_before : ℕ
kind_file_before = b'F'

abbrev pub kind_commit : ℕ
kind_commit = b'C'

-- The bytes that appendRecord writes.
unfoldable pub append_record : Entry → List ℕ
append_record e =
    e.kind
    ∷ (pod_bytes 8 e.transaction
        ++ (pod_bytes 4 (length e.path % 4294967296)
            ++ (pod_bytes 8 (length e.content)
                ++ ((if e.existed then 1 else 0) ∷ (e.path ++ e.content)))))

unfoldable pub begin : ℕ → Entry
begin t = record { kind = kind_begin; transaction = t; path = []; existed = false; content = [] }

unfoldable pub log_before : ℕ → FilePath → FileImage → Entry
log_before t path none = record {
  kind = kind_file_before;
  transaction = t;
  path = path;
  existed = false;
  content = [];
}
log_before t path (some content) = record {
  kind = kind_file_before;
  transaction = t;
  path = path;
  existed = true;
  content = content;
}

unfoldable pub commit : ℕ → Entry
commit t = record { kind = kind_commit; transaction = t; path = []; existed = false; content = [] }

infixl 5 ◌>>=◌
abbrev pub ◌>>=◌ {ℓ κ} : {A : Type ℓ} {B : Type κ} → Option A → (A → Option B) → Option B
none >>= f = none
some a >>= f = f a

-- One round of the loop that reads the log: `none` where it breaks.
pub parse_record : List ℕ → Option (Entry × List ℕ)
parse_record [] = none
parse_record (kind ∷ r0) = do
  transaction ← read_pod 8 r0
  path_size ← read_pod 4 transaction.1
  data_size ← read_pod 8 path_size.1
  existed ← read_pod 1 data_size.1
  path ← split_bytes path_size.0 existed.1
  content ← split_bytes data_size.0 path.1
  some (
    record {
      kind = kind;
      transaction = transaction.0;
      path = path.0;
      existed = not (existed.0 == 0);
      content = content.0;
    },
    content.1,
  )

abbrev pub keep_reading : (List ℕ → List Entry) → Option (Entry × List ℕ) → List Entry
keep_reading read none = []
keep_reading read (some (e, rest)) = e ∷ read rest

pub read_records : ℕ → List ℕ → List Entry
read_records zero log = []
read_records (suc fuel) log = keep_reading (λ rest. read_records fuel rest) (parse_record log)

-- std::map<std::string, WalFileImage>, in the order of the names.
abbrev pub ImageMap : Type 0
ImageMap = List (FilePath × FileImage)

-- emplace: an image that is there already stays.
pub emplace : FilePath → FileImage → ImageMap → ImageMap
emplace path image [] = (path, image) ∷ []
emplace path image ((q, other) ∷ m) =
    let rest = emplace path image m in
    by_sign (compare_bytes path q) ((path, image) ∷ ((q, other) ∷ m)) ((q, other) ∷ m)
      ((q, other) ∷ rest)

pub record Transaction : Type 0 where
  pub committed : Bool
  pub before_images : ImageMap

abbrev pub fresh : Transaction
fresh = record { committed = false; before_images = [] }

abbrev pub image_of : Entry → FileImage
image_of e = if e.existed then some e.content else none

-- What one record does to its transaction.
pub apply_record : Entry → Transaction → Transaction
apply_record e t =
    if e.kind == kind_commit
    then record t { committed = true }
    else if e.kind == kind_file_before && not (is_empty e.path)
    then record t { before_images = emplace e.path (image_of e) t.before_images }
    else t

-- std::map<std::uint64_t, Transaction>, in the order of the numbers; a number that is not there gets
-- a fresh transaction.
abbrev pub TransactionMap : Type 0
TransactionMap = List (ℕ × Transaction)

pub update_transaction : Entry → TransactionMap → TransactionMap
update_transaction e [] = (e.transaction, apply_record e fresh) ∷ []
update_transaction e ((n, t) ∷ m) =
    let rest = update_transaction e m in
    if ltb e.transaction n
    then (e.transaction, apply_record e fresh) ∷ ((n, t) ∷ m)
    else if e.transaction == n
    then (n, apply_record e t) ∷ m
    else (n, t) ∷ rest

pub collect_transactions : List Entry → TransactionMap → TransactionMap
collect_transactions [] m = m
collect_transactions (e ∷ es) m = collect_transactions es (update_transaction e m)

unfoldable pub restore_file : FilePath → FileImage → Disk → Disk
restore_file path image disk q = if bytes_eq path q then image else disk q

-- The images of a transaction are restored in reverse, so the first of them last.
pub restore_images : ImageMap → Disk → Disk
restore_images [] disk = disk
restore_images ((path, image) ∷ m) disk = restore_file path image (restore_images m disk)

pub undo : TransactionMap → Disk → Disk
undo [] disk = disk
undo ((n, t) ∷ m) disk = undo m (if t.committed then disk else restore_images t.before_images disk)

-- recover, on the bytes of the log file; each round of its loop reads at least one byte.
pub recover : List ℕ → Disk → Disk
recover log disk = undo (collect_transactions (read_records (length log) log) []) disk
