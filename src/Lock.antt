-- ===== src/Lock.antt =====
-- native_lock.h and native_lock.cpp: which mutexes a statement takes, in which order and mode.
pub mod Plan
pub mod Demand
pub mod Deadlock
use skibidi_ql.Prelude.{
  is_empty, ℕ, Bool, true, false, List, [], ◌∷◌, ◌++◌, if◌then◌else◌, by_sign, compare_bytes,
  bytes_eq,
}

pub data LockMode : Type 0 where
  shared exclusive : LockMode

pub record LockRequest : Type 0 where
  pub resource : List ℕ
  pub mode : LockMode

-- std::sort by the name of the resource.
pub insert : LockRequest → List LockRequest → List LockRequest
insert r [] = r ∷ []
insert r (x ∷ xs) =
    let rest = insert r xs in
    by_sign (compare_bytes r.resource x.resource) (r ∷ (x ∷ xs)) (r ∷ (x ∷ xs)) (x ∷ rest)

unfoldable pub sort : List LockRequest → List LockRequest
sort [] = []
sort (r ∷ rs) = insert r (sort rs)

abbrev pub either_exclusive : LockMode → LockMode → LockMode
either_exclusive m exclusive = exclusive
either_exclusive m shared = m

-- The loop that merges the requests for one resource: `last` is the back of `deduped`.
pub merge : LockRequest → List LockRequest → List LockRequest
merge last [] = last ∷ []
merge last (r ∷ rs) =
    let merged = merge (record last { mode = either_exclusive last.mode r.mode }) rs in
    let separate = last ∷ merge r rs in
    let skipped = merge last rs in
    if is_empty r.resource
    then skipped
    else if bytes_eq last.resource r.resource
    then merged
    else separate

pub dedupe : List LockRequest → List LockRequest
dedupe [] = []
dedupe (r ∷ rs) = let skipped = dedupe rs in if is_empty r.resource then skipped else merge r rs

-- The requests whose mutexes acquireAll takes, first to last.
pub acquire_all : List LockRequest → List LockRequest
acquire_all requests = dedupe (sort requests)
