-- ===== src/Lock/Deadlock.antt =====
-- Threads that take the mutexes of their plans one by one never wait for one another in a circle.
use skibidi_ql.Prelude.{
  ℕ, ◌≡◌, refl, sym, ◌∙◌, List, [], ◌∷◌, ◌++◌, negative, compare_bytes, compare_bytes_trans,
  compare_bytes_self, subst,
}
use mathlib.Core.List.{append_assoc}
use mathlib.Core.Path.{ap₂}
use skibidi_ql.Lock.{LockRequest, acquire_all}
use skibidi_ql.Lock.Plan.{IsStrict, Above, acquire_all-IsStrict}

-- The loop at the end of acquireAll: the guards that a thread holds, in the order in which it took
-- them, and the requests that it has still to take, the first of which it may be waiting for.
pub record Thread : Type 0 where
  pub held : List LockRequest
  pub pending : List LockRequest

-- A thread enters acquireAll with its requests, and takes one mutex at a time.
pub data Runs (requests : List LockRequest) : Thread → Type 0 where
  enter : Runs requests (record { held = []; pending = acquire_all requests })
  take :
      (held : List LockRequest) (r : LockRequest) (rest : List LockRequest)
      → Runs requests (record { held = held; pending = r ∷ rest })
      → Runs requests (record { held = held ++ r ∷ []; pending = rest })

-- A thread somewhere in acquireAll, whatever it asked for.
pub record Running (t : Thread) : Type 0 where
  pub requests : List LockRequest
  pub runs : Runs requests t

-- `t` waits for a mutex that `u` holds.
pub data Waits (t u : Thread) : Type 0 where
  waits :
      (r : LockRequest) (rest before after : List LockRequest) (h : LockRequest)
      → t.pending ≡ r ∷ rest
      → u.held ≡ before ++ h ∷ after
      → h.resource ≡ r.resource
      → Waits t u

pub data Chain (t : Thread) : Thread → Type 0 where
  one : {u : Thread} → Running t → Running u → Waits t u → Chain t u
  more : {u v : Thread} → Chain t u → Running v → Waits u v → Chain t v

Runs-plan :
    {requests : List LockRequest} {t : Thread}
    → Runs requests t
    → t.held ++ t.pending ≡ acquire_all requests
Runs-plan enter = refl
Runs-plan (take held r rest run) = append_assoc held (r ∷ []) rest ∙ Runs-plan run

-- In a strictly rising list what stands before is below what stands behind.
Above-later :
    (low : List ℕ) (xs : List LockRequest) (y : LockRequest) (ys : List LockRequest)
    → Above low (xs ++ y ∷ ys)
    → compare_bytes low y.resource ≡ negative
Above-later low [] y ys h = h.0
Above-later low (x ∷ xs) y ys h =
    compare_bytes_trans low x.resource y.resource h.0 (Above-later x.resource xs y ys h.1)

Above-drop :
    (low : List ℕ) (xs : List LockRequest) (y : LockRequest) (ys : List LockRequest)
    → Above low (xs ++ y ∷ ys)
    → Above y.resource ys
Above-drop low [] y ys h = h.1
Above-drop low (x ∷ xs) y ys h = Above-drop x.resource xs y ys h.1

IsStrict-drop :
    (xs : List LockRequest) (y : LockRequest) (ys : List LockRequest)
    → IsStrict (xs ++ y ∷ ys)
    → Above y.resource ys
IsStrict-drop [] y ys h = h
IsStrict-drop (x ∷ xs) y ys h = Above-drop x.resource xs y ys h

-- What a thread holds is below what it waits for.
held-below :
    (u : Thread) (h r : LockRequest) (before after rest : List LockRequest)
    → Running u
    → u.held ≡ before ++ h ∷ after
    → u.pending ≡ r ∷ rest
    → compare_bytes h.resource r.resource ≡ negative
held-below u h r before after rest run held pending =
    Above-later h.resource after r rest (IsStrict-drop before h (after ++ r ∷ rest) strict)
  where
    split : before ++ h ∷ (after ++ r ∷ rest) ≡ acquire_all run.requests
    split =
        sym (append_assoc before (h ∷ after) (r ∷ rest))
        ∙ ap₂ (◌++◌) (sym held) (sym pending)
        ∙ Runs-plan run.runs

    strict : IsStrict (before ++ h ∷ (after ++ r ∷ rest))
    strict = subst IsStrict (sym split) (acquire_all-IsStrict run.requests)

-- One wait: what the waiting thread wants is below what the holder wants.
Waits-below :
    {t u : Thread} (q : LockRequest) (rest : List LockRequest)
    → Running u
    → Waits t u
    → u.pending ≡ q ∷ rest
    → (r : LockRequest) × (left : List LockRequest) × (t.pending ≡ r ∷ left)
      × (compare_bytes r.resource q.resource ≡ negative)
Waits-below {t} {u} q rest run (waits r left before after h wanted held same) pending = (
  r,
  left,
  wanted,
  subst (λ a. compare_bytes a q.resource ≡ negative) same
      (held-below u h q before after rest run held pending),
)

Chain-below :
    {t u : Thread} (q : LockRequest) (rest : List LockRequest)
    → Chain t u
    → u.pending ≡ q ∷ rest
    → (r : LockRequest) × (left : List LockRequest) × (t.pending ≡ r ∷ left)
      × (compare_bytes r.resource q.resource ≡ negative)
Chain-below q rest (one runs_t run w) pending = Waits-below q rest run w pending
Chain-below q rest (more c run w) pending =
    let (s, left, wanted, below) = Waits-below q rest run w pending in
    let (r, left_t, wanted_t, below_t) = Chain-below s left c wanted in
    (r, left_t, wanted_t, compare_bytes_trans r.resource s.resource q.resource below_t below)

Chain-waits :
    {t u : Thread}
    → Chain t u
    → (r : LockRequest) × (left : List LockRequest) × (t.pending ≡ r ∷ left)
Chain-waits (one runs_t run (waits r left before after h wanted held same)) = (r, left, wanted)
Chain-waits (more c run w) = Chain-waits c

same_first :
    (r q : LockRequest) (xs ys : List LockRequest) → r ∷ xs ≡ q ∷ ys → r.resource ≡ q.resource
same_first r q xs ys e = cc

-- Threads in acquireAll, each with requests of its own, never wait in a circle: no chain of threads,
-- each waiting for a mutex that the next one holds, comes back to the thread where it began.
pub no_deadlock : (t : Thread) → ¬ Chain t t
no_deadlock t c =
    let (q, rest, pending) = Chain-waits c in
    let (r, left, wanted, below) = Chain-below q rest c pending in
    let same = same_first r q left rest (sym wanted ∙ pending) in
    not_below q.resource (subst (λ a. compare_bytes a q.resource ≡ negative) same below)
  where
    not_below : (a : List ℕ) → compare_bytes a a ≡ negative → ⊥
    not_below a h = cc (compare_bytes_self a)
