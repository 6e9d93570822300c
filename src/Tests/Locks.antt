-- ===== src/Tests/Locks.antt =====
-- Requests for two resources, one of them twice.
use skibidi_ql.Prelude.{◌≡◌, some, List, [], ◌∷◌, compare_bytes}
use skibidi_ql.Lock.{LockRequest, shared, exclusive, acquire_all}
use skibidi_ql.Lock.Plan.{IsStrict}
use skibidi_ql.Lock.Demand.{demand, acquire_all_lem}
use skibidi_ql.Lock.Deadlock.{Thread, Chain, no_deadlock}

abbrev requests : List LockRequest
requests =
    record { resource = b'b' ∷ []; mode = shared }
    ∷ record { resource = b'a' ∷ []; mode = shared }
    ∷ record { resource = b'b' ∷ []; mode = exclusive }
    ∷ []

acquire_all_lem_example :
    IsStrict (acquire_all requests) × (demand (b'b' ∷ []) (acquire_all requests) ≡ some exclusive)
unfolding demand compare_bytes
acquire_all_lem_example = acquire_all_lem requests (b'b' ∷ [])

-- A thread that holds the first mutex of its plan and waits for the second.
abbrev thread : Thread
thread = record {
  held = record { resource = b'a' ∷ []; mode = shared } ∷ [];
  pending = record { resource = b'b' ∷ []; mode = exclusive } ∷ [];
}

no_deadlock_example : ¬ Chain thread thread
no_deadlock_example = no_deadlock thread
