-- ===== src/Lock/Demand.antt =====
-- What the plan of acquireAll asks for: the resources of the requests, each once, each in the
-- strongest mode that any request for it has.
use skibidi_ql.Prelude.{
  is_empty, ℕ, ◌≡◌, ◌≢◌, refl, sym, ◌∙◌, true, false, List, [], ◌∷◌, if◌then◌else◌, inl, inr, arith,
  by_sign, Sign-cases, Bool-cases, compare_bytes, bytes_eq, bytes_eq→eq, Option, none, some,
}
use skibidi_ql.Lock.{
  LockMode, LockRequest, insert, sort, merge, dedupe, acquire_all, either_exclusive,
}
use skibidi_ql.Lock.Plan.{IsStrict, acquire_all-IsStrict, is_empty→eq}

abbrev join_mode : LockMode → Option LockMode → LockMode
join_mode m none = m
join_mode m (some k) = either_exclusive m k

-- The mode in which a resource is asked for, if it is.
unfoldable pub demand : List ℕ → List LockRequest → Option LockMode
demand p [] = none
demand p (r ∷ rs) =
    if bytes_eq r.resource p then some (join_mode r.mode (demand p rs)) else demand p rs

join_swap :
    (m k : LockMode) (o : Option LockMode)
    → join_mode m (some (join_mode k o)) ≡ join_mode k (some (join_mode m o))
join_swap m k o = ground arith

join_merge :
    (m k : LockMode) (o : Option LockMode)
    → join_mode (either_exclusive m k) o ≡ join_mode m (some (join_mode k o))
join_merge m k o = ground arith

demand-swap :
    (p : List ℕ) (r x : LockRequest) (xs : List LockRequest)
    → demand p (r ∷ (x ∷ xs)) ≡ demand p (x ∷ (r ∷ xs))
unfolding demand
demand-swap p r x xs = ground (arith, join_swap r.mode x.mode (demand p xs))

demand-tail :
    (p : List ℕ) (x : LockRequest) (xs ys : List LockRequest)
    → demand p xs ≡ demand p ys
    → demand p (x ∷ xs) ≡ demand p (x ∷ ys)
unfolding demand
demand-tail p x xs ys h = rw h refl

demand-insert :
    (p : List ℕ) (r : LockRequest) (xs : List LockRequest)
    → demand p (insert r xs) ≡ demand p (r ∷ xs)
unfolding insert
demand-insert p r [] = refl
demand-insert p r (x ∷ xs) = elim (Sign-cases (compare_bytes r.resource x.resource)) [
  | inl less ↦ rw (less, by_sign) refl
  | inr (inl same) ↦ rw (same, by_sign) refl
  | inr (inr more) ↦
      rw (more, by_sign)
        (demand-tail p x (insert r xs) (r ∷ xs) (demand-insert p r xs) ∙ demand-swap p x r xs)
]

demand-sort : (p : List ℕ) (rs : List LockRequest) → demand p (sort rs) ≡ demand p rs
unfolding sort
demand-sort p [] = refl
demand-sort p (r ∷ rs) =
    demand-insert p r (sort rs) ∙ demand-tail p r (sort rs) rs (demand-sort p rs)

demand-empty :
    (p : List ℕ) (r : LockRequest) (rs : List LockRequest)
    → p ≢ []
    → is_empty r.resource ≡ true
    → demand p (r ∷ rs) ≡ demand p rs
unfolding demand
demand-empty p r rs ne e = elim (Bool-cases (bytes_eq r.resource p)) [
  | inl same ↦ absurd (ne (sym (bytes_eq→eq r.resource p same) ∙ is_empty→eq r.resource e))
  | inr other ↦ rw other refl
]

demand-same :
    (p : List ℕ) (last r : LockRequest) (rs : List LockRequest)
    → bytes_eq last.resource r.resource ≡ true
    → demand p (record last { mode = either_exclusive last.mode r.mode } ∷ rs)
      ≡ demand p (last ∷ (r ∷ rs))
unfolding demand
demand-same p last r rs same =
    rw (← bytes_eq→eq last.resource r.resource same)
      (ground (arith, join_merge last.mode r.mode (demand p rs)))

demand-merge :
    (p : List ℕ) (last : LockRequest) (rs : List LockRequest)
    → p ≢ []
    → demand p (merge last rs) ≡ demand p (last ∷ rs)
unfolding merge
demand-merge p last [] ne = refl
demand-merge p last (r ∷ rs) ne = elim (Bool-cases (is_empty r.resource)) [
  | inl empty ↦ rw empty (
      demand-merge p last rs ne
      ∙ demand-tail p last rs (r ∷ rs) (sym (demand-empty p r rs ne empty)))
  | inr full ↦ elim (Bool-cases (bytes_eq last.resource r.resource)) [
    | inl same ↦
        rw (full, same)
          (demand-merge p (record last { mode = either_exclusive last.mode r.mode }) rs ne
            ∙ demand-same p last r rs same)
    | inr new ↦ rw (full, new) (demand-tail p last (merge r rs) (r ∷ rs) (demand-merge p r rs ne))
  ]
]

demand-dedupe : (p : List ℕ) (rs : List LockRequest) → p ≢ [] → demand p (dedupe rs) ≡ demand p rs
unfolding dedupe
demand-dedupe p [] ne = refl
demand-dedupe p (r ∷ rs) ne = elim (Bool-cases (is_empty r.resource)) [
  | inl empty ↦ rw empty (demand-dedupe p rs ne ∙ sym (demand-empty p r rs ne empty))
  | inr full ↦ rw full (demand-merge p r rs ne)
]

not_empty : (a : List ℕ) → is_empty a ≡ false → bytes_eq a [] ≡ false
not_empty [] h = cc
not_empty (x ∷ a) h = unfold compare_bytes in refl

merge_no_empty :
    (last : LockRequest) (rs : List LockRequest)
    → is_empty last.resource ≡ false
    → demand [] (merge last rs) ≡ none
unfolding merge demand
merge_no_empty last [] h = rw (not_empty last.resource h) refl
merge_no_empty last (r ∷ rs) h = elim (Bool-cases (is_empty r.resource)) [
  | inl empty ↦ rw empty (merge_no_empty last rs h)
  | inr full ↦ elim (Bool-cases (bytes_eq last.resource r.resource)) [
    | inl same ↦
        rw (full, same)
          (merge_no_empty (record last { mode = either_exclusive last.mode r.mode }) rs h)
    | inr new ↦ rw (full, new, not_empty last.resource h) (merge_no_empty r rs full)
  ]
]

dedupe_no_empty : (rs : List LockRequest) → demand [] (dedupe rs) ≡ none
unfolding dedupe demand
dedupe_no_empty [] = refl
dedupe_no_empty (r ∷ rs) = elim (Bool-cases (is_empty r.resource)) [
  | inl empty ↦ rw empty (dedupe_no_empty rs)
  | inr full ↦ rw full (merge_no_empty r rs full)
]

-- The plan names its resources in strictly rising order, so each once. A resource with a name is in
-- it exactly if some request is for it, in exclusive mode exactly if some such request is exclusive,
-- and the empty name is not in it.
pub acquire_all_lem :
    (rs : List LockRequest) (p : List ℕ)
    → IsStrict (acquire_all rs)
      × (demand p (acquire_all rs) ≡ (if is_empty p then none else demand p rs))
unfolding acquire_all
acquire_all_lem rs [] = (acquire_all-IsStrict rs, dedupe_no_empty (sort rs))
acquire_all_lem rs (x ∷ p) =
    (acquire_all-IsStrict rs, demand-dedupe (x ∷ p) (sort rs) (λ e. cc) ∙ demand-sort (x ∷ p) rs)
