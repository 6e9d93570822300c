-- ===== src/Lock/Plan.antt =====
-- The order of the plan that acquireAll makes.
use skibidi_ql.Prelude.{
  is_empty, ℕ, ◌≡◌, ◌≢◌, refl, sym, ◌∙◌, Bool, true, false, List, [], ◌∷◌, inl, inr, Sign, negative,
  nought, positive, by_sign, Sign-cases, Bool-cases, compare_bytes, compare_bytes-opposite,
  bytes_eq, bytes_eq→eq, subst,
}
use skibidi_ql.Lock.{LockRequest, insert, sort, merge, dedupe, acquire_all, either_exclusive}

-- Rising names, and strictly rising names.
abbrev NotBelow : List ℕ → List LockRequest → Type 0
NotBelow low [] = Unit
NotBelow low (r ∷ rs) = (compare_bytes r.resource low ≢ negative) × NotBelow r.resource rs

abbrev IsSorted : List LockRequest → Type 0
IsSorted [] = Unit
IsSorted (r ∷ rs) = NotBelow r.resource rs

abbrev pub Above : List ℕ → List LockRequest → Type 0
Above low [] = Unit
Above low (r ∷ rs) = (compare_bytes low r.resource ≡ negative) × Above r.resource rs

abbrev pub IsStrict : List LockRequest → Type 0
IsStrict [] = Unit
IsStrict (r ∷ rs) = Above r.resource rs

positive_swap : (a b : List ℕ) → compare_bytes a b ≡ positive → compare_bytes b a ≡ negative
positive_swap a b h = rw (compare_bytes-opposite b a, h) refl

negative_swap : (a b : List ℕ) → compare_bytes a b ≡ negative → compare_bytes b a ≢ negative
negative_swap a b h e = cc (compare_bytes-opposite a b)

nought_swap : (a b : List ℕ) → compare_bytes a b ≡ nought → compare_bytes b a ≢ negative
nought_swap a b h e = cc (compare_bytes-opposite a b)

insert-NotBelow :
    (low : List ℕ) (r : LockRequest) (xs : List LockRequest)
    → compare_bytes r.resource low ≢ negative
    → NotBelow low xs
    → NotBelow low (insert r xs)
unfolding insert
insert-NotBelow low r [] h w = (h, tt)
insert-NotBelow low r (x ∷ xs) h w = elim (Sign-cases (compare_bytes r.resource x.resource)) [
  | inl less ↦ rw (less, by_sign) (h, (negative_swap r.resource x.resource less, w.1))
  | inr (inl same) ↦ rw (same, by_sign) (h, (nought_swap r.resource x.resource same, w.1))
  | inr (inr more) ↦ rw (more, by_sign) (w.0, insert-NotBelow x.resource r xs (λ e. cc) w.1)
]

insert-IsSorted : (r : LockRequest) (xs : List LockRequest) → IsSorted xs → IsSorted (insert r xs)
unfolding insert
insert-IsSorted r [] w = tt
insert-IsSorted r (x ∷ xs) w = elim (Sign-cases (compare_bytes r.resource x.resource)) [
  | inl less ↦ rw (less, by_sign) (negative_swap r.resource x.resource less, w)
  | inr (inl same) ↦ rw (same, by_sign) (nought_swap r.resource x.resource same, w)
  | inr (inr more) ↦ rw (more, by_sign) (insert-NotBelow x.resource r xs (λ e. cc) w)
]

pub sort-IsSorted : (rs : List LockRequest) → IsSorted (sort rs)
unfolding sort
sort-IsSorted [] = tt
sort-IsSorted (r ∷ rs) = insert-IsSorted r (sort rs) (sort-IsSorted rs)

pub is_empty→eq : (a : List ℕ) → is_empty a ≡ true → a ≡ []
is_empty→eq [] h = refl
is_empty→eq (x ∷ a) h = cc

-- Nothing but the empty name is below no name.
below_empty : (low : List ℕ) → compare_bytes [] low ≢ negative → low ≡ []
below_empty [] h = refl
below_empty (x ∷ low) h = absurd (h (unfold compare_bytes in refl))

NotBelow-eq : (a b : List ℕ) (rs : List LockRequest) → a ≡ b → NotBelow a rs → NotBelow b rs
NotBelow-eq a b rs e h = subst (λ low. NotBelow low rs) e h

after_skip :
    (low a : List ℕ) (rs : List LockRequest)
    → is_empty a ≡ true
    → compare_bytes a low ≢ negative
    → NotBelow a rs
    → NotBelow low rs
after_skip low a rs e h w =
    let empty = is_empty→eq a e in
    let low_empty = below_empty low (subst (λ b. compare_bytes b low ≢ negative) empty h) in
    NotBelow-eq a low rs (empty ∙ sym low_empty) w

-- A name that is neither below another nor equal to it is above it.
strictly :
    (a b : List ℕ)
    → bytes_eq a b ≡ false
    → compare_bytes b a ≢ negative
    → compare_bytes a b ≡ negative
strictly a b ne h = elim (Sign-cases (compare_bytes a b)) [
  | inl less ↦ less
  | inr (inl same) ↦ absurd (false_case (compare_bytes a b) same ne)
  | inr (inr more) ↦ absurd (h (positive_swap a b more))
]
  where
    false_case :
        (s : Sign) → s ≡ nought → ◌≡◌ {A = Bool} (elim s [ nought ↦ true | _ ↦ false ]) false → ⊥
    false_case negative e k = cc
    false_case nought e k = cc
    false_case positive e k = cc

merge-Above :
    (low : List ℕ) (last : LockRequest) (rs : List LockRequest)
    → compare_bytes low last.resource ≡ negative
    → NotBelow last.resource rs
    → Above low (merge last rs)
unfolding merge
merge-Above low last [] h w = (h, tt)
merge-Above low last (r ∷ rs) h w = elim (Bool-cases (is_empty r.resource)) [
  | inl empty ↦
      rw empty (merge-Above low last rs h (after_skip last.resource r.resource rs empty w.0 w.1))
  | inr full ↦ elim (Bool-cases (bytes_eq last.resource r.resource)) [
    | inl same ↦
        rw (full, same)
          (merge-Above low (record last { mode = either_exclusive last.mode r.mode }) rs h
            (NotBelow-eq r.resource last.resource rs
              (sym (bytes_eq→eq last.resource r.resource same)) w.1))
    | inr new ↦
        rw (full, new)
          (h, merge-Above last.resource r rs (strictly last.resource r.resource new w.0) w.1)
  ]
]

merge-IsStrict :
    (last : LockRequest) (rs : List LockRequest)
    → NotBelow last.resource rs
    → IsStrict (merge last rs)
unfolding merge
merge-IsStrict last [] w = tt
merge-IsStrict last (r ∷ rs) w = elim (Bool-cases (is_empty r.resource)) [
  | inl empty ↦
      rw empty (merge-IsStrict last rs (after_skip last.resource r.resource rs empty w.0 w.1))
  | inr full ↦ elim (Bool-cases (bytes_eq last.resource r.resource)) [
    | inl same ↦
        rw (full, same)
          (merge-IsStrict (record last { mode = either_exclusive last.mode r.mode }) rs
            (NotBelow-eq r.resource last.resource rs
              (sym (bytes_eq→eq last.resource r.resource same)) w.1))
    | inr new ↦
        rw (full, new)
          (merge-Above last.resource r rs (strictly last.resource r.resource new w.0) w.1)
  ]
]

IsSorted-tail : (r : LockRequest) (rs : List LockRequest) → IsSorted (r ∷ rs) → IsSorted rs
IsSorted-tail r [] w = tt
IsSorted-tail r (x ∷ rs) w = w.1

dedupe-IsStrict : (rs : List LockRequest) → IsSorted rs → IsStrict (dedupe rs)
unfolding dedupe
dedupe-IsStrict [] w = tt
dedupe-IsStrict (r ∷ rs) w = elim (Bool-cases (is_empty r.resource)) [
  | inl empty ↦ rw empty (dedupe-IsStrict rs (IsSorted-tail r rs w))
  | inr full ↦ rw full (merge-IsStrict r rs w)
]

pub acquire_all-IsStrict : (rs : List LockRequest) → IsStrict (acquire_all rs)
unfolding acquire_all
acquire_all-IsStrict rs = dedupe-IsStrict (sort rs) (sort-IsSorted rs)
