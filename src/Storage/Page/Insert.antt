-- ===== src/Storage/Page/Insert.antt =====
-- insert: when it succeeds, what it leaves alone, and that a well-formed page stays well formed.
use skibidi_ql.Prelude.{
  ℕ, zero, suc, ◌+◌, ◌-◌, ◌*◌, ◌≤◌, ◌<◌, ◌≡◌, ◌≢◌, refl, ap, subst, Bool, Bool-cases, ◌∙◌, sym, ◌⊎◌,
  inl, inr, arith, ◌==◌, ltb, if◌then◌else◌, Option, none, some, List, ok, Outcome, lt-cases,
  length, lt→ltb, le→ltb, throws,
}
use skibidi_ql.Storage.Page.Memory.{Bytes}
use skibidi_ql.Storage.Page.{
  page_size, free_space, store, slot_bytes, slot_count, find_reusable, insert, insert_valid,
  compact_if_full, read,
}
use skibidi_ql.Storage.Page.Fields.{count, start, end, live}
use skibidi_ql.Storage.Page.Weights.{total}
use skibidi_ql.Storage.Page.Invariant.{IsPage}
use skibidi_ql.Storage.Page.Rows.{read_beyond, read_dead, read_one}
use skibidi_ql.Storage.Page.Compact.{
  compacted, compact-eq, compacted-IsPage, count-compacted, read-compacted, free_space-compacted,
  dead_slot,
}
use skibidi_ql.Storage.Page.Entered.{Entered, Entered-IsPage, read-Entered_self, read-Entered_ne}
use skibidi_ql.Storage.Page.Ready.{entered, Ready-Entered}
use skibidi_ql.Storage.Page.Store.{
  Reusable, free_space-IsPage, store-reused, store-grown, reused-Ready, grown-Ready,
}

find_reusable_lem :
    (p : Bytes) (s n t : ℕ) → find_reusable p s n ≡ some t → (t < s + n) × (live p t ≡ 0)
unfolding find_reusable
find_reusable_lem p s zero t h = cc
find_reusable_lem p s (suc n) t h = ground (arith, find_reusable_lem p (suc s) n t)

found-Reusable :
    (p q : Bytes) (r : Option ℕ)
    → find_reusable p 0 (count p) ≡ r
    → count q ≡ count p
    → ((s : ℕ) → s < count p → live p s ≡ 0 → live q s ≡ 0)
    → Reusable q r
found-Reusable p q none e same dead = tt
found-Reusable p q (some s) e same dead =
    let found = find_reusable_lem p 0 (count p) s e in
    (omega (arith, found.0), dead s (omega (arith, found.0)) found.1)

slot_count_lem : (p : Bytes) → IsPage p → slot_count p ≡ count p
unfolding slot_count
slot_count_lem p w = rw w.is_valid refl

-- The page after the rows have been compacted, if that was needed.
record Roomy (p q : Bytes) (need : ℕ) : Type 0 where
  eq : compact_if_full p need ≡ ok q
  is_page : IsPage q
  count_same : count q ≡ count p
  reads : (s : ℕ) → read q s ≡ read p s
  dead_same : (s : ℕ) → s < count p → live p s ≡ 0 → live q s ≡ 0
  enough : need + (16 + count p * 6) + total p 0 (count p) ≤ page_size → need ≤ free_space q
  short : page_size < need + (16 + count p * 6) + total p 0 (count p) → free_space q < need

compact_if_full_lem : (p : Bytes) (need : ℕ) → IsPage p → (q : Bytes) × Roomy p q need
unfolding compact_if_full
compact_if_full_lem p need w = elim (lt-cases (free_space p) need) [
  | inl little ↦ (
    compacted p w,
    record {
      eq = rw (lt→ltb (free_space p) need little) (compact-eq p w);
      is_page = compacted-IsPage p w;
      count_same = count-compacted p w;
      reads = read-compacted p w;
      dead_same = λ s h dead. (dead_slot p w s h dead).same_live ∙ dead;
      enough = λ h. omega (arith, free_space-compacted p w);
      short = λ h. omega (arith, free_space-compacted p w);
    },
  )
  | inr plenty ↦ (
    p,
    record {
      eq = rw (le→ltb (free_space p) need plenty) refl;
      is_page = w;
      count_same = refl;
      reads = λ s. refl;
      dead_same = λ s h dead. dead;
      enough = λ h. plenty;
      short = λ h. absurd (omega (arith, free_space-IsPage p w, w.room, w.header));
    },
  )
]

-- What a successful insertion gives.
pub record Inserted (p q : Bytes) (t : ℕ) (row : List ℕ) : Type 0 where
  pub was_free : read p t ≡ ok none
  pub is_page : IsPage q
  pub reads : (u : ℕ) → read q u ≡ (if u == t then ok (some row) else read p u)

Entered-Inserted :
    (p q : Bytes) (t : ℕ) (row : List ℕ) → IsPage p → Entered p q t row → Inserted p q t row
Entered-Inserted p q t row w e = record {
  was_free = elim (lt-cases t (count p)) [
    | inl inside ↦ read_dead p t (e.vacant inside)
    | inr beyond ↦ read_beyond p t w.is_valid beyond
  ];
  is_page = Entered-IsPage p q t row w e;
  reads =
      read_one p q t (ok (some row)) (read-Entered_self p q t row w e)
        (read-Entered_ne p q t row w e);
}

store-Inserted :
    (p : Bytes) (r : Option ℕ) (row : List ℕ)
    → IsPage p
    → Reusable p r
    → length row + slot_bytes r ≤ free_space p
    → (t : ℕ) × (q : Bytes) × (store p r row ≡ (ok (some t), q)) × Inserted p q t row
store-Inserted p none row w h room =
    let at : end p - length row + length row ≡ end p = omega (arith, free_space-IsPage p w) in
    let ready : start p + 6 ≤ end p - length row = omega (arith, free_space-IsPage p w) in
    (
      count p,
      entered p _ (count p) _ row w at (grown-Ready p row _ w at ready),
      store-grown p row _ w at ready,
      Entered-Inserted p _ (count p) row w
          (Ready-Entered p _ (count p) _ row w at (grown-Ready p row _ w at ready)),
    )
store-Inserted p (some s) row w h room =
    let at : end p - length row + length row ≡ end p = omega (arith, free_space-IsPage p w) in
    let ready : start p ≤ end p - length row = omega (arith, free_space-IsPage p w) in
    (
      s,
      entered p _ s _ row w at (reused-Ready p row _ w at s h.0 h.1 ready),
      store-reused p row _ w at s h.0 h.1 ready,
      Entered-Inserted p _ s row w
          (Ready-Entered p _ s _ row w at (reused-Ready p row _ w at s h.0 h.1 ready)),
    )

-- The bytes that the header, the directory, the live rows and one row more take.
abbrev pub required : Bytes → List ℕ → ℕ
required p row = length row + (16 + count p * 6) + total p 0 (count p)

-- A row fits into the page if it and the rest leave room for a directory entry of its own, or take no
-- more than the page where one of the directory's slots is dead.
abbrev pub HasRoom : Bytes → List ℕ → Type 0
HasRoom p row =
    (required p row + 6 ≤ page_size)
    ⊎ ((required p row ≤ page_size) × ((s : ℕ) × (s < count p) × (live p s ≡ 0)))

find_reusable-none :
    (p : Bytes) (s n : ℕ) → find_reusable p s n ≡ none → (t : ℕ) → s ≤ t → t < s + n → live p t ≢ 0
unfolding find_reusable
find_reusable-none p s zero h t le lt = absurd (omega (arith, le, lt))
find_reusable-none p s (suc n) h t le lt = elim (Bool-cases (live p s == 0)) [
  | inl dead ↦ absurd (
      some_ne_none s
        (subst (λ (b : Bool). (if b then some s else find_reusable p (suc s) n) ≡ none) dead h))
  | inr used ↦ elim (lt-cases s t) [
    | inl later ↦
        find_reusable-none p (suc s) n
          (subst (λ (b : Bool). (if b then some s else find_reusable p (suc s) n) ≡ none) used h) t
          (omega (arith, later)) (omega (arith, lt))
    | inr here ↦ λ e. ground (arith, used, e, same t here le)
  ]
]
  where
    some_ne_none : (x : ℕ) → some x ≡ none → ⊥
    some_ne_none x e = cc

    same : (u : ℕ) → u ≤ s → s ≤ u → live p u ≡ live p s
    same u a b = ap (live p) (omega (arith, a, b))

-- The room that insert finds is that of the page.
found-HasRoom :
    (p : Bytes) (row : List ℕ) (r : Option ℕ)
    → find_reusable p 0 (count p) ≡ r
    → length row + slot_bytes r + (16 + count p * 6) + total p 0 (count p) ≤ page_size
    → HasRoom p row
found-HasRoom p row none e fits = inl (omega (arith, fits))
found-HasRoom p row (some s) e fits =
    let found = find_reusable_lem p 0 (count p) s e in
    inr (omega (arith, fits), (s, omega (arith, found.0), found.1))

HasRoom-found :
    (p : Bytes) (row : List ℕ) (r : Option ℕ)
    → find_reusable p 0 (count p) ≡ r
    → HasRoom p row
    → length row + slot_bytes r + (16 + count p * 6) + total p 0 (count p) ≤ page_size
HasRoom-found p row none e (inl fits) = omega (arith, fits)
HasRoom-found p row none e (inr (fits, (s, below, dead))) =
    absurd (find_reusable-none p 0 (count p) e s (omega arith) (omega (arith, below)) dead)
HasRoom-found p row (some s) e (inl fits) = omega (arith, fits)
HasRoom-found p row (some s) e (inr (fits, dead)) = omega (arith, fits)

finish : Bytes → Outcome Bytes → Option ℕ → List ℕ → Outcome (Option ℕ) × Bytes
finish p made r row = elim made [
  | throws message ↦ (throws message, p)
  | ok q ↦ if ltb (free_space q) (length row + slot_bytes r) then (ok none, q) else store q r row
]

insert_valid_from : Bytes → List ℕ → ℕ → Outcome (Option ℕ) × Bytes
insert_valid_from p row slots =
    finish p (compact_if_full p (length row + slot_bytes (find_reusable p 0 slots)))
      (find_reusable p 0 slots) row

insert_valid_lem :
    (p : Bytes) (row : List ℕ) → insert_valid p row ≡ insert_valid_from p row (slot_count p)
unfolding insert_valid insert_valid_from finish
insert_valid_lem p row = refl

insert-finish :
    (p : Bytes) (row : List ℕ)
    → IsPage p
    → length row ≤ 65535
    → insert p row
      ≡ finish p
          (compact_if_full p (length row + slot_bytes (find_reusable p 0 (count p))))
          (find_reusable p 0 (count p))
          row
unfolding insert insert_valid_from
insert-finish p row w h =
    rw (w.is_valid, le→ltb 65535 (length row) h)
      (insert_valid_lem p row ∙ ap (insert_valid_from p row) (slot_count_lem p w))

finish_lem :
    (p q : Bytes) (made : Outcome Bytes) (r : Option ℕ) (row : List ℕ)
    → made ≡ ok q
    → finish p made r row
      ≡ (if ltb (free_space q) (length row + slot_bytes r) then (ok none, q) else store q r row)
unfolding finish
finish_lem p q made r row e = rw e refl

abbrev pub Fits : Bytes → List ℕ → Type 0
Fits p row = (t : ℕ) × (q : Bytes) × (insert p row ≡ (ok (some t), q)) × Inserted p q t row

abbrev pub Full : Bytes → List ℕ → Type 0
Full p row =
    (q : Bytes) × (insert p row ≡ (ok none, q)) × IsPage q × ((s : ℕ) → read q s ≡ read p s)

-- On a well-formed page, and for a row of at most 65535 bytes, insert never throws. It stores the
-- row exactly when there is room for it beside the live rows, however they are scattered, and for its
-- directory entry unless a slot is dead: then the slot that it returns was free and now reads as the
-- row, and every other slot reads as before. Otherwise it returns no slot and every slot reads as
-- before. The page is well formed afterwards.
pub insert_lem :
    (p : Bytes) (row : List ℕ)
    → IsPage p
    → length row ≤ 65535
    → (HasRoom p row × Fits p row) ⊎ ((¬ HasRoom p row) × Full p row)
insert_lem p row w h =
    let r = find_reusable p 0 (count p) in
    let need = length row + slot_bytes r in
    let (q, roomy) = compact_if_full_lem p need w in
    let step = insert-finish p row w h ∙ finish_lem p q (compact_if_full p need) r row roomy.eq in
    elim (lt-cases page_size (need + (16 + count p * 6) + total p 0 (count p))) [
      | inl full ↦ inr (
        (λ room. absurd (omega (arith, full, HasRoom-found p row r refl room))),
        (
          q,
          step ∙ rw (lt→ltb (free_space q) need (roomy.short full)) refl,
          roomy.is_page,
          roomy.reads,
        ),
      )
      | inr fits ↦
          let (t, q', stored, inserted) =
            store-Inserted q r row roomy.is_page
              (found-Reusable p q r refl roomy.count_same roomy.dead_same) (roomy.enough fits) in
          inl (
            found-HasRoom p row r refl fits,
            (
              t,
              q',
              step ∙ rw (le→ltb (free_space q) need (roomy.enough fits)) stored,
              record {
                was_free = sym (roomy.reads t) ∙ inserted.was_free;
                is_page = inserted.is_page;
                reads = λ u.
                    inserted.reads u
                    ∙ ap (λ x. if u == t then ok (some row) else x) (roomy.reads u);
              },
            ),
          )
    ]
