-- ===== src/Cache/Evict.antt =====
-- Evictions: what they drop, and that they drop no more than the limits of the cache ask for.
use skibidi_ql.Prelude.{
  is_empty, ℕ, zero, suc, ◌+◌, ◌-◌, ◌≤◌, ◌≡◌, refl, true, false, List, [], ◌∷◌, ◌++◌, length,
  length-append, lt-cases, ◌<◌, ◌⊎◌, arith, Bool-cases, inl, inr, le→ltb, sym, ap, ◌∙◌, subst,
}
use mathlib.Core.List.{append-nil, append_assoc}
use skibidi_ql.Cache.{CacheEntry, Cache, but_last, last_bytes, evict_oldest, over, evict}
use skibidi_ql.Cache.Bounds.{total, IsCache}

total-but_last :
    (e : CacheEntry) (lru : List CacheEntry)
    → (total (but_last (e ∷ lru)) + last_bytes (e ∷ lru) ≡ total (e ∷ lru))
      × (suc (length (but_last (e ∷ lru))) ≡ length (e ∷ lru))
unfolding total but_last last_bytes
total-but_last e [] = (omega arith, omega arith)
total-but_last e (f ∷ lru) =
    let (t, n) = total-but_last f lru in (omega (arith, t), omega (arith, n))

-- The last element, behind the others.
but_last-append :
    (e : CacheEntry) (lru : List CacheEntry)
    → (l : CacheEntry) × (e ∷ lru ≡ but_last (e ∷ lru) ++ l ∷ [])
unfolding but_last
but_last-append e [] = (e, refl)
but_last-append e (f ∷ lru) = let (l, same) = but_last-append f lru in (l, ap (◌∷◌ e) same)

-- A list with one more element at its end, if there is one, is beyond a limit.
abbrev pub Full : ℕ → ℕ → CacheEntry → List CacheEntry → List CacheEntry → Type 0
Full most_entries most_bytes e kept [] = Unit
Full most_entries most_bytes e kept (l ∷ later) =
    (most_entries < suc (suc (length kept))) ⊎ (most_bytes < e.bytes + total kept + l.bytes)

-- The loop leaves the first element, with a front part of the others that ends at a limit.
pub record Evicted (c : Cache) (e : CacheEntry) (rest : List CacheEntry) (d : Cache) : Type 0 where
  pub kept : List CacheEntry
  pub dropped : List CacheEntry
  pub lru_kept : d.lru ≡ e ∷ kept
  pub front : rest ≡ kept ++ dropped
  pub limits : (d.max_entries ≡ c.max_entries) × (d.max_bytes ≡ c.max_bytes)
  pub is_cache : IsCache d
  pub full : Full c.max_entries c.max_bytes e kept dropped

evicted_oldest :
    (c : Cache)
    → is_empty c.lru ≡ false
    → evict_oldest c ≡ record c {
      bytes = c.bytes - last_bytes c.lru;
      lru = but_last c.lru;
      evictions = suc c.evictions;
    }
unfolding evict_oldest
evicted_oldest c h = rw h refl

-- With room for the first element, a loop that stops there is within the limits.
stopped :
    (c : Cache) (e : CacheEntry) (rest : List CacheEntry)
    → c.lru ≡ e ∷ rest
    → c.bytes ≡ total c.lru
    → over c ≡ false
    → Evicted c e rest c
unfolding over
stopped c e rest h t within = record {
  kept = rest;
  dropped = [];
  lru_kept = h;
  front = sym (append-nil rest);
  limits = (refl, refl);
  is_cache = record {
    counted = t;
    entries_within = ground (arith, within);
    bytes_within = ground (arith, within);
  };
  full = tt;
}

alone :
    (c : Cache) (e : CacheEntry)
    → c.lru ≡ e ∷ []
    → c.bytes ≡ total c.lru
    → 1 ≤ c.max_entries
    → e.bytes ≤ c.max_bytes
    → over c ≡ false
unfolding over total
alone c e h t room fits =
    let size = ap length h in
    let sum = ap total h in
    rw
      (
        le→ltb c.max_entries (length c.lru) (omega (arith, size, room)),
        le→ltb c.max_bytes c.bytes (omega (arith, t, sum, fits)),
      )
      refl

evict_stops : (fuel : ℕ) (c : Cache) → over c ≡ false → evict fuel c ≡ c
unfolding evict
evict_stops zero c h = refl
evict_stops (suc fuel) c h = rw h refl

evict_goes_on :
    (fuel : ℕ) (c : Cache) → over c ≡ true → evict (suc fuel) c ≡ evict fuel (evict_oldest c)
unfolding evict
evict_goes_on fuel c h = rw h refl

without_last : Cache → Cache
without_last c = record c {
  bytes = c.bytes - last_bytes c.lru;
  lru = but_last c.lru;
  evictions = suc c.evictions;
}

total-append : (xs ys : List CacheEntry) → total (xs ++ ys) ≡ total xs + total ys
unfolding total
total-append [] ys = omega arith
total-append (x ∷ xs) ys = omega (arith, total-append xs ys)

-- What the loop goes on at.
abbrev Over : Cache → CacheEntry → List CacheEntry → Type 0
Over c e rest = (c.max_entries < suc (length rest)) ⊎ (c.max_bytes < e.bytes + total rest)

Full-more :
    (c : Cache) (e : CacheEntry) (rest kept dropped : List CacheEntry) (l : CacheEntry)
    → rest ≡ kept ++ (dropped ++ l ∷ [])
    → Full c.max_entries c.max_bytes e kept dropped
    → Over c e rest
    → Full c.max_entries c.max_bytes e kept (dropped ++ l ∷ [])
unfolding total
Full-more c e rest kept [] l same full (inl entries) =
    inl (omega (arith, entries, ap length same, length-append kept (l ∷ [])))
Full-more c e rest kept [] l same full (inr bytes) =
    inr (omega (arith, bytes, ap total same, total-append kept (l ∷ [])))
Full-more c e rest kept (d ∷ dropped) l same full over = full

-- One more element dropped behind what a later round drops.
drop_more :
    (c d : Cache) (e f : CacheEntry) (lru : List CacheEntry)
    → Over c e (f ∷ lru)
    → Evicted (without_last c) e (but_last (f ∷ lru)) d
    → Evicted c e (f ∷ lru) d
unfolding without_last
drop_more c d e f lru over ev =
    let (l, same) = but_last-append f lru in
    let parts =
      same
      ∙ ap (λ (x : List CacheEntry). x ++ l ∷ []) ev.front
      ∙ append_assoc ev.kept ev.dropped (l ∷ []) in
    record {
      kept = ev.kept;
      dropped = ev.dropped ++ l ∷ [];
      lru_kept = ev.lru_kept;
      front = parts;
      limits = ev.limits;
      is_cache = ev.is_cache;
      full = Full-more c e (f ∷ lru) ev.kept ev.dropped l parts ev.full over;
    }

over-Over :
    (c : Cache) (e : CacheEntry) (rest : List CacheEntry)
    → c.lru ≡ e ∷ rest
    → c.bytes ≡ total c.lru
    → over c ≡ true
    → Over c e rest
unfolding over total
over-Over c e rest h t more = elim (lt-cases c.max_entries (length c.lru)) [
  | inl entries ↦ inl (omega (arith, entries, ap length h))
  | inr few ↦ inr (omega (arith, bytes few, t, ap total h))
]
  where
    bytes : length c.lru ≤ c.max_entries → c.max_bytes < c.bytes
    bytes few = ground (arith, more, few)

pub evict_lem :
    (fuel : ℕ) (c : Cache) (e : CacheEntry) (rest : List CacheEntry)
    → c.lru ≡ e ∷ rest
    → c.bytes ≡ total c.lru
    → 1 ≤ c.max_entries
    → e.bytes ≤ c.max_bytes
    → length rest ≤ fuel
    → Evicted c e rest (evict fuel c)
unfolding without_last but_last
evict_lem fuel c e [] h t room fits enough =
    let within = alone c e h t room fits in
    subst (Evicted c e []) (sym (evict_stops fuel c within)) (stopped c e [] h t within)
evict_lem zero c e (f ∷ rest) h t room fits enough = absurd (omega (arith, enough))
evict_lem (suc fuel) c e (f ∷ rest) h t room fits enough = elim (Bool-cases (over c)) [
  | inr within ↦
      subst (Evicted c e (f ∷ rest)) (sym (evict_stops (suc fuel) c within))
        (stopped c e (f ∷ rest) h t within)
  | inl more ↦
      let (sums, sizes) = total-but_last e (f ∷ rest) in
      let (sums1, sizes1) = total-but_last f rest in
      let next = evict_goes_on fuel c more ∙ ap (evict fuel) (evicted_oldest c (rw h refl)) in
      subst (Evicted c e (f ∷ rest)) (sym next) (
        drop_more c _ e f rest (over-Over c e (f ∷ rest) h t more) (
          evict_lem fuel (without_last c) e (but_last (f ∷ rest)) (ap but_last h)
            (omega (
              arith,
              t,
              ap total h,
              ap last_bytes h,
              ap (λ (x : List CacheEntry). total (but_last x)) h,
              sums,
            ))
            room fits (omega (arith, sizes1, enough))))
]
