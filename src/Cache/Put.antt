-- ===== src/Cache/Put.antt =====
-- What put and get do to the cache.
use skibidi_ql.Prelude.{
  ℕ, suc, ◌+◌, ◌≤◌, ◌<◌, ◌≡◌, ◌≢◌, refl, true, false, ◌||◌, Option, none, some, List, ◌∷◌, ◌==◌,
  length, arith, Bool-cases, inl, inr, lt-cases, lt→ltb, le→ltb, ne→eqb, ==_refl, sym, subst,
  bytes_eq_self,
}
use skibidi_ql.Cache.{
  Sizes, CacheEntry, Cache, CachedCompilation, matches, find, hit, get, erase_found, add_entry, put,
  estimate_bytes, hash_key,
}
use skibidi_ql.Cache.Bounds.{total, IsCache, find-unlink}
use skibidi_ql.Cache.Evict.{Evicted, evict_lem}

-- The element that put makes.
abbrev pub new_entry : Sizes → List ℕ → ℕ → CachedCompilation → CacheEntry
new_entry sizes source fingerprint value = record {
  source = source;
  schema_fingerprint = fingerprint;
  hash = hash_key source fingerprint;
  value = value;
  bytes = estimate_bytes sizes source value;
}

pub matches_self :
    (sizes : Sizes) (source : List ℕ) (fingerprint : ℕ) (value : CachedCompilation)
    → matches source fingerprint
        (hash_key source fingerprint)
        (new_entry sizes source fingerprint value)
      ≡ true
unfolding matches
matches_self sizes source fingerprint value =
    rw (==_refl (hash_key source fingerprint), ==_refl fingerprint, bytes_eq_self source) refl

module _ (source : List ℕ) (fingerprint : ℕ) where
  erase_found-IsCache :
      (c : Cache) (found : Option CacheEntry)
      → find source fingerprint (hash_key source fingerprint) c.lru ≡ found
      → IsCache c
      → IsCache (erase_found source fingerprint c found)
  erase_found-IsCache c none h w = w
  erase_found-IsCache c (some e) h w =
      let (sums, sizes) = find-unlink source fingerprint (hash_key source fingerprint) c.lru e h in
      record {
        counted = omega (arith, sums, w.counted);
        entries_within = omega (arith, sizes, w.entries_within);
        bytes_within = omega (arith, sums, w.counted, w.bytes_within);
      }

  hit-IsCache :
      (c : Cache) (found : Option CacheEntry)
      → find source fingerprint (hash_key source fingerprint) c.lru ≡ found
      → IsCache c
      → IsCache (hit source fingerprint c found).1
  unfolding total
  hit-IsCache c none h w = record {
    counted = w.counted;
    entries_within = w.entries_within;
    bytes_within = w.bytes_within;
  }
  hit-IsCache c (some e) h w =
      let (sums, sizes) = find-unlink source fingerprint (hash_key source fingerprint) c.lru e h in
      record {
        counted = omega (arith, sums, w.counted);
        entries_within = omega (arith, sizes, w.entries_within);
        bytes_within = w.bytes_within;
      }

  -- erase leaves the limits alone.
  erase_found-limits :
      (c : Cache) (found : Option CacheEntry)
      → ((erase_found source fingerprint c found).max_entries ≡ c.max_entries)
        × ((erase_found source fingerprint c found).max_bytes ≡ c.max_bytes)
  erase_found-limits c none = (refl, refl)
  erase_found-limits c (some e) = (refl, refl)

-- Of an element that fits: it stays in front, with a front part of what was there.
pub add_entry_lem :
    (e : CacheEntry) (c : Cache)
    → IsCache c
    → 1 ≤ c.max_entries
    → e.bytes ≤ c.max_bytes
    → Evicted (record c { lru = e ∷ c.lru; bytes = c.bytes + e.bytes }) e c.lru (add_entry e c)
unfolding add_entry total
add_entry_lem e c w room fits =
    evict_lem (suc (length c.lru)) _ e c.lru refl (omega (arith, w.counted)) room fits (omega arith)

-- What the code has erased before it adds.
abbrev pub erased : List ℕ → ℕ → Cache → Cache
erased source fingerprint c =
    erase_found source fingerprint c (find source fingerprint (hash_key source fingerprint) c.lru)

module _ (sizes : Sizes) (source : List ℕ) (fingerprint : ℕ) (value : CachedCompilation) where
  pub put_stored :
      (c : Cache)
      → c.max_entries ≢ 0
      → estimate_bytes sizes source value ≤ c.max_bytes
      → put sizes source fingerprint value c
        ≡ add_entry (new_entry sizes source fingerprint value) (erased source fingerprint c)
  unfolding put estimate_bytes
  put_stored c room fits =
      rw
        (
          ne→eqb c.max_entries 0 room,
          ne→eqb c.max_bytes 0 (λ e. absurd (omega (arith, fits, e))),
          le→ltb c.max_bytes (estimate_bytes sizes source value) fits,
        )
        refl

  erased-IsCache : (c : Cache) → IsCache c → IsCache (erased source fingerprint c)
  erased-IsCache c w =
      erase_found-IsCache source fingerprint c
        (find source fingerprint (hash_key source fingerprint) c.lru) refl w

  erased_limits :
      (c : Cache)
      → ((erased source fingerprint c).max_entries ≡ c.max_entries)
        × ((erased source fingerprint c).max_bytes ≡ c.max_bytes)
  erased_limits c =
      erase_found-limits source fingerprint c
        (find source fingerprint (hash_key source fingerprint) c.lru)

  put_too_large :
      (c : Cache)
      → (c.max_entries == 0 || c.max_bytes == 0) ≡ false
      → c.max_bytes < estimate_bytes sizes source value
      → put sizes source fingerprint value c ≡ erased source fingerprint c
  unfolding put
  put_too_large c h large =
      rw (h, lt→ltb c.max_bytes (estimate_bytes sizes source value) large) refl

  put_off :
      (c : Cache)
      → (c.max_entries == 0 || c.max_bytes == 0) ≡ true
      → put sizes source fingerprint value c ≡ c
  unfolding put
  put_off c h = rw h refl

  -- What add_entry makes when the element fits.
  pub put-Evicted :
      (c : Cache)
      → IsCache c
      → c.max_entries ≢ 0
      → estimate_bytes sizes source value ≤ c.max_bytes
      → (big : Cache) × Evicted big
          (new_entry sizes source fingerprint value)
          (erased source fingerprint c).lru
          (put sizes source fingerprint value c)
        × (big.max_entries ≡ c.max_entries)
        × (big.max_bytes ≡ c.max_bytes)
  put-Evicted c w room fits =
      let (m, b) = erased_limits c in
      (
        _,
        subst (Evicted _ _ (erased source fingerprint c).lru) (sym (put_stored c room fits)) (
            add_entry_lem _ (erased source fingerprint c) (erased-IsCache c w)
              (omega (arith, m, room)) (omega (arith, b, fits))),
        m,
        b,
      )

  put-IsCache : (c : Cache) → IsCache c → IsCache (put sizes source fingerprint value c)
  put-IsCache c w = elim (Bool-cases (c.max_entries == 0 || c.max_bytes == 0)) [
    | inl off ↦ subst IsCache (sym (put_off c off)) w
    | inr on ↦ elim (lt-cases c.max_bytes (estimate_bytes sizes source value)) [
      | inl large ↦ subst IsCache (sym (put_too_large c on large)) (erased-IsCache c w)
      | inr fits ↦ (put-Evicted c w (λ e. ground (arith, on, e)) fits).1.is_cache
    ]
  ]

-- On a cache that counts its bytes rightly and is within its limits of entries and bytes, both put and
-- get keep it so.
pub put-get_keep_limits :
    (sizes : Sizes) (source : List ℕ) (fingerprint : ℕ) (value : CachedCompilation) (c : Cache)
    → IsCache c
    → IsCache (put sizes source fingerprint value c) × IsCache (get source fingerprint c).1
unfolding get
put-get_keep_limits sizes source fingerprint value c w =
    (put-IsCache sizes source fingerprint value c w, hit-IsCache source fingerprint c _ refl w)
