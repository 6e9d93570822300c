-- ===== src/Cache/Lookup.antt =====
-- What get finds after put.
use skibidi_ql.Prelude.{
  ℕ, ◌≤◌, ◌≡◌, ◌≢◌, refl, true, Option, none, some, List, ◌∷◌, ◌+◌, ◌<◌, suc, length, ap, ◌∙◌, ◌⊎◌,
}
use skibidi_ql.Cache.{
  Sizes, CacheEntry, Cache, CachedCompilation, matches, find, hit, get, put, estimate_bytes,
  hash_key,
}
use skibidi_ql.Cache.Bounds.{IsCache}
use skibidi_ql.Cache.Put.{new_entry, matches_self, put-Evicted}

abbrev value_of : Option CacheEntry → Option CachedCompilation
value_of none = none
value_of (some e) = some e.value

-- get looks its key up in the list.
get-find :
    (source : List ℕ) (fingerprint : ℕ) (c : Cache)
    → (get source fingerprint c).0
      ≡ value_of (find source fingerprint (hash_key source fingerprint) c.lru)
unfolding get
get-find source fingerprint c = go (find source fingerprint (hash_key source fingerprint) c.lru)
  where
    go : (o : Option CacheEntry) → (hit source fingerprint c o).0 ≡ value_of o
    go none = refl
    go (some e) = refl

find_first :
    (source : List ℕ) (fingerprint hash : ℕ) (e : CacheEntry) (lru : List CacheEntry)
    → matches source fingerprint hash e ≡ true
    → find source fingerprint hash (e ∷ lru) ≡ some e
unfolding find
find_first source fingerprint hash e lru h = rw h refl

-- A compilation that fits the limits of the cache is found by get right after put.
pub get-put :
    (sizes : Sizes) (source : List ℕ) (fingerprint : ℕ) (value : CachedCompilation) (c : Cache)
    → IsCache c
    → c.max_entries ≢ 0
    → estimate_bytes sizes source value ≤ c.max_bytes
    → (get source fingerprint (put sizes source fingerprint value c)).0 ≡ some value
get-put sizes source fingerprint value c w room fits =
    let (big, ev, m, b) = put-Evicted sizes source fingerprint value c w room fits in
    let hash = hash_key source fingerprint in
    get-find source fingerprint (put sizes source fingerprint value c)
    ∙ ap (λ (lru : List CacheEntry). value_of (find source fingerprint hash lru)) ev.lru_kept
    ∙ ap value_of (
        find_first source fingerprint hash (new_entry sizes source fingerprint value) ev.kept
          (matches_self sizes source fingerprint value))

-- An element of a list.
pub data Among (l : CacheEntry) : List CacheEntry → Type 0 where
  here : {lru : List CacheEntry} → Among l (l ∷ lru)
  there : {e : CacheEntry} {lru : List CacheEntry} → Among l lru → Among l (e ∷ lru)

-- An element of a cache does not fit beside what another keeps, within the limits of entries and bytes.
abbrev pub NoRoom : Cache → Cache → Type 0
NoRoom c d =
    (l : CacheEntry) × Among l c.lru
    × ((c.max_entries < suc (length d.lru)) ⊎ (c.max_bytes < d.bytes + l.bytes))
