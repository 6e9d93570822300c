-- ===== src/Cache.antt =====
-- CompilationCache of src/cache.h and src/cache.cpp: compiled queries by source text and schema
-- fingerprint, the least recently used one evicted first. `lru` is lru_, its front first. The hash
-- multimap entries_ holds an iterator for each element of lru_ and nothing else, so a look-up in it is
-- one among the elements of lru_, and its size is the length of lru_.
pub mod Bounds
pub mod Evict
pub mod Put
pub mod Lookup
use skibidi_ql.Prelude.{
  is_empty, ℕ, zero, suc, ◌+◌, ◌-◌, ◌*◌, ◌/◌, ◌%◌, Bool, true, false, ◌&&◌, ◌||◌, Option, none,
  some, List, [], ◌∷◌, ltb, ◌==◌, if◌then◌else◌, length, bytes_eq, pod_bytes,
}
use skibidi_ql.Hash.{fnv1a64, fnv1a64_append}

-- Without `ast`, a shared pointer that the cache hands on and never reads; what it points to is not in
-- the estimate of bytes.
pub record CachedStatement : Type 0 where
  pub sql : List ℕ
  pub optimization_notes : List (List ℕ)
  pub schema_changing : Bool

abbrev pub CachedCompilation : Type 0
CachedCompilation = List CachedStatement

-- What the standard library decides: the capacity of a string, that of a vector of strings, and the
-- sizes of the two types.
pub record Sizes : Type 0 where
  pub capacity : List ℕ → ℕ
  pub notes_capacity : List (List ℕ) → ℕ
  pub entry_size : ℕ
  pub string_size : ℕ

pub record CacheEntry : Type 0 where
  pub source : List ℕ
  pub schema_fingerprint : ℕ
  pub hash : ℕ
  pub value : CachedCompilation
  pub bytes : ℕ

pub record Cache : Type 0 where
  pub max_entries : ℕ
  pub max_bytes : ℕ
  pub bytes : ℕ
  pub hits : ℕ
  pub misses : ℕ
  pub evictions : ℕ
  pub lru : List CacheEntry

unfoldable pub hash_key : List ℕ → ℕ → ℕ
hash_key source fingerprint = fnv1a64_append (fnv1a64 source) (pod_bytes 8 fingerprint)

module _ (sizes : Sizes) where
  unfoldable pub notes_bytes : List (List ℕ) → ℕ
  notes_bytes [] = 0
  notes_bytes (note ∷ notes) = sizes.capacity note + 1 + notes_bytes notes

  unfoldable pub statements_bytes : List CachedStatement → ℕ
  statements_bytes [] = 0
  statements_bytes (s ∷ statements) =
      sizes.capacity s.sql
      + 1
      + (sizes.notes_capacity s.optimization_notes * sizes.string_size)
      + notes_bytes s.optimization_notes
      + statements_bytes statements

  unfoldable pub estimate_bytes : List ℕ → CachedCompilation → ℕ
  estimate_bytes source value =
      sizes.capacity source + 1 + sizes.entry_size + statements_bytes value

-- The test of find on one candidate.
unfoldable pub matches : List ℕ → ℕ → ℕ → CacheEntry → Bool
matches source fingerprint hash e =
    (e.hash == hash) && ((e.schema_fingerprint == fingerprint) && bytes_eq e.source source)

unfoldable pub find : List ℕ → ℕ → ℕ → List CacheEntry → Option CacheEntry
find source fingerprint hash [] = none
find source fingerprint hash (e ∷ lru) =
    let rest = find source fingerprint hash lru in
    if matches source fingerprint hash e then some e else rest

-- The list without the element that find returns.
unfoldable pub unlink : List ℕ → ℕ → ℕ → List CacheEntry → List CacheEntry
unlink source fingerprint hash [] = []
unlink source fingerprint hash (e ∷ lru) =
    let rest = unlink source fingerprint hash lru in
    if matches source fingerprint hash e then lru else e ∷ rest

abbrev pub hit : List ℕ → ℕ → Cache → Option CacheEntry → Option CachedCompilation × Cache
hit source fingerprint c none = (none, record c { misses = suc c.misses })
hit source fingerprint c (some e) = (
  some e.value,
  record c {
    hits = suc c.hits;
    lru = e ∷ unlink source fingerprint (hash_key source fingerprint) c.lru;
  },
)

unfoldable pub get : List ℕ → ℕ → Cache → Option CachedCompilation × Cache
get source fingerprint c =
    hit source fingerprint c (find source fingerprint (hash_key source fingerprint) c.lru)

-- erase on the element that find returned, if it did.
abbrev pub erase_found : List ℕ → ℕ → Cache → Option CacheEntry → Cache
erase_found source fingerprint c none = c
erase_found source fingerprint c (some e) = record c {
  bytes = c.bytes - e.bytes;
  lru = unlink source fingerprint (hash_key source fingerprint) c.lru;
}

-- The list without its last element, and what that element counts.
unfoldable pub but_last : List CacheEntry → List CacheEntry
but_last [] = []
but_last (e ∷ []) = []
but_last (e ∷ (f ∷ lru)) = e ∷ but_last (f ∷ lru)

unfoldable pub last_bytes : List CacheEntry → ℕ
last_bytes [] = 0
last_bytes (e ∷ []) = e.bytes
last_bytes (e ∷ (f ∷ lru)) = last_bytes (f ∷ lru)

unfoldable pub evict_oldest : Cache → Cache
evict_oldest c = if is_empty c.lru then c else record c {
  bytes = c.bytes - last_bytes c.lru;
  lru = but_last c.lru;
  evictions = suc c.evictions;
}

unfoldable pub over : Cache → Bool
over c = ltb c.max_entries (length c.lru) || ltb c.max_bytes c.bytes

-- The loop at the end of put.
unfoldable pub evict : ℕ → Cache → Cache
evict zero c = c
evict (suc fuel) c = let rest = evict fuel (evict_oldest c) in if over c then rest else c

-- An element at the front, and the loop: a round for each element is enough.
unfoldable pub add_entry : CacheEntry → Cache → Cache
add_entry e c =
    let grown = record c { lru = e ∷ c.lru; bytes = c.bytes + e.bytes } in
    evict (length grown.lru) grown

unfoldable pub put : Sizes → List ℕ → ℕ → CachedCompilation → Cache → Cache
put sizes source fingerprint value c =
    let hash = hash_key source fingerprint in
    let erased = erase_found source fingerprint c (find source fingerprint hash c.lru) in
    let item_bytes = estimate_bytes sizes source value in
    let entry : CacheEntry = record {
      source = source;
      schema_fingerprint = fingerprint;
      hash = hash;
      value = value;
      bytes = item_bytes;
    } in
    if c.max_entries == 0 || c.max_bytes == 0
    then c
    else if ltb c.max_bytes item_bytes
    then erased
    else add_entry entry erased

unfoldable pub clear : Cache → Cache
clear c = record c { lru = []; bytes = 0 }

unfoldable pub reset_stats : Cache → Cache
reset_stats c = record c { hits = 0; misses = 0; evictions = 0 }
