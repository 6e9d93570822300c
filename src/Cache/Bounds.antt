-- ===== src/Cache/Bounds.antt =====
-- The cache counts its bytes rightly and stays within its limits.
use skibidi_ql.Prelude.{
  ℕ, suc, ◌+◌, ◌≤◌, ◌≡◌, refl, true, false, some, List, [], ◌∷◌, if◌then◌else◌, length, arith,
  Bool-cases, inl, inr, sym, ap, ◌∙◌,
}
use skibidi_ql.Cache.{CacheEntry, Cache, matches, find, unlink}

-- What the elements count.
unfoldable pub total : List CacheEntry → ℕ
total [] = 0
total (e ∷ lru) = e.bytes + total lru

pub record IsCache (c : Cache) : Type 0 where
  pub counted : c.bytes ≡ total c.lru
  pub entries_within : length c.lru ≤ c.max_entries
  pub bytes_within : c.bytes ≤ c.max_bytes

found_here :
    (source : List ℕ) (fingerprint hash : ℕ) (lru : List CacheEntry) (f e : CacheEntry)
    → matches source fingerprint hash f ≡ true
    → find source fingerprint hash (f ∷ lru) ≡ some e
    → f ≡ e
unfolding find
found_here source fingerprint hash lru f e here h = some_eq (sym first ∙ h)
  where
    first :
        (if matches source fingerprint hash f then some f else find source fingerprint hash lru)
        ≡ some f
    first = rw here refl

    some_eq : some f ≡ some e → f ≡ e
    some_eq k = cc

found_later :
    (source : List ℕ) (fingerprint hash : ℕ) (lru : List CacheEntry) (f e : CacheEntry)
    → matches source fingerprint hash f ≡ false
    → find source fingerprint hash (f ∷ lru) ≡ some e
    → find source fingerprint hash lru ≡ some e
unfolding find
found_later source fingerprint hash lru f e there h = sym later ∙ h
  where
    later :
        (if matches source fingerprint hash f then some f else find source fingerprint hash lru)
        ≡ find source fingerprint hash lru
    later = rw there refl

pub find-unlink :
    (source : List ℕ) (fingerprint hash : ℕ) (lru : List CacheEntry) (e : CacheEntry)
    → find source fingerprint hash lru ≡ some e
    → (total (unlink source fingerprint hash lru) + e.bytes ≡ total lru)
      × (suc (length (unlink source fingerprint hash lru)) ≡ length lru)
unfolding find unlink total
find-unlink source fingerprint hash [] e h = cc
find-unlink source fingerprint hash (f ∷ lru) e h =
    elim (Bool-cases (matches source fingerprint hash f)) [
      | inl here ↦
          let same =
            ap (λ (x : CacheEntry). x.bytes) (found_here source fingerprint hash lru f e here h) in
          rw here (omega (arith, same), refl)
      | inr there ↦
          let (t, n) =
            find-unlink source fingerprint hash lru e
              (found_later source fingerprint hash lru f e there h) in
          rw there (omega (arith, t), omega (arith, n))
    ]
