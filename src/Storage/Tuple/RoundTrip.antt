-- ===== src/Storage/Tuple/RoundTrip.antt =====
-- A row read back from its bytes, whole or in part.
use skibidi_ql.Prelude.{
  ℕ, zero, suc, ◌+◌, ◌≤◌, ◌≡◌, refl, ap, ◌∙◌, true, some, List, [], ◌∷◌, ◌++◌, ok, arith, length,
  All, pod_bytes, read_pod, read_pod-pod_bytes, le→ltb, sym, lt→ltb,
}
use skibidi_ql.Storage.Tuple.{
  Tuple, encode_fields, encode_tuple, decode_tuple_projected, decode_tuple, increasing, last_below,
  columns_from,
}
use skibidi_ql.Storage.Tuple.Fields.{IsCell}
use skibidi_ql.Storage.Tuple.Loop.{
  Columns, pick, pick_from, pick_from_zero, pick_from_here, Columns-hi, decode_fields_lem,
}

-- Such columns pass the test of the code.
Columns-increasing : (lo hi : ℕ) (cs : List ℕ) → Columns lo hi cs → increasing cs ≡ true
unfolding increasing
Columns-increasing lo hi [] h = refl
Columns-increasing lo hi (c ∷ []) h = refl
Columns-increasing lo hi (c ∷ (e ∷ cs)) h =
    rw (lt→ltb c e h.2.0, Columns-increasing (suc c) hi (e ∷ cs) h.2) refl

Columns-last_below : (lo hi : ℕ) (cs : List ℕ) → Columns lo hi cs → last_below hi cs ≡ true
Columns-last_below lo hi [] h = refl
Columns-last_below lo hi (c ∷ []) h = lt→ltb c hi h.1
Columns-last_below lo hi (c ∷ (e ∷ cs)) h = Columns-last_below (suc c) hi (e ∷ cs) h.2

-- What encodeTuple returns for a tuple of at most 65535 fields.
encoded : Tuple → List ℕ
encoded t = pod_bytes 2 (length t) ++ encode_fields t

encode_tuple_lem : (t : Tuple) → length t ≤ 65535 → encode_tuple t ≡ ok (encoded t)
unfolding encode_tuple encoded
encode_tuple_lem t h = rw (le→ltb 65535 (length t) h) refl

read_count :
    (t : Tuple) → length t ≤ 65535 → read_pod 2 (encoded t) ≡ some (length t, encode_fields t)
unfolding encoded
read_count t h = read_pod-pod_bytes 2 (length t) (encode_fields t) (omega arith)

decode_projected :
    (t : Tuple) (cs : List ℕ)
    → length t ≤ 65535
    → All IsCell t
    → Columns 0 (length t) cs
    → decode_tuple_projected (encoded t) cs ≡ ok (pick t cs)
unfolding decode_tuple_projected pick
decode_projected t [] h w k = refl
decode_projected t (c ∷ cs) h w k =
    rw
      (
        read_count t h,
        Columns-last_below 0 (length t) (c ∷ cs) k,
        Columns-increasing 0 (length t) (c ∷ cs) k,
      )
      (decode_fields_lem (c ∷ cs) 0 t w (Columns-hi 0 _ _ (c ∷ cs) (omega arith) k)
        ∙ ap ok (pick_from_zero t (c ∷ cs)))

columns_from-Columns : (index n : ℕ) → Columns index (index + n) (columns_from index n)
columns_from-Columns index zero = tt
columns_from-Columns index (suc n) = (
  omega arith,
  omega arith,
  Columns-hi (suc index) _ _ (columns_from (suc index) n) (omega arith)
      (columns_from-Columns (suc index) n),
)

all-Columns : (n : ℕ) → Columns 0 n (columns_from 0 n)
all-Columns n = Columns-hi 0 _ _ (columns_from 0 n) (omega arith) (columns_from-Columns 0 n)

-- All the columns are the tuple.
pick_from_all : (index : ℕ) (t : Tuple) → pick_from index t (columns_from index (length t)) ≡ t
pick_from_all index [] = unfold pick_from in refl
pick_from_all index (v ∷ vs) =
    pick_from_here index (columns_from (suc index) (length vs)) index _ v vs refl
      (columns_from-Columns (suc index) (length vs))
    ∙ ap (◌∷◌ v) (pick_from_all (suc index) vs)

pick_all : (t : Tuple) → pick t (columns_from 0 (length t)) ≡ t
pick_all t = sym (pick_from_zero t _) ∙ pick_from_all 0 t

-- A row of at most 65535 fields, with integers and doubles of 64 bits and texts and blobs below
-- 2^32 bytes, is encoded, and any increasing selection of its columns is decoded from those bytes.
pub decode_tuple_projected-encode_tuple :
    (t : Tuple) (cs : List ℕ)
    → length t ≤ 65535
    → All IsCell t
    → Columns 0 (length t) cs
    → (bytes : List ℕ) × (encode_tuple t ≡ ok bytes)
      × (decode_tuple_projected bytes cs ≡ ok (pick t cs))
decode_tuple_projected-encode_tuple t cs h w k =
    (encoded t, encode_tuple_lem t h, decode_projected t cs h w k)

-- A row of at most 65535 fields, with integers and doubles of 64 bits and texts and blobs below
-- 2^32 bytes, is encoded, and decodeTuple gives back that row from those bytes.
pub decode_tuple-encode_tuple :
    (t : Tuple)
    → length t ≤ 65535
    → All IsCell t
    → (bytes : List ℕ) × (encode_tuple t ≡ ok bytes) × (decode_tuple bytes ≡ ok t)
unfolding decode_tuple
decode_tuple-encode_tuple t h w = (
  encoded t,
  encode_tuple_lem t h,
  rw (read_count t h) (
      decode_projected t (columns_from 0 (length t)) h w (all-Columns (length t))
      ∙ ap ok (pick_all t)),
)
