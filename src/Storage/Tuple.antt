-- ===== src/Storage/Tuple.antt =====
-- HeapFile::encodeTuple, decodeTuple and decodeTupleProjected of src/native_storage.cpp: the bytes of
-- a row. A decoder's `offset` into the bytes is the list of the bytes from there on.
pub mod RoundTrip
pub mod Fields
pub mod Loop
use skibidi_ql.Prelude.{
  ℕ, zero, suc, ◌+◌, ◌*◌, ◌%◌, ◌<◌, Bool, true, false, not, ◌&&◌, ◌||◌, Option, none, some, List,
  [], ◌∷◌, ◌++◌, Outcome, ok, throws, String, ◌>>=◌, ltb, leb, ◌==◌, if◌then◌else◌, length,
  pod_bytes, read_pod, split_bytes,
}
use skibidi_ql.Storage.Value.{Value, null, integer, real, text, boolean, blob, type_of}

abbrev pub Tuple : Type 0
Tuple = List Value

abbrev pub sized : List ℕ → List ℕ
sized bytes = pod_bytes 4 (length bytes % 4294967296) ++ bytes

-- One value behind its type tag.
pub encode_payload : Value → List ℕ
encode_payload null = []
encode_payload (integer n) = pod_bytes 8 n
encode_payload (real r) = pod_bytes 8 r
encode_payload (boolean b) = (if b then 1 else 0) ∷ []
encode_payload (text s) = sized s
encode_payload (blob s) = sized s

pub encode_fields : Tuple → List ℕ
unfolding encode_payload type_of
encode_fields [] = []
encode_fields (v ∷ vs) = type_of v ∷ (encode_payload v ++ encode_fields vs)

pub encode_tuple : Tuple → Outcome (List ℕ)
encode_tuple t =
    if ltb 65535 (length t)
    then throws "Too many tuple fields"
    else ok (pod_bytes 2 (length t) ++ encode_fields t)

abbrev pub or_throw {ℓ} : {A : Type ℓ} → String → Option A → Outcome A
or_throw message none = throws message
or_throw message (some a) = ok a

abbrev pub take_sized : String → Option (ℕ × List ℕ) → Outcome (List ℕ × List ℕ)
take_sized message none = throws "Corrupt tuple payload"
take_sized message (some (n, rest)) = or_throw message (split_bytes n rest)

abbrev pub take_word : (ℕ → Value) → Option (ℕ × List ℕ) → Outcome (Value × List ℕ)
take_word make none = throws "Corrupt tuple payload"
take_word make (some (n, rest)) = ok (make n, rest)

abbrev pub take_boolean : List ℕ → Outcome (Value × List ℕ)
take_boolean [] = throws "Corrupt boolean tuple field"
take_boolean (b ∷ rest) = ok (boolean (not (b == 0)), rest)

abbrev pub make_value : (List ℕ → Value) → Outcome (List ℕ × List ℕ) → Outcome (Value × List ℕ)
make_value make (throws message) = throws message
make_value make (ok (bytes, rest)) = ok (make bytes, rest)

pub decode_payload : ℕ → List ℕ → Outcome (Value × List ℕ)
unfolding read_pod split_bytes
decode_payload tag rest =
    if tag == 0
    then ok (null, rest)
    else if tag == 1
    then take_word integer (read_pod 8 rest)
    else if tag == 2
    then take_word real (read_pod 8 rest)
    else if tag == 4
    then take_boolean rest
    else if tag == 3
    then make_value text (take_sized "Corrupt text tuple field" (read_pod 4 rest))
    else if tag == 5
    then make_value blob (take_sized "Corrupt blob tuple field" (read_pod 4 rest))
    else throws "Unknown tuple field type"

pub decode_field : List ℕ → Outcome (Value × List ℕ)
decode_field [] = throws "Corrupt tuple type tag"
decode_field (tag ∷ rest) = decode_payload tag rest

-- The columns that are still wanted once field `index` has been read.
abbrev pub still_wanted : List ℕ → ℕ → List ℕ
still_wanted [] index = []
still_wanted (c ∷ cs) index = if c == index then cs else c ∷ cs

abbrev pub keep_wanted : List ℕ → ℕ → Value → Tuple → Tuple
keep_wanted [] index v vs = vs
keep_wanted (c ∷ cs) index v vs = if c == index then v ∷ vs else vs

-- The loop of decodeTupleProjected over the `n` fields from `index` on: it stops when it has all the
-- columns that it wants.
pub decode_fields : List ℕ → ℕ → ℕ → List ℕ → Outcome Tuple
unfolding decode_field
decode_fields [] index n rest = ok []
decode_fields (c ∷ cs) index zero rest = ok []
decode_fields (c ∷ cs) index (suc n) rest = decode_field rest >>= λ field.
    decode_fields (still_wanted (c ∷ cs) index) (suc index) n field.1 >>= λ vs.
    ok (keep_wanted (c ∷ cs) index field.0 vs)

-- The test of decodeTupleProjected: sorted without repetition, and all below `count`.
pub increasing : List ℕ → Bool
increasing [] = true
increasing (c ∷ []) = true
increasing (c ∷ (e ∷ cs)) = ltb c e && increasing (e ∷ cs)

abbrev pub last_below : ℕ → List ℕ → Bool
last_below count [] = true
last_below count (c ∷ []) = ltb c count
last_below count (c ∷ (e ∷ cs)) = last_below count (e ∷ cs)

pub decode_tuple_projected : List ℕ → List ℕ → Outcome Tuple
decode_tuple_projected bytes [] = ok []
decode_tuple_projected bytes (c ∷ cs) =
    or_throw "Corrupt tuple payload" (read_pod 2 bytes) >>= λ counted.
    if last_below counted.0 (c ∷ cs) && increasing (c ∷ cs)
    then decode_fields (c ∷ cs) 0 counted.0 counted.1
    else throws "Invalid projected tuple columns"

-- `n` columns from `index` on.
abbrev pub columns_from : ℕ → ℕ → List ℕ
columns_from index zero = []
columns_from index (suc n) = index ∷ columns_from (suc index) n

pub decode_tuple : List ℕ → Outcome Tuple
decode_tuple bytes = or_throw "Corrupt tuple payload" (read_pod 2 bytes) >>= λ counted.
    decode_tuple_projected bytes (columns_from 0 counted.0)
