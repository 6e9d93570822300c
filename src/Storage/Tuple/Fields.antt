-- ===== src/Storage/Tuple/Fields.antt =====
-- One value read back from its bytes.
use skibidi_ql.Prelude.{
  ℕ, ◌^◌, String, ◌%◌, ◌<◌, ◌≡◌, refl, ap, true, false, List, ◌∷◌, ◌++◌, ok, arith, length,
  pod_bytes, read_pod, read_pod-pod_bytes, split_bytes-append,
}
use mathlib.Core.List.{append_assoc}
use skibidi_ql.Storage.Value.{Value, null, integer, real, text, boolean, blob, type_of}
use skibidi_ql.Storage.Tuple.{
  Tuple, encode_payload, encode_fields, decode_payload, decode_field, sized, take_sized, take_word,
  make_value,
}

-- The value is one that C++ can hold and that the 32-bit length of a text or blob does not cut.
abbrev pub IsCell : Value → Type 0
IsCell null = Unit
IsCell (integer n) = n < 2 ^ 64
IsCell (real r) = r < 2 ^ 64
IsCell (text s) = length s < 2 ^ 32
IsCell (boolean b) = Unit
IsCell (blob s) = length s < 2 ^ 32

small : (n : ℕ) → n < 2 ^ 32 → n % 4294967296 ≡ n
small n h = omega arith

take_sized-sized :
    (message : String) (s rest : List ℕ)
    → length s < 2 ^ 32
    → take_sized message (read_pod 4 (sized s ++ rest)) ≡ ok (s, rest)
take_sized-sized message s rest h =
    rw
      (
        small (length s) h,
        append_assoc (pod_bytes 4 (length s)) s rest,
        read_pod-pod_bytes 4 (length s) (s ++ rest) h,
        split_bytes-append s rest,
      )
      refl

decode_payload-encode_payload :
    (v : Value) (rest : List ℕ)
    → IsCell v
    → decode_payload (type_of v) (encode_payload v ++ rest) ≡ ok (v, rest)
unfolding decode_payload encode_payload type_of
decode_payload-encode_payload null rest h = refl
decode_payload-encode_payload (integer n) rest h =
    ap (take_word integer) (read_pod-pod_bytes 8 n rest h)
decode_payload-encode_payload (real n) rest h = ap (take_word real) (read_pod-pod_bytes 8 n rest h)
decode_payload-encode_payload (text s) rest h =
    ap (make_value text) (take_sized-sized "Corrupt text tuple field" s rest h)
decode_payload-encode_payload (boolean true) rest h = refl
decode_payload-encode_payload (boolean false) rest h = refl
decode_payload-encode_payload (blob s) rest h =
    ap (make_value blob) (take_sized-sized "Corrupt blob tuple field" s rest h)

pub decode_field-encode_fields :
    (v : Value) (vs : Tuple)
    → IsCell v
    → decode_field (encode_fields (v ∷ vs)) ≡ ok (v, encode_fields vs)
unfolding decode_field encode_fields
decode_field-encode_fields v vs h = decode_payload-encode_payload v (encode_fields vs) h
