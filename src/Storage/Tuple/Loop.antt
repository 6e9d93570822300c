-- ===== src/Storage/Tuple/Loop.antt =====
-- The loop of decodeTupleProjected over the bytes of a row.
use skibidi_ql.Prelude.{
  ℕ, suc, ◌+◌, ◌-◌, ◌<◌, ◌≤◌, ◌≡◌, ◌≢◌, refl, ap, ◌∙◌, Option, none, some, List, [], ◌∷◌, Outcome,
  ok, arith, length, get_elem?, All, ◌>>=◌, ℕ-cases, ne→eqb, ==_refl, inl, inr, sym, subst,
}
use skibidi_ql.Storage.Value.{Value}
use skibidi_ql.Storage.Tuple.{
  Tuple, encode_fields, decode_field, decode_fields, still_wanted, keep_wanted,
}
use skibidi_ql.Storage.Tuple.Fields.{IsCell, decode_field-encode_fields}

-- Columns in increasing order from `lo` on and below `hi`.
abbrev pub Columns : ℕ → ℕ → List ℕ → Type 0
Columns lo hi [] = Unit
Columns lo hi (c ∷ cs) = (lo ≤ c) × (c < hi) × Columns (suc c) hi cs

-- The values of the columns of a tuple.
abbrev keep : Option Value → Tuple → Tuple
keep none vs = vs
keep (some v) vs = v ∷ vs

unfoldable pub pick : Tuple → List ℕ → Tuple
pick t [] = []
pick t (c ∷ cs) = keep (get_elem? t c) (pick t cs)

-- The same in the fields from `index` on.
unfoldable pub pick_from : ℕ → Tuple → List ℕ → Tuple
pick_from index t [] = []
pick_from index t (c ∷ cs) = keep (get_elem? t (c - index)) (pick_from index t cs)

pub pick_from_zero : (t : Tuple) (cs : List ℕ) → pick_from 0 t cs ≡ pick t cs
unfolding pick pick_from
pick_from_zero t [] = refl
pick_from_zero t (c ∷ cs) = rw (pick_from_zero t cs, whole c) refl
  where
    whole : (c : ℕ) → c - 0 ≡ c
    whole c = omega arith

pick_from-cons :
    (index hi lo : ℕ) (v : Value) (vs : Tuple) (cs : List ℕ)
    → Columns lo hi cs
    → index < lo
    → pick_from index (v ∷ vs) cs ≡ pick_from (suc index) vs cs
unfolding pick_from
pick_from-cons index hi lo v vs [] h k = refl
pick_from-cons index hi lo v vs (c ∷ cs) h k =
    rw (pick_from-cons index hi (suc c) v vs cs h.2 (omega arith), step) refl
  where
    step : c - index ≡ suc (c - suc index)
    step = omega arith

decode_step :
    (c : ℕ) (cs : List ℕ) (index n : ℕ) (rest : List ℕ) (v : Value) (rest' : List ℕ)
    → decode_field rest ≡ ok (v, rest')
    → decode_fields (c ∷ cs) index (suc n) rest ≡ (
        decode_fields (still_wanted (c ∷ cs) index) (suc index) n rest' >>= λ vs.
        ok (keep_wanted (c ∷ cs) index v vs))
unfolding decode_fields
decode_step c cs index n rest v rest' e = rw e refl

wanted_here :
    (c : ℕ) (cs : List ℕ) (index : ℕ) (v : Value) (r : Outcome Tuple) (vs : Tuple)
    → c ≡ index
    → r ≡ ok vs
    → (r >>= λ ws. ok (keep_wanted (c ∷ cs) index v ws)) ≡ ok (v ∷ vs)
wanted_here c cs index v r vs h e = rw (e, h, ==_refl index) refl

wanted_later :
    (c : ℕ) (cs : List ℕ) (index : ℕ) (v : Value) (r : Outcome Tuple) (vs : Tuple)
    → c ≢ index
    → r ≡ ok vs
    → (r >>= λ ws. ok (keep_wanted (c ∷ cs) index v ws)) ≡ ok vs
wanted_later c cs index v r vs h e = rw (e, ne→eqb c index h) refl

still_here : (c : ℕ) (cs : List ℕ) (index : ℕ) → c ≡ index → still_wanted (c ∷ cs) index ≡ cs
still_here c cs index h = rw (h, ==_refl index) refl

still_later : (c : ℕ) (cs : List ℕ) (index : ℕ) → c ≢ index → still_wanted (c ∷ cs) index ≡ c ∷ cs
still_later c cs index h = rw (ne→eqb c index h) refl

pick_from_later :
    (c : ℕ) (cs : List ℕ) (index hi : ℕ) (v : Value) (vs : Tuple)
    → Columns (suc index) hi (c ∷ cs)
    → pick_from index (v ∷ vs) (c ∷ cs) ≡ pick_from (suc index) vs (c ∷ cs)
pick_from_later c cs index hi v vs h =
    pick_from-cons index hi (suc index) v vs (c ∷ cs) h (omega arith)

pub pick_from_here :
    (c : ℕ) (cs : List ℕ) (index hi : ℕ) (v : Value) (vs : Tuple)
    → c ≡ index
    → Columns (suc index) hi cs
    → pick_from index (v ∷ vs) (c ∷ cs) ≡ v ∷ pick_from (suc index) vs cs
unfolding pick_from
pick_from_here c cs index hi v vs e h =
    rw (e, none_before, pick_from-cons index hi (suc index) v vs cs h (omega arith)) refl
  where
    none_before : index - index ≡ 0
    none_before = omega arith

pub Columns-hi : (lo hi hi' : ℕ) (cs : List ℕ) → hi ≡ hi' → Columns lo hi cs → Columns lo hi' cs
Columns-hi lo hi hi' cs e h = subst (λ k. Columns lo k cs) e h

Columns-lo : (lo lo' hi : ℕ) (cs : List ℕ) → lo ≡ lo' → Columns lo hi cs → Columns lo' hi cs
Columns-lo lo lo' hi cs e h = subst (λ k. Columns k hi cs) e h

-- The loop returns those columns.
pub decode_fields_lem :
    (cs : List ℕ) (index : ℕ) (t : Tuple)
    → All IsCell t
    → Columns index (index + length t) cs
    → decode_fields cs index (length t) (encode_fields t) ≡ ok (pick_from index t cs)
decode_fields_lem [] index [] h k = unfold decode_fields pick_from in refl
decode_fields_lem [] index (v ∷ vs) h k = unfold decode_fields pick_from in refl
decode_fields_lem (c ∷ cs) index [] h k = absurd (omega arith)
decode_fields_lem (c ∷ cs) index (v ∷ vs) h k =
    decode_step c cs index (length vs) _ v (encode_fields vs) (decode_field-encode_fields v vs h.0)
    ∙ elim (ℕ-cases c index) [
      | inl here ↦
          let inner : Columns (suc index) (suc index + length vs) cs =
            Columns-hi _ _ _ cs (omega arith) (Columns-lo _ _ _ cs (ap suc here) k.2) in
          wanted_here c cs index v _ (pick_from (suc index) vs cs) here
            (rw (still_here c cs index here) (decode_fields_lem cs (suc index) vs h.1 inner))
          ∙ ap ok (sym (pick_from_here c cs index _ v vs here inner))
      | inr later ↦
          let inner : Columns (suc index) (suc index + length vs) (c ∷ cs) =
            (omega arith, omega arith, Columns-hi _ _ _ cs (omega arith) k.2) in
          wanted_later c cs index v _ (pick_from (suc index) vs (c ∷ cs)) later (
            rw (still_later c cs index later) (decode_fields_lem (c ∷ cs) (suc index) vs h.1 inner))
          ∙ ap ok (sym (pick_from_later c cs index _ v vs inner))
    ]
