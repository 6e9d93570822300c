-- ===== src/Wal/Format.antt =====
-- The records of the log read back from its bytes, up to a record that a crash cut short.
use skibidi_ql.Prelude.{
  ℕ, zero, suc, ◌^◌, ◌%◌, ◌<◌, ◌≤◌, ◌≡◌, ◌≢◌, refl, sym, ap, ◌∙◌, Bool, true, false, Option, none,
  some, List, [], ◌∷◌, ◌++◌, arith, length, length-append, All, pod_bytes, read_pod,
  read_pod-pod_bytes, split_bytes, split_bytes-append, if◌then◌else◌, not, ◌==◌, ◌⊎◌, inl, inr,
  Option-cases, cons_split, pod_result,
}
use mathlib.Core.List.{append_assoc, append-nil}
use skibidi_ql.Wal.{Entry, append_record, parse_record, read_records, ◌>>=◌}

-- The numbers and lengths fit their fields.
pub record IsEntry (e : Entry) : Type 0 where
  pub transaction_fits : e.transaction < 2 ^ 64
  pub path_fits : length e.path < 2 ^ 32
  pub content_fits : length e.content < 2 ^ 64

flag : Bool → ℕ
flag b = if b then 1 else 0

-- The bytes of a record with what follows it, bracketed as they are read.
spread : Entry → List ℕ → List ℕ
spread e rest =
    e.kind
    ∷ (pod_bytes 8 e.transaction
        ++ (pod_bytes 4 (length e.path)
            ++ (pod_bytes 8 (length e.content)
                ++ (flag e.existed ∷ (e.path ++ (e.content ++ rest))))))

append_record-spread :
    (e : Entry) (rest : List ℕ) → IsEntry e → append_record e ++ rest ≡ spread e rest
unfolding append_record spread flag
append_record-spread e rest w = rw small (simp append_assoc)
  where
    small : length e.path % 4294967296 ≡ length e.path
    small = omega (arith, w.path_fits)

read_flag : (b : Bool) (rest : List ℕ) → read_pod 1 (flag b ∷ rest) ≡ some (flag b, rest)
unfolding read_pod flag
read_flag true rest = refl
read_flag false rest = refl

flag_back : (b : Bool) → not (flag b == 0) ≡ b
unfolding flag
flag_back true = refl
flag_back false = refl

parse_record-spread :
    (e : Entry) (rest : List ℕ) → IsEntry e → parse_record (spread e rest) ≡ some (e, rest)
unfolding spread parse_record
parse_record-spread e rest w =
    rw
      (
        read_pod-pod_bytes 8 e.transaction _ w.transaction_fits,
        read_pod-pod_bytes 4 (length e.path) _ w.path_fits,
        read_pod-pod_bytes 8 (length e.content) _ w.content_fits,
        read_flag e.existed _,
        split_bytes-append e.path (e.content ++ rest),
        split_bytes-append e.content rest,
        flag_back e.existed,
      )
      refl

-- A record followed by anything is read back, with what follows it.
pub parse_record-append_record :
    (e : Entry) (rest : List ℕ)
    → IsEntry e
    → parse_record (append_record e ++ rest) ≡ some (e, rest)
parse_record-append_record e rest w =
    ap parse_record (append_record-spread e rest w) ∙ parse_record-spread e rest w

-- A parser that succeeds also succeeds when bytes follow, which it leaves for later.
abbrev Extends {ℓ} : {A : Type ℓ} → List ℕ → Option (A × List ℕ) → Option (A × List ℕ) → Type ℓ
Extends {A} ys m m' = (a : A) (r : List ℕ) → m ≡ some (a, r) → m' ≡ some (a, r ++ ys)

cons_split-Extends :
    (x : ℕ) (ys : List ℕ) (m m' : Option (List ℕ × List ℕ))
    → Extends ys m m'
    → Extends ys (cons_split x m) (cons_split x m')
cons_split-Extends x ys none m' hm b s h = cc
cons_split-Extends x ys (some (a, r)) m' hm b s h = rw (hm a r refl) (ground arith)

split_bytes-Extends :
    (n : ℕ) (xs ys : List ℕ) → Extends ys (split_bytes n xs) (split_bytes n (xs ++ ys))
unfolding split_bytes
split_bytes-Extends zero xs ys = λ a r h. ground arith
split_bytes-Extends (suc n) [] ys = λ a r h. cc
split_bytes-Extends (suc n) (x ∷ xs) ys = cons_split-Extends x ys _ _ (split_bytes-Extends n xs ys)

pod_result-Extends :
    (ys : List ℕ) (m m' : Option (List ℕ × List ℕ))
    → Extends ys m m'
    → Extends ys (pod_result m) (pod_result m')
pod_result-Extends ys none m' hm b s h = cc
pod_result-Extends ys (some (a, r)) m' hm b s h = rw (hm a r refl) (ground arith)

read_pod-Extends : (k : ℕ) (xs ys : List ℕ) → Extends ys (read_pod k xs) (read_pod k (xs ++ ys))
unfolding read_pod
read_pod-Extends k xs ys = pod_result-Extends ys _ _ (split_bytes-Extends k xs ys)

bind-Extends {ℓ κ} :
    {A : Type ℓ} {B : Type κ} (ys : List ℕ) (m m' : Option (A × List ℕ))
    (f : A × List ℕ → Option (B × List ℕ))
    → Extends ys m m'
    → ((a : A) (r : List ℕ) → Extends ys (f (a, r)) (f (a, r ++ ys)))
    → Extends ys (m >>= f) (m' >>= f)
bind-Extends ys none m' f hm hf b s h = cc
bind-Extends ys (some (a, r)) m' f hm hf b s h = rw (hm a r refl) (hf a r b s h)

parse_record-Extends : (xs ys : List ℕ) → Extends ys (parse_record xs) (parse_record (xs ++ ys))
unfolding parse_record
parse_record-Extends [] ys = λ a r h. cc
parse_record-Extends (kind ∷ xs) ys =
    bind-Extends ys _ _ _ (read_pod-Extends 8 xs ys) λ transaction r0.
      bind-Extends ys _ _ _ (read_pod-Extends 4 r0 ys) λ path_size r1.
        bind-Extends ys _ _ _ (read_pod-Extends 8 r1 ys) λ data_size r2.
          bind-Extends ys _ _ _ (read_pod-Extends 1 r2 ys) λ existed r3.
            bind-Extends ys _ _ _ (split_bytes-Extends path_size r3 ys) λ path r4.
              bind-Extends ys _ _ _ (split_bytes-Extends data_size r4 ys)
                λ content r5 a r h. ground arith

-- What a crash can leave of a record that was being appended: fewer bytes than the record has.
abbrev pub Torn : List ℕ → Type 0
Torn torn =
    (e : Entry) × (missing : List ℕ) × IsEntry e
    × (missing ≢ [])
    × (torn ++ missing ≡ append_record e)

parse_record_whole : (e : Entry) → IsEntry e → parse_record (append_record e) ≡ some (e, [])
parse_record_whole e w =
    ap parse_record (sym (append-nil (append_record e))) ∙ parse_record-append_record e [] w

append-eq-nil : (xs ys : List ℕ) → xs ++ ys ≡ [] → ys ≡ []
append-eq-nil [] ys h = h
append-eq-nil (x ∷ xs) ys h = cc

parse_record-Torn : (torn : List ℕ) → Torn torn → parse_record torn ≡ none
parse_record-Torn torn (e, missing, w, cut, same) = elim (Option-cases (parse_record torn)) [
  | inl e ↦ e
  | inr ((a, r), found) ↦
      let whole =
        sym (parse_record-Extends torn missing a r found)
        ∙ ap parse_record same
        ∙ parse_record_whole e w in
      absurd (cut (append-eq-nil r missing (rest_eq a r whole)))
]
  where
    rest_eq :
        (a : Entry) (r : List ℕ)
        → ◌≡◌ {A = Option (Entry × List ℕ)} (some (a, r ++ missing)) (some (e, []))
        → r ++ missing ≡ []
    rest_eq a r h = ground arith

-- The bytes of the log: some records, and what a crash left of one more.
pub log_bytes : List Entry → List ℕ → List ℕ
log_bytes [] torn = torn
log_bytes (e ∷ es) torn = append_record e ++ log_bytes es torn

length-append_record : (e : Entry) → 1 ≤ length (append_record e)
unfolding append_record
length-append_record e = omega arith

length-log_bytes : (es : List Entry) (torn : List ℕ) → length es ≤ length (log_bytes es torn)
unfolding log_bytes
length-log_bytes [] torn = omega arith
length-log_bytes (e ∷ es) torn = omega (
  arith,
  length-append (append_record e) (log_bytes es torn),
  length-append_record e,
  length-log_bytes es torn,
)

-- Nothing follows the records, or a part of one that a crash cut short.
abbrev pub Tail : List ℕ → Type 0
Tail torn = (torn ≡ []) ⊎ Torn torn

parse_record-Tail : (torn : List ℕ) → Tail torn → parse_record torn ≡ none
parse_record-Tail torn (inl e) = rw e (unfold parse_record in refl)
parse_record-Tail torn (inr t) = parse_record-Torn torn t

read_records_fuel :
    (fuel : ℕ) (es : List Entry) (torn : List ℕ)
    → length es ≤ fuel
    → All IsEntry es
    → Tail torn
    → read_records fuel (log_bytes es torn) ≡ es
unfolding read_records log_bytes
read_records_fuel zero [] torn h w t = refl
read_records_fuel zero (e ∷ es) torn h w t = absurd (omega arith)
read_records_fuel (suc fuel) [] torn h w t = rw (parse_record-Tail torn t) refl
read_records_fuel (suc fuel) (e ∷ es) torn h w t =
    rw (parse_record-append_record e (log_bytes es torn) w.0)
      (ap (◌∷◌ e) (read_records_fuel fuel es torn (omega arith) w.1 t))

-- The loop of recover reads back the records that were appended, each once and in order, and stops
-- at the end of the log or at a last record that a crash cut short. The rounds that recover has,
-- one for each byte, are enough. The records are those whose numbers and lengths fit their fields.
pub read_records-log_bytes :
    (es : List Entry) (torn : List ℕ)
    → All IsEntry es
    → Tail torn
    → read_records (length (log_bytes es torn)) (log_bytes es torn) ≡ es
read_records-log_bytes es torn w t =
    read_records_fuel (length (log_bytes es torn)) es torn (length-log_bytes es torn) w t
