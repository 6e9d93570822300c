-- ===== src/Optimizer/Meaning.antt =====
-- Constant folding does not change what NativeEngine::eval makes of an expression.
use skibidi_ql.Prelude.{
  ℕ, ◌≡◌, refl, sym, ap, ◌∙◌, Bool, true, false, Option, none, some, List, ◌==◌, Outcome, ok,
  throws, ◌>>=◌, arith, Bool-cases, inl, inr,
}
use skibidi_ql.Ast.{
  Text, Spot, Literal, int, float, string, bool, Operator, op_and, op_or, op_not, op_eq, op_neq,
  op_lt, op_gt, op_lte, op_gte, op_concat, op_plus, op_minus, op_times, op_divide, AstNode, literal,
  column_ref, wildcard, binary_op, unary_op, function_call, window_func, select_stmt,
}
use skibidi_ql.Engine.{
  Numbers, add64, sub64, mul64, div64, apply_binary, apply_unary, apply_to_values, apply_arithmetic,
  as_boolean, to_string, on_numbers,
}
use skibidi_ql.Engine.Eval.{EvalRow, eval, literal_value}
use skibidi_ql.Optimizer.Fold.{
  fold_numbers, fold_literals, on_literals, quotient, fold_strings, fold_booleans, try_fold_expr,
  try_fold_unary, or_folded, placed, fold_constants,
}
use skibidi_ql.Storage.Value.Equal.{IsComparison, NoNan, equal_less_values}
use skibidi_ql.Storage.Value.{
  Value, is_null, is_numeric, type_of, real_of, as_real, compare, equal_values, compare_reals,
}

-- What IEEE 754 says of the doubles of expressions: their comparisons, that of two the one is not above
-- and below the other, and that of all int64_t only 0 becomes a zero.
pub record IsNumbers (n : Numbers) : Type 0 where
  pub comparison : IsComparison n.doubles
  pub less_asym : (x y : ℕ) → n.doubles.less x y ≡ true → n.doubles.less y x ≡ false
  pub equal_zero : (i : ℕ) → n.doubles.equal (n.doubles.of_int i) 0 ≡ (i == 0)

-- A result that is no NaN.
abbrev pub NoNanResult : Numbers → Outcome Value → Type 0
NoNanResult n (ok v) = NoNan n.doubles v
NoNanResult n (throws message) = Unit {0}

-- No `<=` or `>=` has a NaN for an operand.
abbrev pub Comparable : Numbers → Operator → Outcome Value → Outcome Value → Type 0
Comparable n op_lte a b = NoNanResult n a × NoNanResult n b
Comparable n op_gte a b = NoNanResult n a × NoNanResult n b
Comparable n op a b = Unit {0}

-- No `<=` or `>=` that is evaluated for an expression on a row meets a NaN.
unfoldable pub MeetsNoNan : Numbers → EvalRow → AstNode → Type 0
MeetsNoNan n row (binary_op spot op left right alias) =
    MeetsNoNan n row left
    × MeetsNoNan n row right
    × Comparable n op (eval n left row) (eval n right row)
MeetsNoNan n row (unary_op spot op operand alias) = MeetsNoNan n row operand
MeetsNoNan n row node = Unit {0}

abbrev Agrees : Numbers → Operator → Literal → Literal → Option (Literal × Text) → Type 0
Agrees n op l r none = Unit {0}
Agrees n op l r (some (folded, note)) =
    ok (literal_value folded) ≡ apply_binary n op (literal_value l) (literal_value r)

data IsNumber : Literal → Type 0 where
  an_int : {i : ℕ} → IsNumber (int i)
  a_float : {r : ℕ} → IsNumber (float r)

not_null : (l : Literal) → IsNumber l → is_null (literal_value l) ≡ false
unfolding is_null type_of
not_null _ an_int = refl
not_null _ a_float = refl

is_number : (l : Literal) → IsNumber l → is_numeric (literal_value l) ≡ true
unfolding is_numeric type_of
is_number _ an_int = refl
is_number _ a_float = refl

module _ (n : Numbers) (w : IsNumbers n) where
  abbrev real_value : Literal → ℕ
  real_value l = real_of n.doubles (literal_value l)

  as_real_lem : (l : Literal) → IsNumber l → as_real n.doubles (literal_value l) ≡ ok (real_value l)
  unfolding as_real real_of is_numeric type_of
  as_real_lem _ an_int = refl
  as_real_lem _ a_float = refl

  on_literals-on_numbers :
      (ints reals : ℕ → ℕ → ℕ) (l r : Literal)
      → IsNumber l
      → IsNumber r
      → ok (literal_value (on_literals n ints reals l r (real_value l) (real_value r)))
        ≡ on_numbers n ints reals (literal_value l) (literal_value r)
  unfolding real_of as_real is_numeric type_of
  on_literals-on_numbers ints reals _ _ an_int an_int = refl
  on_literals-on_numbers ints reals _ _ an_int a_float = refl
  on_literals-on_numbers ints reals _ _ a_float an_int = refl
  on_literals-on_numbers ints reals _ _ a_float a_float = refl

  quotient-on_numbers :
      (l r : Literal)
      → IsNumber l
      → IsNumber r
      → n.doubles.equal (real_value r) 0 ≡ false
      → ok (literal_value (quotient n l r (real_value l) (real_value r)))
        ≡ on_numbers n div64 n.divide (literal_value l) (literal_value r)
  unfolding real_of as_real is_numeric type_of
  quotient-on_numbers _ _ an_int (an_int {i = b}) h = elim (Bool-cases (b == 0)) [
    | inl e ↦ cc (sym h ∙ w.equal_zero b ∙ e)
    | inr e ↦ rw e refl
  ]
  quotient-on_numbers _ _ an_int a_float h = refl
  quotient-on_numbers _ _ a_float an_int h = refl
  quotient-on_numbers _ _ a_float a_float h = refl

  compare_numbers_lem :
      (l r : Literal)
      → IsNumber l
      → IsNumber r
      → compare n.doubles (literal_value l) (literal_value r)
        ≡ compare_reals n.doubles (real_value l) (real_value r)
  unfolding compare real_of is_numeric is_null type_of
  compare_numbers_lem _ _ an_int an_int = refl
  compare_numbers_lem _ _ an_int a_float = refl
  compare_numbers_lem _ _ a_float an_int = refl
  compare_numbers_lem _ _ a_float a_float = refl

  equal_numbers_lem :
      (l r : Literal)
      → IsNumber l
      → IsNumber r
      → equal_values n.doubles (literal_value l) (literal_value r)
        ≡ n.doubles.equal (real_value l) (real_value r)
  unfolding equal_values real_of is_numeric is_null type_of
  equal_numbers_lem _ _ an_int an_int = refl
  equal_numbers_lem _ _ an_int a_float = refl
  equal_numbers_lem _ _ a_float an_int = refl
  equal_numbers_lem _ _ a_float a_float = refl

  fold_numbers-Agrees :
      (op : Operator) (l r : Literal)
      → IsNumber l
      → IsNumber r
      → Comparable n op (ok (literal_value l)) (ok (literal_value r))
      → Agrees n op l r (fold_numbers n op l r (real_value l) (real_value r))
  unfolding fold_numbers apply_binary apply_to_values apply_arithmetic
  fold_numbers-Agrees op_plus l r hl hr c =
      rw (not_null l hl, not_null r hr, is_number l hl, is_number r hr)
        (on_literals-on_numbers add64 n.plus l r hl hr)
  fold_numbers-Agrees op_minus l r hl hr c =
      rw (not_null l hl, not_null r hr, is_number l hl, is_number r hr)
        (on_literals-on_numbers sub64 n.minus l r hl hr)
  fold_numbers-Agrees op_times l r hl hr c =
      rw (not_null l hl, not_null r hr, is_number l hl, is_number r hr)
        (on_literals-on_numbers mul64 n.times l r hl hr)
  fold_numbers-Agrees op_divide l r hl hr c = elim (Bool-cases (n.doubles.equal (real_value r) 0)) [
    | inl e ↦ rw e tt
    | inr e ↦
        rw (e, not_null l hl, not_null r hr, is_number l hl, is_number r hr, as_real_lem r hr, e)
          (quotient-on_numbers l r hl hr e)
  ]
  fold_numbers-Agrees op_eq l r hl hr c =
      rw (not_null l hl, not_null r hr, equal_numbers_lem l r hl hr) refl
  fold_numbers-Agrees op_neq l r hl hr c =
      rw (not_null l hl, not_null r hr, equal_numbers_lem l r hl hr) refl
  fold_numbers-Agrees op_lt l r hl hr c =
      rw (not_null l hl, not_null r hr, compare_numbers_lem l r hl hr) (ground arith)
  fold_numbers-Agrees op_gt l r hl hr c =
      rw (not_null l hl, not_null r hr, compare_numbers_lem l r hl hr)
        (ground (arith, w.less_asym (real_value l) (real_value r)))
  fold_numbers-Agrees op_lte l r hl hr c =
      rw (not_null l hl, not_null r hr, compare_numbers_lem l r hl hr)
        (ground (
          arith,
          equal_less_values n.doubles w.comparison (literal_value l) (literal_value r) c.0 c.1
              (is_number l hl) (is_number r hr),
          w.less_asym (real_value l) (real_value r),
        ))
  fold_numbers-Agrees op_gte l r hl hr c =
      rw (not_null l hl, not_null r hr, compare_numbers_lem l r hl hr)
        (ground (
          arith,
          equal_less_values n.doubles w.comparison (literal_value l) (literal_value r) c.0 c.1
              (is_number l hl) (is_number r hr),
          w.less_asym (real_value l) (real_value r),
        ))
  fold_numbers-Agrees op l r hl hr c = tt

  fold_strings-Agrees :
      (op : Operator) (a b : Text) → Agrees n op (string a) (string b) (fold_strings n op a b)
  unfolding apply_binary apply_to_values is_null type_of to_string
  fold_strings-Agrees op_concat a b = refl
  fold_strings-Agrees op a b = tt

  fold_booleans-Agrees :
      (op : Operator) (a b : Bool) → Agrees n op (bool a) (bool b) (fold_booleans n op a b)
  unfolding apply_binary as_boolean
  fold_booleans-Agrees op_and a b = refl
  fold_booleans-Agrees op_or a b = refl
  fold_booleans-Agrees op a b = tt

  fold_literals-Agrees :
      (op : Operator) (l r : Literal)
      → Comparable n op (ok (literal_value l)) (ok (literal_value r))
      → Agrees n op l r (fold_literals n op l r)
  unfolding fold_literals real_of
  fold_literals-Agrees op (int a) (int b) c = fold_numbers-Agrees op (int a) (int b) an_int an_int c
  fold_literals-Agrees op (int a) (float b) c =
      fold_numbers-Agrees op (int a) (float b) an_int a_float c
  fold_literals-Agrees op (float a) (int b) c =
      fold_numbers-Agrees op (float a) (int b) a_float an_int c
  fold_literals-Agrees op (float a) (float b) c =
      fold_numbers-Agrees op (float a) (float b) a_float a_float c
  fold_literals-Agrees op (string a) (string b) c = fold_strings-Agrees op a b
  fold_literals-Agrees op (bool a) (bool b) c = fold_booleans-Agrees op a b
  fold_literals-Agrees op l r c = tt

  eval-placed :
      (spot : Spot) (op : Operator) (s t : Spot) (l r : Literal) (alias : Text) (row : EvalRow)
      (notes : List Text) (found : Option (Literal × Text))
      → Agrees n op l r found
      → eval n
          (or_folded n
            (binary_op spot op (literal s l) (literal t r) alias)
            notes
            (placed n spot found)).0
          row
        ≡ apply_binary n op (literal_value l) (literal_value r)
  unfolding eval
  eval-placed spot op s t l r alias row notes none h = refl
  eval-placed spot op s t l r alias row notes (some (folded, note)) h = h

  pub eval-try_fold_expr :
      (spot : Spot) (op : Operator) (left right : AstNode) (alias : Text) (row : EvalRow)
      (notes : List Text)
      → Comparable n op (eval n left row) (eval n right row)
      → eval n
          (or_folded n
            (binary_op spot op left right alias)
            notes
            (try_fold_expr n (binary_op spot op left right alias))).0
          row
        ≡ eval n (binary_op spot op left right alias) row
  unfolding try_fold_expr eval
  eval-try_fold_expr spot op (literal s l) (literal t r) alias row notes c =
      eval-placed spot op s t l r alias row notes (fold_literals n op l r)
        (fold_literals-Agrees op l r c)
  eval-try_fold_expr spot op left right alias row notes c = refl

  pub eval-try_fold_unary :
      (spot : Spot) (op : Operator) (operand : AstNode) (alias : Text) (row : EvalRow)
      (notes : List Text)
      → eval n
          (or_folded n
            (unary_op spot op operand alias)
            notes
            (try_fold_unary n (unary_op spot op operand alias))).0
          row
        ≡ eval n (unary_op spot op operand alias) row
  unfolding try_fold_unary eval apply_unary as_boolean is_null is_numeric type_of as_real real_of
  eval-try_fold_unary spot op_minus (literal s (int i)) alias row notes = refl
  eval-try_fold_unary spot op_minus (literal s (float r)) alias row notes = refl
  eval-try_fold_unary spot op_not (literal s (bool b)) alias row notes = refl
  eval-try_fold_unary spot op operand alias row notes = refl

  -- Folding keeps the value of an expression on a row, and the exception where its evaluation throws
  -- one, if no `<=` or `>=` meets a NaN there.
  pub eval-fold_constants :
      (e : AstNode) (row : EvalRow)
      → MeetsNoNan n row e
      → eval n (fold_constants n e).0 row ≡ eval n e row
  unfolding fold_constants eval MeetsNoNan
  eval-fold_constants (binary_op spot op left right alias) row (hl, hr, c) =
      let l = eval-fold_constants left row hl in
      let r = eval-fold_constants right row hr in
      eval-try_fold_expr spot op (fold_constants n left).0 (fold_constants n right).0 alias row _
        (rw (l, r) c)
      ∙ rw (l, r) refl
  eval-fold_constants (unary_op spot op operand alias) row h =
      eval-try_fold_unary spot op (fold_constants n operand).0 alias row _
      ∙ ap (λ value. value >>= apply_unary n op) (eval-fold_constants operand row h)
  eval-fold_constants (literal spot l) row h = refl
  eval-fold_constants (column_ref spot table column alias) row h = refl
  eval-fold_constants (wildcard spot table alias) row h = refl
  eval-fold_constants (function_call spot name args distinct alias) row h = refl
  eval-fold_constants (window_func spot name partition order alias) row h = refl
  eval-fold_constants (select_stmt spot s) row h = refl
