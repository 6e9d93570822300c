-- ===== src/Engine/Aggregate.antt =====
-- NativeEngine::evalGrouped and aggregate of src/native_engine.cpp, with countLoneWolves of
-- src/native_raw.cpp. std::sort is an insertion sort; a set of values is the list of those put in.
use skibidi_ql.Prelude.{
  ℕ, suc, ◌-◌, ◌/◌, ◌%◌, max, Bool, true, false, ◌&&◌, ◌||◌, Option, none, some, List, [], ◌∷◌,
  Outcome, ok, throws, ◌>>=◌, ltb, ◌==◌, if◌then◌else◌, bytes_eq, length, get_elem?, by_sign,
}
use skibidi_ql.Ast.{
  Text, AstNode, wildcard, binary_op, unary_op, function_call, AstList, no_nodes, node_then,
}
use skibidi_ql.Engine.{Numbers, apply_binary, apply_unary}
use skibidi_ql.Engine.Eval.{EvalRow, eval, is_aggregate_name, is_lone_wolf_name}
use skibidi_ql.Lexer.Token.{codes}
use skibidi_ql.Storage.Value.{
  Value, null, integer, real, is_null, is_numeric, real_of, as_real, compare, equal_values,
}

abbrev pub is_wildcard : AstNode → Bool
is_wildcard (wildcard spot table alias) = true
is_wildcard _ = false

module _ (n : Numbers) where
  -- Whether an unordered_set of values has one that equals `value`.
  unfoldable pub has_value : Value → List Value → Bool
  has_value value [] = false
  has_value value (other ∷ values) = equal_values n.doubles other value || has_value value values

  -- headcount of an expression: the rows where it is not null, and where it is new if `distinct`.
  unfoldable pub count_rows : AstNode → Bool → List EvalRow → List Value → Outcome ℕ
  count_rows e distinct [] seen = ok 0
  count_rows e distinct (row ∷ rows) seen = eval n e row >>= λ value.
      (let same = count_rows e distinct rows seen in
        let more = count_rows e distinct rows (value ∷ seen) in
        if is_null value || (distinct && has_value value seen)
        then same
        else more >>= λ count. ok (suc count))

  abbrev pub counted : Outcome ℕ → Outcome Value
  counted result = result >>= λ count. ok (integer count)

  unfoldable pub headcount : AstList → Bool → List EvalRow → Outcome Value
  headcount no_nodes distinct rows = ok (integer (length rows))
  headcount (node_then node rest) distinct rows =
      if is_wildcard node
      then ok (integer (length rows))
      else counted (count_rows node distinct rows [])

  abbrev pub if_not_null : Value → List Value → List Value
  if_not_null value values = if is_null value then values else value ∷ values

  -- The values of an expression that are not null.
  unfoldable pub values_of : AstNode → List EvalRow → Outcome (List Value)
  values_of e [] = ok []
  values_of e (row ∷ rows) =
      eval n e row >>= λ value. values_of e rows >>= λ values. ok (if_not_null value values)

  abbrev pub is_integer : Value → Bool
  is_integer (integer _) = true
  is_integer _ = false

  unfoldable pub sum_from : ℕ → Bool → List Value → Outcome (ℕ × Bool)
  sum_from sum all_integers [] = ok (sum, all_integers)
  sum_from sum all_integers (value ∷ values) =
      let rest =
        sum_from (n.plus sum (real_of n.doubles value)) (all_integers && is_integer value) values in
      if is_numeric value then rest else throws "Numeric aggregate on non-number"

  abbrev pub stacked : ℕ × Bool → Value
  stacked (sum, all_integers) = if all_integers then integer (n.doubles.to_int sum) else real sum

  -- The greatest value, or with `opposite` the least, the first of those that compare equal.
  unfoldable pub extreme : Bool → Value → List Value → Value
  extreme greatest result [] = result
  extreme greatest result (value ∷ values) =
      extreme greatest
        (by_sign (compare n.doubles value result) (if greatest then result else value) result
          (if greatest then value else result))
        values

  unfoldable pub samples_of : List Value → Outcome (List ℕ)
  samples_of [] = ok []
  samples_of (value ∷ values) =
      let rest = samples_of values in
      if is_numeric value
      then (rest >>= λ samples. ok (real_of n.doubles value ∷ samples))
      else throws "LONE-WOLF requires numeric operands"

  unfoldable pub sum_of : (ℕ → ℕ) → ℕ → List ℕ → ℕ
  sum_of f sum [] = sum
  sum_of f sum (value ∷ values) = sum_of f (n.plus sum (f value)) values

  unfoldable pub count_outliers : ℕ → ℕ → List ℕ → ℕ
  count_outliers mean threshold [] = 0
  count_outliers mean threshold (value ∷ values) =
      let rest = count_outliers mean threshold values in
      if n.doubles.less threshold (n.absolute (n.minus value mean)) then suc rest else rest

  unfoldable pub count_lone_wolves : List ℕ → ℕ
  count_lone_wolves samples =
      let count = n.doubles.of_int (length samples) in
      let mean = n.divide (sum_of (λ value. value) 0 samples) count in
      let spread =
        n.minus (n.divide (sum_of (λ value. n.times value value) 0 samples) count)
          (n.times mean mean) in
      let sigma = n.square_root (if n.doubles.less 0 spread then spread else 0) in
      if ltb (length samples) 2 || n.doubles.equal sigma 0
      then 0
      else count_outliers mean (n.times sigma (n.doubles.of_int 3)) samples

  unfoldable pub insert_value : Value → List Value → List Value
  insert_value value [] = value ∷ []
  insert_value value (other ∷ values) =
      let rest = insert_value value values in
      by_sign (compare n.doubles value other) (value ∷ other ∷ values) (other ∷ rest) (other ∷ rest)

  unfoldable pub sort_values : List Value → List Value
  sort_values [] = []
  sort_values (value ∷ values) = insert_value value (sort_values values)

  -- A position that the code takes to be within a vector.
  abbrev pub value_at : Option Value → Outcome Value
  value_at none = throws "out of range"
  value_at (some value) = ok value

  abbrev pub middle_of : Value → Value → Value
  middle_of low high =
      if is_numeric low && is_numeric high
      then real
          (n.divide (n.plus (real_of n.doubles low) (real_of n.doubles high)) (n.doubles.of_int 2))
      else low

  unfoldable pub median : List Value → Outcome Value
  median values =
      let middle = length values / 2 in
      if length values % 2 == 1
      then value_at (get_elem? values middle)
      else value_at (get_elem? values (middle - 1)) >>= λ low.
          value_at (get_elem? values middle) >>= λ high. ok (middle_of low high)

  abbrev pub clamp : ℕ → ℕ → ℕ → ℕ
  clamp value low high =
      if n.doubles.less value low then low else if n.doubles.less high value then high else value

  unfoldable pub percentile : List Value → ℕ → Outcome Value
  percentile values percent =
      let pct = clamp percent 0 (n.doubles.of_int 100) in
      let share =
        n.divide (n.times (n.doubles.of_int (length values)) pct) (n.doubles.of_int 100) in
      value_at (get_elem? values (max 1 (n.doubles.to_int (n.ceiling share)) - 1))

  abbrev pub percent_of : List Value → AstList → List EvalRow → Outcome Value
  percent_of values (node_then second rest) (row ∷ rows) = eval n second row >>= λ given.
      as_real n.doubles given >>= λ percent. percentile (sort_values values) percent
  percent_of values args rows = throws "percent-check requires percentile"

  -- What an aggregate that is not headcount makes of values, the first apart; `rest` are the arguments
  -- behind the first.
  unfoldable pub aggregate_values :
      Text → AstList → List EvalRow → Value → List Value → Outcome Value
  aggregate_values name rest rows first values =
      if bytes_eq name (codes "mid")
      then (sum_from 0 true (first ∷ values) >>= λ sum.
          ok (real (n.divide sum.0 (n.doubles.of_int (suc (length values))))))
      else if bytes_eq name (codes "stack")
      then (sum_from 0 true (first ∷ values) >>= λ sum. ok (stacked sum))
      else if bytes_eq name (codes "goat")
      then ok (extreme true first values)
      else if bytes_eq name (codes "L")
      then ok (extreme false first values)
      else if is_lone_wolf_name name
      then (samples_of (first ∷ values) >>= λ samples. ok (integer (count_lone_wolves samples)))
      else if bytes_eq name (codes "mid-fr")
      then median (sort_values (first ∷ values))
      else if bytes_eq name (codes "percent-check")
      then percent_of (first ∷ values) rest rows
      else throws "Unsupported aggregate: "

  abbrev pub aggregate_found : Text → AstList → List EvalRow → List Value → Outcome Value
  aggregate_found name rest rows [] = ok null
  aggregate_found name rest rows (first ∷ values) = aggregate_values name rest rows first values

  abbrev pub aggregate_rest : Text → AstList → List EvalRow → Outcome Value
  aggregate_rest name no_nodes rows = throws "Aggregate requires an argument"
  aggregate_rest name (node_then node rest) rows =
      values_of node rows >>= aggregate_found name rest rows

  unfoldable pub aggregate : Text → AstList → Bool → List EvalRow → Outcome Value
  aggregate name args distinct rows =
      if bytes_eq name (codes "headcount")
      then headcount args distinct rows
      else aggregate_rest name args rows

  abbrev pub eval_first : AstNode → List EvalRow → Outcome Value
  eval_first e [] = ok null
  eval_first e (row ∷ rows) = eval n e row

  unfoldable pub eval_grouped : AstNode → List EvalRow → Outcome Value
  eval_grouped (function_call spot name args distinct alias) rows =
      if is_aggregate_name name
      then aggregate name args distinct rows
      else eval_first (function_call spot name args distinct alias) rows
  eval_grouped (binary_op spot op left right alias) rows =
      eval_grouped left rows >>= λ a. eval_grouped right rows >>= λ b. apply_binary n op a b
  eval_grouped (unary_op spot op operand alias) rows =
      eval_grouped operand rows >>= apply_unary n op
  eval_grouped e rows = eval_first e rows
