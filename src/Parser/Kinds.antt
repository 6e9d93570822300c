-- ===== src/Parser/Kinds.antt =====
-- The kinds of tokens that the expressions of src/parser.cpp look for, and the operators they stand for.
use skibidi_ql.Prelude.{Bool, true, false, if◌then◌else◌, bytes_eq}
use skibidi_ql.Ast.{
  Text, Operator, op_eq, op_neq, op_lt, op_gt, op_lte, op_gte, op_concat, op_plus, op_minus,
  op_times, op_divide, op_other,
}
use skibidi_ql.Lexer.Token.{
  TokenType, codes, slay, plus, or_nah, no_cap_not, unique_fr, up_only, down_bad, hits_different,
  split_by, eq, neq, lt, gt, lte, gte, plus_op, minus, star, slash, concat,
}

-- The operator that a token stands for, by its text.
unfoldable pub operator_of : Text → Operator
operator_of text =
    if bytes_eq text (codes "=")
    then op_eq
    else if bytes_eq text (codes "!=")
    then op_neq
    else if bytes_eq text (codes "<")
    then op_lt
    else if bytes_eq text (codes ">")
    then op_gt
    else if bytes_eq text (codes "<=")
    then op_lte
    else if bytes_eq text (codes ">=")
    then op_gte
    else if bytes_eq text (codes "||")
    then op_concat
    else if bytes_eq text (codes "+")
    then op_plus
    else if bytes_eq text (codes "-")
    then op_minus
    else if bytes_eq text (codes "*")
    then op_times
    else if bytes_eq text (codes "/")
    then op_divide
    else op_other text

abbrev pub is_or : TokenType → Bool
is_or or_nah = true
is_or _ = false

abbrev pub is_and : TokenType → Bool
is_and plus = true
is_and _ = false

abbrev pub is_not : TokenType → Bool
is_not no_cap_not = true
is_not _ = false

abbrev pub is_comparison : TokenType → Bool
is_comparison eq = true
is_comparison neq = true
is_comparison lt = true
is_comparison gt = true
is_comparison lte = true
is_comparison gte = true
is_comparison _ = false

abbrev pub is_sum : TokenType → Bool
is_sum plus_op = true
is_sum minus = true
is_sum concat = true
is_sum _ = false

abbrev pub is_product : TokenType → Bool
is_product star = true
is_product slash = true
is_product _ = false

abbrev pub is_minus : TokenType → Bool
is_minus minus = true
is_minus _ = false

abbrev pub is_slay : TokenType → Bool
is_slay slay = true
is_slay _ = false

abbrev pub is_unique_fr : TokenType → Bool
is_unique_fr unique_fr = true
is_unique_fr _ = false

abbrev pub is_down_bad : TokenType → Bool
is_down_bad down_bad = true
is_down_bad _ = false

abbrev pub is_up_only : TokenType → Bool
is_up_only up_only = true
is_up_only _ = false

abbrev pub is_split_by : TokenType → Bool
is_split_by split_by = true
is_split_by _ = false

abbrev pub is_hits_different : TokenType → Bool
is_hits_different hits_different = true
is_hits_different _ = false
