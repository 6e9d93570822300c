-- ===== src/Parser/Total.antt =====
-- parseExpr and parseSelect always return or throw: fuel for one level more than there are tokens
-- is enough.
use skibidi_ql.Prelude.{ℕ, zero, suc, ◌≤◌, ◌<◌, Bool, false, Option, List, [], ◌∷◌, arith, length}
use skibidi_ql.Ast.{Text, AstNode, AstList, no_nodes, no_node, no_order}
use skibidi_ql.Lexer.Token.{Token, TokenType}
use skibidi_ql.Parser.State.{Reply, rest_of, next_is, is_identifier, is_lowkey, is_star}
use skibidi_ql.Parser.Kinds.{is_slay, is_unique_fr, is_hits_different}
use skibidi_ql.Parser.Select.{
  parse_table_ref, parse_alias, parse_join_keyword, parse_join, parse_joins, parse_select_item,
  parse_items, parse_select_list, parse_condition, parse_from, parse_select, parse_expr, optional,
  is_join, is_link_up, is_left_link_up, is_mid_link_up, is_fr_fr, is_only_if, is_vibe_check,
  is_bussin_only, is_cap_at, is_skip, is_no_cap,
}
use skibidi_ql.Parser.Reach.{
  Within-weaken, Within, within, bind-Within, if-Within, length-rest_of, expect-Within,
  items-Within, optional-Within,
}
use skibidi_ql.Parser.ReachExpr.{column_list-Within, order_list-Within, or-Reaches}

module _ (end : Token) where
  alias-Within : (tokens : List Token) → Within (length tokens) (parse_alias end tokens)
  alias-Within tokens =
      bind-Within (expect-Within end is_identifier _ tokens)
        (λ t rest l. within (omega (arith, l, length-rest_of tokens)))

  table_ref-Within : (tokens : List Token) → Within (length tokens) (parse_table_ref end tokens)
  unfolding parse_table_ref
  table_ref-Within tokens = bind-Within (expect-Within end is_identifier _ tokens) (λ t rest l.
      bind-Within
        (optional-Within (length rest) (λ ts k. alias-Within ts) is_lowkey [] rest (omega arith))
        (λ alias after k. within (omega (arith, l, k, length-rest_of tokens))))

  join_keyword-Within :
      (tokens : List Token) → Within (length (rest_of tokens)) (parse_join_keyword end tokens)
  join_keyword-Within tokens = if-Within (next_is is_left_link_up tokens) (within (omega arith)) (
      if-Within (next_is is_mid_link_up tokens) (within (omega arith))
        (bind-Within (expect-Within end is_link_up _ tokens) (λ t rest l. within l)))

module _ (stod : Text → Option ℕ) (end : Token) (fuel : ℕ) {self sub : List Token → Reply AstNode}
    (reach : (tokens : List Token) → length tokens < fuel → Within (length tokens) (self tokens))
    (reach_sub : (tokens : List Token)
      → length tokens < fuel
      → Within (length tokens) (sub tokens)) where
  join-Within :
      (t : Token) (rest : List Token)
      → length rest < fuel
      → Within (length rest) (parse_join stod end fuel self sub (t ∷ rest))
  unfolding parse_join
  join-Within t rest h = bind-Within (join_keyword-Within end (t ∷ rest)) (λ kind a l.
      bind-Within (table_ref-Within end a) (λ table b k.
        bind-Within (expect-Within end is_fr_fr _ b) (λ on c m.
          bind-Within (reach c (omega (arith, h, l, k, m, length-rest_of b)))
            (λ condition d n. within (omega (arith, l, k, m, n, length-rest_of b))))))

  joins-Within :
      (rounds : ℕ) (tokens : List Token)
      → length tokens < fuel
      → length tokens ≤ rounds
      → Within (length tokens) (parse_joins stod end fuel self sub rounds tokens)
  unfolding parse_joins
  joins-Within rounds [] h k = within (omega arith)
  joins-Within zero (t ∷ rest) h k = absurd (omega (arith, k))
  joins-Within (suc rounds) (t ∷ rest) h k =
      if-Within (is_join t.kind)
        (bind-Within (join-Within t rest (omega (arith, h))) (λ join a l.
          bind-Within (joins-Within rounds a (omega (arith, h, l)) (omega (arith, k, l)))
            (λ joins b m. within (omega (arith, l, m)))))
        (within (omega arith))

  select_item-Within :
      (tokens : List Token)
      → length tokens < fuel
      → Within (length tokens) (parse_select_item stod end fuel self sub tokens)
  unfolding parse_select_item
  select_item-Within tokens h = bind-Within (reach tokens h) (λ node rest l.
      if-Within (next_is is_lowkey rest)
        (bind-Within (alias-Within end (rest_of rest))
          (λ alias after k. within (omega (arith, l, k, length-rest_of rest))))
        (within l))

  items-Within_lem :
      (tokens : List Token)
      → length tokens < fuel
      → Within (length tokens) (parse_items stod end fuel self sub tokens)
  items-Within_lem tokens h =
      bind-Within
        (items-Within (length tokens) (λ ts k. select_item-Within ts (omega (arith, k, h))) fuel
          tokens (omega arith) (omega (arith, h)))
        (λ nodes rest l. within l)

  select_list-Within :
      (tokens : List Token)
      → length tokens < fuel
      → Within (length tokens) (parse_select_list stod end fuel self sub tokens)
  unfolding parse_select_list
  select_list-Within [] h = items-Within_lem [] h
  select_list-Within (t ∷ rest) h =
      if-Within (is_star t.kind) (within (omega arith)) (items-Within_lem (t ∷ rest) h)

  -- A clause with a condition, on fewer tokens than there is fuel.
  condition-Within :
      (is : TokenType → Bool) (tokens : List Token)
      → length tokens < fuel
      → Within (length tokens) (optional is no_node (parse_condition stod end fuel self sub) tokens)
  condition-Within is tokens h =
      optional-Within (length tokens)
        (λ ts k. bind-Within (reach ts (omega (arith, k, h))) (λ node rest l. within l)) is no_node
        tokens (omega arith)

  from-Within :
      (distinct : Bool) (columns : AstList) (tokens : List Token)
      → length tokens < fuel
      → Within (length tokens) (parse_from stod end fuel self sub distinct columns tokens)
  unfolding parse_from
  from-Within distinct columns tokens h = bind-Within (table_ref-Within end tokens) (λ table a la.
      bind-Within (joins-Within fuel a (omega (arith, h, la)) (omega (arith, h, la))) (λ joins b lb.
        bind-Within (condition-Within is_only_if b (omega (arith, h, la, lb))) (λ condition c lc.
          bind-Within
            (optional-Within (length c)
              (λ ts k.
                column_list-Within stod end fuel reach reach_sub ts
                  (omega (arith, k, h, la, lb, lc)))
              is_vibe_check no_nodes c (omega arith))
            (λ groups d ld.
              bind-Within (condition-Within is_bussin_only d (omega (arith, h, la, lb, lc, ld)))
                (λ having e le.
                  bind-Within
                    (optional-Within (length e)
                      (λ ts k.
                        order_list-Within stod end fuel reach reach_sub ts
                          (omega (arith, k, h, la, lb, lc, ld, le)))
                      is_hits_different no_order e (omega arith))
                    (λ order f lf.
                      bind-Within
                        (condition-Within is_cap_at f (omega (arith, h, la, lb, lc, ld, le, lf)))
                        (λ limit g lg.
                          bind-Within
                            (condition-Within is_skip g
                              (omega (arith, h, la, lb, lc, ld, le, lf, lg)))
                            (λ offset last l.
                              within (omega (arith, la, lb, lc, ld, le, lf, lg, l))))))))))

  pub select-Within :
      (tokens : List Token)
      → length tokens < fuel
      → Within (length (rest_of tokens)) (parse_select stod end fuel self sub tokens)
  unfolding parse_select
  select-Within tokens h = bind-Within (expect-Within end is_slay _ tokens) (λ t a la.
      bind-Within
        (optional-Within (length a) (λ ts k. within (omega arith)) is_unique_fr false a
          (omega arith))
        (λ distinct b lb.
          bind-Within (select_list-Within b (omega (arith, h, la, lb, length-rest_of tokens)))
            (λ columns c lc. bind-Within (expect-Within end is_no_cap _ c) (λ from d ld.
              bind-Within
                (from-Within distinct columns d
                  (omega (arith, h, la, lb, lc, ld, length-rest_of tokens, length-rest_of c)))
                (λ statement last l.
                  within
                    (omega (arith, la, lb, lc, ld, l, length-rest_of tokens, length-rest_of c)))))))

pub parse_expr-Within :
    (stod : Text → Option ℕ) (end : Token) (fuel : ℕ) (tokens : List Token)
    → length tokens < fuel
    → Within (length tokens) (parse_expr stod end fuel tokens)
unfolding parse_expr
parse_expr-Within stod end zero tokens h = absurd (omega (arith, h))
parse_expr-Within stod end (suc fuel) tokens h =
    or-Reaches stod end fuel (parse_expr-Within stod end fuel)
      (λ ts k. Within-weaken (length-rest_of ts) (
        select-Within stod end fuel (parse_expr-Within stod end fuel)
          (parse_expr-Within stod end fuel) ts k))
      tokens (omega (arith, h))
