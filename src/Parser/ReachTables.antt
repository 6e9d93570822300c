-- ===== src/Parser/ReachTables.antt =====
-- The statements on tables return, without running out of fuel.
use skibidi_ql.Prelude.{ℕ, ◌<◌, ◌&&◌, List, [], ◌∷◌, arith, length, bytes_eq}
use skibidi_ql.Ast.{AstNode, no_node}
use skibidi_ql.Ast.Statements.{ColumnDef}
use skibidi_ql.Lexer.Token.{Token, codes}
use skibidi_ql.Parser.State.{Reply, rest_of, is_lparen, is_rparen, is_identifier}
use skibidi_ql.Parser.Kinds.{is_not}
use skibidi_ql.Parser.Select.{is_only_if, optional}
use skibidi_ql.Parser.Tables.{
  is_yeet_into, is_glow_up, is_ratio, is_manifest, is_rizz_down, is_drip, is_be_like, is_eq,
  is_ghosted, is_main_character, is_constraint, parse_references, parse_constraint, parse_type_name,
  parse_column_def, parse_create, parse_drop, parse_column_names, parse_row, parse_insert,
  parse_filter, parse_assignment, parse_update, parse_delete,
}
use skibidi_ql.Parser.Reach.{
  Within, within, refusal, if-Within, length-rest_of, expect-Within, items-Within, optional-Within,
}
use skibidi_ql.Parser.ReachWords.{
  then-Within, done-Within, taken-Within, repeated-Within, listed-Within, name-Within,
}

module _ (end : Token) (fuel : ℕ) where
  references-Within :
      (tokens : List Token) → Within (length tokens) (parse_references end fuel tokens)
  unfolding parse_references
  references-Within [] = refusal
  references-Within (t ∷ rest) =
      if-Within (is_identifier t.kind && bytes_eq t.value (codes "references"))
        (within (omega arith)) refusal

  constraint-Within :
      (def : ColumnDef) (t : Token) (rest : List Token)
      → Within (length rest) (parse_constraint end fuel def t rest)
  unfolding parse_constraint
  constraint-Within def t rest = if-Within (is_main_character t.kind) (within (omega arith)) (
      if-Within (is_not t.kind) (done-Within _ (taken-Within end is_ghosted _ rest)) (
        then-Within (references-Within rest) (λ r a la.
          then-Within (name-Within end _ a) (λ table b lb.
            then-Within (taken-Within end is_lparen _ b) (λ p c lc.
              then-Within (name-Within end _ c)
                (λ column d ld. done-Within _ (taken-Within end is_rparen _ d)))))))

  type_name-Within :
      (tokens : List Token) → Within (length tokens) (parse_type_name end fuel tokens)
  unfolding parse_type_name
  type_name-Within [] = refusal
  type_name-Within (t ∷ rest) = if-Within (is_identifier t.kind) (within (omega arith)) refusal

  column_def-Within :
      (tokens : List Token)
      → length tokens < fuel
      → Within (length tokens) (parse_column_def end fuel tokens)
  unfolding parse_column_def
  column_def-Within tokens h = then-Within (name-Within end _ tokens) (λ name a la.
      then-Within (type_name-Within a) (λ type b lb.
        repeated-Within is_constraint fuel (λ def t rest k. constraint-Within def t rest) fuel _ b
          (omega (arith, h, la, lb)) (omega (arith, h, la, lb))))

  pub create-Within :
      (tokens : List Token)
      → length tokens < fuel
      → Within (length (rest_of tokens)) (parse_create end fuel tokens)
  unfolding parse_create
  create-Within tokens h = then-Within (expect-Within end is_manifest _ tokens) (λ t a la.
      then-Within (name-Within end _ a) (λ table b lb.
        then-Within (taken-Within end is_lparen _ b) (λ p c lc.
          then-Within
            (listed-Within fuel column_def-Within fuel c
              (omega (arith, h, la, lb, lc, length-rest_of tokens))
              (omega (arith, h, la, lb, lc, length-rest_of tokens)))
            (λ columns d ld. done-Within _ (taken-Within end is_rparen _ d)))))

  pub drop-Within :
      (tokens : List Token)
      → length tokens < fuel
      → Within (length (rest_of tokens)) (parse_drop end fuel tokens)
  unfolding parse_drop
  drop-Within tokens h =
      then-Within (expect-Within end is_rizz_down _ tokens)
        (λ t a la. done-Within _ (name-Within end _ a))

module _ (end : Token) (fuel : ℕ) {self : List Token → Reply AstNode}
    (reach : (tokens : List Token)
      → length tokens < fuel
      → Within (length tokens) (self tokens)) where
  column_names-Within :
      (tokens : List Token)
      → length tokens < fuel
      → Within (length tokens) (parse_column_names end fuel self tokens)
  unfolding parse_column_names
  column_names-Within tokens h =
      then-Within
        (items-Within (length tokens) (λ ts k. name-Within end _ ts) fuel tokens (omega arith)
          (omega (arith, h)))
        (λ names rest l. done-Within _ (taken-Within end is_rparen _ rest))

  row-Within :
      (tokens : List Token)
      → length tokens < fuel
      → Within (length tokens) (parse_row end fuel self tokens)
  unfolding parse_row
  row-Within tokens h = then-Within (taken-Within end is_lparen _ tokens) (λ p a la.
      then-Within
        (items-Within (length a) (λ ts k. reach ts (omega (arith, k, h, la))) fuel a (omega arith)
          (omega (arith, h, la)))
        (λ nodes b lb. done-Within _ (taken-Within end is_rparen _ b)))

  pub insert-Within :
      (tokens : List Token)
      → length tokens < fuel
      → Within (length (rest_of tokens)) (parse_insert end fuel self tokens)
  unfolding parse_insert
  insert-Within tokens h = then-Within (expect-Within end is_yeet_into _ tokens) (λ t a la.
      then-Within (name-Within end _ a) (λ table b lb.
        then-Within
          (optional-Within (length b)
            (λ ts k. column_names-Within ts (omega (arith, k, h, la, lb, length-rest_of tokens)))
            is_lparen [] b (omega arith))
          (λ columns c lc. then-Within (taken-Within end is_drip _ c) (λ d e le. done-Within _ (
            items-Within (length e)
              (λ ts k. row-Within ts (omega (arith, k, h, la, lb, lc, le, length-rest_of tokens)))
              fuel e (omega arith) (omega (arith, h, la, lb, lc, le, length-rest_of tokens)))))))

  filter-Within :
      (tokens : List Token)
      → length tokens < fuel
      → Within (length tokens) (optional is_only_if no_node (parse_filter end fuel self) tokens)
  filter-Within tokens h =
      optional-Within (length tokens) (λ ts k. done-Within _ (reach ts (omega (arith, k, h))))
        is_only_if no_node tokens (omega arith)

  assignment-Within :
      (tokens : List Token)
      → length tokens < fuel
      → Within (length tokens) (parse_assignment end fuel self tokens)
  unfolding parse_assignment
  assignment-Within tokens h = then-Within (name-Within end _ tokens) (λ column a la.
      then-Within (taken-Within end is_eq _ a)
        (λ e b lb. done-Within _ (reach b (omega (arith, h, la, lb)))))

  pub update-Within :
      (tokens : List Token)
      → length tokens < fuel
      → Within (length (rest_of tokens)) (parse_update end fuel self tokens)
  unfolding parse_update
  update-Within tokens h = then-Within (expect-Within end is_glow_up _ tokens) (λ t a la.
      then-Within (name-Within end _ a) (λ table b lb.
        then-Within (taken-Within end is_be_like _ b) (λ p c lc.
          then-Within
            (items-Within (length c)
              (λ ts k.
                assignment-Within ts (omega (arith, k, h, la, lb, lc, length-rest_of tokens)))
              fuel c (omega arith) (omega (arith, h, la, lb, lc, length-rest_of tokens)))
            (λ sets d ld.
              done-Within _
                (filter-Within d (omega (arith, h, la, lb, lc, ld, length-rest_of tokens)))))))

  pub delete-Within :
      (tokens : List Token)
      → length tokens < fuel
      → Within (length (rest_of tokens)) (parse_delete end fuel self tokens)
  unfolding parse_delete
  delete-Within tokens h = then-Within (expect-Within end is_ratio _ tokens) (λ t a la.
      then-Within (name-Within end _ a) (λ table b lb.
        done-Within _ (filter-Within b (omega (arith, h, la, lb, length-rest_of tokens)))))
