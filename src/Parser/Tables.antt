-- ===== src/Parser/Tables.antt =====
-- parseInsert, parseUpdate, parseDelete, parseCreate and parseDrop of src/parser.cpp.
use skibidi_ql.Prelude.{ℕ, Bool, true, false, ◌&&◌, List, [], ◌∷◌, if◌then◌else◌, bytes_eq}
use skibidi_ql.Ast.{Text, AstNode, AstList, AstOption, no_node, some_node}
use skibidi_ql.Ast.Statements.{
  ColumnDef, Statement, insert_stmt, update_stmt, delete_stmt, create_stmt, drop_stmt,
}
use skibidi_ql.Lexer.Token.{
  Token, TokenType, codes, yeet_into, glow_up, ratio, manifest, rizz_down, drip, be_like, eq,
  ghosted, main_character, side_character,
}
use skibidi_ql.Parser.State.{
  Reply, parsed, refused, ◌▷◌, spot_of, expect, is_lparen, is_rparen, is_identifier, items,
}
use skibidi_ql.Parser.Kinds.{is_not}
use skibidi_ql.Parser.Expr.{node_list}
use skibidi_ql.Parser.Select.{is_only_if, optional}
use skibidi_ql.Parser.Words.{error_here, parse_name_as, listed, repeated}

abbrev pub is_yeet_into : TokenType → Bool
is_yeet_into yeet_into = true
is_yeet_into _ = false

abbrev pub is_glow_up : TokenType → Bool
is_glow_up glow_up = true
is_glow_up _ = false

abbrev pub is_ratio : TokenType → Bool
is_ratio ratio = true
is_ratio _ = false

abbrev pub is_manifest : TokenType → Bool
is_manifest manifest = true
is_manifest _ = false

abbrev pub is_rizz_down : TokenType → Bool
is_rizz_down rizz_down = true
is_rizz_down _ = false

abbrev pub is_drip : TokenType → Bool
is_drip drip = true
is_drip _ = false

abbrev pub is_be_like : TokenType → Bool
is_be_like be_like = true
is_be_like _ = false

abbrev pub is_eq : TokenType → Bool
is_eq eq = true
is_eq _ = false

abbrev pub is_ghosted : TokenType → Bool
is_ghosted ghosted = true
is_ghosted _ = false

abbrev pub is_main_character : TokenType → Bool
is_main_character main_character = true
is_main_character _ = false

abbrev pub is_constraint : TokenType → Bool
is_constraint main_character = true
is_constraint side_character = true
is_constraint kind = is_not kind

module _ (end : Token) (fuel : ℕ) where
  -- The `references` behind side-character.
  unfoldable pub parse_references : List Token → Reply Token
  parse_references [] =
      refused (error_here end (codes "Expected 'references' after 'side-character'") [])
  parse_references (t ∷ rest) =
      if is_identifier t.kind && bytes_eq t.value (codes "references")
      then parsed t rest
      else refused
          (error_here end (codes "Expected 'references' after 'side-character'") (t ∷ rest))

  -- One constraint, whose first token is `t`.
  unfoldable pub parse_constraint : ColumnDef → Token → List Token → Reply ColumnDef
  parse_constraint def t rest =
      if is_main_character t.kind
      then parsed (record def { primary_key = true }) rest
      else if is_not t.kind
      then (expect end is_ghosted (codes "Expected 'ghosted' (NULL) after 'no-cap-not'") rest
          ▷ λ g after. parsed (record def { not_null = true }) after)
      else (parse_references rest ▷ λ r a.
          parse_name_as end (codes "Expected foreign table name") a ▷ λ table b.
          expect end is_lparen (codes "Expected '('") b ▷ λ l c.
          parse_name_as end (codes "Expected foreign column name") c ▷ λ column d.
          expect end is_rparen (codes "Expected ')'") d ▷ λ p last.
          parsed (record def { fk_table = table; fk_col = column }) last)

  unfoldable pub parse_type_name : List Token → Reply Text
  parse_type_name [] =
      refused (error_here end (codes "Expected type name (INTEGER, TEXT, REAL, BLOB)") [])
  parse_type_name (t ∷ rest) =
      if is_identifier t.kind
      then parsed t.value rest
      else refused
          (error_here end (codes "Expected type name (INTEGER, TEXT, REAL, BLOB)") (t ∷ rest))

  unfoldable pub parse_column_def : List Token → Reply ColumnDef
  parse_column_def tokens = parse_name_as end (codes "Expected column name") tokens ▷ λ name a.
      parse_type_name a ▷ λ type b.
      repeated fuel is_constraint parse_constraint
        (record {
          name = name;
          type = type;
          primary_key = false;
          not_null = false;
          fk_table = [];
          fk_col = [];
        })
        b

  unfoldable pub parse_create : List Token → Reply Statement
  parse_create tokens = expect end is_manifest (codes "Expected 'manifest'") tokens ▷ λ t a.
      parse_name_as end (codes "Expected table name") a ▷ λ table b.
      expect end is_lparen (codes "Expected '('") b ▷ λ l c.
      listed fuel parse_column_def c ▷ λ columns d.
      expect end is_rparen (codes "Expected ')'") d ▷ λ p last.
      parsed (create_stmt (spot_of t) table columns) last

  unfoldable pub parse_drop : List Token → Reply Statement
  parse_drop tokens = expect end is_rizz_down (codes "Expected 'rizz-down'") tokens ▷ λ t a.
      parse_name_as end (codes "Expected table name") a ▷ λ table last.
      parsed (drop_stmt (spot_of t) table) last

-- `self` is parseExpr.
module _ (end : Token) (fuel : ℕ) (self : List Token → Reply AstNode) where
  unfoldable pub parse_column_names : List Token → Reply (List Text)
  parse_column_names tokens =
      items fuel (parse_name_as end (codes "Expected column name")) tokens ▷ λ names rest.
      expect end is_rparen (codes "Expected ')'") rest ▷ λ p last. parsed names last

  unfoldable pub parse_row : List Token → Reply AstList
  parse_row tokens = expect end is_lparen (codes "Expected '('") tokens ▷ λ l a.
      items fuel self a ▷ λ nodes b.
      expect end is_rparen (codes "Expected ')'") b ▷ λ p last. parsed (node_list nodes) last

  unfoldable pub parse_insert : List Token → Reply Statement
  parse_insert tokens = expect end is_yeet_into (codes "Expected 'yeet-into'") tokens ▷ λ t a.
      parse_name_as end (codes "Expected table name") a ▷ λ table b.
      optional is_lparen [] parse_column_names b ▷ λ columns c.
      expect end is_drip (codes "Expected 'drip' (VALUES)") c ▷ λ d e.
      items fuel parse_row e ▷ λ rows last. parsed (insert_stmt (spot_of t) table columns rows) last

  abbrev pub parse_filter : List Token → Reply AstOption
  parse_filter tokens = self tokens ▷ λ node rest. parsed (some_node node) rest

  unfoldable pub parse_assignment : List Token → Reply (Text × AstNode)
  parse_assignment tokens = parse_name_as end (codes "Expected column name") tokens ▷ λ column a.
      expect end is_eq (codes "Expected '='") a ▷ λ e b.
      self b ▷ λ value last. parsed (column, value) last

  unfoldable pub parse_update : List Token → Reply Statement
  parse_update tokens = expect end is_glow_up (codes "Expected 'glow-up'") tokens ▷ λ t a.
      parse_name_as end (codes "Expected table name") a ▷ λ table b.
      expect end is_be_like (codes "Expected 'be-like' (SET)") b ▷ λ l c.
      items fuel parse_assignment c ▷ λ sets d.
      optional is_only_if no_node parse_filter d ▷ λ condition last.
      parsed (update_stmt (spot_of t) table sets condition) last

  unfoldable pub parse_delete : List Token → Reply Statement
  parse_delete tokens = expect end is_ratio (codes "Expected 'ratio'") tokens ▷ λ t a.
      parse_name_as end (codes "Expected table name") a ▷ λ table b.
      optional is_only_if no_node parse_filter b ▷ λ condition last.
      parsed (delete_stmt (spot_of t) table condition) last
