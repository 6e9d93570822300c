-- ===== src/Parser/Program.antt =====
-- parseStatement and parseAll of src/parser.cpp.
use skibidi_ql.Prelude.{ℕ, zero, suc, ◌&&◌, ◌||◌, Option, List, [], ◌∷◌, ◌++◌, if◌then◌else◌}
use skibidi_ql.Ast.{Text, AstNode}
use skibidi_ql.Ast.Statements.{Statement, query_stmt}
use skibidi_ql.Lexer.Token.{
  Token, TokenType, codes, slay, yeet_into, glow_up, ratio, manifest, rizz_down, manifest_dataset,
  manifest_snapshot, export_torch, ship_torch, explain_batch, spill_batch, manifest_context,
  yeet_memory, spill_context, explain_context, vibe_tab, show_tabs, show_context_schemas,
  show_context_objects, alias_tab, merge_tabs,
}
use skibidi_ql.Parser.State.{Reply, parsed, refused, stuck, ◌▷◌, next_is, rest_of}
use skibidi_ql.Parser.Select.{parse_expr, parse_select}
use skibidi_ql.Parser.Words.{is_semicolon, word_equals, next_word, error_here}
use skibidi_ql.Parser.Tables.{parse_insert, parse_update, parse_delete, parse_create, parse_drop}
use skibidi_ql.Parser.Snapshots.{parse_create_snapshot, parse_export_torch, parse_explain_batch}
use skibidi_ql.Parser.Contexts.{
  parse_create_context, parse_append_memory, parse_spill_context, parse_explain_context,
  parse_tag_memory, parse_show_tabs, parse_show_context_schemas, parse_show_context_objects,
  parse_alias_tab, parse_merge_tabs,
}

abbrev pub statement_expected : Text
statement_expected =
    codes "Expected statement keyword (slay, yeet-into, glow-up, ratio, manifest, rizz-down, "
    ++ codes "manifest-snapshot, ship-torch, spill-batch, manifest-context, yeet-memory, "
    ++ codes "spill-context, explain-context, show-tabs, show-context-schemas, "
    ++ codes "show-context-objects, alias-tab, merge-tabs, vibe-tab)"

abbrev pub skip_semicolon : List Token → List Token
skip_semicolon tokens = if next_is is_semicolon tokens then rest_of tokens else tokens

unfoldable pub skip_semicolons : List Token → List Token
skip_semicolons [] = []
skip_semicolons (t ∷ rest) =
    let further = skip_semicolons rest in if is_semicolon t.kind then further else t ∷ rest

module _ (stod : Text → Option ℕ) (end : Token) (fuel : ℕ) where
  abbrev pub expression : List Token → Reply AstNode
  expression = parse_expr stod end fuel

  abbrev pub select_query : List Token → Reply AstNode
  select_query = parse_select stod end fuel expression expression

  -- A statement that begins with the words of another dialect, of which `t` is the first.
  unfoldable pub parse_words : Token → List Token → Reply Statement
  parse_words t rest =
      if word_equals t (codes "create")
        && (next_word (codes "dataset") rest || next_word (codes "snapshot") rest)
      then parse_create_snapshot end fuel select_query (t ∷ rest)
      else if word_equals t (codes "create") && next_word (codes "context") rest
      then parse_create_context end fuel (t ∷ rest)
      else if word_equals t (codes "append") && next_word (codes "memory") rest
      then parse_append_memory end fuel (t ∷ rest)
      else if word_equals t (codes "tag") && next_word (codes "memory") rest
      then parse_tag_memory end fuel (t ∷ rest)
      else if word_equals t (codes "show") && next_word (codes "tabs") rest
      then parse_show_tabs end fuel (t ∷ rest)
      else if word_equals t (codes "show")
          && (next_word (codes "context-schemas") rest
              || next_word (codes "schemas") rest
              || (next_word (codes "context") rest && next_word (codes "schemas") (rest_of rest)))
      then parse_show_context_schemas end fuel (t ∷ rest)
      else if word_equals t (codes "show")
          && (next_word (codes "context-objects") rest
              || (next_word (codes "context") rest && next_word (codes "objects") (rest_of rest)))
      then parse_show_context_objects end fuel (t ∷ rest)
      else if word_equals t (codes "alias") && next_word (codes "tab") rest
      then parse_alias_tab end fuel (t ∷ rest)
      else if word_equals t (codes "merge") && next_word (codes "tabs") rest
      then parse_merge_tabs end fuel (t ∷ rest)
      else if word_equals t (codes "export") && next_word (codes "torch") rest
      then parse_export_torch end fuel (t ∷ rest)
      else if word_equals t (codes "explain") && next_word (codes "batch") rest
      then parse_explain_batch end fuel (t ∷ rest)
      else if word_equals t (codes "explain") && next_word (codes "context") rest
      then parse_explain_context end fuel (t ∷ rest)
      else if word_equals t (codes "spill") && next_word (codes "context") rest
      then parse_spill_context end fuel (t ∷ rest)
      else refused (error_here end statement_expected (t ∷ rest))

  -- By the type of the first token, which is given first.
  unfoldable pub parse_by_keyword : TokenType → Token → List Token → Reply Statement
  parse_by_keyword slay t rest =
      select_query (t ∷ rest) ▷ λ node after. parsed (query_stmt node) after
  parse_by_keyword yeet_into t rest = parse_insert end fuel expression (t ∷ rest)
  parse_by_keyword glow_up t rest = parse_update end fuel expression (t ∷ rest)
  parse_by_keyword ratio t rest = parse_delete end fuel expression (t ∷ rest)
  parse_by_keyword manifest t rest = parse_create end fuel (t ∷ rest)
  parse_by_keyword rizz_down t rest = parse_drop end fuel (t ∷ rest)
  parse_by_keyword manifest_dataset t rest = parse_create_snapshot end fuel select_query (t ∷ rest)
  parse_by_keyword manifest_snapshot t rest = parse_create_snapshot end fuel select_query (t ∷ rest)
  parse_by_keyword export_torch t rest = parse_export_torch end fuel (t ∷ rest)
  parse_by_keyword ship_torch t rest = parse_export_torch end fuel (t ∷ rest)
  parse_by_keyword explain_batch t rest = parse_explain_batch end fuel (t ∷ rest)
  parse_by_keyword spill_batch t rest = parse_explain_batch end fuel (t ∷ rest)
  parse_by_keyword manifest_context t rest = parse_create_context end fuel (t ∷ rest)
  parse_by_keyword yeet_memory t rest = parse_append_memory end fuel (t ∷ rest)
  parse_by_keyword spill_context t rest = parse_spill_context end fuel (t ∷ rest)
  parse_by_keyword explain_context t rest = parse_explain_context end fuel (t ∷ rest)
  parse_by_keyword vibe_tab t rest = parse_tag_memory end fuel (t ∷ rest)
  parse_by_keyword show_tabs t rest = parse_show_tabs end fuel (t ∷ rest)
  parse_by_keyword show_context_schemas t rest = parse_show_context_schemas end fuel (t ∷ rest)
  parse_by_keyword show_context_objects t rest = parse_show_context_objects end fuel (t ∷ rest)
  parse_by_keyword alias_tab t rest = parse_alias_tab end fuel (t ∷ rest)
  parse_by_keyword merge_tabs t rest = parse_merge_tabs end fuel (t ∷ rest)
  parse_by_keyword kind t rest = parse_words t rest

  unfoldable pub parse_statement : List Token → Reply Statement
  parse_statement [] = refused (error_here end statement_expected [])
  parse_statement (t ∷ rest) =
      parse_by_keyword t.kind t rest ▷ λ statement after. parsed statement (skip_semicolon after)

  -- With as many statements as there are rounds.
  unfoldable pub parse_statements : ℕ → List Token → Reply (List Statement)
  parse_statements rounds [] = parsed [] []
  parse_statements zero (t ∷ rest) = stuck
  parse_statements (suc rounds) (t ∷ rest) = parse_statement (t ∷ rest) ▷ λ statement after.
      parse_statements rounds (skip_semicolons after) ▷ λ statements last.
      parsed (statement ∷ statements) last

  unfoldable pub parse_all : List Token → Reply (List Statement)
  parse_all tokens = parse_statements fuel tokens
