-- ===== src/Parser/Contexts.antt =====
-- The statements on contexts of src/parser.cpp, from parseCreateContext to parseMergeTabs.
use skibidi_ql.Prelude.{ℕ, Bool, true, false, ◌||◌, List, [], ◌∷◌, if◌then◌else◌}
use skibidi_ql.Ast.{Text}
use skibidi_ql.Ast.Statements.{
  ContextOptions, Statement, create_context_stmt, append_memory_stmt, spill_context_stmt,
  explain_context_stmt, tag_memory_stmt, show_tabs_stmt, show_context_schemas_stmt,
  show_context_objects_stmt, alias_tab_stmt, merge_tabs_stmt,
}
use skibidi_ql.Lexer.Token.{
  Token, TokenType, codes, manifest_context, yeet_memory, spill_context, explain_context, show_tabs,
  show_context_schemas, show_context_objects, alias_tab, merge_tabs, token_budget, vibe_tab,
}
use skibidi_ql.Parser.State.{
  Reply, parsed, refused, ◌▷◌, next_is, rest_of, expect, is_lparen, is_rparen, is_comma,
}
use skibidi_ql.Parser.Select.{is_only_if}
use skibidi_ql.Parser.Tables.{is_drip}
use skibidi_ql.Parser.Words.{
  word_equals, next_word, skip_word, repeated, more_options, current_spot, error_here, expect_word,
  parse_unsigned_option, parse_opening, parse_name_as, parse_string_as,
}

abbrev pub is_manifest_context : TokenType → Bool
is_manifest_context manifest_context = true
is_manifest_context _ = false

abbrev pub is_yeet_memory : TokenType → Bool
is_yeet_memory yeet_memory = true
is_yeet_memory _ = false

abbrev pub is_spill_context : TokenType → Bool
is_spill_context spill_context = true
is_spill_context _ = false

abbrev pub is_explain_context : TokenType → Bool
is_explain_context explain_context = true
is_explain_context _ = false

abbrev pub is_show_tabs : TokenType → Bool
is_show_tabs show_tabs = true
is_show_tabs _ = false

abbrev pub is_show_context_schemas : TokenType → Bool
is_show_context_schemas show_context_schemas = true
is_show_context_schemas _ = false

abbrev pub is_show_context_objects : TokenType → Bool
is_show_context_objects show_context_objects = true
is_show_context_objects _ = false

abbrev pub is_alias_tab : TokenType → Bool
is_alias_tab alias_tab = true
is_alias_tab _ = false

abbrev pub is_merge_tabs : TokenType → Bool
is_merge_tabs merge_tabs = true
is_merge_tabs _ = false

abbrev pub is_token_budget : TokenType → Bool
is_token_budget token_budget = true
is_token_budget _ = false

abbrev pub is_vibe_tab : TokenType → Bool
is_vibe_tab vibe_tab = true
is_vibe_tab _ = false

module _ (end : Token) (fuel : ℕ) where
  unfoldable pub parse_create_context : List Token → Reply Statement
  parse_create_context tokens =
      parse_opening end is_manifest_context (codes "create") (codes "context") tokens ▷ λ t a.
      parse_name_as end (codes "Expected context name") a ▷ λ name last.
      parsed (create_context_stmt (current_spot end tokens) name) last

  -- What tab a memory gets: its name, and whether it is chosen by the engine.
  unfoldable pub parse_tab : List Token → Reply (Text × Bool)
  parse_tab tokens =
      if next_is is_vibe_tab tokens || next_word (codes "tab") tokens
      then if next_word (codes "auto") (rest_of tokens)
        then parsed ([], true) (rest_of (rest_of tokens))
        else (parse_string_as end (codes "Expected tab string or auto") (rest_of tokens)
            ▷ λ tab rest. parsed (tab, false) rest)
      else parsed ([], false) tokens

  unfoldable pub parse_append_memory : List Token → Reply Statement
  parse_append_memory tokens =
      parse_opening end is_yeet_memory (codes "append") (codes "memory") tokens ▷ λ t a.
      parse_name_as end (codes "Expected context name") a ▷ λ context b.
      expect end is_drip (codes "Expected 'drip' before memory tuple") b ▷ λ d c.
      expect end is_lparen (codes "Expected '('") c ▷ λ l e.
      parse_unsigned_option end (codes "message-id") e ▷ λ id f.
      expect end is_comma (codes "Expected ',' after message id") f ▷ λ m g.
      parse_string_as end (codes "Expected speaker string") g ▷ λ speaker h.
      expect end is_comma (codes "Expected ',' after speaker") h ▷ λ n i.
      parse_string_as end (codes "Expected message text") i ▷ λ text j.
      expect end is_rparen (codes "Expected ')'") j ▷ λ r k. parse_tab k ▷ λ tab last.
      parsed
        (append_memory_stmt (current_spot end tokens) (record {
          context = context;
          message_id = id;
          speaker = speaker;
          text = text;
          tab = tab.0;
          auto_tab = tab.1;
        }))
        last

  -- An option of spill-context or explain-context; `message` is thrown at anything else.
  unfoldable pub parse_context_option :
      Text → ContextOptions → Token → List Token → Reply ContextOptions
  parse_context_option message options t rest =
      if is_only_if t.kind || word_equals t (codes "query")
      then (parse_string_as end (codes "Expected query string") rest ▷ λ query after.
          parsed (record options { query = query }) after)
      else if is_token_budget t.kind || word_equals t (codes "token_budget")
      then (parse_unsigned_option end (codes "token-budget") rest ▷ λ budget after.
          parsed (record options { budget = budget }) after)
      else if is_vibe_tab t.kind || word_equals t (codes "tab")
      then (parse_string_as end (codes "Expected tab string") rest ▷ λ tab after.
          parsed (record options { tab = tab }) after)
      else if word_equals t (codes "receipts")
      then if next_word (codes "off") rest
        then parsed (record options { receipts = false }) (rest_of rest)
        else parsed (record options { receipts = true }) (skip_word (codes "on") rest)
      else refused (error_here end message (t ∷ rest))

  abbrev pub parse_context_options : Text → List Token → Reply ContextOptions
  parse_context_options message tokens =
      repeated fuel more_options (parse_context_option message)
        (record { query = []; tab = []; budget = 1200; receipts = true }) tokens

  unfoldable pub parse_spill_context : List Token → Reply Statement
  parse_spill_context tokens =
      parse_opening end is_spill_context (codes "spill") (codes "context") tokens ▷ λ t a.
      parse_name_as end (codes "Expected context name") a ▷ λ context b.
      parse_context_options (codes "Expected context option") b ▷ λ options last.
      parsed (spill_context_stmt (current_spot end tokens) context options) last

  unfoldable pub parse_explain_context : List Token → Reply Statement
  parse_explain_context tokens =
      parse_opening end is_explain_context (codes "explain") (codes "context") tokens ▷ λ t a.
      parse_name_as end (codes "Expected context name") a ▷ λ context b.
      parse_context_options (codes "Expected context explain option") b ▷ λ options last.
      parsed (explain_context_stmt (current_spot end tokens) context options) last

  unfoldable pub parse_tag_memory : List Token → Reply Statement
  parse_tag_memory tokens =
      parse_opening end is_vibe_tab (codes "tag") (codes "memory") tokens ▷ λ t a.
      parse_name_as end (codes "Expected context name") a ▷ λ context b.
      expect_word end (codes "message") (codes "Expected 'message'") b ▷ λ m c.
      parse_unsigned_option end (codes "message-id") c ▷ λ id d.
      parse_string_as end (codes "Expected tab string") d ▷ λ tab last.
      parsed (tag_memory_stmt (current_spot end tokens) context id tab) last

  unfoldable pub parse_show_tabs : List Token → Reply Statement
  parse_show_tabs tokens =
      parse_opening end is_show_tabs (codes "show") (codes "tabs") tokens ▷ λ t a.
      parse_name_as end (codes "Expected context name") a ▷ λ context last.
      parsed (show_tabs_stmt (current_spot end tokens) context) last

  -- What may stand for show-context-schemas behind `show`.
  unfoldable pub parse_schemas_words : List Token → Reply Token
  parse_schemas_words tokens =
      if next_word (codes "context") tokens
      then expect_word end (codes "schemas") (codes "Expected 'schemas'") (rest_of tokens)
      else if next_word (codes "context-schemas") tokens
      then expect_word end (codes "context-schemas") [] tokens
      else expect_word end (codes "schemas") (codes "Expected 'schemas'") tokens

  unfoldable pub parse_show_context_schemas : List Token → Reply Statement
  parse_show_context_schemas tokens =
      if next_is is_show_context_schemas tokens
      then parsed (show_context_schemas_stmt (current_spot end tokens)) (rest_of tokens)
      else (expect_word end (codes "show") (codes "Expected 'show'") tokens ▷ λ t a.
          parse_schemas_words a ▷ λ w last.
          parsed (show_context_schemas_stmt (current_spot end tokens)) last)

  unfoldable pub parse_objects_words : List Token → Reply Token
  parse_objects_words tokens =
      if next_is is_show_context_objects tokens
      then expect end is_show_context_objects [] tokens
      else (expect_word end (codes "show") (codes "Expected 'show'") tokens ▷ λ t a.
          (if next_word (codes "context") a
            then expect_word end (codes "objects") (codes "Expected 'objects'") (rest_of a)
            else expect_word end (codes "context-objects") (codes "Expected 'context-objects'") a))

  unfoldable pub parse_show_context_objects : List Token → Reply Statement
  parse_show_context_objects tokens = parse_objects_words tokens ▷ λ t a.
      parse_name_as end (codes "Expected context name") a ▷ λ context last.
      parsed (show_context_objects_stmt (current_spot end tokens) context) last

  unfoldable pub parse_alias_tab : List Token → Reply Statement
  parse_alias_tab tokens =
      parse_opening end is_alias_tab (codes "alias") (codes "tab") tokens ▷ λ t a.
      parse_name_as end (codes "Expected context name") a ▷ λ context b.
      parse_string_as end (codes "Expected alias tab string") b ▷ λ alias c.
      expect_word end (codes "to") (codes "Expected 'to'") c ▷ λ w d.
      parse_string_as end (codes "Expected target tab string") d ▷ λ target last.
      parsed (alias_tab_stmt (current_spot end tokens) context alias target) last

  unfoldable pub parse_merge_tabs : List Token → Reply Statement
  parse_merge_tabs tokens =
      parse_opening end is_merge_tabs (codes "merge") (codes "tabs") tokens ▷ λ t a.
      parse_name_as end (codes "Expected context name") a ▷ λ context b.
      parse_string_as end (codes "Expected source tab string") b ▷ λ from c.
      expect_word end (codes "into") (codes "Expected 'into'") c ▷ λ w d.
      parse_string_as end (codes "Expected target tab string") d ▷ λ to last.
      parsed (merge_tabs_stmt (current_spot end tokens) context from to) last
