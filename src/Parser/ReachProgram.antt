-- ===== src/Parser/ReachProgram.antt =====
-- parseAll returns on every list of tokens.
use skibidi_ql.Prelude.{
  ℕ, zero, suc, ◌≤◌, ◌<◌, Bool, true, false, ◌&&◌, ◌||◌, Option, List, [], ◌∷◌, arith, length,
  if◌then◌else◌,
}
use skibidi_ql.Ast.{Text}
use skibidi_ql.Lexer.Token.{
  Token, TokenType, codes, slay, yeet_into, glow_up, ratio, manifest, rizz_down, manifest_dataset,
  manifest_snapshot, export_torch, ship_torch, explain_batch, spill_batch, manifest_context,
  yeet_memory, spill_context, explain_context, vibe_tab, show_tabs, show_context_schemas,
  show_context_objects, alias_tab, merge_tabs,
}
use skibidi_ql.Parser.State.{rest_of}
use skibidi_ql.Parser.Words.{is_semicolon, word_equals, next_word}
use skibidi_ql.Parser.Program.{
  select_query, parse_words, parse_by_keyword, skip_semicolon, parse_statement, skip_semicolons,
  parse_statements, parse_all,
}
use skibidi_ql.Parser.Reach.{Within, within, refusal, bind-Within, if-Within}
use skibidi_ql.Parser.ReachWords.{done-Within}
use skibidi_ql.Parser.ReachTables.{
  create-Within, drop-Within, insert-Within, update-Within, delete-Within,
}
use skibidi_ql.Parser.ReachContexts.{
  create_context-Within, append_memory-Within, spill_context-Within, explain_context-Within,
  tag_memory-Within, show_tabs-Within, show_context_schemas-Within, show_context_objects-Within,
  alias_tab-Within, merge_tabs-Within,
}
use skibidi_ql.Parser.ReachSnapshots.{
  create_snapshot-Within, export_torch-Within, explain_batch-Within,
}
use skibidi_ql.Parser.Total.{parse_expr-Within, select-Within}

length-skip_semicolon : (tokens : List Token) → length (skip_semicolon tokens) ≤ length tokens
length-skip_semicolon [] = omega arith
length-skip_semicolon (t ∷ rest) = by_answer (is_semicolon t.kind)
  where
    by_answer : (b : Bool) → length (if b then rest else t ∷ rest) ≤ length (t ∷ rest)
    by_answer true = omega arith
    by_answer false = omega arith

length-skip_semicolons : (tokens : List Token) → length (skip_semicolons tokens) ≤ length tokens
unfolding skip_semicolons
length-skip_semicolons [] = omega arith
length-skip_semicolons (t ∷ rest) = by_answer (length-skip_semicolons rest) (is_semicolon t.kind)
  where
    by_answer :
        length (skip_semicolons rest) ≤ length rest
        → (b : Bool) → length (if b then skip_semicolons rest else t ∷ rest) ≤ length (t ∷ rest)
    by_answer shorter true = omega (arith, shorter)
    by_answer shorter false = omega arith

module _ (stod : Text → Option ℕ) (end : Token) (fuel : ℕ) where
  query-Within :
      (tokens : List Token)
      → length tokens < fuel
      → Within (length (rest_of tokens)) (select_query stod end fuel tokens)
  query-Within =
      select-Within stod end fuel (parse_expr-Within stod end fuel)
        (parse_expr-Within stod end fuel)

  words-Within :
      (t : Token) (rest : List Token)
      → length (t ∷ rest) < fuel
      → Within (length rest) (parse_words stod end fuel t rest)
  unfolding parse_words
  words-Within t rest h =
      if-Within
        (word_equals t (codes "create")
          && (next_word (codes "dataset") rest || next_word (codes "snapshot") rest))
        (create_snapshot-Within end fuel query-Within (t ∷ rest) h)
        (if-Within (word_equals t (codes "create") && next_word (codes "context") rest)
          (create_context-Within end fuel (t ∷ rest))
          (if-Within (word_equals t (codes "append") && next_word (codes "memory") rest)
            (append_memory-Within end fuel (t ∷ rest))
            (if-Within (word_equals t (codes "tag") && next_word (codes "memory") rest)
              (tag_memory-Within end fuel (t ∷ rest))
              (if-Within (word_equals t (codes "show") && next_word (codes "tabs") rest)
                (show_tabs-Within end fuel (t ∷ rest))
                (if-Within _ (show_context_schemas-Within end fuel (t ∷ rest)) (
                  if-Within _ (show_context_objects-Within end fuel (t ∷ rest)) (
                    if-Within (word_equals t (codes "alias") && next_word (codes "tab") rest)
                      (alias_tab-Within end fuel (t ∷ rest))
                      (if-Within (word_equals t (codes "merge") && next_word (codes "tabs") rest)
                        (merge_tabs-Within end fuel (t ∷ rest))
                        (if-Within
                          (word_equals t (codes "export") && next_word (codes "torch") rest)
                          (export_torch-Within end fuel (t ∷ rest) h)
                          (if-Within
                            (word_equals t (codes "explain") && next_word (codes "batch") rest)
                            (explain_batch-Within end fuel (t ∷ rest) h)
                            (if-Within
                              (word_equals t (codes "explain") && next_word (codes "context") rest)
                              (explain_context-Within end fuel (t ∷ rest) h)
                              (if-Within
                                (word_equals t (codes "spill") && next_word (codes "context") rest)
                                (spill_context-Within end fuel (t ∷ rest) h) refusal))))))))))))

  keyword-Within :
      (kind : TokenType) (t : Token) (rest : List Token)
      → length (t ∷ rest) < fuel
      → Within (length rest) (parse_by_keyword stod end fuel kind t rest)
  unfolding parse_by_keyword
  keyword-Within slay t rest h = done-Within _ (query-Within (t ∷ rest) h)
  keyword-Within yeet_into t rest h =
      insert-Within end fuel (parse_expr-Within stod end fuel) (t ∷ rest) h
  keyword-Within glow_up t rest h =
      update-Within end fuel (parse_expr-Within stod end fuel) (t ∷ rest) h
  keyword-Within ratio t rest h =
      delete-Within end fuel (parse_expr-Within stod end fuel) (t ∷ rest) h
  keyword-Within manifest t rest h = create-Within end fuel (t ∷ rest) h
  keyword-Within rizz_down t rest h = drop-Within end fuel (t ∷ rest) h
  keyword-Within manifest_dataset t rest h =
      create_snapshot-Within end fuel query-Within (t ∷ rest) h
  keyword-Within manifest_snapshot t rest h =
      create_snapshot-Within end fuel query-Within (t ∷ rest) h
  keyword-Within export_torch t rest h = export_torch-Within end fuel (t ∷ rest) h
  keyword-Within ship_torch t rest h = export_torch-Within end fuel (t ∷ rest) h
  keyword-Within explain_batch t rest h = explain_batch-Within end fuel (t ∷ rest) h
  keyword-Within spill_batch t rest h = explain_batch-Within end fuel (t ∷ rest) h
  keyword-Within manifest_context t rest h = create_context-Within end fuel (t ∷ rest)
  keyword-Within yeet_memory t rest h = append_memory-Within end fuel (t ∷ rest)
  keyword-Within spill_context t rest h = spill_context-Within end fuel (t ∷ rest) h
  keyword-Within explain_context t rest h = explain_context-Within end fuel (t ∷ rest) h
  keyword-Within vibe_tab t rest h = tag_memory-Within end fuel (t ∷ rest)
  keyword-Within show_tabs t rest h = show_tabs-Within end fuel (t ∷ rest)
  keyword-Within show_context_schemas t rest h = show_context_schemas-Within end fuel (t ∷ rest)
  keyword-Within show_context_objects t rest h = show_context_objects-Within end fuel (t ∷ rest)
  keyword-Within alias_tab t rest h = alias_tab-Within end fuel (t ∷ rest)
  keyword-Within merge_tabs t rest h = merge_tabs-Within end fuel (t ∷ rest)
  keyword-Within kind t rest h = words-Within t rest h

  statement-Within :
      (t : Token) (rest : List Token)
      → length (t ∷ rest) < fuel
      → Within (length rest) (parse_statement stod end fuel (t ∷ rest))
  unfolding parse_statement
  statement-Within t rest h =
      bind-Within (keyword-Within t.kind t rest h)
        (λ statement after l. within (omega (arith, l, length-skip_semicolon after)))

  statements-Within :
      (rounds : ℕ) (tokens : List Token)
      → length tokens ≤ rounds
      → length tokens < fuel
      → Within 0 (parse_statements stod end fuel rounds tokens)
  unfolding parse_statements
  statements-Within rounds [] r h = within (omega arith)
  statements-Within zero (t ∷ rest) r h = absurd (omega (arith, r))
  statements-Within (suc rounds) (t ∷ rest) r h =
      bind-Within (statement-Within t rest h) (λ statement after l. done-Within _ (
        statements-Within rounds (skip_semicolons after)
          (omega (arith, r, l, length-skip_semicolons after))
          (omega (arith, h, l, length-skip_semicolons after))))

-- With fuel above the number of tokens parseAll returns: statements that use up all tokens, or an
-- error. No list of tokens makes one of its loops run on.
pub parse_all-Within :
    (stod : Text → Option ℕ) (end : Token) (fuel : ℕ) (tokens : List Token)
    → length tokens < fuel
    → Within 0 (parse_all stod end fuel tokens)
unfolding parse_all
parse_all-Within stod end fuel tokens h =
    statements-Within stod end fuel fuel tokens (omega (arith, h)) h
