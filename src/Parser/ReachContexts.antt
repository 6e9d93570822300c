-- ===== src/Parser/ReachContexts.antt =====
-- The statements on contexts return, without running out of fuel.
use skibidi_ql.Prelude.{ℕ, ◌≤◌, ◌<◌, ◌||◌, List, [], arith, length}
use skibidi_ql.Ast.{Text}
use skibidi_ql.Ast.Statements.{ContextOptions}
use skibidi_ql.Lexer.Token.{Token, codes}
use skibidi_ql.Parser.State.{rest_of, next_is, is_lparen, is_rparen, is_comma}
use skibidi_ql.Parser.Select.{is_only_if}
use skibidi_ql.Parser.Tables.{is_drip}
use skibidi_ql.Parser.Words.{word_equals, next_word, more_options}
use skibidi_ql.Parser.Contexts.{
  is_manifest_context, is_yeet_memory, is_spill_context, is_explain_context, is_show_tabs,
  is_show_context_schemas, is_show_context_objects, is_alias_tab, is_merge_tabs, is_token_budget,
  is_vibe_tab, parse_create_context, parse_tab, parse_append_memory, parse_context_option,
  parse_context_options, parse_spill_context, parse_explain_context, parse_tag_memory,
  parse_show_tabs, parse_schemas_words, parse_show_context_schemas, parse_objects_words,
  parse_show_context_objects, parse_alias_tab, parse_merge_tabs,
}
use skibidi_ql.Parser.Reach.{
  Within, within, refusal, Within-weaken, if-Within, length-rest_of, expect-Within,
}
use skibidi_ql.Parser.ReachWords.{
  then-Within, done-Within, taken-Within, repeated-Within, expect_word-Within, taken_word-Within,
  unsigned-Within, opening-Within, name-Within, string-Within, length-skip_word,
}

module _ (end : Token) (fuel : ℕ) where
  pub create_context-Within :
      (tokens : List Token)
      → Within (length (rest_of tokens)) (parse_create_context end fuel tokens)
  unfolding parse_create_context
  create_context-Within tokens =
      then-Within (opening-Within end is_manifest_context _ _ tokens)
        (λ t a la. done-Within _ (name-Within end _ a))

  tab-Within : (tokens : List Token) → Within (length tokens) (parse_tab end fuel tokens)
  unfolding parse_tab
  tab-Within tokens =
      if-Within (next_is is_vibe_tab tokens || next_word (codes "tab") tokens)
        (Within-weaken (length-rest_of tokens) (
          if-Within (next_word (codes "auto") (rest_of tokens))
            (within (length-rest_of (rest_of tokens)))
            (done-Within _ (string-Within end _ (rest_of tokens)))))
        (within (omega arith))

  pub append_memory-Within :
      (tokens : List Token) → Within (length (rest_of tokens)) (parse_append_memory end fuel tokens)
  unfolding parse_append_memory
  append_memory-Within tokens =
      then-Within (opening-Within end is_yeet_memory _ _ tokens) (λ t a la.
        then-Within (name-Within end _ a) (λ context b lb.
          then-Within (taken-Within end is_drip _ b) (λ d c lc.
            then-Within (taken-Within end is_lparen _ c) (λ p e le.
              then-Within (unsigned-Within end _ e) (λ id f lf.
                then-Within (taken-Within end is_comma _ f) (λ m g lg.
                  then-Within (string-Within end _ g) (λ speaker h lh.
                    then-Within (taken-Within end is_comma _ h) (λ n i li.
                      then-Within (string-Within end _ i) (λ text j lj.
                        then-Within (taken-Within end is_rparen _ j)
                          (λ r k lk. done-Within _ (tab-Within k)))))))))))

  context_option-Within :
      (message : Text) (options : ContextOptions) (t : Token) (rest : List Token)
      → Within (length rest) (parse_context_option end fuel message options t rest)
  unfolding parse_context_option
  context_option-Within message options t rest =
      if-Within (is_only_if t.kind || word_equals t (codes "query"))
        (done-Within _ (string-Within end _ rest))
        (if-Within (is_token_budget t.kind || word_equals t (codes "token_budget"))
          (done-Within _ (unsigned-Within end _ rest))
          (if-Within (is_vibe_tab t.kind || word_equals t (codes "tab"))
            (done-Within _ (string-Within end _ rest))
            (if-Within (word_equals t (codes "receipts"))
              (if-Within (next_word (codes "off") rest) (within (length-rest_of rest))
                (within (length-skip_word (codes "on") rest)))
              refusal)))

  context_options-Within :
      (message : Text) (tokens : List Token)
      → length tokens ≤ fuel
      → Within (length tokens) (parse_context_options end fuel message tokens)
  context_options-Within message tokens h =
      repeated-Within more_options fuel
        (λ options t rest k. context_option-Within message options t rest) fuel _ tokens h h

  pub spill_context-Within :
      (tokens : List Token)
      → length tokens < fuel
      → Within (length (rest_of tokens)) (parse_spill_context end fuel tokens)
  unfolding parse_spill_context
  spill_context-Within tokens h =
      then-Within (opening-Within end is_spill_context _ _ tokens) (λ t a la.
        then-Within (name-Within end _ a) (λ context b lb.
          done-Within _
            (context_options-Within _ b (omega (arith, h, la, lb, length-rest_of tokens)))))

  pub explain_context-Within :
      (tokens : List Token)
      → length tokens < fuel
      → Within (length (rest_of tokens)) (parse_explain_context end fuel tokens)
  unfolding parse_explain_context
  explain_context-Within tokens h =
      then-Within (opening-Within end is_explain_context _ _ tokens) (λ t a la.
        then-Within (name-Within end _ a) (λ context b lb.
          done-Within _
            (context_options-Within _ b (omega (arith, h, la, lb, length-rest_of tokens)))))

  pub tag_memory-Within :
      (tokens : List Token) → Within (length (rest_of tokens)) (parse_tag_memory end fuel tokens)
  unfolding parse_tag_memory
  tag_memory-Within tokens = then-Within (opening-Within end is_vibe_tab _ _ tokens) (λ t a la.
      then-Within (name-Within end _ a) (λ context b lb.
        then-Within (taken_word-Within end _ _ b) (λ m c lc.
          then-Within (unsigned-Within end _ c)
            (λ id d ld. done-Within _ (string-Within end _ d)))))

  pub show_tabs-Within :
      (tokens : List Token) → Within (length (rest_of tokens)) (parse_show_tabs end fuel tokens)
  unfolding parse_show_tabs
  show_tabs-Within tokens =
      then-Within (opening-Within end is_show_tabs _ _ tokens)
        (λ t a la. done-Within _ (name-Within end _ a))

  schemas_words-Within :
      (tokens : List Token) → Within (length tokens) (parse_schemas_words end fuel tokens)
  unfolding parse_schemas_words
  schemas_words-Within tokens =
      if-Within (next_word (codes "context") tokens)
        (Within-weaken (length-rest_of tokens) (taken_word-Within end _ _ (rest_of tokens)))
        (if-Within (next_word (codes "context-schemas") tokens) (taken_word-Within end _ _ tokens)
          (taken_word-Within end _ _ tokens))

  pub show_context_schemas-Within :
      (tokens : List Token)
      → Within (length (rest_of tokens)) (parse_show_context_schemas end fuel tokens)
  unfolding parse_show_context_schemas
  show_context_schemas-Within tokens =
      if-Within (next_is is_show_context_schemas tokens) (within (omega arith)) (
        then-Within (expect_word-Within end _ _ tokens)
          (λ t a la. done-Within _ (schemas_words-Within a)))

  objects_words-Within :
      (tokens : List Token) → Within (length (rest_of tokens)) (parse_objects_words end fuel tokens)
  unfolding parse_objects_words
  objects_words-Within tokens =
      if-Within (next_is is_show_context_objects tokens)
        (expect-Within end is_show_context_objects [] tokens)
        (then-Within (expect_word-Within end _ _ tokens) (λ t a la.
          if-Within (next_word (codes "context") a)
            (Within-weaken (length-rest_of a) (taken_word-Within end _ _ (rest_of a)))
            (taken_word-Within end _ _ a)))

  pub show_context_objects-Within :
      (tokens : List Token)
      → Within (length (rest_of tokens)) (parse_show_context_objects end fuel tokens)
  unfolding parse_show_context_objects
  show_context_objects-Within tokens =
      then-Within (objects_words-Within tokens) (λ t a la. done-Within _ (name-Within end _ a))

  pub alias_tab-Within :
      (tokens : List Token) → Within (length (rest_of tokens)) (parse_alias_tab end fuel tokens)
  unfolding parse_alias_tab
  alias_tab-Within tokens = then-Within (opening-Within end is_alias_tab _ _ tokens) (λ t a la.
      then-Within (name-Within end _ a) (λ context b lb.
        then-Within (string-Within end _ b) (λ alias c lc.
          then-Within (taken_word-Within end _ _ c)
            (λ w d ld. done-Within _ (string-Within end _ d)))))

  pub merge_tabs-Within :
      (tokens : List Token) → Within (length (rest_of tokens)) (parse_merge_tabs end fuel tokens)
  unfolding parse_merge_tabs
  merge_tabs-Within tokens = then-Within (opening-Within end is_merge_tabs _ _ tokens) (λ t a la.
      then-Within (name-Within end _ a) (λ context b lb.
        then-Within (string-Within end _ b) (λ from c lc.
          then-Within (taken_word-Within end _ _ c)
            (λ w d ld. done-Within _ (string-Within end _ d)))))
