-- ===== src/Parser/Snapshots.antt =====
-- parseCreateSnapshot, parseExportTorch and parseExplainBatch of src/parser.cpp.
use skibidi_ql.Prelude.{ℕ, Bool, true, false, ◌||◌, List, [], ◌∷◌, if◌then◌else◌}
use skibidi_ql.Ast.{AstNode}
use skibidi_ql.Ast.Statements.{
  SnapshotOptions, BatchOptions, Statement, create_snapshot_stmt, export_torch_stmt,
  explain_batch_stmt,
}
use skibidi_ql.Lexer.Token.{
  Token, TokenType, codes, manifest_dataset, manifest_snapshot, export_torch, ship_torch,
  explain_batch, spill_batch, with_seed, batch_size, world_size,
}
use skibidi_ql.Parser.State.{Reply, parsed, refused, ◌▷◌, next_is, rest_of, expect, is_lowkey}
use skibidi_ql.Parser.Kinds.{is_split_by}
use skibidi_ql.Parser.Words.{
  word_equals, next_word, skip_word, repeated, more_options, current_spot, error_here, expect_word,
  parse_unsigned_option, parse_opening, parse_name_as, parse_feature_spec, parse_feature_specs,
}

abbrev pub is_manifest_snapshot : TokenType → Bool
is_manifest_snapshot manifest_dataset = true
is_manifest_snapshot manifest_snapshot = true
is_manifest_snapshot _ = false

abbrev pub is_export_torch : TokenType → Bool
is_export_torch export_torch = true
is_export_torch ship_torch = true
is_export_torch _ = false

abbrev pub is_explain_batch : TokenType → Bool
is_explain_batch explain_batch = true
is_explain_batch spill_batch = true
is_explain_batch _ = false

abbrev pub is_with_seed : TokenType → Bool
is_with_seed with_seed = true
is_with_seed _ = false

abbrev pub is_batch_size : TokenType → Bool
is_batch_size batch_size = true
is_batch_size _ = false

abbrev pub is_world_size : TokenType → Bool
is_world_size world_size = true
is_world_size _ = false

-- The `by` and `random by` that may stand before the key of a split.
abbrev pub skip_random : List Token → List Token
skip_random tokens =
    if next_word (codes "random") tokens then skip_word (codes "by") (rest_of tokens) else tokens

module _ (end : Token) (fuel : ℕ) where
  unfoldable pub parse_snapshot_option :
      SnapshotOptions → Token → List Token → Reply SnapshotOptions
  parse_snapshot_option options t rest =
      if is_split_by t.kind || word_equals t (codes "split")
      then (parse_name_as end (codes "Expected split key")
            (skip_random (skip_word (codes "by") rest))
          ▷ λ key after. parsed (record options { split_key = key }) after)
      else if is_with_seed t.kind || word_equals t (codes "seed")
      then (parse_unsigned_option end (codes "seed") rest ▷ λ seed after.
          parsed (record options { seed = seed }) after)
      else if word_equals t (codes "with")
      then (expect_word end (codes "seed") (codes "Expected 'seed' after WITH") rest ▷ λ w a.
          parse_unsigned_option end (codes "seed") a ▷ λ seed after.
          parsed (record options { seed = seed }) after)
      else if word_equals t (codes "features") || word_equals t (codes "feature")
      then (parse_feature_specs end fuel rest ▷ λ features after.
          parsed (record options { features = features }) after)
      else if word_equals t (codes "label")
      then (parse_feature_spec end (codes "Expected label column") rest ▷ λ label after.
          parsed (record options { label = label }) after)
      else refused (
          error_here end (codes "Expected snapshot clause (split-by, with-seed, features, label)")
            (t ∷ rest))

  -- The keyword, or `create` with one of two words.
  unfoldable pub parse_snapshot_words : List Token → Reply Token
  parse_snapshot_words tokens =
      if next_is is_manifest_snapshot tokens
      then expect end is_manifest_snapshot [] tokens
      else (expect_word end (codes "create") (codes "Expected 'create'") tokens ▷ λ t rest.
          (if next_word (codes "dataset") rest || next_word (codes "snapshot") rest
            then parsed t (rest_of rest)
            else refused
                (error_here end (codes "Expected 'dataset' or 'snapshot' after CREATE") rest)))

  -- The `lowkey` or `as` before the query.
  abbrev pub parse_source : (List Token → Reply AstNode) → List Token → Reply AstNode
  parse_source sub tokens =
      if next_is is_lowkey tokens || next_word (codes "as") tokens
      then sub (rest_of tokens)
      else refused (error_here end (codes "Expected 'lowkey'/'as' before snapshot query") tokens)

  -- `sub` is parseSelect.
  unfoldable pub parse_create_snapshot : (List Token → Reply AstNode) → List Token → Reply Statement
  parse_create_snapshot sub tokens = parse_snapshot_words tokens ▷ λ t a.
      parse_name_as end (codes "Expected snapshot name") a ▷ λ name b.
      parse_source sub b ▷ λ source c.
      repeated fuel more_options parse_snapshot_option
        (record {
          split_key = [];
          seed = 0;
          features = [];
          label = record { name = []; spec = [] };
        })
        c
      ▷ λ options last.
          parsed (create_snapshot_stmt (current_spot end tokens) name source options) last

  abbrev pub no_batch_options : BatchOptions
  no_batch_options = record {
    size = 256;
    deterministic_shuffle = true;
    epoch = 0;
    batch = 0;
    rank = 0;
    world = 1;
  }

  unfoldable pub parse_export_option : BatchOptions → Token → List Token → Reply BatchOptions
  parse_export_option options t rest =
      if is_batch_size t.kind || word_equals t (codes "batch_size")
      then (parse_unsigned_option end (codes "batch-size") rest ▷ λ n after.
          parsed (record options { size = n }) after)
      else if word_equals t (codes "shuffle")
      then parsed (record options { deterministic_shuffle = true })
          (skip_word (codes "deterministic") rest)
      else if word_equals t (codes "deterministic")
      then parsed (record options { deterministic_shuffle = true }) rest
      else if word_equals t (codes "epoch")
      then (parse_unsigned_option end (codes "epoch") rest ▷ λ n after.
          parsed (record options { epoch = n }) after)
      else if word_equals t (codes "rank")
      then (parse_unsigned_option end (codes "rank") rest ▷ λ n after.
          parsed (record options { rank = n }) after)
      else if is_world_size t.kind || word_equals t (codes "world_size")
      then (parse_unsigned_option end (codes "world-size") rest ▷ λ n after.
          parsed (record options { world = n }) after)
      else refused (error_here end (codes "Expected export option") (t ∷ rest))

  unfoldable pub parse_export_torch : List Token → Reply Statement
  parse_export_torch tokens =
      parse_opening end is_export_torch (codes "export") (codes "torch") tokens ▷ λ t a.
      parse_name_as end (codes "Expected snapshot name") a ▷ λ dataset b.
      repeated fuel more_options parse_export_option no_batch_options b ▷ λ options last.
      parsed (export_torch_stmt (current_spot end tokens) dataset options) last

  unfoldable pub parse_explain_option : BatchOptions → Token → List Token → Reply BatchOptions
  parse_explain_option options t rest =
      if is_batch_size t.kind || word_equals t (codes "batch_size")
      then (parse_unsigned_option end (codes "batch-size") rest ▷ λ n after.
          parsed (record options { size = n }) after)
      else if word_equals t (codes "epoch")
      then (parse_unsigned_option end (codes "epoch") rest ▷ λ n after.
          parsed (record options { epoch = n }) after)
      else if word_equals t (codes "batch")
      then (parse_unsigned_option end (codes "batch") rest ▷ λ n after.
          parsed (record options { batch = n }) after)
      else if word_equals t (codes "rank")
      then (parse_unsigned_option end (codes "rank") rest ▷ λ n after.
          parsed (record options { rank = n }) after)
      else if is_world_size t.kind || word_equals t (codes "world_size")
      then (parse_unsigned_option end (codes "world-size") rest ▷ λ n after.
          parsed (record options { world = n }) after)
      else refused (error_here end (codes "Expected explain-batch option") (t ∷ rest))

  unfoldable pub parse_explain_batch : List Token → Reply Statement
  parse_explain_batch tokens =
      parse_opening end is_explain_batch (codes "explain") (codes "batch") tokens ▷ λ t a.
      parse_name_as end (codes "Expected snapshot name") a ▷ λ dataset b.
      repeated fuel more_options parse_explain_option no_batch_options b ▷ λ options last.
      parsed (explain_batch_stmt (current_spot end tokens) dataset options) last
