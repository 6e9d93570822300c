-- ===== src/Parser/ReachSnapshots.antt =====
-- The statements on snapshots return, without running out of fuel.
use skibidi_ql.Prelude.{
  ℕ, ◌≤◌, ◌<◌, Bool, true, false, ◌||◌, List, [], arith, length, if◌then◌else◌,
}
use skibidi_ql.Ast.{AstNode}
use skibidi_ql.Ast.Statements.{SnapshotOptions, BatchOptions}
use skibidi_ql.Lexer.Token.{Token, codes}
use skibidi_ql.Parser.State.{Reply, rest_of, next_is, is_lowkey}
use skibidi_ql.Parser.Kinds.{is_split_by}
use skibidi_ql.Parser.Words.{word_equals, next_word, skip_word, more_options}
use skibidi_ql.Parser.Snapshots.{
  is_manifest_snapshot, is_export_torch, is_explain_batch, is_with_seed, is_batch_size,
  is_world_size, skip_random, parse_snapshot_option, parse_snapshot_words, parse_create_snapshot,
  parse_export_option, parse_export_torch, parse_explain_option, parse_explain_batch,
}
use skibidi_ql.Parser.Reach.{
  Within, within, refusal, Within-weaken, if-Within, length-rest_of, expect-Within,
}
use skibidi_ql.Parser.ReachWords.{
  then-Within, done-Within, repeated-Within, expect_word-Within, taken_word-Within, unsigned-Within,
  opening-Within, name-Within, length-skip_word, feature_spec-Within, feature_specs-Within,
}

length-skip_random : (tokens : List Token) → length (skip_random tokens) ≤ length tokens
length-skip_random tokens = by_answer (next_word (codes "random") tokens)
  where
    by_answer :
        (b : Bool)
        → length (if b then skip_word (codes "by") (rest_of tokens) else tokens) ≤ length tokens
    by_answer true =
        omega (arith, length-skip_word (codes "by") (rest_of tokens), length-rest_of tokens)
    by_answer false = omega arith

module _ (end : Token) (fuel : ℕ) where
  snapshot_option-Within :
      (options : SnapshotOptions) (t : Token) (rest : List Token)
      → length rest < fuel
      → Within (length rest) (parse_snapshot_option end fuel options t rest)
  unfolding parse_snapshot_option
  snapshot_option-Within options t rest h =
      if-Within (is_split_by t.kind || word_equals t (codes "split"))
        (Within-weaken
          (omega (
            arith,
            length-skip_random (skip_word (codes "by") rest),
            length-skip_word (codes "by") rest,
          ))
          (done-Within _ (name-Within end _ (skip_random (skip_word (codes "by") rest)))))
        (if-Within (is_with_seed t.kind || word_equals t (codes "seed"))
          (done-Within _ (unsigned-Within end _ rest))
          (if-Within (word_equals t (codes "with"))
            (then-Within (taken_word-Within end _ _ rest)
              (λ w a la. done-Within _ (unsigned-Within end _ a)))
            (if-Within (word_equals t (codes "features") || word_equals t (codes "feature"))
              (done-Within _ (feature_specs-Within end fuel rest h))
              (if-Within (word_equals t (codes "label"))
                (done-Within _ (feature_spec-Within end _ rest)) refusal))))

  snapshot_words-Within :
      (tokens : List Token)
      → Within (length (rest_of tokens)) (parse_snapshot_words end fuel tokens)
  unfolding parse_snapshot_words
  snapshot_words-Within tokens =
      if-Within (next_is is_manifest_snapshot tokens)
        (expect-Within end is_manifest_snapshot [] tokens)
        (then-Within (expect_word-Within end _ _ tokens) (λ t a la.
          if-Within (next_word (codes "dataset") a || next_word (codes "snapshot") a)
            (within (length-rest_of a)) refusal))

  pub create_snapshot-Within :
      {sub : List Token → Reply AstNode}
      → ((ts : List Token) → length ts < fuel → Within (length (rest_of ts)) (sub ts))
      → (tokens : List Token) → length tokens < fuel
      → Within (length (rest_of tokens)) (parse_create_snapshot end fuel sub tokens)
  unfolding parse_create_snapshot
  create_snapshot-Within reach tokens h = then-Within (snapshot_words-Within tokens) (λ t a la.
      then-Within (name-Within end _ a) (λ name b lb.
        then-Within
          (if-Within (next_is is_lowkey b || next_word (codes "as") b)
            (Within-weaken (omega (arith, length-rest_of b, length-rest_of (rest_of b))) (
              reach (rest_of b)
                (omega (arith, h, la, lb, length-rest_of b, length-rest_of tokens))))
            refusal)
          (λ source c lc. done-Within _ (
            repeated-Within more_options fuel snapshot_option-Within fuel _ c
              (omega (arith, h, la, lb, lc, length-rest_of tokens))
              (omega (arith, h, la, lb, lc, length-rest_of tokens))))))

  export_option-Within :
      (options : BatchOptions) (t : Token) (rest : List Token)
      → length rest < fuel
      → Within (length rest) (parse_export_option end fuel options t rest)
  unfolding parse_export_option
  export_option-Within options t rest h =
      if-Within (is_batch_size t.kind || word_equals t (codes "batch_size"))
        (done-Within _ (unsigned-Within end _ rest))
        (if-Within (word_equals t (codes "shuffle"))
          (within (length-skip_word (codes "deterministic") rest))
          (if-Within (word_equals t (codes "deterministic")) (within (omega arith)) (
            if-Within (word_equals t (codes "epoch")) (done-Within _ (unsigned-Within end _ rest)) (
              if-Within (word_equals t (codes "rank")) (done-Within _ (unsigned-Within end _ rest))
                (if-Within (is_world_size t.kind || word_equals t (codes "world_size"))
                  (done-Within _ (unsigned-Within end _ rest)) refusal)))))

  pub export_torch-Within :
      (tokens : List Token)
      → length tokens < fuel
      → Within (length (rest_of tokens)) (parse_export_torch end fuel tokens)
  unfolding parse_export_torch
  export_torch-Within tokens h =
      then-Within (opening-Within end is_export_torch _ _ tokens) (λ t a la.
        then-Within (name-Within end _ a) (λ dataset b lb. done-Within _ (
          repeated-Within more_options fuel export_option-Within fuel _ b
            (omega (arith, h, la, lb, length-rest_of tokens))
            (omega (arith, h, la, lb, length-rest_of tokens)))))

  explain_option-Within :
      (options : BatchOptions) (t : Token) (rest : List Token)
      → length rest < fuel
      → Within (length rest) (parse_explain_option end fuel options t rest)
  unfolding parse_explain_option
  explain_option-Within options t rest h =
      if-Within (is_batch_size t.kind || word_equals t (codes "batch_size"))
        (done-Within _ (unsigned-Within end _ rest))
        (if-Within (word_equals t (codes "epoch")) (done-Within _ (unsigned-Within end _ rest)) (
          if-Within (word_equals t (codes "batch")) (done-Within _ (unsigned-Within end _ rest)) (
            if-Within (word_equals t (codes "rank")) (done-Within _ (unsigned-Within end _ rest)) (
              if-Within (is_world_size t.kind || word_equals t (codes "world_size"))
                (done-Within _ (unsigned-Within end _ rest)) refusal))))

  pub explain_batch-Within :
      (tokens : List Token)
      → length tokens < fuel
      → Within (length (rest_of tokens)) (parse_explain_batch end fuel tokens)
  unfolding parse_explain_batch
  explain_batch-Within tokens h =
      then-Within (opening-Within end is_explain_batch _ _ tokens) (λ t a la.
        then-Within (name-Within end _ a) (λ dataset b lb. done-Within _ (
          repeated-Within more_options fuel explain_option-Within fuel _ b
            (omega (arith, h, la, lb, length-rest_of tokens))
            (omega (arith, h, la, lb, length-rest_of tokens)))))
