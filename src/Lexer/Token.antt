-- ===== src/Lexer/Token.antt =====
-- TokenType, Token and LexerError of src/lexer.h, and the table KEYWORDS of src/lexer.cpp.
use skibidi_ql.Prelude.{ℕ, Option, none, some, List, [], ◌∷◌, String, if◌then◌else◌, bytes_eq}
use Prim.Native.Char.{code}

pub data TokenType : Type 0 where
  slay no_cap only_if link_up left_link_up mid_link_up fr_fr vibe_check : TokenType
  hits_different bussin_only lowkey plus or_nah no_cap_not ghosted unique_fr : TokenType
  cap_at skip up_only down_bad yeet_into drip glow_up be_like ratio manifest : TokenType
  rizz_down manifest_dataset manifest_snapshot export_torch ship_torch : TokenType
  explain_batch spill_batch with_seed batch_size world_size max_len : TokenType
  manifest_context yeet_memory spill_context explain_context show_tabs : TokenType
  show_context_schemas show_context_objects alias_tab merge_tabs token_budget : TokenType
  vibe_tab main_character side_character headcount stack mid goat l_func lone_wolf : TokenType
  biggest_w biggest_l mid_fr percent_check era split_by integer_lit float_lit : TokenType
  string_lit true_lit false_lit identifier eq neq lt gt lte gte plus_op minus star : TokenType
  slash concat lparen rparen comma semicolon dot eof_token : TokenType

pub record Token : Type 0 where
  pub kind : TokenType
  pub value : List ℕ
  pub line : ℕ
  pub col : ℕ

pub record LexerError : Type 0 where
  pub message : List ℕ
  pub line : ℕ
  pub col : ℕ

-- What a reader returns or throws.
pub data Scan {ℓ} (A : Type ℓ) : Type ℓ where
  done : A → Scan A
  fails : LexerError → Scan A

-- The bytes of an ASCII text.
abbrev pub codes : String → List ℕ
codes String.[] = []
codes (String.◌∷◌ c s) = code c ∷ codes s

abbrev pub keywords : List (List ℕ × TokenType)
keywords =
    (codes "no-cap-not", no_cap_not)
    ∷ (codes "left-link-up", left_link_up)
    ∷ (codes "mid-link-up", mid_link_up)
    ∷ (codes "link-up", link_up)
    ∷ (codes "no-cap", no_cap)
    ∷ (codes "only-if", only_if)
    ∷ (codes "fr-fr", fr_fr)
    ∷ (codes "vibe-check", vibe_check)
    ∷ (codes "hits-different", hits_different)
    ∷ (codes "bussin-only", bussin_only)
    ∷ (codes "yeet-into", yeet_into)
    ∷ (codes "glow-up", glow_up)
    ∷ (codes "be-like", be_like)
    ∷ (codes "rizz-down", rizz_down)
    ∷ (codes "manifest-dataset", manifest_dataset)
    ∷ (codes "manifest-snapshot", manifest_snapshot)
    ∷ (codes "export-torch", export_torch)
    ∷ (codes "ship-torch", ship_torch)
    ∷ (codes "explain-batch", explain_batch)
    ∷ (codes "spill-batch", spill_batch)
    ∷ (codes "with-seed", with_seed)
    ∷ (codes "batch-size", batch_size)
    ∷ (codes "world-size", world_size)
    ∷ (codes "max-len", max_len)
    ∷ (codes "manifest-context", manifest_context)
    ∷ (codes "yeet-memory", yeet_memory)
    ∷ (codes "spill-context", spill_context)
    ∷ (codes "explain-context", explain_context)
    ∷ (codes "show-tabs", show_tabs)
    ∷ (codes "show-context-schemas", show_context_schemas)
    ∷ (codes "show-context-objects", show_context_objects)
    ∷ (codes "alias-tab", alias_tab)
    ∷ (codes "merge-tabs", merge_tabs)
    ∷ (codes "token-budget", token_budget)
    ∷ (codes "vibe-tab", vibe_tab)
    ∷ (codes "main-character", main_character)
    ∷ (codes "side-character", side_character)
    ∷ (codes "unique-fr", unique_fr)
    ∷ (codes "cap-at", cap_at)
    ∷ (codes "up-only", up_only)
    ∷ (codes "down-bad", down_bad)
    ∷ (codes "or-nah", or_nah)
    ∷ (codes "biggest-W", biggest_w)
    ∷ (codes "biggest-L", biggest_l)
    ∷ (codes "mid-fr", mid_fr)
    ∷ (codes "percent-check", percent_check)
    ∷ (codes "LONE-WOLF", lone_wolf)
    ∷ (codes "lone-wolf", lone_wolf)
    ∷ (codes "split-by", split_by)
    ∷ (codes "slay", slay)
    ∷ (codes "lowkey", lowkey)
    ∷ (codes "ghosted", ghosted)
    ∷ (codes "drip", drip)
    ∷ (codes "ratio", ratio)
    ∷ (codes "manifest", manifest)
    ∷ (codes "headcount", headcount)
    ∷ (codes "stack", stack)
    ∷ (codes "mid", mid)
    ∷ (codes "goat", goat)
    ∷ (codes "era", era)
    ∷ (codes "skip", skip)
    ∷ (codes "plus", plus)
    ∷ (codes "select", slay)
    ∷ (codes "SELECT", slay)
    ∷ (codes "from", no_cap)
    ∷ (codes "FROM", no_cap)
    ∷ (codes "where", only_if)
    ∷ (codes "WHERE", only_if)
    ∷ (codes "as", lowkey)
    ∷ (codes "AS", lowkey)
    ∷ (codes "and", plus)
    ∷ (codes "AND", plus)
    ∷ (codes "or", or_nah)
    ∷ (codes "OR", or_nah)
    ∷ (codes "not", no_cap_not)
    ∷ (codes "NOT", no_cap_not)
    ∷ (codes "null", ghosted)
    ∷ (codes "NULL", ghosted)
    ∷ (codes "distinct", unique_fr)
    ∷ (codes "DISTINCT", unique_fr)
    ∷ (codes "limit", cap_at)
    ∷ (codes "LIMIT", cap_at)
    ∷ (codes "offset", skip)
    ∷ (codes "OFFSET", skip)
    ∷ (codes "asc", up_only)
    ∷ (codes "ASC", up_only)
    ∷ (codes "desc", down_bad)
    ∷ (codes "DESC", down_bad)
    ∷ []

unfoldable pub find_keyword : List ℕ → List (List ℕ × TokenType) → Option TokenType
find_keyword word [] = none
find_keyword word ((key, kind) ∷ table) =
    let rest = find_keyword word table in if bytes_eq key word then some kind else rest
