-- ===== src/Ast/Statements.antt =====
-- The statements of src/ast.h, and what their options are stored in.
use skibidi_ql.Prelude.{ℕ, Bool, List}
use skibidi_ql.Ast.{Text, Spot, AstNode, AstList, AstOption}

pub record ColumnDef : Type 0 where
  pub name : Text
  pub type : Text
  pub primary_key : Bool
  pub not_null : Bool
  pub fk_table : Text
  pub fk_col : Text

pub record FeatureSpec : Type 0 where
  pub name : Text
  pub spec : Text

-- splitBy, seed, features and label of CreateSnapshotStmt
pub record SnapshotOptions : Type 0 where
  pub split_key : Text
  pub seed : ℕ
  pub features : List FeatureSpec
  pub label : FeatureSpec

-- Of ExportTorchStmt and ExplainBatchStmt; each uses its own.
pub record BatchOptions : Type 0 where
  pub size : ℕ
  pub deterministic_shuffle : Bool
  pub epoch : ℕ
  pub batch : ℕ
  pub rank : ℕ
  pub world : ℕ

-- Of SpillContextStmt and ExplainContextStmt.
pub record ContextOptions : Type 0 where
  pub query : Text
  pub tab : Text
  pub budget : ℕ
  pub receipts : Bool

pub record AppendMemoryStmt : Type 0 where
  pub context : Text
  pub message_id : ℕ
  pub speaker : Text
  pub text : Text
  pub tab : Text
  pub auto_tab : Bool

pub data Statement : Type 0 where
  query_stmt : AstNode → Statement
  -- table, columns, valueRows
  insert_stmt : Spot → Text → List Text → List AstList → Statement
  -- table, sets, where
  update_stmt : Spot → Text → List (Text × AstNode) → AstOption → Statement
  delete_stmt : Spot → Text → AstOption → Statement
  create_stmt : Spot → Text → List ColumnDef → Statement
  drop_stmt : Spot → Text → Statement
  -- name, source
  create_snapshot_stmt : Spot → Text → AstNode → SnapshotOptions → Statement
  export_torch_stmt : Spot → Text → BatchOptions → Statement
  explain_batch_stmt : Spot → Text → BatchOptions → Statement
  create_context_stmt : Spot → Text → Statement
  append_memory_stmt : Spot → AppendMemoryStmt → Statement
  spill_context_stmt : Spot → Text → ContextOptions → Statement
  explain_context_stmt : Spot → Text → ContextOptions → Statement
  -- context, messageId, tab
  tag_memory_stmt : Spot → Text → ℕ → Text → Statement
  show_tabs_stmt : Spot → Text → Statement
  show_context_schemas_stmt : Spot → Statement
  show_context_objects_stmt : Spot → Text → Statement
  -- context, alias, target
  alias_tab_stmt : Spot → Text → Text → Text → Statement
  -- context, fromTab, toTab
  merge_tabs_stmt : Spot → Text → Text → Text → Statement
