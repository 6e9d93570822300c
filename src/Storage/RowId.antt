-- ===== src/Storage/RowId.antt =====
-- RowId of src/native_storage.h: where a row lies in its heap file.
use skibidi_ql.Prelude.{ℕ}

pub record RowId : Type 0 where
  pub page : ℕ
  pub slot : ℕ
