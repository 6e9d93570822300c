-- ===== src/Storage.antt =====
-- native_storage.h and native_storage.cpp: the slotted pages that hold the rows of a heap file.
pub mod Page
pub mod RowId
pub mod Value
pub mod Tuple
