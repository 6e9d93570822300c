-- ===== src/Parser.antt =====
-- Parser of src/parser.cpp: its statements and expressions.
pub mod State
pub mod Kinds
pub mod Expr
pub mod Select
pub mod Words
pub mod Tables
pub mod Contexts
pub mod Snapshots
pub mod Program
pub mod Reach
pub mod ReachExpr
pub mod Total
pub mod ReachWords
pub mod ReachTables
pub mod ReachContexts
pub mod ReachSnapshots
pub mod ReachProgram
pub mod Grammar
pub mod Levels
pub mod Rounds
pub mod Operands
pub mod Complete
pub mod Updates
