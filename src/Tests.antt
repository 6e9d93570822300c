-- ===== src/Tests.antt =====
-- The properties on concrete pages, rows, logs and requests.
mod Pages
mod Rows
mod Logs
mod Locks
mod Queries
mod Buffers
mod Trees
mod Expressions
mod Parses
