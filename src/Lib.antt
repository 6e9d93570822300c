-- ===== src/Lib.antt =====
-- Verification of SkibidiQL: its storage engine, its front end, its optimizer
-- and its compilation cache.
--
-- The program compiles a query and runs it on a native storage engine. It stores rows of
-- dynamically typed values in 4096-byte pages, brings a crashed transaction back through an undo
-- log, and takes its locks in one order. The files follow its parts:
--
--   Prelude       Boolean tests and lists over the native numbers, results of code that may throw,
--                 little-endian integers, comparison of byte strings.
--   Storage.Page  SlottedPage of src/native_storage.cpp: initialize, freeSpace, insert, erase,
--                 read, readView, update and compact as functions on the bytes of a page, and the readers
--                 of MappedHeapFile. The bytes are a function from offsets, so that a write is a
--                 change of that function. Invariant says when a page is well formed, Weights adds
--                 up the lengths of live rows, Compact, Insert and Change hold the theorems.
--   Storage.Value Value of src/native_storage.cpp; Order is about Value::compare,
--                 Equal about operator== and hash.
--   Storage.Tuple HeapFile::encodeTuple, decodeTuple and decodeTupleProjected.
--   Buffer        BufferPool of src/native_storage.cpp: fetch, eviction, writing, flushFile and
--                 flushAll over a store of files. Views says how a page is seen, in memory or on file.
--   Wal           NativeWal of src/native_wal.cpp: the bytes of a record, and recover. Session is
--                 how src/native_engine.cpp drives the log in a transaction.
--   Index         BPlusTree of src/native_index.cpp. Keys says what it asks of compare, Nodes
--                 holds what insert, find and range do to a node, Sorted and Cuts are about lists of entries,
--                 Shape is the invariant; Links is about the `next` pointers after an insertion,
--                 Follow about walking along them, Between about the entries between two bounds;
--                 Split, Insert, Find, Range and Trees hold the theorems.
--   Lock          NativeLockManager::acquireAll of src/native_lock.cpp.
--   Parser        Parser of src/parser.cpp: State holds the tokens that are left and what a parsing
--                 function returns, Kinds what tokens it looks for, Expr the levels of
--                 expressions, Select parseSelect, Words what the other statements share, Tables,
--                 Snapshots and Contexts these statements, Program parseStatement and parseAll.
--                 Reach says what it is to return; Total and the other modules named Reach are
--                 about that. Grammar says which tokens stand for which expression, and Levels,
--                 Rounds, Operands and Complete compare the two; Updates does so for UPDATE.
--   Ast           the expressions and SelectStmt of src/ast.h; Statements holds the others.
--   Engine        applyBinary and applyUnary of src/native_engine.cpp; Eval holds eval and
--                 resolveColumn, Aggregate evalGrouped and the aggregates.
--   Optimizer     Optimizer of src/optimizer.cpp: its five passes. Fold and Metadata hold what the
--                 first two are made of, Meaning, Grouped, Counts and Filters the theorems.
--   Lexer         Lexer of src/lexer.cpp: Cursor is where it stands, Words, Literals and Operators
--                 hold its readers, Tokenize the comments and the loop.
--   Hash, Cache   FNV-1a and combine of src/hash_utils.h, and CompilationCache of src/cache.cpp.
--   Tests         the theorems at concrete inputs.
--
-- A query goes through the lexer and the parser, its tree through the optimizer, and what is
-- compiled from it into the cache; the engine evaluates the expressions that are left in the tree.
-- A row goes through encodeTuple into a page, which the pool holds; before a statement writes the
-- file of the page, the engine logs what the file held; before all of that, the statement takes
-- its locks.
--
-- Bounds and fuel. A page has 4096 bytes and 16-bit fields, which the functions reduce modulo
-- 65536 as the code does. The loop of recover takes one round for each byte of the log, and each
-- round reads at least one. The loop of tokenize takes one round for each character and one more,
-- the loop of range one for each leaf, the loop of put that evicts one for each element, that of
-- fetch one for each frame. The parser nests as deep and its loops run as often as there is fuel, for which more than
-- the number of tokens is enough. All other loops are structural. Signed overflow, which the code
-- leaves to the compiler, wraps around in the arithmetic of expressions. Strings and blobs are
-- lists of bytes; lines, columns and counters are unbounded.
--
-- Parameters. The order and the conversions of doubles are the record Doubles, their arithmetic
-- and printing the record Numbers, std::hash the record Hashes, std::stod the function stod, the
-- capacities of strings and vectors the record Sizes; what is assumed of them stands in each
-- theorem.
--
-- Not modelled: the code generator, the query operators, heap files, memory mapping, printing of
-- trees, failures of the file system, and the mutexes themselves.
pub mod Ast
pub mod Buffer
pub mod Cache
pub mod Engine
pub mod Hash
pub mod Index
pub mod Lexer
pub mod Lock
pub mod Optimizer
pub mod Parser
pub mod Prelude
pub mod Storage
pub mod Tests
pub mod Wal
