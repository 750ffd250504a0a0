-- ===== src/Lib.antt =====
-- sampleDB, a relational database in the style of SimpleDB: files of blocks, a write-ahead log, a
-- pool of buffers, locks, transactions, records, B-trees, a catalog, an SQL parser and planners.
--
-- The parts, from the disk up, with the file that models each:
--   File.BlockId, File.Page, File.FileMgr: file/BlockId.cpp, file/Page.cpp, file/FileMgr.cpp. A page
--     is its bytes; a file is a list of bytes, and the file manager maps names to files. `get_int`,
--     `set_int`, `get_bytes`, `set_bytes` are Page's operations; `read`, `write` and `append` are
--     FileMgr's, and `file_length` is `length`.
--   Logging: logging/LogMgr.cpp and logging/LogIterator.cpp. Records are packed into the log page
--     from its end down; `append` makes room with a new block; `next` walks back through the blocks.
--   Buffer.Frame, Buffer.Pool: buffer/Buffer.cpp, buffer/BufferMgr.cpp. The pool is a list of
--     frames; a pointer to a buffer is an index into it. The pool keeps the file manager and the log
--     manager, which it shares with the others.
--   Tx.LockTable, Tx.ConcurrencyMgr: tx/LockTable.cpp, tx/ConcurrencyMgr.cpp. The table is one for
--     all transactions; a concurrency manager has a view of it and its own map of locks.
--   Tx.LogRecord: tx/LogRecord/. The records of transactions as bytes.
--   Tx.BufferList: tx/BufferList.cpp. The buffers that a transaction has pinned.
--   Tx.Transaction, Tx.RecoveryMgr, Tx.Finish: tx/Transaction.cpp, tx/RecoveryMgr.cpp and the `undo`
--     of tx/LogRecord/. A transaction's state has its buffers and its locks and, as all share them,
--     the buffer manager and the lock table. Transaction has the calls on blocks, RecoveryMgr the
--     loops of rollback and recovery over the log, Finish the start and the end of a transaction.
--   Record.Schema, Record.Layout: record/Schema.cpp, record/Layout.cpp.
--   Record.RecordPage, Record.TableScan: record/RecordPage.cpp, record/TableScan.cpp, on the
--     transaction.
--   Scan.Constant, Scan.Predicate: scan/Constant.cpp, scan/Expression.cpp, scan/Term.cpp,
--     scan/Predicate.cpp.
--   Scan.Interface, Scan.SelectScan, Scan.ProjectScan, Scan.ProductScan: scan/Scan.h,
--     scan/UpdateScan.h, scan/SelectScan.cpp, scan/ProjectScan.cpp, scan/ProductScan.cpp. A scan is
--     a record of operations on its own state, which the scans above it take as a parameter.
--   Materialize.AggregationFn, Materialize.GroupByScan, Materialize.RecordComparator,
--     Materialize.SortScan, Materialize.MergeJoinScan: the scans of materialize/. They take the
--     scans below them as a parameter.
--   Indexing.BTreePage, Indexing.BTreeLeaf, Indexing.BTreeDir, Indexing.BTreeIndex: indexing/. The
--     pages of a B-tree, on the transaction; DirEntry stands in BTreeLeaf.
--   Parse.Word, Parse.StreamTokenizer, Parse.Lexer, Parse.Data, Parse.Parser: parse/. A parsing step
--     takes the tokens that are left and gives a value and the tokens after it.
--   Materialize.SortPlan: the sort of materialize/SortPlan.cpp and the copy of
--     materialize/MaterializePlan.cpp into temporary tables, which are a parameter.
--   Meta.TableMgr, Meta.StatMgr, Meta.ViewMgr, Meta.IndexMgr, Meta.MetaDataMgr: meta/. The catalog,
--     on table scans; StatInfo stands in StatMgr, and IndexInfo in IndexMgr.
--   Plan.Tree, Plan.QueryPlanner, Plan.UpdatePlanner, Plan.Planner: plan/, the plans of
--     materialize/ and indexing/IndexUpdatePlanner.cpp. A plan is a tree with a node for each class.
--     What the query planner asks of the catalog is a record, and the update planners take the scan
--     of the table.
--   Base: numbers, integers, strings, association lists and results, shared by all.
--
-- Failure. A function that may throw gives a `Result`: `thrown` stands for a std::runtime_error,
-- `fault` for exit(1), a null dereference, an access out of bounds, or a number that does not fit the
-- `int` it is for, where C++ says nothing of what comes.
--
-- Bounds and fuel. An `int` on a page is four bytes, little-endian, with its wrap-around; the
-- theorems on what is read back ask for the 32-bit range. Recursions of the parser, the loops
-- over a log, over the slots of a page and over rows take fuel; a number above that of the
-- tokens, the records, the bytes, the rows, the runs or the nested queries is enough. Counters
-- in memory have no bound, and neither has the offset of a block in its file: a file is below 2 GB.
-- While a call waits for a lock or a buffer, a list of wake-ups says what other threads do and what
-- the clock shows; a list that ends before the call does is the only other way to run out.
--
-- Parameters. The change to lower case is Boost's: `to_lower` is an argument, and the theorems that
-- need more of it suppose that it leaves a text without upper-case letters. The tokenizer is
-- Boost's too: the tokens are the input.
--
-- Not modelled: what a transaction keeps after a call of it threw, above the concurrency manager;
-- the `open` of the plans, which makes the scans of a tree; QueryData::toString, which prints a
-- query; the names of temporary tables; the cost of a B-tree search, which is a logarithm of doubles,
-- and that of a materialized table, whose division of doubles is a parameter; the network interface
-- and the main programs; mutexes (a call is one step), strings for people and hash codes.
pub mod Base
pub mod File
pub mod Logging
pub mod Buffer
pub mod Tx
pub mod Record
pub mod Scan
pub mod Materialize
pub mod Indexing
pub mod Meta
pub mod Plan
pub mod Parse
pub mod Examples
