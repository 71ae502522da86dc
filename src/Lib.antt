-- ===== src/Lib.antt =====
-- db-rs, a small relational database: its storage layers, its expressions, its planner and its
-- executor.
--
-- A database is a directory of page files. The storage manager (src/storage.rs) reads and writes
-- their pages of 8192 bytes; the buffer pool (src/buffer_pool.rs) keeps pages in frames over it; a
-- page (src/page/mod.rs) is a slotted page of records; a record is a tuple encoded by its table's
-- schema (src/tables.rs, src/value.rs); and a query's expressions (src/expr.rs) are evaluated on
-- tuples or directly on their encodings. The catalog (src/catalog.rs) keeps an entry for each table.
-- The database (src/database.rs) opens and creates tables by the catalog; the binder
-- (src/planner/binder.rs) resolves the names of a parsed statement, the planner (src/planner/plan.rs)
-- makes a plan of it, the executor (src/execution) carries it out, and the worker (src/server.rs) does
-- so for each statement of a job.
--
-- Files:
--   Base        results with errors (src/error.rs) and panics, machine words and their bytes, byte
--               strings and parts of them, association lists for `HashMap`, 32-bit integers
--   Page        `create_blank_page`, `PageHeaderReader`, `PageHeaderMut`, `SlottedPage`,
--               `SlottedPageMut`, on a page as its list of bytes; Page/Layout says what it is for a
--               page to hold a list of records
--   Value       `DataType`, `Value`, their sizes, equality and order
--   Tables      Tables/Schema: `ColumnDefinition` and `TableSchema`; Tables/Tuple: `Tuple` and
--               `TupleRef`; Tables/Table: `Table`
--   Expr        `Expr::evaluate` and `Expr::evaluate_ref`
--   Catalog     `CatalogEntry` of src/catalog.rs; Catalog/Manager: `CatalogManager`, its `load` on the
--               bytes of the catalog page
--   Storage     `StorageManager` and `PageFileFooter` (src/lib.rs), over the files' bytes by path
--   BufferPool  `Frame`, `PageGuard` and `BufferPool`; BufferPool/Clock selects victims,
--               BufferPool/Evict writes pages back, BufferPool/Access loads and creates them,
--               BufferPool/Guard reads and changes the page under a guard (src/page/heap.rs,
--               src/page/catalog.rs); BufferPool/Sound says what a sound pool is and what its pages
--               are shown as
--   Database    `Database`, with `CatalogManager::load` through the pool
--   Planner     `SqlStatement`, `QueryPlan` and `Planner::plan`; Planner/Ast is the part of a syntax
--               tree that the binder looks at; Planner/Names, Planner/Columns and Planner/Binder are
--               `Binder`
--   Execution   Execution/Insert: src/execution/insert.rs; Execution/Scan and Execution/Cursor:
--               src/execution/seq_scan.rs and `Transaction::scan` (src/transaction.rs);
--               Execution/Executor: src/execution/executor.rs and create_table.rs
--   Server      `execute_sql` and the statements of a job in `DbWorker::run`
--
-- Functions keep the source's names. State is passed explicitly. A fallible function gives a result
-- `ok`, `err` or `panic`; overflow panics, as it does in the dev and test profiles. Bytes and words
-- are natural numbers. An f32 is its bits and its arithmetic a parameter, `FloatOps`; so are the
-- UTF-8 test and the lossy decoding of the standard library, its number parsing, `Path::join` and the
-- SQL parser. A guard is dropped where `with_guard` ends; a panic ends everything.
--
-- Bounds: the clock of the buffer pool makes the source's `frames * 4` turns. The loop of
-- `next_tuple` has a round for each page that is left and one more; the loop of `Transaction::scan`
-- has a row for each of at most 65535 slots of these pages; the loop of `insert_record` has two
-- rounds, since a page that was just made takes every record that passes the test of its size. All
-- other loops are recursion on the data.
--
-- Not modelled: `drop_table` (a `todo!`), `entries` and `list_tables` of `CatalogManager` (the
-- database walks the entries in the order of a list instead of a `HashMap`), the order in which
-- `HashMap` gives its keys, sockets, threads and channels of the server, the programs in src/bin,
-- logging, error messages, `Display`, clashes of `RefCell` borrows, and failures of the operating
-- system.
pub mod Base
pub mod Page
pub mod Value
pub mod Tables
pub mod Expr
pub mod Storage
pub mod BufferPool
pub mod Catalog
pub mod Database
pub mod Planner
pub mod Execution
pub mod Server
