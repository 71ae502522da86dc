-- ===== src/Execution.antt =====
-- Plans carried out on the database, src/execution and src/transaction.rs.
pub mod Insert
pub mod Scan
pub mod Cursor
pub mod Executor
mod Tests
