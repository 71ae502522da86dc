-- ===== src/Tables.antt =====
-- src/tables.rs: table schemas, tuples and their encodings.
pub mod Schema
pub mod Tuple
pub mod Table
mod Tests
