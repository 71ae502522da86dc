-- ===== src/Execution/Cursor/Fuel.antt =====
-- The loop of `next_tuple` of src/execution/seq_scan.rs ends: a round for each page that is left, and
-- one for the test behind the last, are enough.
use db_rs.Base.{Option, List}
use db_rs.Value.{Value}
use db_rs.BufferPool.{BufferPool, Pool}
use db_rs.Execution.Scan.{SeqScan}

-- The rounds on the pages after a page, two times.
abbrev Rounds : Type 0
Rounds = SeqScan → Pool (SeqScan × Option (List Value))
