-- ===== src/Execution/Tests.antt =====
-- The theorems on src/execution/ at a page of two rows.
use Prim.Native.Nat.{Ordering}
use db_rs.Base.{
  ℕ, ◌≡◌, refl, arith, Bool, true, false, some, List, [], ◌∷◌, length, Result, ok, pos, ◌>>=◌,
}
use db_rs.Value.{DataType, Value, FloatOps}
use db_rs.Page.{PageBytes, heap, create_blank_page}
use db_rs.Page.Layout.{Holds}
use db_rs.Page.Header.{create_blank_page_lem}
use db_rs.Page.Insert.{insert-Holds}
use db_rs.Expr.{Expr}
use db_rs.Tables.Table.{Table}
use db_rs.Storage.{StorageManager, FilePath, content, open_or_create_file}
use db_rs.Storage.Managed.{IsManaged}
use db_rs.Storage.Managed.Opened.{open_or_create_file-IsManaged, IsManaged-nothing}
use db_rs.BufferPool.{BufferPool, new_pool}
use db_rs.BufferPool.Sound.Reach.{new_pool-IsSound}
use db_rs.Execution.Insert.{RecordId, State, insert_record, insert_fuel}
use db_rs.Execution.Insert.Ends.{insert_record_ends}
use db_rs.Execution.Scan.{SeqScan, test, scan_slots}
use db_rs.Execution.Scan.Rows.{first_accepted, show_row, scan_slots-first_accepted}

-- Floats, which these rows do not have.
abbrev plain_floats : FloatOps
plain_floats = record {
  of_int = λ i. 0;
  eq = λ a b. true;
  lt = λ a b. false;
  gt = λ a b. false;
  add = λ a b. a;
  sub = λ a b. a;
  mul = λ a b. a;
  div = λ a b. a;
  total_cmp = λ a b. Ordering.eq;
}

abbrev any_text : List ℕ → Bool
any_text bytes = true

-- Rows of one number.
abbrev row_5 : List ℕ
row_5 = 0 ∷ 0 ∷ 0 ∷ 0 ∷ 5 ∷ []

abbrev row_9 : List ℕ
row_9 = 0 ∷ 0 ∷ 0 ∷ 0 ∷ 9 ∷ []

abbrev numbers : Table
numbers = record {
  table_id = 1;
  file_id = 1;
  name = 110 ∷ [];
  schema = record {
    attributes = record { name = 97 ∷ []; data_type = DataType.int; is_nullable = false } ∷ [];
  };
  current_heap_page = 1;
}

-- SELECT a FROM n WHERE a > 7
abbrev above_7 : SeqScan
above_7 = record {
  filter = some (Expr.greater_than (Expr.attr_ref 0) (Expr.constant (Value.int (pos 7))));
  current_page = 1;
  current_slot = 0;
  num_pages = some 2;
  table = numbers;
  cols = Expr.attr_ref 0 ∷ [];
}

first_row-Holds : (page : PageBytes) × Holds page (row_5 ∷ [])
first_row-Holds =
    let blank = create_blank_page_lem 1 heap (omega arith) in
    let made = insert-Holds (create_blank_page 1 heap) [] row_5 blank.0 (omega arith) in
    (made.0, made.2)

both-Holds : (page : PageBytes) × Holds page (row_5 ∷ row_9 ∷ [])
both-Holds =
    let made = insert-Holds first_row-Holds.0 (row_5 ∷ []) row_9 first_row-Holds.1 (omega arith) in
    (made.0, made.2)

scan_slots-first_accepted_example : scan_slots plain_floats any_text above_7 2 0 both-Holds.0 ≡ (
    first_accepted (test plain_floats any_text above_7.filter numbers.schema) 0 (row_5 ∷ row_9 ∷ [])
    >>= show_row plain_floats any_text above_7)
scan_slots-first_accepted_example =
    scan_slots-first_accepted plain_floats any_text above_7 [] (row_5 ∷ row_9 ∷ []) both-Holds.1

abbrev no_storage : StorageManager
no_storage = record { disk = []; files = []; paths = []; next_id = 1 }

abbrev numbers_file : FilePath
numbers_file = 110 ∷ 46 ∷ 100 ∷ 98 ∷ []

no_bytes : length (content no_storage numbers_file) ≡ 0
unfolding content
no_bytes = refl

-- A manager with the file of the table, which has no heap page yet.
numbers_stored :
    (sm : StorageManager) × (open_or_create_file numbers_file no_storage ≡ ok (sm, 1))
    × IsManaged sm
numbers_stored =
    let made =
      open_or_create_file-IsManaged numbers_file no_storage (IsManaged-nothing no_storage refl) refl
        (omega (arith, no_bytes)) (λ b x h. absurd cc) in
    (made.0, made.1, made.2)

abbrev numbers_pool : BufferPool
numbers_pool = new_pool 2 numbers_stored.0

insert_record_ends_example :
    (state : State) × (r : Result RecordId) × (insert_record insert_fuel row_5
        (numbers, numbers_pool)
      ≡ (state, some r))
insert_record_ends_example =
    insert_record_ends row_5 numbers numbers_pool
      (new_pool-IsSound 2 numbers_stored.0 numbers_stored.2)
