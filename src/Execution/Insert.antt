-- ===== src/Execution/Insert.antt =====
-- Records put on a table's heap pages, src/execution/insert.rs.
use db_rs.Base.{
  ℕ, zero, suc, ◌-◌, Option, none, some, List, length, ltb, lookup, if◌then◌else◌, Result, ok, err,
  panic, page_full, input_error, record_too_large,
}
use db_rs.Page.{heap, insert, page_size, header_size, entry_size}
use db_rs.Storage.{PageId, same_id}
use db_rs.BufferPool.{BufferPool, Pool, PageGuard, give, ◌>>=◌}
use db_rs.BufferPool.Access.{get_page, create_page}
use db_rs.BufferPool.Guard.{change_page, with_guard}
use db_rs.Tables.Table.{Table}
use db_rs.Database.{Db, add_table}
pub mod Placed
pub mod Full
pub mod Ends

-- `RecordId`
pub record RecordId : Type 0 where
  pub page : ℕ
  pub slot : ℕ

-- The result of `get_page`, or of `create_page` when it is an error.
abbrev pub or_create : ℕ → BufferPool → Result PageGuard → BufferPool × Result PageGuard
or_create file_id pool (ok guard) = (pool, ok guard)
or_create file_id pool (err e) = create_page file_id heap pool
or_create file_id pool panic = (pool, panic)

unfoldable pub get_or_create : ℕ → ℕ → Pool PageGuard
get_or_create file_id page_num pool =
    let got = get_page (record { file_id = file_id; page_num = page_num }) pool in
    or_create file_id got.0 got.1

-- `try_insert_into_page`; the table's `current_heap_page` is set when a page was found, whether the
-- record was taken or not, so the new page comes beside the result.
abbrev pub put_record : List ℕ → PageGuard → Pool RecordId
put_record bytes guard = do
  id ← change_page heap guard (insert bytes)
  give (ok (record { page = id.page; slot = id.slot }))

abbrev set_heap_page : Table → ℕ → Table
set_heap_page table page_num = record table { current_heap_page = page_num }

-- What an operation on a table and the pool does.
abbrev pub OnTable : Type 0 → Type 0
OnTable A = Table × BufferPool → (Table × BufferPool) × Result A

abbrev pub placed :
    Table → List ℕ → BufferPool → Result PageGuard → (Table × BufferPool) × Result RecordId
placed table bytes pool (ok guard) =
    let done = with_guard (give (ok guard)) (put_record bytes) pool in
    ((set_heap_page table guard.page_id.page_num, done.0), done.1)
placed table bytes pool (err e) = ((table, pool), err e)
placed table bytes pool panic = ((table, pool), panic)

unfoldable pub try_insert_into_page : List ℕ → OnTable RecordId
try_insert_into_page bytes (table, pool) =
    let got = get_or_create table.file_id table.current_heap_page pool in
    placed table bytes got.0 got.1

-- `handle_full_page`
abbrev pub moved : Table → BufferPool → Result PageId → (Table × BufferPool) × Result (Unit {0})
moved table pool (ok id) = ((set_heap_page table id.page_num, pool), ok tt)
moved table pool (err e) = ((table, pool), err e)
moved table pool panic = ((table, pool), panic)

unfoldable pub handle_full_page : OnTable (Unit {0})
handle_full_page (table, pool) =
    let made =
      with_guard (create_page table.file_id heap) (λ guard. give (ok guard.page_id)) pool in
    moved table made.0 made.1

-- A round of the loop of `insert_record` on the outcome of its attempt: the result, or `none` for
-- another round.
abbrev pub round_ends : Result RecordId → Option (Result RecordId)
round_ends (err page_full) = none
round_ends result = some result

-- What `handle_full_page(table, bp)?` leaves to do.
abbrev pub after_full : Result (Unit {0}) → Option (Result RecordId)
after_full (ok u) = none
after_full (err e) = some (err e)
after_full panic = some panic

abbrev pub State : Type 0
State = Table × BufferPool

-- The loop of `insert_record`; the result is `none` when `fuel` rounds were not enough.
unfoldable pub insert_loop : ℕ → List ℕ → State → State × Option (Result RecordId)
insert_loop zero bytes state = (state, none)
insert_loop (suc fuel) bytes state =
    let tried = try_insert_into_page bytes state in
    elim (round_ends tried.1) [
      | some result ↦ (tried.0, some result)
      | none ↦
          let full = handle_full_page tried.0 in
          elim (after_full full.1) [
            | some result ↦ (full.0, some result)
            | none ↦ insert_loop fuel bytes full.0
          ]
    ]

-- `insert_record`
unfoldable pub insert_record : ℕ → List ℕ → State → State × Option (Result RecordId)
insert_record fuel bytes state =
    if ltb (page_size - header_size - entry_size) (length bytes)
    then (state, some (err (input_error record_too_large)))
    else insert_loop fuel bytes state

-- `InsertExecutor::execute`, on the table with an id. Two rounds are enough for every record.
abbrev pub insert_fuel : ℕ
insert_fuel = 2

abbrev result_of : Option (Result RecordId) → Result RecordId
result_of (some result) = result
result_of none = panic

abbrev insert_at : ℕ → List ℕ → Option Table → Db RecordId
insert_at table_id bytes none db = (db, panic)
insert_at table_id bytes (some table) db =
    let done = insert_record insert_fuel bytes (table, db.buffer_manager) in
    ((add_table table_id done.0.0 (record db { buffer_manager = done.0.1 })).0, result_of done.1)

unfoldable pub insert_into : ℕ → List ℕ → Db RecordId
insert_into table_id bytes db = insert_at table_id bytes (lookup same_id table_id db.tables) db
