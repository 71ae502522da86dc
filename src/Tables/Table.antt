-- ===== src/Tables/Table.antt =====
-- Tables, `Table` of src/tables.rs: `Table::new` makes the first pages of a table's file.
use db_rs.Base.{ℕ, ◌==◌, if◌then◌else◌, List, Result, ok, err, corrupt_page_file, and_then}
use db_rs.Page.{PageBytes, PageEntryId, heap, catalog, insert, num_entries, page_id}
use db_rs.BufferPool.{Pool, ◌>>=◌, ◌>>◌, give}
use db_rs.BufferPool.Access.{get_page, create_page}
use db_rs.BufferPool.Guard.{view_page, change_page, with_guard}
use db_rs.Tables.Schema.{TableSchema, schema_to_bytes}

-- `Table`
pub record Table : Type 0 where
  pub table_id : ℕ
  pub file_id : ℕ
  pub name : List ℕ
  pub schema : TableSchema
  pub current_heap_page : ℕ

-- `Table::open`
unfoldable pub open_table : ℕ → ℕ → List ℕ → TableSchema → Table
open_table table_id file_id name schema = record {
  table_id = table_id;
  file_id = file_id;
  name = name;
  schema = schema;
  current_heap_page = 1;
}

-- The first block of `Table::new`: how many records page 0 has.
unfoldable pub count_schemas : ℕ → Pool ℕ
count_schemas file_id =
    with_guard (get_page (record { file_id = file_id; page_num = 0 }))
      (λ guard. view_page catalog guard >>= λ page. give (ok (num_entries page)))

-- The schema's record on page 0, and the test of the first heap page.
abbrev pub add_schema : TableSchema → PageBytes → Result (PageBytes × PageEntryId)
add_schema schema page =
    if page_id page == 0
    then and_then (schema_to_bytes schema) (λ bytes. insert bytes page)
    else err corrupt_page_file

abbrev pub check_heap : PageBytes → Result (PageBytes × Unit {0})
check_heap page = if page_id page == 1 then ok (page, tt) else err corrupt_page_file

-- The pages that `Table::new` makes in an empty file.
unfoldable pub init_file : ℕ → TableSchema → Pool (Unit {0})
init_file file_id schema = do
  entry ←
      with_guard (get_page (record { file_id = file_id; page_num = 0 }))
        (λ guard. change_page catalog guard (add_schema schema))
  with_guard (create_page file_id heap) (λ guard. change_page heap guard check_heap)

-- `Table::new`
unfoldable pub new_table : List ℕ → TableSchema → ℕ → Pool Table
new_table name schema file_id = do
  count ← count_schemas file_id
  if count == 0 then init_file file_id schema else give (ok tt)
  give (ok (open_table file_id file_id name schema))
