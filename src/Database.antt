-- ===== src/Database.antt =====
-- The database, src/database.rs: the buffer pool, the catalog and the open tables. `join` is
-- `Path::join`, `lossy` is `String::from_utf8_lossy`; the catalog's entries are taken in the order of
-- its list, where the source takes them in the order of a `HashMap`.
use db_rs.Base.{
  ℕ, Bool, true, false, Option, none, some, List, [], ◌∷◌, ◌++◌, lookup, insert_key, Result, ok,
  err, panic, and_then,
}
use db_rs.Value.{DataType, bytes_eq}
use db_rs.Page.{catalog, insert}
use db_rs.Storage.{StorageManager, FilePath, PageId, same_id, open_or_create_file}
use db_rs.BufferPool.{BufferPool, Pool}
use db_rs.BufferPool.Access.{get_page}
use db_rs.BufferPool.Evict.{flush_all}
use db_rs.BufferPool.Guard.{with_guard, change_page}
use db_rs.Tables.Schema.{TableSchema, ColumnDefinition}
use db_rs.Tables.Table.{Table, open_table, new_table}
use db_rs.Catalog.{CatalogEntry, entry_to_bytes}
use db_rs.Catalog.Manager.{CatalogManager, create_table, load_entries}
pub mod Loaded

-- `Database`
pub record Database : Type 0 where
  pub buffer_manager : BufferPool
  pub catalog_manager : CatalogManager
  pub tables : List (ℕ × Table)
  pub table_names : List (List ℕ × ℕ)
  pub base_path : FilePath

-- What an operation on the database does.
abbrev pub Db {ℓ} : Type ℓ → Type ℓ
Db A = Database → Database × Result A

abbrev pub follow {ℓ κ} :
    {A : Type ℓ} {B : Type κ} → (A → Db B) → Database → Result A → Database × Result B
follow f db (ok a) = f a db
follow f db (err e) = (db, err e)
follow f db panic = (db, panic)

infixl 5 ◌>>=◌ ◌>>◌
abbrev pub ◌>>=◌ {ℓ κ} : {A : Type ℓ} {B : Type κ} → Db A → (A → Db B) → Db B
(m >>= f) db = follow f (m db).0 (m db).1

abbrev pub ◌>>◌ {ℓ} : {B : Type ℓ} → Db (Unit {0}) → Db B → Db B
m >> k = m >>= λ _. k

abbrev pub give {ℓ} : {A : Type ℓ} → Result A → Db A
give r db = (db, r)

abbrev pub get_db : Db Database
get_db db = (db, ok db)

-- An operation of the buffer pool.
abbrev pub on_pool {ℓ} : {A : Type ℓ} → Pool A → Db A
on_pool op db =
    let (pool, result) = op db.buffer_manager in (record db { buffer_manager = pool }, result)

-- `open_or_create_file` of the pool's storage.
abbrev put_opened : BufferPool → Result (StorageManager × ℕ) → BufferPool × Result ℕ
put_opened pool (ok (sm, file_id)) = (record pool { storage_manager = sm }, ok file_id)
put_opened pool (err e) = (pool, err e)
put_opened pool panic = (pool, panic)

abbrev open_file : FilePath → Pool ℕ
open_file path pool = put_opened pool (open_or_create_file path pool.storage_manager)

-- `CATALOG_PAGE_ID`
abbrev pub catalog_page_id : PageId
catalog_page_id = record { file_id = 0; page_num = 0 }

-- "table_name", "file_name", "schema", "catalog" and ".db".
abbrev column : List ℕ → DataType → ColumnDefinition
column name data_type = record { name = name; data_type = data_type; is_nullable = false }

abbrev catalog_word : List ℕ
catalog_word = 99 ∷ 97 ∷ 116 ∷ 97 ∷ 108 ∷ 111 ∷ 103 ∷ []

abbrev db_suffix : List ℕ
db_suffix = 46 ∷ 100 ∷ 98 ∷ []

-- `get_catalog_schema`
abbrev pub get_catalog_schema : TableSchema
get_catalog_schema = record {
  attributes =
      column (116 ∷ 97 ∷ 98 ∷ 108 ∷ 101 ∷ 95 ∷ 110 ∷ 97 ∷ 109 ∷ 101 ∷ []) DataType.var_char
      ∷ column (102 ∷ 105 ∷ 108 ∷ 101 ∷ 95 ∷ 110 ∷ 97 ∷ 109 ∷ 101 ∷ []) DataType.var_char
      ∷ column (115 ∷ 99 ∷ 104 ∷ 101 ∷ 109 ∷ 97 ∷ []) DataType.blob
      ∷ [];
}

-- `get_table`
abbrev pub table_of : Option ℕ → List (ℕ × Table) → Option Table
table_of (some id) tables = lookup same_id id tables
table_of none tables = none

unfoldable pub get_table : List ℕ → Database → Option Table
get_table name db = table_of (lookup bytes_eq name db.table_names) db.tables

-- `tables.insert` and `table_names.insert`
abbrev pub name_table : List ℕ → ℕ → Db (Unit {0})
name_table name id db =
    (record db { table_names = insert_key bytes_eq name id db.table_names }, ok tt)

abbrev pub add_table : ℕ → Table → Db (Unit {0})
add_table id table db = (record db { tables = insert_key same_id id table db.tables }, ok tt)

-- `Database::create`
pub create_database :
    (FilePath → FilePath → FilePath) → FilePath → StorageManager → Result StorageManager
create_database join base_path sm =
    and_then (open_or_create_file (join base_path (catalog_word ++ db_suffix)) sm)
      (λ opened. ok opened.0)

-- `CatalogManager::load`
unfoldable pub load_catalog : (List ℕ → List ℕ) → Pool CatalogManager
load_catalog lossy = with_guard (get_page catalog_page_id) (λ guard.
    change_page catalog guard
      (λ page. and_then (load_entries lossy page) (λ manager. ok (page, manager))))

module _ (join : FilePath → FilePath → FilePath) where
  -- The loop of `Database::open` over the catalog's entries.
  unfoldable pub open_tables : List (List ℕ × CatalogEntry) → Db (Unit {0})
  open_tables [] = give (ok tt)
  open_tables ((key, entry) ∷ entries) = do
    db ← get_db
    file_id ← on_pool (open_file (join db.base_path entry.file_name))
    add_table entry.table_id (open_table entry.table_id file_id entry.table_name entry.schema)
    name_table entry.table_name entry.table_id
    open_tables entries

  -- `Database::open`, on a database that has only its pool and its path.
  unfoldable pub open_database : (List ℕ → List ℕ) → Db (Unit {0})
  open_database lossy = do
    manager ← on_pool (load_catalog lossy)
    (λ db. (record db { catalog_manager = manager }, ok tt))
    open_tables manager.tables
    add_table 0 (open_table 0 0 catalog_word get_catalog_schema)
    name_table catalog_word 0

  -- `update_catalog`
  unfoldable pub update_catalog : CatalogEntry → Db (Unit {0})
  update_catalog entry = do
    (λ db. (record db { catalog_manager = create_table entry db.catalog_manager }, ok tt))
    bytes ← give (entry_to_bytes entry)
    id ←
        on_pool (
          with_guard (get_page catalog_page_id) (λ guard. change_page catalog guard (insert bytes)))
    give (ok tt)

  abbrev path_exists : FilePath → Database → Bool
  path_exists path db = elim (lookup bytes_eq path db.buffer_manager.storage_manager.disk) [
    | some bytes ↦ true
    | none ↦ false
  ]

  -- `create_table` for a name that has no table: with a file already there, and without.
  unfoldable pub adopt_table : List ℕ → TableSchema → FilePath → Db ℕ
  adopt_table name schema path = do
    file_id ← on_pool (open_file path)
    name_table name file_id
    add_table file_id (open_table file_id file_id name schema)
    give (ok file_id)

  unfoldable pub make_table : List ℕ → TableSchema → FilePath → Db ℕ
  make_table name schema path = do
    file_id ← on_pool (open_file path)
    update_catalog (record {
      table_id = file_id;
      table_name = name;
      file_name = name ++ db_suffix;
      schema = schema;
    })
    name_table name file_id
    table ← on_pool (new_table name schema file_id)
    add_table file_id table
    give (ok table.table_id)

  abbrev pub create_named : List ℕ → TableSchema → FilePath → Option ℕ → Bool → Db ℕ
  create_named name schema path (some id) exists = give (ok id)
  create_named name schema path none true = adopt_table name schema path
  create_named name schema path none false = make_table name schema path

  -- `Database::create_table`
  unfoldable pub create_db_table : List ℕ → TableSchema → Db ℕ
  create_db_table name schema db =
      let path = join db.base_path (name ++ db_suffix) in
      create_named name schema path (lookup bytes_eq name db.table_names) (path_exists path db) db

-- `Drop for Database`
unfoldable pub drop_database : Database → BufferPool
drop_database db = (flush_all db.buffer_manager).0
