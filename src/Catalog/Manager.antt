-- ===== src/Catalog/Manager.antt =====
-- The tables of the catalog, `CatalogManager` of src/catalog.rs: what `load` does with the bytes of
-- the catalog page, and the operations on the tables in memory.
use db_rs.Base.{
  ℕ, zero, suc, Option, none, some, List, [], ◌∷◌, length, lookup, insert_key, Result, ok, ◌>>=◌,
}
use db_rs.Value.{bytes_eq}
use db_rs.Page.{PageBytes, catalog, cast, num_entries, get_slot}
use db_rs.Tables.Schema.{TableSchema}
use db_rs.Catalog.{CatalogEntry, entry_from_bytes}
pub mod Load

-- `CatalogManager`
pub record CatalogManager : Type 0 where
  pub tables : List (List ℕ × CatalogEntry)

-- `create_table`
pub create_table : CatalogEntry → CatalogManager → CatalogManager
create_table entry manager = record manager {
  tables = insert_key bytes_eq entry.table_name entry manager.tables;
}

-- `get_table`
pub get_table : List ℕ → CatalogManager → Option CatalogEntry
get_table name manager = lookup bytes_eq name manager.tables

abbrev schema_of : Option CatalogEntry → Option TableSchema
schema_of (some entry) = some entry.schema
schema_of none = none

-- `get_schema`
pub get_schema : List ℕ → CatalogManager → Option TableSchema
unfolding get_table
get_schema name manager = schema_of (get_table name manager)

-- `get_num_tables`
pub get_num_tables : CatalogManager → ℕ
get_num_tables manager = length manager.tables

module _ (lossy : List ℕ → List ℕ) where
  -- One turn of the loop of `load`, on the slot that was read.
  abbrev pub load_slot : Option (List ℕ) → CatalogManager → Result CatalogManager
  load_slot none manager = ok manager
  load_slot (some bytes) manager = do
    entry ← entry_from_bytes lossy bytes
    ok (create_table entry manager)

  -- The loop of `load`, over the slots from `idx` on that are left.
  pub load_slots : ℕ → ℕ → PageBytes → CatalogManager → Result CatalogManager
  load_slots zero idx page manager = ok manager
  load_slots (suc left) idx page manager = do
    slot ← get_slot idx page
    next ← load_slot slot manager
    load_slots left (suc idx) page next

  -- What `load` does with the catalog page, once it is cast.
  pub load_entries : PageBytes → Result CatalogManager
  unfolding load_slots
  load_entries page = load_slots (num_entries page) 0 page (record { tables = [] })

  -- `load`, on the bytes of the catalog page.
  unfoldable pub load_page : PageBytes → Result CatalogManager
  unfolding load_entries
  load_page page = do view ← cast catalog page; load_entries view
