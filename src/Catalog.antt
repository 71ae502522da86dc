-- ===== src/Catalog.antt =====
-- The entries of the catalog, `CatalogEntry` of src/catalog.rs, and their bytes. `lossy` is the
-- standard library's `String::from_utf8_lossy`.
use db_rs.Base.{
  ℕ, ◌+◌, List, ◌∷◌, ◌++◌, length, get_elem?, be_bytes, be_value, u8_try_from, u16_try_from,
  read_slice, Result, ok, unwrap, ◌>>=◌,
}
use db_rs.Tables.Schema.{TableSchema, schema_to_bytes, schema_from_bytes, tail_from}
pub mod RoundTrip
pub mod Manager
mod Tests

-- `CatalogEntry`
pub record CatalogEntry : Type 0 where
  pub table_id : ℕ
  pub table_name : List ℕ
  pub file_name : List ℕ
  pub schema : TableSchema

-- `CatalogEntry::to_be_bytes`
pub entry_to_bytes : CatalogEntry → Result (List ℕ)
entry_to_bytes entry = do
  table_len ← u8_try_from (length entry.table_name)
  file_len ← u8_try_from (length entry.file_name)
  blob ← schema_to_bytes entry.schema
  blob_len ← u16_try_from (length blob)
  ok (
      be_bytes 4 entry.table_id
      ++ (table_len
          ∷ (entry.table_name ++ (file_len ∷ (entry.file_name ++ (be_bytes 2 blob_len ++ blob))))))

module _ (lossy : List ℕ → List ℕ) where
  -- `CatalogEntry::from_be_bytes`
  pub entry_from_bytes : List ℕ → Result CatalogEntry
  entry_from_bytes bytes = do
    id ← read_slice 0 4 bytes
    after_id ← tail_from 4 bytes
    table_len ← unwrap (get_elem? after_id 0)
    after_len ← tail_from 1 after_id
    table_name ← read_slice 0 table_len after_len
    after_table ← tail_from table_len after_len
    file_len ← unwrap (get_elem? after_table 0)
    file_name ← read_slice 1 file_len after_table
    after_file ← tail_from (file_len + 1) after_table
    blob_len ← read_slice 0 2 after_file
    after_blob_len ← tail_from 2 after_file
    blob ← read_slice 0 (be_value blob_len) after_blob_len
    schema ← schema_from_bytes lossy blob
    ok (record {
      table_id = be_value id;
      table_name = lossy table_name;
      file_name = lossy file_name;
      schema = schema;
    })
