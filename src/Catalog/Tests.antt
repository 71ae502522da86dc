-- ===== src/Catalog/Tests.antt =====
-- The entry of a table of users, and the theorem on src/catalog.rs at it.
use db_rs.Base.{
  ℕ, ◌≡◌, refl, ap, ◌∙◌, false, some, none, length, lookup, List, [], ◌∷◌, be_bytes, ok, arith,
}
use db_rs.Value.{DataType}
use db_rs.Tables.Schema.{schema_to_bytes, attributes_to_bytes, column_to_bytes}
use db_rs.Catalog.{CatalogEntry, entry_to_bytes, entry_from_bytes}
use db_rs.Catalog.Manager.{CatalogManager, get_table}
use db_rs.Storage.{StorageManager, FilePath, content, read_block}
use db_rs.Storage.Managed.{IsManaged, write_block-IsManaged, read_block-Known}
use db_rs.Storage.Managed.Opened.{open_or_create_file-IsManaged, IsManaged-nothing}
use db_rs.BufferPool.{BufferPool, default_frame, new_pool, same_page}
use db_rs.BufferPool.Sound.{view}
use db_rs.BufferPool.Sound.Loads.{HasRoom}
use db_rs.BufferPool.Sound.Reach.{new_pool-IsSound}
use db_rs.Database.{catalog_page_id, load_catalog}
use db_rs.Database.Loaded.{load_catalog-get_table}
use db_rs.Page.{PageBytes, catalog, page_kind, create_blank_page}
use db_rs.Page.Layout.{Holds}
use db_rs.Page.Insert.{insert-Holds}
use db_rs.Page.Header.{create_blank_page_lem}
use db_rs.Catalog.RoundTrip.{entry_from_bytes-entry_to_bytes}

abbrev keep : List ℕ → List ℕ
keep s = s

abbrev users : CatalogEntry
users = record {
  table_id = 7;
  table_name = 117 ∷ 115 ∷ [];
  file_name = 117 ∷ 46 ∷ 100 ∷ 98 ∷ [];
  schema = record {
    attributes =
        record { name = 105 ∷ 100 ∷ []; data_type = DataType.int; is_nullable = false } ∷ [];
  };
}

abbrev users_blob : List ℕ
users_blob = 0 ∷ 0 ∷ 0 ∷ 1 ∷ 2 ∷ 105 ∷ 100 ∷ 0 ∷ 0 ∷ []

users_encoded : schema_to_bytes users.schema ≡ ok users_blob
unfolding schema_to_bytes attributes_to_bytes column_to_bytes be_bytes
users_encoded = refl

entry_from_bytes-entry_to_bytes_example :
    (bytes : List ℕ) × (entry_to_bytes users ≡ ok bytes) × (entry_from_bytes keep bytes ≡ ok users)
entry_from_bytes-entry_to_bytes_example =
    entry_from_bytes-entry_to_bytes keep users {blob = users_blob} (omega arith) (omega arith)
      (omega arith) refl refl (omega arith) (omega arith, tt) (refl, tt) users_encoded (omega arith)

abbrev users_bytes : List ℕ
users_bytes = 0 ∷ 0 ∷ 0 ∷ 7 ∷ 2 ∷ 117 ∷ 115 ∷ 4 ∷ 117 ∷ 46 ∷ 100 ∷ 98 ∷ 0 ∷ 9 ∷ users_blob

users_bytes_lem : entry_to_bytes users ≡ ok users_bytes
unfolding entry_to_bytes schema_to_bytes attributes_to_bytes column_to_bytes be_bytes
users_bytes_lem = refl

users_read : entry_from_bytes keep users_bytes ≡ ok users
users_read =
    let (bytes, written, read) =
      entry_from_bytes-entry_to_bytes keep users {blob = users_blob} (omega arith) (omega arith)
        (omega arith) refl refl (omega arith) (omega arith, tt) (refl, tt) users_encoded
        (omega arith) in
    let same : users_bytes ≡ bytes = let e = users_bytes_lem in cc in
    ap (entry_from_bytes keep) same ∙ read

-- A catalog page with that entry.
users_page : (p : PageBytes) × Holds p (users_bytes ∷ []) × (page_kind p ≡ ok catalog)
users_page =
    let blank = create_blank_page_lem 0 catalog (omega arith) in
    let made = insert-Holds (create_blank_page 0 catalog) [] users_bytes blank.0 (omega arith) in
    (made.0, made.2, made.4 ∙ blank.2)

-- A manager whose file 0 has that page.
abbrev no_files : StorageManager
no_files = record { disk = []; files = []; paths = []; next_id = 0 }

abbrev catalog_file : FilePath
catalog_file = 99 ∷ 46 ∷ 100 ∷ 98 ∷ []

no_bytes : length (content no_files catalog_file) ≡ 0
unfolding content
no_bytes = refl

blank_file :
    (sm : StorageManager) × IsManaged sm
    × (read_block catalog_page_id sm ≡ ok (create_blank_page 0 catalog))
blank_file =
    let opened =
      open_or_create_file-IsManaged catalog_file no_files (IsManaged-nothing no_files refl) refl
        (omega (arith, no_bytes)) (λ b x h. absurd cc) in
    (opened.0, opened.2, opened.4)

users_file :
    (sm : StorageManager) × IsManaged sm × (read_block catalog_page_id sm ≡ ok users_page.0)
users_file =
    let known = read_block-Known catalog_page_id blank_file.0 _ blank_file.2 in
    let written =
      write_block-IsManaged catalog_page_id users_page.0 blank_file.0 blank_file.1 known.0
        users_page.1.size in
    (written.0, written.5, written.2)

abbrev users_pool : BufferPool
users_pool = new_pool 2 users_file.0

has_room : HasRoom users_pool
unfolding new_pool
has_room = (default_frame, refl, refl)

nowhere : lookup same_page catalog_page_id users_pool.page_table ≡ none
unfolding new_pool
nowhere = refl

stored : read_block catalog_page_id users_pool.storage_manager ≡ ok users_page.0
unfolding new_pool
stored = users_file.2

load_catalog-get_table_example :
    (pool' : BufferPool) × (manager : CatalogManager) × (load_catalog keep users_pool
      ≡ (pool', ok manager))
    × (get_table (117 ∷ 115 ∷ []) manager ≡ some users)
    × (view catalog_page_id pool' ≡ ok users_page.0)
load_catalog-get_table_example =
    load_catalog-get_table keep users_pool users_page.0 (users_bytes ∷ []) (users ∷ [])
      (117 ∷ 115 ∷ []) (new_pool-IsSound 2 users_file.0 users_file.1) has_room nowhere stored
      users_page.2 users_page.1 (users_read, tt)
