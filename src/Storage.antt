-- ===== src/Storage.antt =====
-- The storage manager, src/storage.rs, with `PageFileFooter` and `MAGIC_NUMBER` of src/lib.rs. The
-- operating system's files are byte strings by path. An open `File` is its path, so that two handles
-- on one path share its bytes. The system calls succeed and write all bytes, a read past the end of
-- a file fails, a write past the end fills the gap with zeros. `Path::join` is a parameter.
use db_rs.Base.{
  ℕ, zero, suc, ◌+◌, ◌-◌, ◌*◌, ◌^◌, ◌<◌, ◌≤◌, ◌≡◌, Bool, true, false, not, Option, none, some, List,
  [], ◌∷◌, ◌++◌, length, slice, replicate, write_at, set_len, ltb, leb, ◌==◌, if◌then◌else◌,
  be_bytes, be_value, lookup, insert_key, Result, ok, err, panic, ◌>>=◌, ◌>>◌, guard, ok_or, assert,
  io, page_not_found, file_not_found, corrupt_page_file, unknown,
}
use db_rs.Value.{bytes_eq}
use db_rs.Page.{PageBytes, PageKind, catalog, page_size, create_blank_page}
pub mod File
pub mod Blocks
pub mod Grow
pub mod Open
pub mod Managed
mod Tests

abbrev pub FilePath : Type 0
FilePath = List ℕ

-- `PageFileFooter`
pub record PageFileFooter : Type 0 where
  pub magic_number : ℕ
  pub num_pages : ℕ

abbrev pub magic : ℕ
magic = 0xDBDB_DBDB

-- `size_of::<PageFileFooter>()`
abbrev pub footer_size : ℕ
footer_size = 16

-- `PageFileFooter::to_be_bytes`
abbrev pub footer_to_bytes : PageFileFooter → List ℕ
footer_to_bytes f = be_bytes 8 f.magic_number ++ be_bytes 8 f.num_pages

-- `PageFileFooter::from_be_bytes`, on 16 bytes.
pub footer_from_bytes : List ℕ → PageFileFooter
footer_from_bytes bytes = record {
  magic_number = be_value (slice 0 8 bytes);
  num_pages = be_value (slice 8 8 bytes);
}

pub record FileInfo : Type 0 where
  pub file : FilePath
  pub metadata : PageFileFooter

pub record PageId : Type 0 where
  pub file_id : ℕ
  pub page_num : ℕ

-- `StorageManager`, and the files of the operating system.
pub record StorageManager : Type 0 where
  pub disk : List (FilePath × List ℕ)
  pub files : List (ℕ × FileInfo)
  pub paths : List (FilePath × ℕ)
  pub next_id : ℕ

abbrev pub same_id : ℕ → ℕ → Bool
same_id a b = a == b

-- The bytes of a file; a file that is not there is opened empty.
unfoldable pub content : StorageManager → FilePath → List ℕ
content sm path = elim (lookup bytes_eq path sm.disk) [ some bytes ↦ bytes | none ↦ [] ]

pub put_content : FilePath → List ℕ → StorageManager → StorageManager
put_content path bytes sm = record sm { disk = insert_key bytes_eq path bytes sm.disk }

-- `seek` to the end less the footer's size, and `read_exact`.
pub read_footer : List ℕ → PageFileFooter
unfolding footer_from_bytes
read_footer bytes = footer_from_bytes (slice (length bytes - footer_size) footer_size bytes)

-- Checked u64 arithmetic.
abbrev pub mul_u64 : ℕ → ℕ → Result ℕ
mul_u64 a b = if ltb (a * b) (2 ^ 64) then ok (a * b) else panic

abbrev pub add_u64 : ℕ → ℕ → Result ℕ
add_u64 a b = if ltb (a + b) (2 ^ 64) then ok (a + b) else panic

-- What `open_or_create_file` and `new` write to a file that is too short to have a footer.
abbrev pub fresh_footer : PageFileFooter
fresh_footer = record { magic_number = magic; num_pages = 1 }

pub fresh_file : List ℕ → List ℕ
fresh_file bytes =
    write_at page_size (footer_to_bytes fresh_footer)
      (write_at 0 (create_blank_page 0 catalog) bytes)

-- The footer of a file that was just opened, and its bytes.
pub open_footer : List ℕ → PageFileFooter × List ℕ
unfolding read_footer fresh_file
open_footer bytes =
    if leb footer_size (length bytes)
    then (read_footer bytes, bytes)
    else (fresh_footer, fresh_file bytes)

-- `StorageManager::new`: the catalog is file 0, under the relative path "catalog.db". Its magic
-- number is not looked at.
abbrev pub catalog_name : FilePath
catalog_name = 99 ∷ 97 ∷ 116 ∷ 97 ∷ 108 ∷ 111 ∷ 103 ∷ 46 ∷ 100 ∷ 98 ∷ []

pub new_storage :
    (FilePath → FilePath → FilePath) → FilePath → List (FilePath × List ℕ) → StorageManager
unfolding open_footer content put_content
new_storage join base_path disk =
    let path = join base_path catalog_name in
    let sm : StorageManager = record { disk = disk; files = []; paths = []; next_id = 1 } in
    let (footer, bytes) = open_footer (content sm path) in
    record (put_content path bytes sm) {
      files = (0, record { file = path; metadata = footer }) ∷ [];
      paths = (catalog_name, 0) ∷ [];
    }

-- `open_or_create_file`. The magic number is tested after the file may have been created.
pub open_or_create_file : FilePath → StorageManager → Result (StorageManager × ℕ)
unfolding open_footer content put_content
open_or_create_file path sm = elim (lookup bytes_eq path sm.paths) [
  | some file_id ↦ ok (sm, file_id)
  | none ↦
      let (footer, bytes) = open_footer (content sm path) in
      if footer.magic_number == magic
      then ok (
        record (put_content path bytes sm) {
          paths = insert_key bytes_eq path sm.next_id sm.paths;
          files =
              insert_key same_id sm.next_id (record { file = path; metadata = footer }) sm.files;
          next_id = sm.next_id + 1;
        },
        sm.next_id,
      )
      else err corrupt_page_file
]

abbrev pub file_info : ℕ → StorageManager → Option FileInfo
file_info file_id sm = lookup same_id file_id sm.files

-- `get_num_pages`
pub get_num_pages : ℕ → StorageManager → Option ℕ
get_num_pages file_id sm = elim (file_info file_id sm) [
  | some info ↦ some info.metadata.num_pages
  | none ↦ none
]

-- `file_exists`
pub file_exists : FilePath → StorageManager → Bool
file_exists path sm = elim (lookup bytes_eq path sm.paths) [
  | some file_id ↦ true
  | none ↦ elim (lookup bytes_eq path sm.disk) [ some bytes ↦ true | none ↦ false ]
]

-- `read_block`
unfoldable pub read_block : PageId → StorageManager → Result PageBytes
unfolding content
read_block id sm = do
  info ← ok_or (file_info id.file_id sm) file_not_found
  guard (ltb id.page_num info.metadata.num_pages) page_not_found
  offset ← mul_u64 id.page_num page_size
  guard (leb (offset + page_size) (length (content sm info.file))) io
  ok (slice offset page_size (content sm info.file))

-- `write_footer`, one byte behind the pages.
pub write_footer : FileInfo → StorageManager → Result StorageManager
unfolding content put_content
write_footer info sm = do
  pages ← mul_u64 page_size info.metadata.num_pages
  offset ← add_u64 pages 1
  ok (
      put_content info.file (write_at offset (footer_to_bytes info.metadata) (content sm info.file))
        sm)

abbrev pub set_num_pages : ℕ → FileInfo → FileInfo
set_num_pages n info = record info {
  metadata = record { magic_number = info.metadata.magic_number; num_pages = n };
}

abbrev pub put_info : ℕ → FileInfo → StorageManager → StorageManager
put_info file_id info sm = record sm { files = insert_key same_id file_id info sm.files }

-- `ensure_capacity`: a file that is too short is extended, and gets a footer and a page count.
pub extend_file : ℕ → ℕ → FileInfo → StorageManager → Result StorageManager
unfolding content put_content write_footer
extend_file needed file_id info sm =
    write_footer info
      (put_info file_id info (put_content info.file (set_len needed (content sm info.file)) sm))

pub ensure_capacity : ℕ → ℕ → StorageManager → Result StorageManager
unfolding content extend_file
ensure_capacity file_id number_of_pages sm = do
  info ← ok_or (file_info file_id sm) file_not_found
  pages ← add_u64 number_of_pages 1
  needed ← mul_u64 pages page_size
  if ltb (length (content sm info.file)) needed
      then extend_file needed file_id (set_num_pages number_of_pages info) sm
      else ok sm

-- `write_block`
pub write_block : PageId → PageBytes → StorageManager → Result StorageManager
unfolding ensure_capacity content put_content
write_block id page sm = do
  found ← ok_or (file_info id.file_id sm) file_not_found
  sm' ← ensure_capacity id.file_id id.page_num sm
  info ← ok_or (file_info id.file_id sm') unknown
  offset ← mul_u64 id.page_num page_size
  ok (put_content info.file (write_at offset page (content sm' info.file)) sm')

-- `append_empty_block`
pub append_empty_block : ℕ → StorageManager → Result (StorageManager × ℕ)
unfolding write_footer content put_content
append_empty_block file_id sm = do
  info ← ok_or (file_info file_id sm) file_not_found
  offset ← mul_u64 info.metadata.num_pages page_size
  num_pages ← add_u64 info.metadata.num_pages 1
  let info' = set_num_pages num_pages info
  sm' ← write_footer info' (
      put_info file_id info'
        (put_content info.file (write_at offset (replicate page_size 0) (content sm info.file)) sm))
  ok (sm', num_pages - 1)

-- `get_next_page_id`
pub get_next_page_id : ℕ → StorageManager → Result (StorageManager × ℕ)
get_next_page_id file_id sm = do
  found ← ok_or (file_info file_id sm) file_not_found
  append_empty_block file_id sm
