-- ===== src/Storage/File.antt =====
-- The bytes of one file of the storage manager, src/storage.rs: the footer that ends a page file, and
-- what it is for a file to be stored with its footer.
use db_rs.Base.{
  ℕ, ◌+◌, ◌-◌, ◌*◌, ◌^◌, ◌≤◌, ◌<◌, ◌≡◌, refl, sym, List, [], append-nil, length, write_at, be_bytes,
  be_value-be_bytes, length-be_bytes, length-append, At, At-left, At-right, At-slice,
  slice-write_at, length-write_at_past, some, arith, false, lookup-insert_key_self,
  lookup-insert_key_ne, ==_iff, lt→ltb, ok,
}
use db_rs.Value.{bytes_eq}
use db_rs.Value.Order.{bytes_eq_iff}
use db_rs.Page.{page_size}
use db_rs.Storage.{
  PageFileFooter, footer_to_bytes, footer_from_bytes, read_footer, FileInfo, FilePath,
  StorageManager, content, put_content, file_info, same_id, put_info, write_footer,
}

footer_At : (f : PageFileFooter) → At (footer_to_bytes f) 0 (footer_to_bytes f)
footer_At f = record { before = []; after = []; split = sym (append-nil _); place = refl }

pub length-footer_to_bytes : (f : PageFileFooter) → length (footer_to_bytes f) ≡ 16
length-footer_to_bytes f = omega (
  arith,
  length-append (be_bytes 8 f.magic_number) (be_bytes 8 f.num_pages),
  length-be_bytes 8 f.magic_number,
  length-be_bytes 8 f.num_pages,
)

-- A footer of two words is read back.
footer_from_bytes-footer_to_bytes :
    (f : PageFileFooter)
    → f.magic_number < 2 ^ 64
    → f.num_pages < 2 ^ 64
    → footer_from_bytes (footer_to_bytes f) ≡ f
unfolding footer_from_bytes
footer_from_bytes-footer_to_bytes f h k =
    let m = be_bytes 8 f.magic_number in
    let n = be_bytes 8 f.num_pages in
    let at_m = At-slice 8 (sym (length-be_bytes 8 f.magic_number)) (At-left m n (footer_At f)) in
    let at_n =
      At-slice 8 (sym (length-be_bytes 8 f.num_pages))
        (At-right m n 8 (omega (arith, length-be_bytes 8 f.magic_number)) (footer_At f)) in
    rw (at_m, at_n, be_value-be_bytes 8 f.magic_number h, be_value-be_bytes 8 f.num_pages k)

-- A footer that was written at the end of a file is read from it.
pub read_footer-write_at :
    (f : PageFileFooter) (offset : ℕ) (xs : List ℕ)
    → f.magic_number < 2 ^ 64
    → f.num_pages < 2 ^ 64
    → length xs ≤ offset + 16
    → read_footer (write_at offset (footer_to_bytes f) xs) ≡ f
unfolding read_footer
read_footer-write_at f offset xs h k short =
    let e : length (write_at offset (footer_to_bytes f) xs) - 16 ≡ offset = omega (
      arith,
      length-write_at_past offset (footer_to_bytes f) xs (omega (arith, length-footer_to_bytes f)),
      length-footer_to_bytes f,
    ) in
    rw (e, slice-write_at offset 16 (footer_to_bytes f) xs (length-footer_to_bytes f))
      (footer_from_bytes-footer_to_bytes f h k)

pub content-put_content_self :
    (path : FilePath) (bytes : List ℕ) (sm : StorageManager)
    → content (put_content path bytes sm) path ≡ bytes
unfolding content put_content
content-put_content_self path bytes sm =
    rw (content, lookup-insert_key_self bytes_eq bytes_eq_iff path bytes sm.disk)

pub content-put_content_ne :
    (path other : FilePath) (bytes : List ℕ) (sm : StorageManager)
    → bytes_eq path other ≡ false
    → content (put_content path bytes sm) other ≡ content sm other
unfolding content put_content
content-put_content_ne path other bytes sm h =
    rw (content, lookup-insert_key_ne bytes_eq bytes_eq_iff path other bytes sm.disk h)

pub file_info-put_info_self :
    (file_id : ℕ) (info : FileInfo) (sm : StorageManager)
    → file_info file_id (put_info file_id info sm) ≡ some info
file_info-put_info_self file_id info sm =
    lookup-insert_key_self same_id ==_iff file_id info sm.files

-- A file the manager has open: its bytes are the pages and the footer, which starts at the pages' end
-- or one byte behind it and says what the manager's copy says.
pub record IsStored (file_id : ℕ) (info : FileInfo) (sm : StorageManager) : Type 0 where
  pub found : file_info file_id sm ≡ some info
  pub pages : info.metadata.num_pages * page_size + 16 ≤ length (content sm info.file)
  pub end : length (content sm info.file) ≤ info.metadata.num_pages * page_size + 17
  pub footer : read_footer (content sm info.file) ≡ info.metadata

pub write_footer_lem :
    (info : FileInfo) (sm : StorageManager)
    → info.metadata.num_pages * page_size + 1 < 2 ^ 64
    → write_footer info sm
      ≡ ok (
          put_content info.file
            (write_at
              (page_size * info.metadata.num_pages + 1)
              (footer_to_bytes info.metadata)
              (content sm info.file))
            sm)
unfolding write_footer
write_footer_lem info sm h = rw (
  lt→ltb (page_size * info.metadata.num_pages) (2 ^ 64) (omega arith),
  lt→ltb (page_size * info.metadata.num_pages + 1) (2 ^ 64) (omega arith),
)
