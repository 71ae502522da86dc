-- ===== src/Storage/Open.antt =====
-- Opening a file, `open_or_create_file` of src/storage.rs.
use db_rs.Base.{
  ℕ, ◌+◌, ◌<◌, ◌≡◌, ap, ◌∙◌, List, length, write_at, gt→leb, slice-write_at, slice-write_at_apart,
  length-write_at_past, some, none, arith, inl, ok, lookup, lookup-insert_key_self, insert_key,
  ==_iff,
}
use db_rs.Value.{bytes_eq}
use db_rs.Page.{page_size, create_blank_page, catalog}
use db_rs.Page.Header.{length-create_blank_page}
use db_rs.Storage.{
  PageFileFooter, footer_to_bytes, read_footer, FileInfo, FilePath, StorageManager, content,
  put_content, file_info, read_block, open_or_create_file, open_footer, fresh_file, fresh_footer,
  same_id,
}
use db_rs.Storage.File.{
  IsStored, content-put_content_self, read_footer-write_at, length-footer_to_bytes,
}
use db_rs.Storage.Blocks.{read_block_found, block_at, block_at_lem}

-- The manager after a file was opened.
abbrev pub opened : FilePath → List ℕ → PageFileFooter → StorageManager → StorageManager
opened path bytes footer sm = record (put_content path bytes sm) {
  paths = insert_key bytes_eq path sm.next_id sm.paths;
  files = insert_key same_id sm.next_id (record { file = path; metadata = footer }) sm.files;
  next_id = sm.next_id + 1;
}

content-opened :
    (path : FilePath) (bytes : List ℕ) (footer : PageFileFooter) (sm : StorageManager)
    → content (opened path bytes footer sm) path ≡ bytes
unfolding content put_content
content-opened path bytes footer sm = content-put_content_self path bytes sm

pub open_or_create_file_new :
    (path : FilePath) (sm : StorageManager)
    → lookup bytes_eq path sm.paths ≡ none
    → length (content sm path) < 16
    → open_or_create_file path sm
      ≡ ok (opened path (fresh_file (content sm path)) fresh_footer sm, sm.next_id)
unfolding open_or_create_file open_footer
open_or_create_file_new path sm h short =
    rw (open_or_create_file, h, gt→leb 16 (length (content sm path)) short)

pub open_or_create_file-new :
    (path : FilePath) (sm : StorageManager)
    → lookup bytes_eq path sm.paths ≡ none
    → length (content sm path) < 16
    → (sm' : StorageManager) × (open_or_create_file path sm ≡ ok (sm', sm.next_id))
      × IsStored sm.next_id (record { file = path; metadata = fresh_footer }) sm'
      × (read_block (record { file_id = sm.next_id; page_num = 0 }) sm'
          ≡ ok (create_blank_page 0 catalog))
unfolding fresh_file
open_or_create_file-new path sm closed short =
    let old = content sm path in
    let blank = create_blank_page 0 catalog in
    let size : length blank ≡ page_size = length-create_blank_page 0 catalog in
    let first = write_at 0 blank old in
    let bytes = write_at page_size (footer_to_bytes fresh_footer) first in
    let info : FileInfo = record { file = path; metadata = fresh_footer } in
    let l1 = length-write_at_past 0 blank old (omega arith) in
    let l2 =
      length-write_at_past page_size (footer_to_bytes fresh_footer) first
        (omega (arith, length-footer_to_bytes fresh_footer)) in
    let l3 = length-footer_to_bytes fresh_footer in
    let now = content-opened path bytes fresh_footer sm in
    let found : file_info sm.next_id (opened path bytes fresh_footer sm) ≡ some info =
      lookup-insert_key_self same_id ==_iff sm.next_id info sm.files in
    (
      opened path bytes fresh_footer sm,
      open_or_create_file_new path sm closed short,
      record {
        found = found;
        pages = omega (arith, ap length now, l2, l3);
        end = omega (arith, ap length now, l2, l3);
        footer =
            ap read_footer now
            ∙ read_footer-write_at fresh_footer page_size first (omega arith) (omega arith)
                (omega arith);
      },
      read_block_found (record { file_id = sm.next_id; page_num = 0 })
            (opened path bytes fresh_footer sm) found
          ∙ ap (λ b. block_at 0 1 b) now
          ∙ block_at_lem 0 1 bytes (omega arith) (omega arith) (omega arith)
          ∙ ap ok (
              slice-write_at_apart 0 page_size page_size (footer_to_bytes fresh_footer) first
                (omega arith) (inl (omega arith))
              ∙ slice-write_at 0 page_size blank old size),
    )
