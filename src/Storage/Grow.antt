-- ===== src/Storage/Grow.antt =====
-- Files that are opened and that grow: `open_or_create_file` and `append_empty_block` of
-- src/storage.rs.
use db_rs.Base.{
  ℕ, ◌+◌, ◌-◌, ◌*◌, ◌^◌, ◌≤◌, ◌<◌, ◌≡◌, sym, ap, ◌∙◌, List, length, slice, write_at, lt→ltb,
  replicate, length-replicate, slice-write_at, slice-write_at_apart, length-write_at_past, some,
  arith, inl, ok,
}
use db_rs.Page.{page_size}
use db_rs.Storage.{
  PageFileFooter, footer_to_bytes, read_footer, FileInfo, StorageManager, content, put_content,
  file_info, append_empty_block, get_next_page_id, read_block, set_num_pages, put_info,
}
use db_rs.Storage.File.{
  IsStored, content-put_content_self, write_footer_lem, file_info-put_info_self,
  read_footer-write_at, length-footer_to_bytes,
}
use db_rs.Storage.Blocks.{read_block_found, block_at, block_at_lem}

-- A file's bytes with one page of zeros more.
abbrev pub with_page : ℕ → List ℕ → List ℕ
with_page n bytes = write_at (n * page_size) (replicate page_size 0) bytes

abbrev pub with_footer : PageFileFooter → List ℕ → List ℕ
with_footer f bytes = write_at (page_size * f.num_pages + 1) (footer_to_bytes f) bytes

-- What `append_empty_block` leaves.
abbrev pub grown : ℕ → FileInfo → StorageManager → StorageManager
grown file_id info sm =
    let info' = set_num_pages (info.metadata.num_pages + 1) info in
    let longer =
      put_info file_id info'
        (put_content info.file (with_page info.metadata.num_pages (content sm info.file)) sm) in
    put_content info.file (with_footer info'.metadata (content longer info.file)) longer

pub append_empty_block-eq :
    (file_id : ℕ) (info : FileInfo) (sm : StorageManager)
    → file_info file_id sm ≡ some info
    → (info.metadata.num_pages + 1) * page_size + 17 < 2 ^ 64
    → append_empty_block file_id sm ≡ ok (grown file_id info sm, info.metadata.num_pages)
unfolding append_empty_block
append_empty_block-eq file_id info sm found room =
    let info' = set_num_pages (info.metadata.num_pages + 1) info in
    let longer =
      put_info file_id info'
        (put_content info.file (with_page info.metadata.num_pages (content sm info.file)) sm) in
    let e : info.metadata.num_pages + 1 - 1 ≡ info.metadata.num_pages = omega arith in
    rw (
      found,
      lt→ltb (info.metadata.num_pages * page_size) (2 ^ 64) (omega arith),
      lt→ltb (info.metadata.num_pages + 1) (2 ^ 64) (omega arith),
      write_footer_lem info' longer (omega arith),
      e,
    )

pub get_next_page_id_found :
    (file_id : ℕ) (sm : StorageManager) {info : FileInfo}
    → file_info file_id sm ≡ some info
    → get_next_page_id file_id sm ≡ append_empty_block file_id sm
unfolding get_next_page_id
get_next_page_id_found file_id sm found = rw found

content-grown :
    (file_id : ℕ) (info : FileInfo) (sm : StorageManager)
    → content (grown file_id info sm) info.file
      ≡ with_footer
          (set_num_pages (info.metadata.num_pages + 1) info).metadata
          (with_page info.metadata.num_pages (content sm info.file))
unfolding content put_content
content-grown file_id info sm =
    let info' = set_num_pages (info.metadata.num_pages + 1) info in
    let bytes = with_page info.metadata.num_pages (content sm info.file) in
    let longer = put_info file_id info' (put_content info.file bytes sm) in
    content-put_content_self info.file (with_footer info'.metadata (content longer info.file))
      longer
    ∙ ap (with_footer info'.metadata) (content-put_content_self info.file bytes sm)

length-with_page :
    (n : ℕ) (bytes : List ℕ)
    → length bytes ≤ n * page_size + 17
    → length (with_page n bytes) ≡ (n + 1) * page_size
length-with_page n bytes h = omega (
  arith,
  length-write_at_past (n * page_size) (replicate page_size 0) bytes
      (omega (arith, length-replicate {A = ℕ} page_size 0)),
  length-replicate {A = ℕ} page_size 0,
)

length-with_footer :
    (f : PageFileFooter) (bytes : List ℕ)
    → length bytes ≡ f.num_pages * page_size
    → length (with_footer f bytes) ≡ f.num_pages * page_size + 17
length-with_footer f bytes h = omega (
  arith,
  length-write_at_past (page_size * f.num_pages + 1) (footer_to_bytes f) bytes
      (omega (arith, length-footer_to_bytes f)),
  length-footer_to_bytes f,
)

-- The pages before the footer are not touched by it.
slice-with_footer :
    (f : PageFileFooter) (q : ℕ) (bytes : List ℕ)
    → length bytes ≡ f.num_pages * page_size
    → q < f.num_pages
    → slice (q * page_size) page_size (with_footer f bytes) ≡ slice (q * page_size) page_size bytes
slice-with_footer f q bytes h k =
    slice-write_at_apart (q * page_size) page_size (page_size * f.num_pages + 1) (footer_to_bytes f)
      bytes (omega arith) (inl (omega arith))

slice-with_page :
    (n q : ℕ) (bytes : List ℕ)
    → n * page_size ≤ length bytes
    → q < n
    → slice (q * page_size) page_size (with_page n bytes) ≡ slice (q * page_size) page_size bytes
slice-with_page n q bytes h k =
    slice-write_at_apart (q * page_size) page_size (n * page_size) (replicate page_size 0) bytes
      (omega arith) (inl (omega arith))

-- The pages and the footer of a file that has grown.
module _ (file_id : ℕ) (sm : StorageManager) {info : FileInfo}
    (stored : IsStored file_id info sm) where
  grown-found :
      file_info file_id (grown file_id info sm)
      ≡ some (set_num_pages (info.metadata.num_pages + 1) info)
  unfolding put_content
  grown-found =
      file_info-put_info_self file_id (set_num_pages (info.metadata.num_pages + 1) info) sm

  length-content-grown :
      length (content (grown file_id info sm) info.file)
      ≡ (info.metadata.num_pages + 1) * page_size + 17
  length-content-grown =
      ap length (content-grown file_id info sm)
      ∙ length-with_footer (set_num_pages (info.metadata.num_pages + 1) info).metadata
          (with_page info.metadata.num_pages (content sm info.file))
          (length-with_page info.metadata.num_pages (content sm info.file)
            (omega (arith, stored.end)))

  pub grown-IsStored :
      info.metadata.magic_number < 2 ^ 64
      → (info.metadata.num_pages + 1) * page_size + 17 < 2 ^ 64
      → IsStored file_id (set_num_pages (info.metadata.num_pages + 1) info) (grown file_id info sm)
  grown-IsStored magic room =
      let n = info.metadata.num_pages in
      let bytes = with_page n (content sm info.file) in
      let l = length-with_page n (content sm info.file) (omega (arith, stored.end)) in
      record {
        found = grown-found;
        pages = omega (arith, length-content-grown);
        end = omega (arith, length-content-grown);
        footer =
            ap read_footer (content-grown file_id info sm)
            ∙ read_footer-write_at (set_num_pages (n + 1) info).metadata (page_size * (n + 1) + 1)
                bytes magic (omega arith) (omega arith);
      }

  grown-slice :
      (q : ℕ)
      → (info.metadata.num_pages + 1) * page_size + 17 < 2 ^ 64
      → q < info.metadata.num_pages + 1
      → read_block (record { file_id = file_id; page_num = q }) (grown file_id info sm)
        ≡ ok (
            slice
              (q * page_size)
              page_size
              (with_page info.metadata.num_pages (content sm info.file)))
  grown-slice q room h =
      let n = info.metadata.num_pages in
      let bytes = with_page n (content sm info.file) in
      let f = (set_num_pages (n + 1) info).metadata in
      let l = length-with_page n (content sm info.file) (omega (arith, stored.end)) in
      read_block_found (record { file_id = file_id; page_num = q }) (grown file_id info sm)
        grown-found
      ∙ ap (λ b. block_at q (n + 1) b) (content-grown file_id info sm)
      ∙ block_at_lem q (n + 1) (with_footer f bytes) h (omega arith)
          (omega (arith, length-with_footer f bytes l))
      ∙ ap ok (slice-with_footer f q bytes l h)

  pub read_block-grown_new :
      (info.metadata.num_pages + 1) * page_size + 17 < 2 ^ 64
      → read_block
          (record { file_id = file_id; page_num = info.metadata.num_pages })
          (grown file_id info sm)
        ≡ ok (replicate page_size 0)
  read_block-grown_new room =
      let n = info.metadata.num_pages in
      grown-slice n room (omega arith)
      ∙ ap ok (
          slice-write_at (n * page_size) page_size (replicate page_size 0) (content sm info.file)
            (length-replicate {A = ℕ} page_size 0))

  pub read_block-grown_old :
      (q : ℕ)
      → (info.metadata.num_pages + 1) * page_size + 17 < 2 ^ 64
      → q < info.metadata.num_pages
      → read_block (record { file_id = file_id; page_num = q }) (grown file_id info sm)
        ≡ read_block (record { file_id = file_id; page_num = q }) sm
  read_block-grown_old q room h =
      let n = info.metadata.num_pages in
      grown-slice q room (omega arith)
      ∙ ap ok (slice-with_page n q (content sm info.file) (omega (arith, stored.pages)) h)
      ∙ sym (block_at_lem q n (content sm info.file) h (omega arith) (omega (arith, stored.pages)))
      ∙ sym (read_block_found (record { file_id = file_id; page_num = q }) sm stored.found)

-- `get_next_page_id` and `append_empty_block` on a stored file of `n` pages give the page number `n`
-- and leave the file stored with `n + 1` pages, the new footer at its end; page `n` then reads as
-- zeros and a page `q` before it reads as it did.
pub append_empty_block-IsStored :
    (file_id q : ℕ) (sm : StorageManager) {info : FileInfo}
    → IsStored file_id info sm
    → info.metadata.magic_number < 2 ^ 64
    → (info.metadata.num_pages + 1) * page_size + 17 < 2 ^ 64
    → q < info.metadata.num_pages
    → (sm' : StorageManager) × (append_empty_block file_id sm ≡ ok (sm', info.metadata.num_pages))
      × (get_next_page_id file_id sm ≡ ok (sm', info.metadata.num_pages))
      × IsStored file_id (set_num_pages (info.metadata.num_pages + 1) info) sm'
      × (read_block (record { file_id = file_id; page_num = info.metadata.num_pages }) sm'
          ≡ ok (replicate page_size 0))
      × (read_block (record { file_id = file_id; page_num = q }) sm'
          ≡ read_block (record { file_id = file_id; page_num = q }) sm)
append_empty_block-IsStored file_id q sm {info} stored magic room h =
    let done = append_empty_block-eq file_id info sm stored.found room in
    (
      grown file_id info sm,
      done,
      get_next_page_id_found file_id sm stored.found ∙ done,
      grown-IsStored file_id sm stored magic room,
      read_block-grown_new file_id sm stored room,
      read_block-grown_old file_id sm stored q room h,
    )
