-- ===== src/Storage/Blocks.antt =====
-- Reading and writing pages, `read_block` and `write_block` of src/storage.rs.
use db_rs.Base.{
  ℕ, ◌+◌, ◌-◌, ◌*◌, ◌^◌, ◌≤◌, ◌<◌, ◌≡◌, ◌≢◌, refl, sym, ap, ◌∙◌, false, List, length, slice,
  write_at, set_len, ltb, leb, lt→ltb, ge→ltb, le→leb, slice-write_at, slice-write_at_apart,
  length-write_at_within, some, arith, inl, inr, ◌⊎◌, Result, ok, err, ◌>>=◌, ◌>>◌, guard,
  page_not_found, io,
}
use db_rs.Value.{bytes_eq}
use db_rs.Page.{page_size, PageBytes}
use db_rs.Storage.{
  read_footer, FileInfo, PageId, StorageManager, content, put_content, file_info, mul_u64,
  read_block, write_block, ensure_capacity, extend_file, set_num_pages, put_info, footer_to_bytes,
}
use db_rs.Storage.File.{
  IsStored, content-put_content_self, content-put_content_ne, write_footer_lem,
  file_info-put_info_self,
}

-- What `read_block` does with the file's bytes.
abbrev pub block_at : ℕ → ℕ → List ℕ → Result PageBytes
block_at page_num num_pages bytes = do
  guard (ltb page_num num_pages) page_not_found
  offset ← mul_u64 page_num page_size
  guard (leb (offset + page_size) (length bytes)) io
  ok (slice offset page_size bytes)

pub read_block_found :
    (id : PageId) (sm : StorageManager) {info : FileInfo}
    → file_info id.file_id sm ≡ some info
    → read_block id sm ≡ block_at id.page_num info.metadata.num_pages (content sm info.file)
unfolding read_block
read_block_found id sm h = rw h refl

pub block_at_lem :
    (page_num num_pages : ℕ) (bytes : List ℕ)
    → page_num < num_pages
    → num_pages * page_size < 2 ^ 64
    → num_pages * page_size ≤ length bytes
    → block_at page_num num_pages bytes ≡ ok (slice (page_num * page_size) page_size bytes)
block_at_lem page_num num_pages bytes h room fits = rw (
  lt→ltb page_num num_pages h,
  lt→ltb (page_num * page_size) (2 ^ 64) (omega arith),
  le→leb (page_num * page_size + page_size) (length bytes) (omega arith),
)

-- A write to one block leaves the others.
block_at-write_at :
    (other page_num num_pages : ℕ) (page bytes : List ℕ)
    → other ≢ page_num
    → page_num < num_pages
    → num_pages * page_size < 2 ^ 64
    → num_pages * page_size ≤ length bytes
    → length page ≡ page_size
    → block_at other num_pages (write_at (page_num * page_size) page bytes)
      ≡ block_at other num_pages bytes
block_at-write_at other page_num num_pages page bytes ne h room fits full =
    let same = length-write_at_within (page_num * page_size) page bytes (omega arith) in
    elim (lt_or_ge other num_pages) [
      | inl k ↦
          let apart : (other * page_size + page_size ≤ page_num * page_size)
              ⊎ (page_num * page_size + length page ≤ other * page_size) =
            ground arith in
          block_at_lem other num_pages _ k room (omega arith)
          ∙ ap ok (
              slice-write_at_apart (other * page_size) page_size (page_num * page_size) page bytes
                (omega arith) apart)
          ∙ sym (block_at_lem other num_pages bytes k room fits)
      | inr k ↦ rw (ge→ltb other num_pages k) refl
    ]
  where
    lt_or_ge : (a b : ℕ) → (a < b) ⊎ (b ≤ a)
    lt_or_ge a b = ground arith

-- A write to a page the file has.
pub write_block_within :
    (id : PageId) (page : PageBytes) (sm : StorageManager) {info : FileInfo}
    → file_info id.file_id sm ≡ some info
    → id.page_num < info.metadata.num_pages
    → info.metadata.num_pages * page_size < 2 ^ 64
    → info.metadata.num_pages * page_size ≤ length (content sm info.file)
    → write_block id page sm
      ≡ ok (
          put_content info.file (write_at (id.page_num * page_size) page (content sm info.file)) sm)
unfolding write_block ensure_capacity
write_block_within id page sm {info} found h room fits = rw (
  found,
  lt→ltb (id.page_num + 1) (2 ^ 64) (omega arith),
  lt→ltb ((id.page_num + 1) * page_size) (2 ^ 64) (omega arith),
  ge→ltb (length (content sm info.file)) ((id.page_num + 1) * page_size) (omega arith),
  found,
  lt→ltb (id.page_num * page_size) (2 ^ 64) (omega arith),
)

read_footer-write_at_within :
    (offset : ℕ) (page bytes : List ℕ)
    → offset + length page + 16 ≤ length bytes
    → read_footer (write_at offset page bytes) ≡ read_footer bytes
unfolding read_footer
read_footer-write_at_within offset page bytes h = rw (
  length-write_at_within offset page bytes (omega arith),
  slice-write_at_apart (length bytes - 16) 16 offset page bytes (omega arith) (inr (omega arith)),
)

-- What is read of a page of another file, or of another page of the same file.
abbrev pub Elsewhere : PageId → FileInfo → PageId → StorageManager → Type 0
Elsewhere id info other sm =
    ((file_info other.file_id sm ≡ some info) × (other.page_num ≢ id.page_num))
    ⊎ ((far : FileInfo) × (file_info other.file_id sm ≡ some far)
        × (bytes_eq info.file far.file ≡ false))

pub read_block-put_content :
    (id other : PageId) (page : PageBytes) (sm : StorageManager) {info : FileInfo}
    → IsStored id.file_id info sm
    → id.page_num < info.metadata.num_pages
    → info.metadata.num_pages * page_size < 2 ^ 64
    → length page ≡ page_size
    → Elsewhere id info other sm
    → read_block other
        (put_content info.file (write_at (id.page_num * page_size) page (content sm info.file)) sm)
      ≡ read_block other sm
unfolding put_content
read_block-put_content id other page sm {info} stored h room full (inl (found, ne)) =
    let bytes = write_at (id.page_num * page_size) page (content sm info.file) in
    read_block_found other (put_content info.file bytes sm) found
    ∙ ap (λ b. block_at other.page_num info.metadata.num_pages b)
        (content-put_content_self info.file bytes sm)
    ∙ block_at-write_at other.page_num id.page_num info.metadata.num_pages page
        (content sm info.file) ne h room (omega (arith, stored.pages)) full
    ∙ sym (read_block_found other sm found)
read_block-put_content id other page sm {info} stored h room full (inr (far, found, apart)) =
    let bytes = write_at (id.page_num * page_size) page (content sm info.file) in
    read_block_found other (put_content info.file bytes sm) found
    ∙ ap (λ b. block_at other.page_num far.metadata.num_pages b)
        (content-put_content_ne info.file far.file bytes sm apart)
    ∙ sym (read_block_found other sm found)

-- The page that was written, and the file.
pub write_block-read_self :
    (id : PageId) (page : PageBytes) (sm : StorageManager) {info : FileInfo}
    → IsStored id.file_id info sm
    → id.page_num < info.metadata.num_pages
    → info.metadata.num_pages * page_size < 2 ^ 64
    → length page ≡ page_size
    → (sm' : StorageManager) × (sm'
        ≡ put_content info.file (write_at (id.page_num * page_size) page (content sm info.file)) sm)
      × (write_block id page sm ≡ ok sm')
      × (read_block id sm' ≡ ok page)
      × IsStored id.file_id info sm'
unfolding put_content
write_block-read_self id page sm {info} stored h room full =
    let old = content sm info.file in
    let bytes = write_at (id.page_num * page_size) page old in
    let fits : info.metadata.num_pages * page_size ≤ length old = omega (arith, stored.pages) in
    let same =
      length-write_at_within (id.page_num * page_size) page old (omega (arith, stored.pages)) in
    let now = content-put_content_self info.file bytes sm in
    let reads =
      read_block_found id (put_content info.file bytes sm) stored.found
      ∙ ap (λ b. block_at id.page_num info.metadata.num_pages b) now
      ∙ block_at_lem id.page_num info.metadata.num_pages bytes h room (omega arith)
      ∙ ap ok (slice-write_at (id.page_num * page_size) page_size page old full) in
    (
      put_content info.file bytes sm,
      refl,
      write_block_within id page sm stored.found h room fits,
      reads,
      record {
        found = stored.found;
        pages = omega (arith, ap length now, same, stored.pages);
        end = omega (arith, ap length now, same, stored.end);
        footer =
            ap read_footer now
            ∙ read_footer-write_at_within (id.page_num * page_size) page old
                (omega (arith, stored.pages))
            ∙ stored.footer;
      },
    )

-- Writing a page of 8192 bytes to a page the stored file has succeeds: reading that page gives what
-- was written, reading another page, of the file or of a file with another path, gives what it gave
-- before, and the file is stored as before, with the same footer.
pub read_block-write_block :
    (id other : PageId) (page : PageBytes) (sm : StorageManager) {info : FileInfo}
    → IsStored id.file_id info sm
    → id.page_num < info.metadata.num_pages
    → info.metadata.num_pages * page_size < 2 ^ 64
    → length page ≡ page_size
    → Elsewhere id info other sm
    → (sm' : StorageManager) × (write_block id page sm ≡ ok sm')
      × (read_block id sm' ≡ ok page)
      × (read_block other sm' ≡ read_block other sm)
      × IsStored id.file_id info sm'
read_block-write_block id other page sm stored h room full elsewhere =
    let (sm', e, written, read, stored') = write_block-read_self id page sm stored h room full in
    (
      sm',
      written,
      read,
      ap (λ after. read_block other after) e
          ∙ read_block-put_content id other page sm stored h room full elsewhere,
      stored',
    )

-- Writing to a page behind the end of an open file succeeds, but the file's page count becomes the
-- page's own number, so that reading the page back fails with `PageNotFound`.
pub read_block-write_block_past :
    (id : PageId) (page : PageBytes) (sm : StorageManager) {info : FileInfo}
    → file_info id.file_id sm ≡ some info
    → length (content sm info.file) < (id.page_num + 1) * page_size
    → (id.page_num + 1) * page_size < 2 ^ 64
    → (sm' : StorageManager) × (write_block id page sm ≡ ok sm')
      × (read_block id sm' ≡ err page_not_found)
unfolding write_block ensure_capacity extend_file put_content
read_block-write_block_past id page sm {info} found short room =
    let info' = set_num_pages id.page_num info in
    let needed = (id.page_num + 1) * page_size in
    let longer =
      put_info id.file_id info'
        (put_content info.file (set_len needed (content sm info.file)) sm) in
    let footed =
      put_content info.file
        (write_at (page_size * id.page_num + 1) (footer_to_bytes info'.metadata)
          (content longer info.file))
        longer in
    let found' : file_info id.file_id footed ≡ some info' =
      file_info-put_info_self id.file_id info' sm in
    let written =
      put_content info.file (write_at (id.page_num * page_size) page (content footed info.file))
        footed in
    (
      written,
      rw (
        found,
        lt→ltb (id.page_num + 1) (2 ^ 64) (omega arith),
        lt→ltb ((id.page_num + 1) * page_size) (2 ^ 64) room,
        lt→ltb (length (content sm info.file)) ((id.page_num + 1) * page_size) short,
        write_footer_lem info' longer (omega arith),
        found',
        lt→ltb (id.page_num * page_size) (2 ^ 64) (omega arith),
      ),
      read_block_found id written found' ∙ rw (ge→ltb id.page_num id.page_num (omega arith)) refl,
    )
