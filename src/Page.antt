-- ===== src/Page.antt =====
-- Slotted pages, src/page/mod.rs with src/page/heap.rs and src/page/catalog.rs. A page is the list
-- of its 8192 bytes; an operation that writes returns the new page beside its result. The wrappers
-- `Page`, `Heap`, `HeapMut`, `Catalog` and `CatalogMut` all give access to the same bytes, and share
-- the operations here. An error stands before the first write of an operation, so the page of a
-- failing call is the page that it was given.
pub mod Layout
mod Written
pub mod Header
pub mod Insert
mod Tests
use db_rs.Base.{
  ℕ, suc, ◌+◌, ◌-◌, ◌*◌, ◌^◌, ◌<◌, List, [], ◌∷◌, ◌++◌, Bool, Option, none, some, length, get_elem?,
  slice, splice, replicate, ltb, leb, ◌==◌, if◌then◌else◌, be_bytes, be_value, add_u16, mul_u16,
  sub_u16, u16_try_from, read_slice, copy_slice, Result, ok, err, panic, ◌>>=◌, ◌>>◌, guard,
  input_error, out_of_bounds, page_full, page_cast, corrupt_page_file,
}

-- `page_header_offsets`
abbrev pub id_offset : ℕ
id_offset = 0

abbrev pub kind_offset : ℕ
kind_offset = 8

abbrev pub entries_offset : ℕ
entries_offset = 9

abbrev pub next_page_offset : ℕ
next_page_offset = 11

abbrev pub header_size : ℕ
header_size = 19

abbrev pub first_free_page_id_offset : ℕ
first_free_page_id_offset = 19

abbrev pub page_size : ℕ
page_size = 8192

abbrev pub initial_first_free_page_number : ℕ
initial_first_free_page_number = 2

-- `size_of::<SlotArrayEntry>()`
abbrev pub entry_size : ℕ
entry_size = 4

abbrev pub PageBytes : Type 0
PageBytes = List ℕ

pub data PageKind : Type 0 where
  heap catalog : PageKind

-- `kind as u8`
abbrev pub kind_byte : PageKind → ℕ
kind_byte heap = 0
kind_byte catalog = 1

pub record SlotArrayEntry : Type 0 where
  pub offset : ℕ
  pub size : ℕ

pub record PageEntryId : Type 0 where
  pub page : ℕ
  pub slot : ℕ

-- `PageHeaderMut`
pub set_page_id : ℕ → PageBytes → PageBytes
set_page_id val p = splice id_offset (be_bytes 8 val) p

pub set_kind : PageKind → PageBytes → PageBytes
set_kind val p = splice kind_offset (kind_byte val ∷ []) p

pub set_num_entries : ℕ → PageBytes → PageBytes
set_num_entries val p = splice entries_offset (be_bytes 2 val) p

pub set_next_page : ℕ → PageBytes → PageBytes
set_next_page val p = splice next_page_offset (be_bytes 8 val) p

-- `create_blank_page`
pub create_blank_page : ℕ → PageKind → PageBytes
unfolding set_page_id set_kind set_num_entries set_next_page
create_blank_page page_id kind =
    let page =
      set_next_page 0
        (set_num_entries 0 (set_kind kind (set_page_id page_id (replicate page_size 0)))) in
    elim kind [
      | catalog ↦ splice first_free_page_id_offset (be_bytes 8 initial_first_free_page_number) page
      | heap ↦ page
    ]

-- `PageHeaderReader`: the views are slices of a page of full length, so that they do not panic.
pub page_id : PageBytes → ℕ
page_id p = be_value (slice id_offset 8 p)

-- `unreachable!` on a byte that is no kind.
kind_of_byte : List ℕ → Result PageKind
kind_of_byte (b ∷ _) = if b == 0 then ok heap else if b == 1 then ok catalog else panic
kind_of_byte [] = panic

pub page_kind : PageBytes → Result PageKind
unfolding kind_of_byte
page_kind p = kind_of_byte (slice kind_offset 1 p)

pub num_entries : PageBytes → ℕ
num_entries p = be_value (slice entries_offset 2 p)

pub next_page : PageBytes → ℕ
next_page p = be_value (slice next_page_offset 8 p)

abbrev pub same_kind : PageKind → PageKind → Bool
same_kind a b = kind_byte a == kind_byte b

-- `cast_read` and `cast_write`: a view of the page, if it is of the expected kind.
unfoldable pub cast : PageKind → PageBytes → Result PageBytes
cast expected p = do kind ← page_kind p; guard (same_kind kind expected) page_cast; ok p

-- `SlotArrayEntry::to_be_bytes`
abbrev pub entry_bytes : SlotArrayEntry → List ℕ
entry_bytes e = be_bytes 2 e.offset ++ be_bytes 2 e.size

-- The entry at a position of the slot array, read as two u16.
pub read_entry : ℕ → PageBytes → Result SlotArrayEntry
read_entry index p = do
  offset ← read_slice (header_size + entry_size * index) 2 p
  size ← read_slice (header_size + entry_size * index + 2) 2 p
  ok (record { offset = be_value offset; size = be_value size })

-- `get_slot_array_entry`
pub get_slot_array_entry : ℕ → PageBytes → Result (Option SlotArrayEntry)
get_slot_array_entry index p = do
  guard (ltb index (num_entries p)) (input_error out_of_bounds)
  entry ← read_entry index p
  ok (some entry)

-- `get_freespace_start`
pub get_freespace_start : PageBytes → Result ℕ
get_freespace_start p =
    if num_entries p == 0
    then ok header_size
    else mul_u16 entry_size (num_entries p) >>= add_u16 header_size

read_slot : SlotArrayEntry → PageBytes → Result (Option (List ℕ))
read_slot e p = do
  last ← add_u16 e.offset e.size
  found ← read_slice e.offset e.size p
  ok (some found)

-- `get_slot`, and `get_slot_mut`, whose result the code only reads.
pub get_slot : ℕ → PageBytes → Result (Option (List ℕ))
unfolding read_slot
get_slot slot_index p =
    if ltb slot_index (num_entries p)
    then (do entry ← read_entry slot_index p; read_slot entry p)
    else ok none

-- The offset at which `insert` will put a record of `size` bytes.
insert_offset : ℕ → PageBytes → Result ℕ
insert_offset size p =
    if ltb 0 (num_entries p)
    then (do
      found ← get_slot_array_entry (num_entries p - 1) p
      elim found [
        | some entry ↦ u16_try_from size >>= sub_u16 entry.offset
        | none ↦ err corrupt_page_file
      ])
    else u16_try_from size >>= sub_u16 page_size

-- The writes of `insert`.
write_record : ℕ → ℕ → List ℕ → PageBytes → Result (PageBytes × PageEntryId)
write_record freespace_start offset bytes p = do
  size ← u16_try_from (length bytes)
  p₁ ← copy_slice freespace_start (entry_bytes (record { offset = offset; size = size })) p
  p₂ ← copy_slice offset bytes p₁
  count ← add_u16 (num_entries p) 1
  let p₃ = set_num_entries count p₂
  ok (p₃, record { page = page_id p₃; slot = num_entries p })

-- `SlottedPageMut::insert`
pub insert : List ℕ → PageBytes → Result (PageBytes × PageEntryId)
unfolding insert_offset write_record
insert bytes p = do
  freespace_start ← get_freespace_start p
  new_freespace_start ← add_u16 freespace_start entry_size
  offset ← insert_offset (length bytes) p
  guard (leb new_freespace_start offset) page_full
  write_record freespace_start offset bytes p
