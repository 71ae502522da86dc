-- ===== src/BufferPool/Access.antt =====
-- Pages brought into frames, `get_page` and `create_page` of src/buffer_pool.rs.
use db_rs.Base.{
  ℕ, zero, suc, ◌+◌, ◌*◌, ◌%◌, Bool, true, false, Option, none, some, List, [], ◌∷◌, length,
  get_elem?, if◌then◌else◌, lookup, pos, eqb_ℤ, Result, ok, err, panic, assert, unwrap, unknown,
  no_pages_available,
}
use db_rs.Page.{PageBytes, PageKind, set_page_id, set_kind, set_num_entries}
use db_rs.Storage.{StorageManager, PageId, read_block, write_block, get_next_page_id}
use db_rs.BufferPool.{
  Frame, BufferPool, PageGuard, Pool, ◌>>=◌, ◌>>◌, give, get_pool, put_pool, same_page, is_none,
  frame_at, put_frame, store, map_page, unmap_page, pin, unpin,
}
use db_rs.BufferPool.Clock.{select_victim}
use db_rs.BufferPool.Evict.{evict_page}
pub mod Load

-- `get_next_page_id` of the pool's storage.
abbrev pub put_next : BufferPool → Result (StorageManager × ℕ) → BufferPool × Result ℕ
put_next pool (ok (sm, page_num)) = (record pool { storage_manager = sm }, ok page_num)
put_next pool (err e) = (pool, err e)
put_next pool panic = (pool, panic)

abbrev pub next_page_of : ℕ → Pool ℕ
next_page_of file_id pool = put_next pool (get_next_page_id file_id pool.storage_manager)

-- What `get_page` does when it could not read the page.
unfoldable pub undo_load : PageId → ℕ → Pool (Unit {0})
undo_load id i = do
  unpin i
  unmap_page id
  frame ← frame_at i
  put_frame i (record frame { page_id = none })

-- What follows the reading of the page for its frame.
abbrev pub loaded : PageId → ℕ → Result PageBytes → Pool PageGuard
loaded id i (ok bytes) = do
  frame ← frame_at i
  put_frame i (record frame { bytes = bytes })
  give (ok (record { page_id = id; frame = i }))
loaded id i (err e) = undo_load id i >> give (err e)
loaded id i panic = give panic

unfoldable pub load : PageId → ℕ → Pool PageGuard
load id i pool = loaded id i (read_block id pool.storage_manager) pool

-- `get_page` when the page is in a frame, and when it has to be loaded.
abbrev pub hit : PageId → ℕ → Pool PageGuard
hit id i = do pin i; give (ok (record { page_id = id; frame = i }))

unfoldable pub miss : PageId → ℕ → Pool PageGuard
miss id i = do
  evict_page i
  frame ← frame_at i
  put_frame i
      (record frame { page_id = some id; pin_count = pos 0; clock_flag = false; dirty = false })
  pool ← get_pool
  give (assert (is_none (lookup same_page id pool.page_table)))
  map_page id i
  pin i
  load id i

abbrev pub take_victim : PageId → Option ℕ → Pool PageGuard
take_victim id (some i) = miss id i
take_victim id none = give (err no_pages_available)

abbrev pub hit_or_miss : PageId → Option ℕ → Pool PageGuard
hit_or_miss id (some i) = hit id i
hit_or_miss id none = do victim ← select_victim; take_victim id victim

-- `get_page`
unfoldable pub get_page : PageId → Pool PageGuard
get_page id pool = hit_or_miss id (lookup same_page id pool.page_table) pool

-- The header that `create_page` writes over the frame's old bytes.
abbrev pub new_header : PageKind → ℕ → PageBytes → PageBytes
new_header kind page_num bytes = set_page_id page_num (set_num_entries 0 (set_kind kind bytes))

-- `create_page`
unfoldable pub create_in : ℕ → PageKind → ℕ → Pool PageGuard
create_in file_id kind i = do
  page_num ← next_page_of file_id
  evict_page i
  map_page (record { file_id = file_id; page_num = page_num }) i
  frame ← frame_at i
  put_frame i (record frame {
    dirty = true;
    page_id = some (record { file_id = file_id; page_num = page_num });
  })
  pin i
  frame ← frame_at i
  put_frame i (record frame { bytes = new_header kind page_num frame.bytes })
  give (ok (record { page_id = record { file_id = file_id; page_num = page_num }; frame = i }))

abbrev pub create_at : ℕ → PageKind → Option ℕ → Pool PageGuard
create_at file_id kind (some i) = create_in file_id kind i
create_at file_id kind none = give (err unknown)

unfoldable pub create_page : ℕ → PageKind → Pool PageGuard
create_page file_id kind = do victim ← select_victim; create_at file_id kind victim
