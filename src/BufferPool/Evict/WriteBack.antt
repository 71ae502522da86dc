-- ===== src/BufferPool/Evict/WriteBack.antt =====
-- `evict_page` of src/buffer_pool.rs writes the page of a dirty frame to its block.
use db_rs.Base.{
  ℕ, ◌*◌, ◌^◌, ◌<◌, ◌≡◌, refl, true, false, some, none, length, set, get_elem?, remove_key, ok, pos,
  eqb_ℤ_iff,
}
use db_rs.Page.{page_size}
use db_rs.Storage.{StorageManager, FileInfo, PageId, read_block, write_block}
use db_rs.Storage.File.{IsStored}
use db_rs.Storage.Blocks.{write_block-read_self}
use db_rs.BufferPool.{Frame, BufferPool, same_page}
use db_rs.BufferPool.Evict.{evict_page}

-- The pool after frame `i` lost its page `id`.
abbrev pub evicted : ℕ → Frame → PageId → StorageManager → BufferPool → BufferPool
evicted i frame id sm pool = record pool {
  storage_manager = sm;
  frames = set pool.frames i (record frame { dirty = false; clock_flag = false; page_id = none });
  page_table = remove_key same_page id pool.page_table;
}

pub evict_page_dirty :
    (i : ℕ) (pool : BufferPool) {frame : Frame} {id : PageId} {sm' : StorageManager}
    → get_elem? pool.frames i ≡ some frame
    → frame.pin_count ≡ pos 0
    → frame.page_id ≡ some id
    → frame.dirty ≡ true
    → write_block id frame.bytes pool.storage_manager ≡ ok sm'
    → evict_page i pool ≡ (evicted i frame id sm' pool, ok tt)
unfolding evict_page
evict_page_dirty i pool {frame} there unpinned page dirty written =
    rw (there, (eqb_ℤ_iff frame.pin_count (pos 0)).1 unpinned, page, dirty, written) refl

-- Evicting an unpinned dirty frame that holds a page of a stored file succeeds: the page is taken
-- out of the page table, the frame is clean and holds no page, and the frame's bytes are what the
-- page's block now reads as. The file is still stored.
pub evict_page-read_block :
    (i : ℕ) (pool : BufferPool) {frame : Frame} {id : PageId} {info : FileInfo}
    → get_elem? pool.frames i ≡ some frame
    → frame.pin_count ≡ pos 0
    → frame.page_id ≡ some id
    → frame.dirty ≡ true
    → length frame.bytes ≡ page_size
    → IsStored id.file_id info pool.storage_manager
    → id.page_num < info.metadata.num_pages
    → info.metadata.num_pages * page_size < 2 ^ 64
    → (sm' : StorageManager) × (evict_page i pool ≡ (evicted i frame id sm' pool, ok tt))
      × (read_block id sm' ≡ ok frame.bytes)
      × IsStored id.file_id info sm'
evict_page-read_block i pool {frame} {id} {info} there unpinned page dirty full stored h room =
    let (sm', e, written, read, stored') =
      write_block-read_self id frame.bytes pool.storage_manager stored h room full in
    (sm', evict_page_dirty i pool there unpinned page dirty written, read, stored')
