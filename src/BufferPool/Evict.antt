-- ===== src/BufferPool/Evict.antt =====
-- Pages written back to storage, `flush_all` and `evict_page` of src/buffer_pool.rs.
use db_rs.Base.{
  ℕ, zero, suc, ◌+◌, ◌*◌, ◌%◌, Bool, true, false, Option, none, some, List, [], ◌∷◌, length,
  get_elem?, if◌then◌else◌, lookup, pos, eqb_ℤ, Result, ok, err, panic, assert, unwrap, unknown,
  no_pages_available,
}
use db_rs.Storage.{PageId, read_block, write_block, get_next_page_id}
use db_rs.BufferPool.{
  Frame, BufferPool, PageGuard, Pool, ◌>>=◌, ◌>>◌, give, get_pool, put_pool, same_page, is_none,
  frame_at, put_frame, store, map_page, unmap_page, pin, unpin,
}
pub mod WriteBack

-- The page of a dirty frame is written to its block.
abbrev pub write_back : Frame → Pool (Unit {0})
write_back frame = do id ← give (unwrap frame.page_id); store (write_block id frame.bytes)

-- `flush_all`
abbrev pub flush_frames : List Frame → Pool (Unit {0})
flush_frames [] = give (ok tt)
flush_frames (frame ∷ frames) = do
  if frame.dirty then write_back frame else give (ok tt)
  flush_frames frames

unfoldable pub flush_all : Pool (Unit {0})
flush_all pool = flush_frames pool.frames pool

-- `evict_page`
abbrev pub evict_mapped : Frame → PageId → Pool (Unit {0})
evict_mapped frame id = do
  unmap_page id
  if frame.dirty then store (write_block id frame.bytes) else give (ok tt)

unfoldable pub evict_page : ℕ → Pool (Unit {0})
evict_page i = do
  frame ← frame_at i
  give (assert (eqb_ℤ frame.pin_count (pos 0)))
  elim frame.page_id [ some id ↦ evict_mapped frame id | none ↦ give (ok tt) ]
  put_frame i (record frame { dirty = false; clock_flag = false; page_id = none })
