-- ===== src/BufferPool/Clock.antt =====
-- The selection of a frame for a page, `select_victim` and `select_victim_clock` of
-- src/buffer_pool.rs.
use db_rs.Base.{
  ℕ, zero, suc, ◌+◌, ◌*◌, ◌%◌, Bool, true, false, Option, none, some, List, [], ◌∷◌, length,
  get_elem?, if◌then◌else◌, lookup, pos, eqb_ℤ, Result, ok, err, panic, assert, unwrap, unknown,
  no_pages_available,
}
use db_rs.BufferPool.{
  Frame, BufferPool, PageGuard, Pool, ◌>>=◌, ◌>>◌, give, get_pool, put_pool, same_page, is_none,
  frame_at, put_frame, store, map_page, unmap_page, pin, unpin,
}
pub mod Victim
pub mod Select

-- What a turn of `select_victim_clock` does with its frame, by whether the frame is unpinned and by
-- its flag, where `rest` are the turns after it.
abbrev pub visit : ℕ → Frame → Bool → Bool → Pool (Option ℕ) → Pool (Option ℕ)
visit hand frame true true rest = put_frame hand (record frame { clock_flag = false }) >> rest
visit hand frame true false rest = give (ok (some hand))
visit hand frame false flag rest = rest

-- `select_victim_clock`: `fuel` turns of the loop.
unfoldable pub clock : ℕ → Pool (Option ℕ)
clock zero = give (ok none)
clock (suc fuel) = do
  pool ← get_pool
  put_pool (record pool { clock_hand = (pool.clock_hand + 1) % length pool.frames })
  frame ← frame_at pool.clock_hand
  visit pool.clock_hand frame (eqb_ℤ frame.pin_count (pos 0)) frame.clock_flag (clock fuel)

unfoldable pub select_victim_clock : Pool (Option ℕ)
unfolding clock
select_victim_clock pool = clock (length pool.frames * 4) pool

-- `select_victim`
unfoldable pub select_victim : Pool (Option ℕ)
unfolding select_victim_clock
select_victim pool = elim pool.free_frames [
  | frame ∷ rest ↦ (record pool { free_frames = rest }, ok (some frame))
  | [] ↦ select_victim_clock pool
]
