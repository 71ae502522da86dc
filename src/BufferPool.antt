-- ===== src/BufferPool.antt =====
-- The buffer pool, src/buffer_pool.rs: frames that hold pages, the page table, and the clock that
-- selects a frame for eviction.
--
-- An operation takes the pool and gives the pool it leaves, also when it fails (`Pool`). A guard is
-- the index of its frame; its `Drop` is `drop_guard`. The last element of the `free_frames` vector is
-- the first of the list. Clashes of `RefCell` borrows are not modelled. `read_block` is taken to leave
-- the frame's bytes alone when it fails.
use db_rs.Base.{
  ℕ, zero, suc, ◌+◌, ◌-◌, ◌*◌, ◌%◌, ◌≡◌, Bool, true, false, not, ◌&&◌, Option, none, some, List, [],
  ◌∷◌, refl, ap, length, set, get_elem?, replicate, ◌==◌, if◌then◌else◌, lookup, insert_key,
  remove_key, ℤ, pos, negsuc, ◌+ℤ◌, eqb_ℤ, check_i32, Result, ok, err, panic, assert, unwrap,
  unknown, no_pages_available,
}
use db_rs.Page.{PageBytes, PageKind, page_size, set_page_id, set_kind, set_num_entries, page_kind}
use db_rs.Storage.{StorageManager, PageId, read_block, write_block, get_next_page_id}
pub mod Clock
pub mod Evict
pub mod Access
pub mod Guard
pub mod Sound
mod Tests

-- `Frame`, with its `FrameState`.
pub record Frame : Type 0 where
  pub bytes : PageBytes
  pub page_id : Option PageId
  pub pin_count : ℤ
  pub clock_flag : Bool
  pub dirty : Bool

-- `Frame::default`
abbrev pub default_frame : Frame
default_frame = record {
  bytes = replicate page_size 0;
  page_id = none;
  pin_count = pos 0;
  clock_flag = false;
  dirty = false;
}

-- `BufferPool`; its only replacement strategy is the clock.
pub record BufferPool : Type 0 where
  pub storage_manager : StorageManager
  pub frames : List Frame
  pub clock_hand : ℕ
  pub free_frames : List ℕ
  pub page_table : List (PageId × ℕ)

pub record PageGuard : Type 0 where
  pub page_id : PageId
  pub frame : ℕ

-- What an operation on the pool does: the pool it leaves, and its result.
abbrev pub Pool {ℓ} : Type ℓ → Type ℓ
Pool A = BufferPool → BufferPool × Result A

-- What follows an operation, by its result.
abbrev pub follow {ℓ κ} :
    {A : Type ℓ} {B : Type κ} → (A → Pool B) → BufferPool → Result A → BufferPool × Result B
follow f pool (ok a) = f a pool
follow f pool (err e) = (pool, err e)
follow f pool panic = (pool, panic)

infixl 5 ◌>>=◌ ◌>>◌
abbrev pub ◌>>=◌ {ℓ κ} : {A : Type ℓ} {B : Type κ} → Pool A → (A → Pool B) → Pool B
(m >>= f) pool = follow f (m pool).0 (m pool).1

abbrev pub ◌>>◌ {ℓ} : {B : Type ℓ} → Pool (Unit {0}) → Pool B → Pool B
m >> k = m >>= λ _. k

abbrev pub give {ℓ} : {A : Type ℓ} → Result A → Pool A
give r pool = (pool, r)

abbrev pub get_pool : Pool BufferPool
get_pool pool = (pool, ok pool)

abbrev pub put_pool : BufferPool → Pool (Unit {0})
put_pool pool' pool = (pool', ok tt)

-- `PartialEq for PageId`
abbrev pub same_page : PageId → PageId → Bool
same_page a b = a.file_id == b.file_id && a.page_num == b.page_num

abbrev pub is_none {ℓ} : {A : Type ℓ} → Option A → Bool
is_none none = true
is_none (some a) = false

-- `&self.frames[i]`
abbrev pub frame_at : ℕ → Pool Frame
frame_at i pool = (pool, unwrap (get_elem? pool.frames i))

abbrev pub put_frame : ℕ → Frame → Pool (Unit {0})
put_frame i frame pool = (record pool { frames = set pool.frames i frame }, ok tt)

-- `Frame::mark_dirty`
abbrev pub mark_dirty : Frame → Frame
mark_dirty frame = record frame { dirty = true }

-- `Frame::unpin`
unfoldable pub unpin : ℕ → Pool (Unit {0})
unpin i = do
  frame ← frame_at i
  pins ← give (check_i32 (frame.pin_count +ℤ negsuc 0))
  put_frame i (record frame { pin_count = pins })

-- `Frame::pin`
unfoldable pub pin : ℕ → Pool (Unit {0})
pin i = do
  frame ← frame_at i
  pins ← give (check_i32 (frame.pin_count +ℤ pos 1))
  put_frame i (record frame { pin_count = pins; clock_flag = true })

-- `PageGuard::borrow_data`, and `borrow_data_mut` with what its user does to the bytes.
unfoldable pub borrow_data : PageGuard → Pool PageBytes
borrow_data guard = do frame ← frame_at guard.frame; give (ok frame.bytes)

unfoldable pub update_data : PageGuard → (PageBytes → PageBytes) → Pool (Unit {0})
update_data guard change = do
  frame ← frame_at guard.frame
  put_frame guard.frame (record (mark_dirty frame) { bytes = change frame.bytes })

-- `PageGuard::kind`
unfoldable pub guard_kind : PageGuard → Pool PageKind
guard_kind guard = do frame ← frame_at guard.frame; give (page_kind frame.bytes)

-- `Drop for PageGuard`
unfoldable pub drop_guard : PageGuard → Pool (Unit {0})
unfolding unpin
drop_guard guard = unpin guard.frame

abbrev pub down_from : ℕ → List ℕ
down_from zero = []
down_from (suc n) = n ∷ down_from n

-- `BufferPool::new`
unfoldable pub new_pool : ℕ → StorageManager → BufferPool
new_pool num_pages sm = record {
  storage_manager = sm;
  frames = replicate num_pages default_frame;
  clock_hand = 0;
  free_frames = down_from num_pages;
  page_table = [];
}

-- A storage operation of the pool: the storage changes only when it succeeds.
abbrev pub put_storage : BufferPool → Result StorageManager → BufferPool × Result (Unit {0})
put_storage pool (ok sm) = (record pool { storage_manager = sm }, ok tt)
put_storage pool (err e) = (pool, err e)
put_storage pool panic = (pool, panic)

abbrev pub store : (StorageManager → Result StorageManager) → Pool (Unit {0})
store op pool = put_storage pool (op pool.storage_manager)

-- `self.page_table.borrow_mut()`
abbrev pub map_page : PageId → ℕ → Pool (Unit {0})
map_page id i pool = (record pool { page_table = insert_key same_page id i pool.page_table }, ok tt)

abbrev pub unmap_page : PageId → Pool (Unit {0})
unmap_page id pool = (record pool { page_table = remove_key same_page id pool.page_table }, ok tt)
