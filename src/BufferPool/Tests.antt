-- ===== src/BufferPool/Tests.antt =====
-- Small pools, and the theorems on src/buffer_pool.rs at them.
use db_rs.Base.{
  subst, panic, ℕ, zero, suc, ◌≡◌, ◌≢◌, refl, sym, ap, true, some, none, [], ◌∷◌, length, replicate,
  length-replicate, get_elem?, arith, Result, ok, err, pos,
}
use db_rs.Page.{page_size}
use db_rs.Storage.{
  StorageManager, FileInfo, FilePath, PageId, fresh_footer, read_block, content,
  open_or_create_file,
}
use db_rs.Storage.File.{IsStored}
use db_rs.Storage.Open.{open_or_create_file-new}
use db_rs.BufferPool.{Frame, BufferPool, default_frame}
use db_rs.BufferPool.Clock.{select_victim_clock}
use db_rs.BufferPool.Clock.Victim.{IsVictim}
use db_rs.BufferPool.Clock.Select.{select_victim_clock-IsVictim, select_victim_clock-none}
use db_rs.BufferPool.Evict.{evict_page}
use db_rs.BufferPool.Evict.WriteBack.{evict_page-read_block, evicted}

abbrev orders : FilePath
orders = 111 ∷ 46 ∷ 100 ∷ 98 ∷ []

abbrev no_files : StorageManager
no_files = record { disk = []; files = []; paths = []; next_id = 1 }

no_bytes : length (content no_files orders) ≡ 0
unfolding content
no_bytes = refl

-- A file of one page, open as file 1.
abbrev opened : Result (StorageManager × ℕ) → StorageManager
opened (ok (sm, file_id)) = sm
opened (err e) = no_files
opened panic = no_files

abbrev one_file : StorageManager
one_file = opened (open_or_create_file orders no_files)

abbrev orders_info : FileInfo
orders_info = record { file = orders; metadata = fresh_footer }

one_file-IsStored : IsStored 1 orders_info one_file
one_file-IsStored =
    let run = open_or_create_file-new orders no_files refl (omega (arith, no_bytes)) in
    subst (λ sm. IsStored 1 orders_info sm) (sym (ap opened run.1)) run.2

abbrev page_0 : PageId
page_0 = record { file_id = 1; page_num = 0 }

-- A pinned frame, and one that was changed and is no longer in use.
abbrev used : Frame
used = record default_frame { pin_count = pos 1; clock_flag = true }

abbrev changed : Frame
changed = record default_frame { page_id = some page_0; clock_flag = true; dirty = true }

abbrev full : BufferPool
full = record {
  storage_manager = one_file;
  frames = used ∷ changed ∷ [];
  clock_hand = 0;
  free_frames = [];
  page_table = (page_0, 1) ∷ [];
}

select_victim_clock-IsVictim_example :
    (pool' : BufferPool) × (v : ℕ) × (select_victim_clock full ≡ (pool', ok (some v)))
    × IsVictim full pool' v
select_victim_clock-IsVictim_example = select_victim_clock-IsVictim full 1 (omega arith) refl refl

abbrev all_used : BufferPool
all_used = record full { frames = used ∷ [] }

all_pinned : (i : ℕ) (f : Frame) → get_elem? all_used.frames i ≡ some f → f.pin_count ≢ pos 0
all_pinned zero f h e = cc
all_pinned (suc i) f h e = cc

select_victim_clock-none_example :
    (hand : ℕ) × (select_victim_clock all_used ≡ (record all_used { clock_hand = hand }, ok none))
select_victim_clock-none_example = select_victim_clock-none all_used (omega arith) all_pinned

evict_page-read_block_example :
    (sm' : StorageManager) × (evict_page 1 full ≡ (evicted 1 changed page_0 sm' full, ok tt))
    × (read_block page_0 sm' ≡ ok (replicate page_size 0))
    × IsStored 1 orders_info sm'
evict_page-read_block_example =
    evict_page-read_block 1 full refl refl refl refl (length-replicate {A = ℕ} page_size 0)
      one_file-IsStored (omega arith) (omega arith)
