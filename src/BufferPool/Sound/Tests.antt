-- ===== src/BufferPool/Sound/Tests.antt =====
-- A pool over one file, and the theorems on sound pools at it.
use db_rs.Base.{
  ℕ, set, zero, suc, ◌≡◌, ◌≢◌, ◌∙◌, ◌+ℤ◌, check_i32, pos, refl, ap, some, none, [], ◌∷◌, length,
  get_elem?, arith, ok, panic, lookup, insert_key,
}
use db_rs.Page.{PageBytes, create_blank_page, catalog, heap, page_id, page_kind}
use db_rs.Page.Layout.{Holds}
use db_rs.Storage.{
  StorageManager, FilePath, PageId, read_block, content, open_or_create_file, get_next_page_id,
}
use db_rs.Storage.File.{IsStored}
use db_rs.Storage.Grow.{append_empty_block-IsStored}
use db_rs.Storage.Managed.{IsManaged, Known}
use db_rs.Storage.Managed.Opened.{fresh_info, open_or_create_file-IsManaged, IsManaged-nothing}
use db_rs.BufferPool.Sound.Loads.{HasRoom, Unpinned, get_page-loads}
use db_rs.BufferPool.Sound.Again.{get_page-drop_guard}
use db_rs.BufferPool.{drop_guard, Frame, BufferPool, PageGuard, default_frame, new_pool, same_page}
use db_rs.BufferPool.Clock.{select_victim}
use db_rs.BufferPool.Evict.{evict_page, flush_all}
use db_rs.BufferPool.Access.{get_page, create_page, next_page_of}
use db_rs.BufferPool.Access.Load.{get_page_miss, with_frame, fresh}
use db_rs.BufferPool.Sound.{IsSound, view, changed}
use db_rs.BufferPool.Sound.GetPage.{get_page-shows}
use db_rs.BufferPool.Sound.Pages.{restored}
use db_rs.BufferPool.Sound.CreatePage.{new_page, filled, create_in_done}
use db_rs.BufferPool.Sound.Created.{create_page-shows}
use db_rs.BufferPool.Sound.Flush.{flush_all-durable}
use db_rs.BufferPool.Sound.Reach.{here, after, gets, Reach-IsSound, new_pool-IsSound}

abbrev orders : FilePath
orders = 111 ∷ 46 ∷ 100 ∷ 98 ∷ []

abbrev no_files : StorageManager
no_files = record { disk = []; files = []; paths = []; next_id = 1 }

no_bytes : length (content no_files orders) ≡ 0
unfolding content
no_bytes = refl

-- A manager with one file of one page.
one_file :
    (sm : StorageManager) × (open_or_create_file orders no_files ≡ ok (sm, 1))
    × IsManaged sm
    × IsStored 1 (fresh_info orders) sm
    × (read_block (record { file_id = 1; page_num = 0 }) sm ≡ ok (create_blank_page 0 catalog))
one_file =
    open_or_create_file-IsManaged orders no_files (IsManaged-nothing no_files refl) refl
      (omega (arith, no_bytes)) (λ b x h. absurd cc)

abbrev page_0 : PageId
page_0 = record { file_id = 1; page_num = 0 }

abbrev sm : StorageManager
sm = one_file.0

start-IsSound : IsSound (new_pool 2 sm)
start-IsSound = new_pool-IsSound 2 sm one_file.2

abbrev popped : BufferPool
popped = record (new_pool 2 sm) { free_frames = 0 ∷ [] }

selected : select_victim (new_pool 2 sm) ≡ (popped, ok (some 1))
unfolding select_victim new_pool
selected = refl

evicts : evict_page 1 popped ≡ (popped, ok tt)
unfolding evict_page new_pool
evicts = refl

there : get_elem? popped.frames 1 ≡ some default_frame
unfolding new_pool
there = refl

not_mapped : (id : PageId) → lookup same_page id popped.page_table ≡ none
unfolding new_pool
not_mapped id = refl

same_storage : popped.storage_manager ≡ sm
unfolding new_pool
same_storage = refl

-- The pool once page 0 is loaded.
abbrev loaded : BufferPool
loaded =
    with_frame 1 (fresh page_0 (create_blank_page 0 catalog))
      (insert_key same_page page_0 1 popped.page_table) popped

abbrev page_guard : PageGuard
page_guard = record { page_id = page_0; frame = 1 }

gets_page_0 : get_page page_0 (new_pool 2 sm) ≡ (loaded, ok page_guard)
gets_page_0 =
    get_page_miss page_0 (new_pool 2 sm) popped popped 1 (not_mapped page_0) selected evicts there
      (not_mapped page_0) (ap (read_block page_0) same_storage ∙ one_file.4)

get_page-shows_example :
    IsSound loaded
    × (view page_0 loaded ≡ view page_0 (new_pool 2 sm))
    × (page_0 ≡ page_0)
    × ((frame : Frame) × (get_elem? loaded.frames 1 ≡ some frame)
        × (frame.page_id ≡ some page_0)
        × (view page_0 (new_pool 2 sm) ≡ ok frame.bytes))
get_page-shows_example =
    get_page-shows page_0 page_0 (new_pool 2 sm) loaded page_guard start-IsSound gets_page_0

has_room : HasRoom (new_pool 2 sm)
unfolding new_pool
has_room = (default_frame, refl, refl)

nowhere : lookup same_page page_0 (new_pool 2 sm).page_table ≡ none
unfolding new_pool
nowhere = refl

stored : read_block page_0 (new_pool 2 sm).storage_manager ≡ ok (create_blank_page 0 catalog)
unfolding new_pool
stored = one_file.4

get_page-loads_example :
    (pool' : BufferPool) × (i : ℕ) × (get_page page_0 (new_pool 2 sm)
      ≡ (pool', ok (record { page_id = page_0; frame = i })))
    × Unpinned i (new_pool 2 sm)
    × (get_elem? pool'.frames i ≡ some (fresh page_0 (create_blank_page 0 catalog)))
    × (lookup same_page page_0 pool'.page_table ≡ some i)
get_page-loads_example =
    get_page-loads page_0 (new_pool 2 sm) (create_blank_page 0 catalog) start-IsSound has_room
      nowhere stored

in_frame_1 : get_elem? loaded.frames 1 ≡ some (fresh page_0 (create_blank_page 0 catalog))
unfolding new_pool
in_frame_1 = refl

get_page-drop_guard_example :
    (get_page page_0 loaded ≡ (
      record loaded {
        frames =
            set loaded.frames 1
              (record (fresh page_0 (create_blank_page 0 catalog)) { pin_count = pos 2 });
      },
      ok page_guard,
    ))
    × (drop_guard page_guard (get_page page_0 loaded).0 ≡ (loaded, ok tt))
get_page-drop_guard_example =
    get_page-drop_guard page_0 (new_pool 2 sm) loaded page_guard
      (fresh page_0 (create_blank_page 0 catalog)) 1 start-IsSound gets_page_0 in_frame_1 refl
      (omega arith)

guard_ne : ok page_guard ≢ panic
guard_ne h = cc

Reach-IsSound_example : IsSound loaded
Reach-IsSound_example =
    Reach-IsSound (new_pool 2 sm) loaded start-IsSound
      (after (new_pool 2 sm) loaded here (gets page_0 loaded (ok page_guard) guard_ne gets_page_0))

flush_all-durable_example :
    (pool' : BufferPool) × (flush_all (new_pool 2 sm) ≡ (pool', ok tt))
    × IsSound pool'
    × (view page_0 pool' ≡ view page_0 (new_pool 2 sm))
    × (read_block page_0 pool'.storage_manager ≡ view page_0 (new_pool 2 sm))
flush_all-durable_example = flush_all-durable (new_pool 2 sm) page_0 start-IsSound

-- The file grows to two pages.
grows : (sm' : StorageManager) × (get_next_page_id 1 sm ≡ ok (sm', 1))
grows =
    let grown =
      append_empty_block-IsStored 1 0 sm one_file.3 (omega arith) (omega arith) (omega arith) in
    (grown.0, grown.2)

next_page : next_page_of 1 popped ≡ (restored grows.0 popped, ok 1)
next_page = rw (same_storage, grows.1) refl

evicts_again : evict_page 1 (restored grows.0 popped) ≡ (restored grows.0 popped, ok tt)
unfolding evict_page new_pool
evicts_again = refl

one_pin : check_i32 (default_frame.pin_count +ℤ pos 1) ≡ ok (pos 1)
unfolding ◌+ℤ◌
one_pin = refl

abbrev created : BufferPool
created =
    changed 1 (filled 1 heap 1 (pos 1) default_frame)
      (insert_key same_page (new_page 1 1) 1 popped.page_table) grows.0 popped

creates_page_1 :
    create_page 1 heap (new_pool 2 sm)
    ≡ (created, ok (record { page_id = new_page 1 1; frame = 1 }))
unfolding create_page
creates_page_1 = rw selected (
    create_in_done 1 heap 1 popped (restored grows.0 popped) (restored grows.0 popped) 1 next_page
      evicts_again there one_pin)

other_page : page_0 ≢ new_page 1 1
other_page h = let e : 0 ≡ 1 = ap (λ (p : PageId). p.page_num) h in absurd (omega (arith, e))

create_page-shows_example :
    IsSound created
    × (view page_0 created ≡ view page_0 (new_pool 2 sm))
    × ((new_page 1 1).file_id ≡ suc zero)
    × (¬ Known (new_page 1 1) (new_pool 2 sm).storage_manager)
    × Known (new_page 1 1) created.storage_manager
    × ((bytes : PageBytes) × (view (new_page 1 1) created ≡ ok bytes)
        × Holds bytes []
        × (page_id bytes ≡ 1)
        × (page_kind bytes ≡ ok heap))
create_page-shows_example =
    create_page-shows 1 heap page_0 (new_pool 2 sm) created
      (record { page_id = new_page 1 1; frame = 1 }) start-IsSound creates_page_1 other_page
