-- ===== src/Storage/Tests.antt =====
-- Files of pages, and the theorems on src/storage.rs at them.
use db_rs.Base.{
  subst, panic, sym, ap, ℕ, ◌≡◌, refl, [], ◌∷◌, arith, inl, length, replicate, length-replicate,
  Result, ok, err, page_not_found,
}
use db_rs.Page.{page_size, PageBytes}
use db_rs.Storage.{
  StorageManager, FileInfo, FilePath, PageId, fresh_footer, open_or_create_file, read_block,
  write_block, append_empty_block, get_next_page_id, set_num_pages, content,
}
use db_rs.Storage.File.{IsStored}
use db_rs.Storage.Blocks.{read_block-write_block, read_block-write_block_past}
use db_rs.Storage.Grow.{append_empty_block-IsStored}
use db_rs.Storage.Open.{open_or_create_file-new}

abbrev users : FilePath
users = 117 ∷ 46 ∷ 100 ∷ 98 ∷ []

abbrev no_files : StorageManager
no_files = record { disk = []; files = []; paths = []; next_id = 1 }

abbrev users_info : FileInfo
users_info = record { file = users; metadata = fresh_footer }

short_file : length (content no_files users) ≡ 0
unfolding content
short_file = refl

-- The manager with that file open.
abbrev opened : Result (StorageManager × ℕ) → StorageManager
opened (ok (sm, file_id)) = sm
opened (err e) = no_files
opened panic = no_files

abbrev made : StorageManager
made = opened (open_or_create_file users no_files)

made-IsStored : IsStored 1 users_info made
made-IsStored =
    let run = open_or_create_file-new users no_files refl (omega (arith, short_file)) in
    subst (λ sm. IsStored 1 users_info sm) (sym (ap opened run.1)) run.2

abbrev first_page : PageId
first_page = record { file_id = 1; page_num = 0 }

abbrev ones : PageBytes
ones = replicate page_size 1

length-ones : length ones ≡ page_size
length-ones = length-replicate {A = ℕ} page_size 1

read_block-write_block_example :
    (sm' : StorageManager) × (write_block first_page ones made ≡ ok sm')
    × (read_block first_page sm' ≡ ok ones)
    × (read_block (record { file_id = 1; page_num = 1 }) sm'
        ≡ read_block (record { file_id = 1; page_num = 1 }) made)
    × IsStored 1 users_info sm'
read_block-write_block_example =
    read_block-write_block first_page (record { file_id = 1; page_num = 1 }) ones made made-IsStored
      (omega arith) (omega arith) length-ones (inl (made-IsStored.found, λ e. cc))

read_block-write_block_past_example :
    (sm' : StorageManager) × (write_block (record { file_id = 1; page_num = 5 }) ones made ≡ ok sm')
    × (read_block (record { file_id = 1; page_num = 5 }) sm' ≡ err page_not_found)
read_block-write_block_past_example =
    read_block-write_block_past (record { file_id = 1; page_num = 5 }) ones made
      (made-IsStored.found) (omega (arith, made-IsStored.end)) (omega arith)

append_empty_block-IsStored_example :
    (sm' : StorageManager) × (append_empty_block 1 made ≡ ok (sm', 1))
    × (get_next_page_id 1 made ≡ ok (sm', 1))
    × IsStored 1 (set_num_pages 2 users_info) sm'
    × (read_block (record { file_id = 1; page_num = 1 }) sm' ≡ ok (replicate page_size 0))
    × (read_block first_page sm' ≡ read_block first_page made)
append_empty_block-IsStored_example =
    append_empty_block-IsStored 1 0 made made-IsStored (omega arith) (omega arith) (omega arith)

-- A second run of the program, which has opened nothing yet.
abbrev restarted : StorageManager
restarted = record { disk = made.disk; files = []; paths = []; next_id = 1 }
