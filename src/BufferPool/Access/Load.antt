-- ===== src/BufferPool/Access/Load.antt =====
-- `get_page` of src/buffer_pool.rs on a page that is in a frame, and on one that is not.
use db_rs.Base.{
  lookup-remove_key_self, Bool-cases, ==_iff, ==_refl, ◌==◌, ap₂, ◌↔◌, inl, inr, sym, ℕ, ◌≡◌, refl,
  ap, ◌∙◌, true, false, some, none, List, set, get_elem?, get_elem?-set_self, set-set, lookup,
  insert_key, remove_key, ℤ, ok, err, Error, pos, ◌+ℤ◌, check_i32,
}
use db_rs.Page.{PageBytes}
use db_rs.Storage.{PageId, read_block}
use db_rs.BufferPool.{Frame, BufferPool, same_page, pin, unpin}
use db_rs.BufferPool.Clock.{select_victim}
use db_rs.BufferPool.Evict.{evict_page}
use db_rs.BufferPool.Access.{get_page, miss, load, undo_load}

-- A page that is in a frame is not read again: its frame gets one more pin and its flag.
pub get_page_hit :
    (id : PageId) (pool : BufferPool) (i : ℕ) {frame : Frame} {pins : ℤ}
    → lookup same_page id pool.page_table ≡ some i
    → get_elem? pool.frames i ≡ some frame
    → check_i32 (frame.pin_count +ℤ pos 1) ≡ ok pins
    → get_page id pool ≡ (
      record pool {
        frames = set pool.frames i (record frame { pin_count = pins; clock_flag = true });
      },
      ok (record { page_id = id; frame = i }),
    )
unfolding get_page pin
get_page_hit id pool i mapped there counted = rw (mapped, there, counted) refl

-- The frame of a page that was just mapped to it, with the bytes it had.
abbrev pub fresh : PageId → PageBytes → Frame
fresh id bytes = record {
  bytes = bytes;
  page_id = some id;
  pin_count = pos 1;
  clock_flag = true;
  dirty = false;
}

abbrev loading : PageId → Frame → Frame
loading id frame = record frame {
  page_id = some id;
  pin_count = pos 0;
  clock_flag = false;
  dirty = false;
}

-- A pool whose frame `i` is `frame` and whose page table has `table`.
abbrev pub with_frame : ℕ → Frame → List (PageId × ℕ) → BufferPool → BufferPool
with_frame i frame table pool = record pool { frames = set pool.frames i frame; page_table = table }

pub miss_prepared :
    (id : PageId) (i : ℕ) (pool pool' : BufferPool) {frame : Frame}
    → evict_page i pool ≡ (pool', ok tt)
    → get_elem? pool'.frames i ≡ some frame
    → lookup same_page id pool'.page_table ≡ none
    → miss id i pool
      ≡ load id i
          (with_frame i (fresh id frame.bytes) (insert_key same_page id i pool'.page_table) pool')
unfolding miss pin ◌+ℤ◌
miss_prepared id i pool pool' {frame} evicts there free =
    let on = get_elem?-set_self pool'.frames i in
    rw
      (
        evicts,
        there,
        free,
        on (loading id frame) there,
        set-set pool'.frames i (loading id frame) (fresh id frame.bytes),
      )
      refl

-- The frame of a page that could not be read.
abbrev pub idle : PageBytes → Frame
idle bytes = record {
  bytes = bytes;
  page_id = none;
  pin_count = pos 0;
  clock_flag = true;
  dirty = false;
}

pub same_page_iff : (a b : PageId) → (same_page a b ≡ true) ↔ (a ≡ b)
same_page_iff a b = (
  λ h. elim (Bool-cases (a.file_id == b.file_id)) [
    | inl e ↦
        let same = (==_iff a.page_num b.page_num).0 (rw e at h) in
        ap₂ (λ f n. record { file_id = f; page_num = n }) ((==_iff a.file_id b.file_id).0 e) same
    | inr e ↦ let k : false ≡ true = rw e at h in cc
  ],
  λ e. ap (λ c. same_page a c) (sym e) ∙ rw (==_refl a.file_id, ==_refl a.page_num),
)

get_page_misses :
    (id : PageId) (pool pool₁ : BufferPool) {i : ℕ}
    → lookup same_page id pool.page_table ≡ none
    → select_victim pool ≡ (pool₁, ok (some i))
    → get_page id pool ≡ miss id i pool₁
unfolding get_page
get_page_misses id pool pool₁ absent selected = rw (absent, selected) refl

pub load_ok :
    (id : PageId) (i : ℕ) (pool : BufferPool) (bytes old : PageBytes) (table : List (PageId × ℕ))
    {frame : Frame}
    → get_elem? pool.frames i ≡ some frame
    → read_block id pool.storage_manager ≡ ok bytes
    → load id i (with_frame i (fresh id old) table pool)
      ≡ (with_frame i (fresh id bytes) table pool, ok (record { page_id = id; frame = i }))
unfolding load
load_ok id i pool bytes old table there read =
    rw
      (
        read,
        get_elem?-set_self pool.frames i (fresh id old) there,
        set-set pool.frames i (fresh id old) (fresh id bytes),
      )
      refl

pub load_err :
    (id : PageId) (i : ℕ) (pool : BufferPool) (old : PageBytes) (table : List (PageId × ℕ))
    (e : Error) {frame : Frame}
    → get_elem? pool.frames i ≡ some frame
    → read_block id pool.storage_manager ≡ err e
    → load id i (with_frame i (fresh id old) table pool)
      ≡ (with_frame i (idle old) (remove_key same_page id table) pool, err e)
unfolding load undo_load unpin ◌+ℤ◌
load_err id i pool old table e there read =
    let unpinned : Frame = record (fresh id old) { pin_count = pos 0 } in
    rw
      (
        read,
        get_elem?-set_self pool.frames i (fresh id old) there,
        set-set pool.frames i (fresh id old) unpinned,
        get_elem?-set_self pool.frames i unpinned there,
        set-set pool.frames i unpinned (idle old),
      )
      refl

-- Where a page is in no frame and frame `i` was selected and evicted for it, and its block can be
-- read, the frame then holds the block's bytes, clean and with one pin, and the page table maps the
-- page to it.
pub get_page_miss :
    (id : PageId) (pool pool₁ pool₂ : BufferPool) (i : ℕ) {frame : Frame} {bytes : PageBytes}
    → lookup same_page id pool.page_table ≡ none
    → select_victim pool ≡ (pool₁, ok (some i))
    → evict_page i pool₁ ≡ (pool₂, ok tt)
    → get_elem? pool₂.frames i ≡ some frame
    → lookup same_page id pool₂.page_table ≡ none
    → read_block id pool₂.storage_manager ≡ ok bytes
    → get_page id pool ≡ (
      with_frame i (fresh id bytes) (insert_key same_page id i pool₂.page_table) pool₂,
      ok (record { page_id = id; frame = i }),
    )
get_page_miss id pool pool₁ pool₂ i {frame} {bytes} absent selected evicts there free read =
    get_page_misses id pool pool₁ absent selected
    ∙ miss_prepared id i pool₁ pool₂ evicts there free
    ∙ load_ok id i pool₂ bytes frame.bytes (insert_key same_page id i pool₂.page_table) there read

-- Where a page is in no frame and frame `i` was selected and evicted for it, but its block cannot be
-- read, `get_page` gives the error of the read and leaves the frame without a page and without a
-- pin, and the page out of the page table.
pub get_page_miss_err :
    (id : PageId) (pool pool₁ pool₂ : BufferPool) (i : ℕ) {frame : Frame} {e : Error}
    → lookup same_page id pool.page_table ≡ none
    → select_victim pool ≡ (pool₁, ok (some i))
    → evict_page i pool₁ ≡ (pool₂, ok tt)
    → get_elem? pool₂.frames i ≡ some frame
    → lookup same_page id pool₂.page_table ≡ none
    → read_block id pool₂.storage_manager ≡ err e
    → (pool' : BufferPool) × (get_page id pool ≡ (pool', err e))
      × (get_elem? pool'.frames i ≡ some (idle frame.bytes))
      × (lookup same_page id pool'.page_table ≡ none)
get_page_miss_err id pool pool₁ pool₂ i {frame} {e} absent selected evicts there free read =
    let table = insert_key same_page id i pool₂.page_table in
    (
      with_frame i (idle frame.bytes) (remove_key same_page id table) pool₂,
      get_page_misses id pool pool₁ absent selected
          ∙ miss_prepared id i pool₁ pool₂ evicts there free
          ∙ load_err id i pool₂ frame.bytes table e there read,
      get_elem?-set_self pool₂.frames i (idle frame.bytes) there,
      lookup-remove_key_self same_page same_page_iff id table,
    )
