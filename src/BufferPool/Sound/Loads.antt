-- ===== src/BufferPool/Sound/Loads.antt =====
-- `get_page` of src/buffer_pool.rs on a sound pool that has a frame to spare.
use db_rs.Base.{
  subst, ℕ, zero, suc, ◌≡◌, ◌<◌, refl, sym, ap, ◌∙◌, none, some, List, [], ◌∷◌, length, get_elem?,
  get_elem?-set_self, lookup, insert_key, lookup-insert_key_self, ok, pos, eqb_ℤ_iff,
}
use db_rs.Page.{PageBytes}
use db_rs.Storage.{PageId, read_block}
use db_rs.BufferPool.{Frame, BufferPool, same_page}
use db_rs.BufferPool.Clock.{select_victim}
use db_rs.BufferPool.Clock.Victim.{unflag, unflag_all}
use db_rs.BufferPool.Clock.Select.{select_victim_clock-IsVictim}
use db_rs.BufferPool.Access.{get_page}
use db_rs.BufferPool.Access.Load.{same_page_iff, fresh, with_frame, get_page_miss}
use db_rs.BufferPool.Sound.{IsSound, shown}
use db_rs.BufferPool.Sound.Outcome.{Outcome, Failed}
use db_rs.BufferPool.Sound.Emptied.{evict_page_unpinned}
use db_rs.BufferPool.Sound.Selected.{
  Kept, select_victim-Keeps, select_victim_free, select_victim_full,
}

-- Frame `i` is there and has no pin.
abbrev pub Unpinned : ℕ → BufferPool → Type 0
Unpinned i pool =
    (frame : Frame) × (get_elem? pool.frames i ≡ some frame) × (frame.pin_count ≡ pos 0)

-- The pool has a frame to spare: the next free frame is unpinned, or where there is no free frame, the
-- hand is on a frame and some frame is unpinned.
abbrev HasRoomIn : List ℕ → BufferPool → Type 0
HasRoomIn [] pool = (pool.clock_hand < length pool.frames) × ((i : ℕ) × Unpinned i pool)
HasRoomIn (i ∷ rest) pool = Unpinned i pool

abbrev pub HasRoom : BufferPool → Type 0
HasRoom pool = HasRoomIn pool.free_frames pool

unflag_all-pins :
    (fs gs : List Frame) (i : ℕ) {f : Frame}
    → unflag_all fs ≡ unflag_all gs
    → get_elem? fs i ≡ some f
    → (g : Frame) × (get_elem? gs i ≡ some g) × (g.pin_count ≡ f.pin_count)
unflag_all-pins [] gs i e h = absurd cc
unflag_all-pins (x ∷ fs) [] i e h = absurd cc
unflag_all-pins (x ∷ fs) (y ∷ gs) zero {f} e h =
    let same : unflag x ≡ unflag y = cc in
    let found : x ≡ f = cc in
    (y, refl, ap (λ (g : Frame). g.pin_count) (sym same) ∙ ap (λ (g : Frame). g.pin_count) found)
unflag_all-pins (x ∷ fs) (y ∷ gs) (suc i) e h =
    let rest : unflag_all fs ≡ unflag_all gs = cc in unflag_all-pins fs gs i rest h

-- A frame was selected, one without a pin, and pages are mapped as before.
record Selected (pool pool' : BufferPool) (v : ℕ) : Type 0 where
  runs : select_victim pool ≡ (pool', ok (some v))
  before : Unpinned v pool
  now : Unpinned v pool'
  table : pool'.page_table ≡ pool.page_table

selects :
    (pool : BufferPool) (free : List ℕ)
    → pool.free_frames ≡ free
    → HasRoomIn free pool
    → (pool' : BufferPool) × (v : ℕ) × Selected pool pool' v
selects pool [] e (hand, (i, (frame, there, unpinned))) =
    let (pool', v, run, victim) = select_victim_clock-IsVictim pool i hand there unpinned in
    let (g, was, pins) =
      unflag_all-pins pool'.frames pool.frames v (ap (λ (p : BufferPool). p.frames) victim.same)
        victim.there in
    (
      pool',
      v,
      record {
        runs = select_victim_full pool e ∙ run;
        before = (g, was, pins ∙ victim.unpinned);
        now = (victim.frame, victim.there, victim.unpinned);
        table = ap (λ (p : BufferPool). p.page_table) victim.same;
      },
    )
selects pool (i ∷ rest) e h = (
  record pool { free_frames = rest },
  i,
  record { runs = select_victim_free pool e; before = h; now = h; table = refl },
)

-- On a sound pool with a frame to spare, `get_page` gives a guard for a page that is in no frame and
-- whose block can be read. It takes a frame that had no pin, and that frame then holds the block's
-- bytes, clean, with one pin and its flag, and the page is mapped to it.
pub get_page-loads :
    (id : PageId) (pool : BufferPool) (bytes : PageBytes)
    → IsSound pool
    → HasRoom pool
    → lookup same_page id pool.page_table ≡ none
    → read_block id pool.storage_manager ≡ ok bytes
    → (pool' : BufferPool) × (i : ℕ) × (get_page id pool
        ≡ (pool', ok (record { page_id = id; frame = i })))
      × Unpinned i pool
      × (get_elem? pool'.frames i ≡ some (fresh id bytes))
      × (lookup same_page id pool'.page_table ≡ some i)
get_page-loads id pool bytes s room absent read =
    let (pool₁, i, h) = selects pool pool.free_frames refl room in
    let kept =
      subst (Outcome (Kept pool) (Failed pool)) h.runs (select_victim-Keeps pool (Failed pool) s) in
    let absent₁ = ap (lookup same_page id) h.table ∙ absent in
    let (frame, there, unpinned) = h.now in
    let (pool₂, evicts, e) =
      evict_page_unpinned i pool₁ kept.sound there
        ((eqb_ℤ_iff frame.pin_count (pos 0)).1 unpinned) in
    let absent₂ = e.absent id absent₁ in
    let read₂ : read_block id pool₂.storage_manager ≡ ok bytes =
      sym (ap (shown pool₂ id) absent₂)
      ∙ e.keeps.same id
      ∙ kept.same id
      ∙ ap (shown pool id) absent
      ∙ read in
    (
      with_frame i (fresh id bytes) (insert_key same_page id i pool₂.page_table) pool₂,
      i,
      get_page_miss id pool pool₁ pool₂ i absent h.runs evicts e.there absent₂ read₂,
      h.before,
      get_elem?-set_self pool₂.frames i (fresh id bytes) e.there,
      lookup-insert_key_self same_page same_page_iff id i pool₂.page_table,
    )
