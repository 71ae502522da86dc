-- ===== src/BufferPool/Sound/Emptied.antt =====
-- `evict_page` of src/buffer_pool.rs on a sound pool: it panics or empties the frame, and every page
-- is shown as before.
use db_rs.Base.{
  Error, ℕ, ◌≡◌, ◌≢◌, refl, sym, ap, ◌∙◌, inl, inr, Bool-cases, Option-cases, true, false, none,
  some, List, set, get_elem?, get_elem?-set_self, lookup, remove_key, lookup-remove_key_self,
  lookup-remove_key_ne, ok, panic, pos, eqb_ℤ, eqb_ℤ_iff,
}
use db_rs.Storage.{StorageManager, PageId, read_block, same_id}
use db_rs.Storage.Managed.{IsManaged, Known, write_block-IsManaged}
use db_rs.BufferPool.{Frame, BufferPool, same_page}
use db_rs.BufferPool.Evict.{evict_page}
use db_rs.BufferPool.Evict.WriteBack.{evicted, evict_page_dirty}
use db_rs.BufferPool.Access.Load.{same_page_iff}
use db_rs.BufferPool.Sound.{IsSound, FrameHolds}
use db_rs.BufferPool.Sound.Changes.{
  Keeps, Keeps-touch, Keeps-evicted, page_mapped, unmapped_clean, same_page_ne, page_cases,
}
use db_rs.BufferPool.Sound.Outcome.{Outcome}

-- Frame `i` is free for a page, and no page was mapped.
pub record Emptied (i : ℕ) (pool pool' : BufferPool) : Type 0 where
  pub keeps : Keeps pool pool'
  pub frame : Frame
  pub there : get_elem? pool'.frames i ≡ some frame
  pub empty : frame.page_id ≡ none
  pub clean : frame.dirty ≡ false
  pub absent :
      (q : PageId)
      → lookup same_page q pool.page_table ≡ none
      → lookup same_page q pool'.page_table ≡ none

-- `evict_page` by what the frame is.
evict_page_nowhere :
    (i : ℕ) (pool : BufferPool) → get_elem? pool.frames i ≡ none → evict_page i pool ≡ (pool, panic)
unfolding evict_page
evict_page_nowhere i pool h = rw h refl

evict_page_pinned :
    (i : ℕ) (pool : BufferPool) {frame : Frame}
    → get_elem? pool.frames i ≡ some frame
    → eqb_ℤ frame.pin_count (pos 0) ≡ false
    → evict_page i pool ≡ (pool, panic)
unfolding evict_page
evict_page_pinned i pool h p = rw (h, p) refl

abbrev emptied : Frame → Frame
emptied frame = record frame { dirty = false; clock_flag = false; page_id = none }

evict_page_empty :
    (i : ℕ) (pool : BufferPool) {frame : Frame}
    → get_elem? pool.frames i ≡ some frame
    → eqb_ℤ frame.pin_count (pos 0) ≡ true
    → frame.page_id ≡ none
    → evict_page i pool ≡ (record pool { frames = set pool.frames i (emptied frame) }, ok tt)
unfolding evict_page
evict_page_empty i pool h p e = rw (h, p, e) refl

evict_page_clean :
    (i : ℕ) (pool : BufferPool) {frame : Frame} {id : PageId}
    → get_elem? pool.frames i ≡ some frame
    → eqb_ℤ frame.pin_count (pos 0) ≡ true
    → frame.page_id ≡ some id
    → frame.dirty ≡ false
    → evict_page i pool ≡ (evicted i frame id pool.storage_manager pool, ok tt)
unfolding evict_page
evict_page_clean i pool h p e d = rw (h, p, e, d) refl

still_absent :
    (id q : PageId) (table : List (PageId × ℕ))
    → lookup same_page q table ≡ none
    → lookup same_page q (remove_key same_page id table) ≡ none
still_absent id q table h = elim (page_cases q id) [
  | inl e ↦
      ap (λ p. lookup same_page p (remove_key same_page id table)) e
      ∙ lookup-remove_key_self same_page same_page_iff id table
  | inr ne ↦
      lookup-remove_key_ne same_page same_page_iff id q table (same_page_ne id q (λ e. ne (sym e)))
      ∙ h
]

module _ (i : ℕ) (pool : BufferPool) (s : IsSound pool) (frame : Frame)
    (there : get_elem? pool.frames i ≡ some frame) where
  Emptied-touch :
      frame.page_id ≡ none
      → Emptied i pool (record pool { frames = set pool.frames i (emptied frame) })
  Emptied-touch e = record {
    keeps =
        Keeps-touch pool s i frame there (emptied frame) pool.page_table refl (sym e)
          (sym (unmapped_clean pool s i frame there e)) (λ q. refl);
    frame = emptied frame;
    there = get_elem?-set_self pool.frames i (emptied frame) there;
    empty = refl;
    clean = refl;
    absent = λ q h. h;
  }

  Emptied-evicted :
      (id : PageId) (sm : StorageManager)
      → frame.page_id ≡ some id
      → IsManaged sm
      → read_block id sm ≡ ok frame.bytes
      → ((q : PageId) → q ≢ id → read_block q sm ≡ read_block q pool.storage_manager)
      → ((q : PageId) → Known q pool.storage_manager → Known q sm)
      → Emptied i pool (evicted i frame id sm pool)
  Emptied-evicted id sm e managed reads others known = record {
    keeps =
        Keeps-evicted pool s i frame there id (emptied frame) sm e refl refl refl managed reads
          others known;
    frame = emptied frame;
    there = get_elem?-set_self pool.frames i (emptied frame) there;
    empty = refl;
    clean = refl;
    absent = λ q h. still_absent id q pool.page_table h;
  }

  evict_page_mapped :
      (id : PageId)
      → eqb_ℤ frame.pin_count (pos 0) ≡ true
      → frame.page_id ≡ some id
      → (pool' : BufferPool) × (evict_page i pool ≡ (pool', ok tt)) × Emptied i pool pool'
  evict_page_mapped id p e = elim (Bool-cases frame.dirty) [
    | inl dirty ↦
        let (m, k, c) = page_mapped pool s i frame there id e in
        let (sm', done, reads, others, files, managed) =
          write_block-IsManaged id frame.bytes pool.storage_manager s.managed k
            (s.frames i frame there).0 in
        (
          evicted i frame id sm' pool,
          evict_page_dirty i pool there ((eqb_ℤ_iff frame.pin_count (pos 0)).0 p) e dirty done,
          Emptied-evicted id sm' e managed reads others
              (λ q k. (k.0, ap (λ fs. lookup same_id q.file_id fs) files ∙ k.1, k.2)),
        )
    | inr clean ↦ (
      evicted i frame id pool.storage_manager pool,
      evict_page_clean i pool there p e clean,
      Emptied-evicted id pool.storage_manager e s.managed
          (read_clean clean (page_mapped pool s i frame there id e)) (λ q ne. refl) (λ q k. k),
    )
  ]
    where
      read_clean :
          frame.dirty ≡ false
          → FrameHolds pool.storage_manager pool.page_table i frame (some id)
          → read_block id pool.storage_manager ≡ ok frame.bytes
      read_clean d (m, k, inl d') = absurd cc
      read_clean d (m, k, inr r) = r

-- `evict_page` empties a frame of a sound pool that has no pin.
pub evict_page_unpinned :
    (i : ℕ) (pool : BufferPool) {frame : Frame}
    → IsSound pool
    → get_elem? pool.frames i ≡ some frame
    → eqb_ℤ frame.pin_count (pos 0) ≡ true
    → (pool' : BufferPool) × (evict_page i pool ≡ (pool', ok tt)) × Emptied i pool pool'
evict_page_unpinned i pool {frame} s there p = elim (Option-cases frame.page_id) [
  | inl e ↦ (_, evict_page_empty i pool there p e, Emptied-touch i pool s frame there e)
  | inr (id, e) ↦ evict_page_mapped i pool s frame there id p e
]

-- `evict_page` on a sound pool panics, where there is no such frame or it is pinned, or succeeds: the
-- frame then has no page and is clean, the pool is sound, every page is shown as before, and no page
-- was mapped.
pub evict_page-Emptied :
    (i : ℕ) (pool : BufferPool) (E : Error → BufferPool → Type 0)
    → IsSound pool
    → Outcome (λ u pool'. Emptied i pool pool') E (evict_page i pool)
evict_page-Emptied i pool E s = elim (Option-cases (get_elem? pool.frames i)) [
  | inl h ↦ rw (evict_page_nowhere i pool h) tt
  | inr (frame, there) ↦ elim (Bool-cases (eqb_ℤ frame.pin_count (pos 0))) [
    | inr p ↦ rw (evict_page_pinned i pool there p) tt
    | inl p ↦ let (pool', done, h) = evict_page_unpinned i pool s there p in rw done h
  ]
]
