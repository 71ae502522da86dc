-- ===== src/BufferPool/Sound/Reach.antt =====
-- The buffer pool of src/buffer_pool.rs as a state machine: a step is an operation that does not panic.
use db_rs.Base.{
  Error, ℕ, zero, suc, ◌≡◌, ◌≢◌, ◌⊎◌, ◌∙◌, subst, refl, sym, ap, inl, inr, Option-cases, none, some,
  [], replicate, length, length-replicate, get_elem?, set, Result, ok, err, panic, ℤ, negsuc, ◌+ℤ◌,
  check_i32, true,
}
use db_rs.Page.{PageBytes, PageKind, page_size}
use db_rs.Storage.{StorageManager, PageId}
use db_rs.Storage.Managed.{IsManaged}
use db_rs.BufferPool.{
  Frame, BufferPool, PageGuard, default_frame, new_pool, unpin, update_data, drop_guard,
}
use db_rs.BufferPool.Evict.{flush_all}
use db_rs.BufferPool.Access.{get_page, create_page}
use db_rs.BufferPool.Sound.{IsSound, FrameHolds}
use db_rs.BufferPool.Sound.Changes.{Keeps, Keeps-touch}
use db_rs.BufferPool.Sound.Pages.{Sets, Sets-updated}
use db_rs.BufferPool.Sound.Outcome.{Failed, NotFull, Outcome}
use db_rs.BufferPool.Sound.Got.{Got, check_i32-cases}
use db_rs.BufferPool.Sound.GetPage.{get_page-Got}
use db_rs.BufferPool.Sound.CreatePage.{Created}
use db_rs.BufferPool.Sound.Created.{create_page-Created}
use db_rs.BufferPool.Sound.Flush.{flush_all-durable}

-- An operation on the pool. A page is changed under a guard, by bytes of its length.
pub data Step (pool : BufferPool) : BufferPool → Type 0 where
  gets :
      (id : PageId) (pool' : BufferPool) (r : Result PageGuard)
      → r ≢ panic
      → get_page id pool ≡ (pool', r)
      → Step pool pool'
  creates :
      (file_id : ℕ) (kind : PageKind) (pool' : BufferPool) (r : Result PageGuard)
      → r ≢ panic
      → create_page file_id kind pool ≡ (pool', r)
      → Step pool pool'
  changes :
      (guard : PageGuard) (change : PageBytes → PageBytes) (frame : Frame) (id : PageId)
      (pool' : BufferPool)
      → get_elem? pool.frames guard.frame ≡ some frame
      → frame.page_id ≡ some id
      → length (change frame.bytes) ≡ page_size
      → update_data guard change pool ≡ (pool', ok tt)
      → Step pool pool'
  drops :
      (guard : PageGuard) (pool' : BufferPool)
      → drop_guard guard pool ≡ (pool', ok tt)
      → Step pool pool'
  flushes : (pool' : BufferPool) → flush_all pool ≡ (pool', ok tt) → Step pool pool'

pub data Reach (start : BufferPool) : BufferPool → Type 0 where
  here : Reach start start
  after : (pool pool' : BufferPool) → Reach start pool → Step pool pool' → Reach start pool'

update_data-eq :
    (guard : PageGuard) (change : PageBytes → PageBytes) (pool : BufferPool) {frame : Frame}
    → get_elem? pool.frames guard.frame ≡ some frame
    → update_data guard change pool ≡ (
      record pool {
        frames =
            set pool.frames guard.frame (record frame { bytes = change frame.bytes; dirty = true });
      },
      ok tt,
    )
unfolding update_data
update_data-eq guard change pool there = rw there refl

-- Changing the page under a guard.
pub update_data-Sets :
    (guard : PageGuard) (change : PageBytes → PageBytes) (pool : BufferPool) {frame : Frame}
    (id : PageId) (pool' : BufferPool)
    → IsSound pool
    → get_elem? pool.frames guard.frame ≡ some frame
    → frame.page_id ≡ some id
    → length (change frame.bytes) ≡ page_size
    → update_data guard change pool ≡ (pool', ok tt)
    → Sets id (change frame.bytes) pool pool'
update_data-Sets guard change pool {frame} id pool' s there page full e =
    subst (Sets id (change frame.bytes) pool)
      (ap (λ x. x.0) (sym (update_data-eq guard change pool there) ∙ e))
      (Sets-updated pool s guard.frame frame there id
        (record frame { bytes = change frame.bytes; dirty = true }) page page full refl)

pub drop_guard-eq :
    (guard : PageGuard) (pool : BufferPool) {frame : Frame} {pins : ℤ}
    → get_elem? pool.frames guard.frame ≡ some frame
    → check_i32 (frame.pin_count +ℤ negsuc 0) ≡ ok pins
    → drop_guard guard pool ≡ (
      record pool { frames = set pool.frames guard.frame (record frame { pin_count = pins }) },
      ok tt,
    )
unfolding drop_guard unpin
drop_guard-eq guard pool there counted = rw (there, counted) refl

drop_guard_full :
    (guard : PageGuard) (pool : BufferPool) {frame : Frame}
    → get_elem? pool.frames guard.frame ≡ some frame
    → check_i32 (frame.pin_count +ℤ negsuc 0) ≡ panic
    → drop_guard guard pool ≡ (pool, panic)
unfolding drop_guard unpin
drop_guard_full guard pool there counted = rw (there, counted) refl

drop_guard_nowhere :
    (guard : PageGuard) (pool : BufferPool)
    → get_elem? pool.frames guard.frame ≡ none
    → drop_guard guard pool ≡ (pool, panic)
unfolding drop_guard unpin
drop_guard_nowhere guard pool there = rw there refl

-- A guard is dropped, or that panics.
pub drop_guard-cases :
    (guard : PageGuard) (pool : BufferPool)
    → ((pool' : BufferPool) × (drop_guard guard pool ≡ (pool', ok tt)))
      ⊎ (drop_guard guard pool ≡ (pool, panic))
drop_guard-cases guard pool = elim (Option-cases (get_elem? pool.frames guard.frame)) [
  | inl h ↦ inr (drop_guard_nowhere guard pool h)
  | inr (frame, there) ↦ elim (check_i32-cases (frame.pin_count +ℤ negsuc 0)) [
    | inr full ↦ inr (drop_guard_full guard pool there full)
    | inl (pins, counted) ↦ inl (_, drop_guard-eq guard pool there counted)
  ]
]

pub drop_guard-Keeps :
    (guard : PageGuard) (pool : BufferPool) (E : Error → BufferPool → Type 0)
    → IsSound pool
    → Outcome (λ u. Keeps pool) E (drop_guard guard pool)
drop_guard-Keeps guard pool E s = elim (Option-cases (get_elem? pool.frames guard.frame)) [
  | inl h ↦ rw (drop_guard_nowhere guard pool h) tt
  | inr (frame, there) ↦ elim (check_i32-cases (frame.pin_count +ℤ negsuc 0)) [
    | inr full ↦ rw (drop_guard_full guard pool there full) tt
    | inl (pins, counted) ↦ rw (drop_guard-eq guard pool there counted) (
        Keeps-touch pool s guard.frame frame there (record frame { pin_count = pins })
          pool.page_table refl refl refl (λ q. refl))
  ]
]

Got-IsSound :
    (id : PageId) (pool pool' : BufferPool) (r : Result PageGuard)
    → r ≢ panic
    → Outcome (Got id pool) (Failed pool) (pool', r)
    → IsSound pool'
Got-IsSound id pool pool' (ok guard) ne h = h.keeps.sound
Got-IsSound id pool pool' (err e) ne h = h.sound
Got-IsSound id pool pool' panic ne h = absurd (ne refl)

Created-IsSound :
    (file_id : ℕ) (kind : PageKind) (pool pool' : BufferPool) (r : Result PageGuard)
    → r ≢ panic
    → Outcome (Created file_id kind pool) (NotFull pool) (pool', r)
    → IsSound pool'
Created-IsSound file_id kind pool pool' (ok guard) ne h = h.sets.sound
Created-IsSound file_id kind pool pool' (err e) ne h = h.1.sound
Created-IsSound file_id kind pool pool' panic ne h = absurd (ne refl)

Step-IsSound : (pool pool' : BufferPool) → IsSound pool → Step pool pool' → IsSound pool'
Step-IsSound pool pool' s (gets id _ r ne e) =
    Got-IsSound id pool pool' r ne
      (subst (Outcome (Got id pool) (Failed pool)) e (get_page-Got id pool s))
Step-IsSound pool pool' s (creates file_id kind _ r ne e) =
    Created-IsSound file_id kind pool pool' r ne (
      subst (Outcome (Created file_id kind pool) (NotFull pool)) e
        (create_page-Created file_id kind pool s))
Step-IsSound pool pool' s (changes guard change frame id _ there page full e) =
    (update_data-Sets guard change pool id pool' s there page full e).sound
Step-IsSound pool pool' s (drops guard _ e) =
    (subst (Outcome (λ u. Keeps pool) (Failed pool)) e
      (drop_guard-Keeps guard pool (Failed pool) s)).sound
Step-IsSound pool pool' s (flushes _ e) =
    let (done, gives, sound, same, reads) =
      flush_all-durable pool (record { file_id = 0; page_num = 0 }) s in
    subst IsSound (ap (λ x. x.0) (sym gives ∙ e)) sound

-- Whatever operations are carried out on a sound pool, as long as none of them panics, the pool stays
-- sound: the page table and the frames agree, and a clean frame has the bytes of its page's block.
pub Reach-IsSound : (start pool : BufferPool) → IsSound start → Reach start pool → IsSound pool
Reach-IsSound start pool s here = s
Reach-IsSound start pool s (after pool₁ _ r step) =
    Step-IsSound pool₁ pool (Reach-IsSound start pool₁ s r) step

get_elem?-replicate :
    (n i : ℕ) (frame : Frame)
    → get_elem? (replicate n default_frame) i ≡ some frame
    → frame ≡ default_frame
get_elem?-replicate zero i frame h = absurd cc
get_elem?-replicate (suc n) zero frame h = cc
get_elem?-replicate (suc n) (suc i) frame h = get_elem?-replicate n i frame h

-- A new pool over stored files is sound.
pub new_pool-IsSound :
    (frames : ℕ) (sm : StorageManager) → IsManaged sm → IsSound (new_pool frames sm)
unfolding new_pool
new_pool-IsSound frames sm m = record {
  managed = m;
  frames = λ i frame h.
      subst (λ (f : Frame). (length f.bytes ≡ page_size) × FrameHolds sm [] i f f.page_id)
        (sym (get_elem?-replicate frames i frame h)) (length-replicate {A = ℕ} page_size 0, refl);
  mapped = λ id i h. absurd cc;
}
