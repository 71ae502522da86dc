-- ===== src/BufferPool/Sound/GetPage.antt =====
-- All of `get_page` of src/buffer_pool.rs on a sound pool.
use db_rs.Base.{
  ℕ, ◌≡◌, ◌∙◌, subst, refl, sym, inl, inr, Option-cases, Option, none, some, get_elem?, set, lookup,
  Result, ok, err, panic, Error, pos, false,
}
use db_rs.Storage.{PageId}
use db_rs.BufferPool.{Frame, BufferPool, PageGuard, same_page}
use db_rs.BufferPool.Clock.{select_victim}
use db_rs.BufferPool.Evict.{evict_page}
use db_rs.BufferPool.Access.{get_page, miss, take_victim}
use db_rs.BufferPool.Access.Load.{miss_prepared}
use db_rs.BufferPool.Sound.{IsSound, view}
use db_rs.BufferPool.Sound.Changes.{Keeps, Keeps-join}
use db_rs.BufferPool.Sound.Outcome.{Failed, Outcome, Outcome-follow, Outcome-weaken}
use db_rs.BufferPool.Sound.Emptied.{Emptied, evict_page-Emptied}
use db_rs.BufferPool.Sound.Selected.{Kept, select_victim-Keeps}
use db_rs.BufferPool.Sound.Got.{Got, get_page_absent, hit-Got, load-Got}

miss_panic :
    (id : PageId) (i : ℕ) (pool pool' : BufferPool)
    → evict_page i pool ≡ (pool', panic)
    → miss id i pool ≡ (pool', panic)
unfolding miss
miss_panic id i pool pool' h = rw h refl

miss_err :
    (id : PageId) (i : ℕ) (pool pool' : BufferPool) (e : Error)
    → evict_page i pool ≡ (pool', err e)
    → miss id i pool ≡ (pool', err e)
unfolding miss
miss_err id i pool pool' e h = rw h refl

abbrev prepared : PageId → Frame → Frame
prepared id frame = record frame {
  page_id = some id;
  pin_count = pos 0;
  clock_flag = false;
  dirty = false;
}

-- The page is mapped already, which the code rules out by an assertion.
miss_mapped :
    (id : PageId) (i : ℕ) (pool pool' : BufferPool) {frame : Frame} {j : ℕ}
    → evict_page i pool ≡ (pool', ok tt)
    → get_elem? pool'.frames i ≡ some frame
    → lookup same_page id pool'.page_table ≡ some j
    → miss id i pool ≡ (record pool' { frames = set pool'.frames i (prepared id frame) }, panic)
unfolding miss
miss_mapped id i pool pool' evicts there h = rw (evicts, there, h) refl

miss_after :
    (id : PageId) (i : ℕ) (pool : BufferPool) (done : BufferPool × Result (Unit {0}))
    → evict_page i pool ≡ done
    → Outcome (λ u pool'. Emptied i pool pool') (Failed pool) done
    → Outcome (Got id pool) (Failed pool) (miss id i pool)
miss_after id i pool (pool', ok u) e h =
    elim (Option-cases (lookup same_page id pool'.page_table)) [
      | inl absent ↦
          rw (miss_prepared id i pool pool' e h.there absent) (load-Got id i pool pool' h absent)
      | inr (j, there) ↦ rw (miss_mapped id i pool pool' e h.there there) tt
    ]
miss_after id i pool (pool', err x) e h = rw (miss_err id i pool pool' x e) h
miss_after id i pool (pool', panic) e h = rw (miss_panic id i pool pool' e) tt

miss-Got :
    (id : PageId) (i : ℕ) (pool : BufferPool)
    → IsSound pool
    → Outcome (Got id pool) (Failed pool) (miss id i pool)
miss-Got id i pool s =
    miss_after id i pool (evict_page i pool) refl (evict_page-Emptied i pool (Failed pool) s)

Got-after :
    (id : PageId) (start pool : BufferPool) (guard : PageGuard) (pool' : BufferPool)
    → Keeps start pool
    → Got id pool guard pool'
    → Got id start guard pool'
Got-after id start pool guard pool' k h = record {
  keeps = Keeps-join start pool pool' k h.keeps;
  page = h.page;
  frame = h.frame;
  there = h.there;
  holds = h.holds;
  flagged = h.flagged;
  shows = sym (k.same id) ∙ h.shows;
}

take_victim-Got :
    (id : PageId) (start pool : BufferPool) (victim : Option ℕ)
    → Keeps start pool
    → Outcome (Got id start) (Failed start) (take_victim id victim pool)
take_victim-Got id start pool none k = k
take_victim-Got id start pool (some i) k =
    Outcome-weaken (Got id pool) (Got id start) (Failed pool) (Failed start) (miss id i pool)
      (miss-Got id i pool k.sound) (λ guard pool' h. Got-after id start pool guard pool' k h)
      (λ x pool' h. Keeps-join start pool pool' k h)

pub get_page-Got :
    (id : PageId) (pool : BufferPool)
    → IsSound pool
    → Outcome (Got id pool) (Failed pool) (get_page id pool)
get_page-Got id pool s = elim (Option-cases (lookup same_page id pool.page_table)) [
  | inr (i, mapped) ↦ hit-Got id pool i s mapped
  | inl absent ↦ rw (get_page_absent id pool absent) (
      Outcome-follow (Kept pool) (Got id pool) (Failed pool) (Failed pool) (select_victim pool)
        (take_victim id) (select_victim-Keeps pool (Failed pool) s) (λ x pool' h. h)
        (λ victim pool' k. take_victim-Got id pool pool' victim k))
]

-- On a sound pool, when `get_page` gives a guard, whatever it had to evict and load for it: the pool is
-- sound, every page is shown as before, and the guard is for the page and its frame holds the page and
-- the bytes that were shown for it.
pub get_page-shows :
    (id other : PageId) (pool pool' : BufferPool) (guard : PageGuard)
    → IsSound pool
    → get_page id pool ≡ (pool', ok guard)
    → IsSound pool'
      × (view other pool' ≡ view other pool)
      × (guard.page_id ≡ id)
      × ((frame : Frame) × (get_elem? pool'.frames guard.frame ≡ some frame)
          × (frame.page_id ≡ some id)
          × (view id pool ≡ ok frame.bytes))
get_page-shows id other pool pool' guard s e =
    let h = subst (Outcome (Got id pool) (Failed pool)) e (get_page-Got id pool s) in
    (h.keeps.sound, h.keeps.same other, h.page, (h.frame, h.there, h.holds, h.shows))

-- On a sound pool, when `get_page` gives an error, the pool is sound and every page is shown as
-- before.
pub get_page-err :
    (id other : PageId) (pool pool' : BufferPool) (e : Error)
    → IsSound pool
    → get_page id pool ≡ (pool', err e)
    → IsSound pool' × (view other pool' ≡ view other pool)
get_page-err id other pool pool' e s done =
    let h = subst (Outcome (Got id pool) (Failed pool)) done (get_page-Got id pool s) in
    (h.sound, h.same other)
