-- ===== src/BufferPool/Sound/Again.antt =====
-- `get_page` of src/buffer_pool.rs on a page that a guard has already, and the guard's drop.
use db_rs.Base.{
  ℕ, suc, ◌≡◌, ◌<◌, ◌^◌, sym, ap, ◌∙◌, subst, some, set, set-set, set-get_elem?, get_elem?,
  get_elem?-set_self, Result, ok, pos, negsuc, ◌+ℤ◌, check_i32, arith,
}
use db_rs.Storage.{PageId}
use db_rs.BufferPool.{Frame, BufferPool, PageGuard, drop_guard}
use db_rs.BufferPool.Access.{get_page}
use db_rs.BufferPool.Access.Load.{get_page_hit}
use db_rs.BufferPool.Sound.{IsSound}
use db_rs.BufferPool.Sound.Changes.{page_mapped}
use db_rs.BufferPool.Sound.Outcome.{Outcome, Failed}
use db_rs.BufferPool.Sound.Got.{Got}
use db_rs.BufferPool.Sound.GetPage.{get_page-Got}
use db_rs.BufferPool.Sound.Reach.{drop_guard-eq}

one_more : (n : ℕ) → suc n < 2 ^ 31 → check_i32 (pos n +ℤ pos 1) ≡ ok (pos (suc n))
unfolding ◌+ℤ◌
one_more n h = ground arith

one_less : (n : ℕ) → suc n < 2 ^ 31 → check_i32 (pos (suc n) +ℤ negsuc 0) ≡ ok (pos n)
unfolding ◌+ℤ◌
one_less n h = ground arith

-- The pool with `n` pins on a frame.
abbrev with_pins : ℕ → Frame → ℕ → BufferPool → BufferPool
with_pins i frame n pool = record pool {
  frames = set pool.frames i (record frame { pin_count = pos n });
}

pinned_again :
    (id : PageId) (start pool : BufferPool) (guard : PageGuard) (frame : Frame) (n : ℕ)
    → Got id start guard pool
    → get_elem? pool.frames guard.frame ≡ some frame
    → frame.pin_count ≡ pos n
    → suc n < 2 ^ 31
    → get_page id pool ≡ (with_pins guard.frame frame (suc n) pool, ok guard)
pinned_again id start pool guard frame n h there pins room =
    let same : h.frame ≡ frame = cc in
    let page = ap (λ (f : Frame). f.page_id) (sym same) ∙ h.holds in
    let flag = ap (λ (f : Frame). f.clock_flag) (sym same) ∙ h.flagged in
    let mapped = (page_mapped pool h.keeps.sound guard.frame frame there id page).0 in
    get_page_hit id pool guard.frame mapped there
      (ap (λ p. check_i32 (p +ℤ pos 1)) pins ∙ one_more n room)
    ∙ ap
        (λ b. (
          record pool {
            frames =
                set pool.frames guard.frame
                  (record frame { pin_count = pos (suc n); clock_flag = b });
          },
          ok (record { page_id = id; frame = guard.frame }),
        ))
        (sym flag)
    ∙ ap
        (λ p. (
          with_pins guard.frame frame (suc n) pool,
          ok (record { page_id = p; frame = guard.frame }),
        ))
        (sym h.page)

unpinned_again :
    (pool : BufferPool) (guard : PageGuard) (frame : Frame) (n : ℕ)
    → get_elem? pool.frames guard.frame ≡ some frame
    → frame.pin_count ≡ pos n
    → suc n < 2 ^ 31
    → drop_guard guard (with_pins guard.frame frame (suc n) pool) ≡ (pool, ok tt)
unpinned_again pool guard frame n there pins room =
    let more : Frame = record frame { pin_count = pos (suc n) } in
    drop_guard-eq guard (with_pins guard.frame frame (suc n) pool)
      (get_elem?-set_self pool.frames guard.frame more there) (one_less n room)
    ∙ ap (λ fs. (record pool { frames = fs }, ok tt))
        (set-set pool.frames guard.frame more (record frame { pin_count = pos n })
          ∙ ap (λ p. set pool.frames guard.frame (record frame { pin_count = p })) (sym pins)
          ∙ set-get_elem? pool.frames guard.frame there)

-- Once `get_page` gave a guard on a sound pool, the page is in its frame: getting it again gives the
-- same guard and adds one pin, as long as the pins stay an i32, changes nothing else, and
-- dropping the second guard gives back the pool.
pub get_page-drop_guard :
    (id : PageId) (pool pool' : BufferPool) (guard : PageGuard) (frame : Frame) (n : ℕ)
    → IsSound pool
    → get_page id pool ≡ (pool', ok guard)
    → get_elem? pool'.frames guard.frame ≡ some frame
    → frame.pin_count ≡ pos n
    → suc n < 2 ^ 31
    → (get_page id pool' ≡ (
      record pool' {
        frames = set pool'.frames guard.frame (record frame { pin_count = pos (suc n) });
      },
      ok guard,
    ))
      × (drop_guard guard (get_page id pool').0 ≡ (pool', ok tt))
get_page-drop_guard id pool pool' guard frame n s e there pins room =
    let h = subst (Outcome (Got id pool) (Failed pool)) e (get_page-Got id pool s) in
    let again = pinned_again id pool pool' guard frame n h there pins room in
    (
      again,
      ap (λ (done : BufferPool × Result PageGuard). drop_guard guard done.0) again
          ∙ unpinned_again pool' guard frame n there pins room,
    )
