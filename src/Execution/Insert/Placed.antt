-- ===== src/Execution/Insert/Placed.antt =====
-- A record put on the page under a guard, the second half of `try_insert_into_page` of
-- src/execution/insert.rs.
use db_rs.Base.{
  ℕ, ◌≡◌, ◌≢◌, ◌∙◌, ◌≤◌, ◌-◌, subst, refl, ap, inl, inr, arith, true, some, List, [], length, set,
  set-set, get_elem?, get_elem?-set_self, Result, ok, err, panic, Error, page_full, ◌>>=◌,
}
use db_rs.Page.{
  PageBytes, PageEntryId, heap, cast, insert, page_size, page_kind, page_id, header_size,
  entry_size,
}
use db_rs.Page.Layout.{Holds}
use db_rs.Page.Insert.{insert-Holds}
use db_rs.Storage.{PageId}
use db_rs.BufferPool.{Frame, BufferPool, PageGuard, update_data, borrow_data}
use db_rs.BufferPool.Guard.{change_page, close}
use db_rs.BufferPool.Sound.{IsSound}
use db_rs.BufferPool.Sound.Changes.{Keeps}
use db_rs.BufferPool.Sound.Pages.{Sets-updated}
use db_rs.BufferPool.Sound.Outcome.{Outcome, Failed}
use db_rs.BufferPool.Sound.Reach.{drop_guard-cases, drop_guard-Keeps}
use db_rs.Execution.Insert.{RecordId, put_record}

-- The pool once the guard's frame is marked as dirty, and once it has other bytes.
abbrev marked : PageGuard → Frame → BufferPool → BufferPool
marked guard frame pool = record pool {
  frames = set pool.frames guard.frame (record frame { dirty = true });
}

abbrev rewritten : PageGuard → Frame → PageBytes → BufferPool → BufferPool
rewritten guard frame bytes pool = record pool {
  frames = set pool.frames guard.frame (record frame { dirty = true; bytes = bytes });
}

-- `put_record` on what the page makes of the record.
abbrev recorded :
    PageGuard → Frame → BufferPool → Result (PageBytes × PageEntryId) → BufferPool × Result RecordId
recorded guard frame pool (ok (bytes, id)) =
    (rewritten guard frame bytes pool, ok (record { page = id.page; slot = id.slot }))
recorded guard frame pool (err e) = (marked guard frame pool, err e)
recorded guard frame pool panic = (marked guard frame pool, panic)

module _ (guard : PageGuard) (pool : BufferPool) {frame : Frame}
    (there : get_elem? pool.frames guard.frame ≡ some frame) where
  put_record-cast :
      (d : List ℕ) (r : Result PageBytes)
      → cast heap frame.bytes ≡ r
      → put_record d guard pool ≡ recorded guard frame pool (r >>= insert d)
  unfolding change_page update_data borrow_data
  put_record-cast d (err e) h =
      rw
        (there, get_elem?-set_self pool.frames guard.frame (record frame { dirty = true }) there, h)
        refl
  put_record-cast d panic h =
      rw
        (there, get_elem?-set_self pool.frames guard.frame (record frame { dirty = true }) there, h)
        refl
  put_record-cast d (ok page) h = inserted (insert d page) refl
    where
      inserted :
          (r : Result (PageBytes × PageEntryId))
          → insert d page ≡ r
          → put_record d guard pool ≡ recorded guard frame pool (insert d page)
      inserted (err e) k =
          rw
            (
              there,
              get_elem?-set_self pool.frames guard.frame (record frame { dirty = true }) there,
              h,
              k,
            )
            refl
      inserted panic k =
          rw
            (
              there,
              get_elem?-set_self pool.frames guard.frame (record frame { dirty = true }) there,
              h,
              k,
            )
            refl
      inserted (ok (bytes, id)) k =
          rw
            (
              there,
              get_elem?-set_self pool.frames guard.frame (record frame { dirty = true }) there,
              h,
              k,
              get_elem?-set_self pool.frames guard.frame (record frame { dirty = true }) there,
              set-set pool.frames guard.frame (record frame { dirty = true })
                  (record frame { dirty = true; bytes = bytes }),
            )
            refl

-- Closing a guard gives no new error, and keeps the pool sound.
close_ok :
    {A : Type 0} (guard : PageGuard) (pool : BufferPool) (a : A) (e : Error)
    → (close guard pool (ok a)).1 ≢ err e
close_ok guard pool a e h = elim (drop_guard-cases guard pool) [
  | inl (pool', d) ↦ let k : ok a ≡ err e = rw d at h in absurd cc
  | inr d ↦ let k : panic ≡ err e = rw d at h in absurd cc
]

close_panic :
    {A : Type 0} (guard : PageGuard) (pool : BufferPool) (e : Error)
    → (close {A = A} guard pool panic).1 ≢ err e
close_panic guard pool e h = cc

close_err :
    {A : Type 0} (guard : PageGuard) (pool : BufferPool) (x e : Error)
    → IsSound pool
    → (close {A = A} guard pool (err x)).1 ≡ err e
    → IsSound (close {A = A} guard pool (err x)).0
close_err guard pool x e s h = elim (drop_guard-cases guard pool) [
  | inl (pool', d) ↦
      let kept =
        subst (Outcome (λ u. Keeps pool) (Failed pool)) d
          (drop_guard-Keeps guard pool (Failed pool) s) in
      rw d kept.sound
  | inr d ↦ let k : panic ≡ err e = rw d at h in absurd cc
]

-- The outcome of `put_record` under a guard that is then dropped.
abbrev pub put_closed : List ℕ → PageGuard → BufferPool → BufferPool × Result RecordId
put_closed d guard pool = close guard (put_record d guard pool).0 (put_record d guard pool).1

module _ (guard : PageGuard) (pool : BufferPool) (s : IsSound pool) (d : List ℕ) {frame : Frame}
    {id : PageId} (there : get_elem? pool.frames guard.frame ≡ some frame)
    (page : frame.page_id ≡ some id) where
  marked-IsSound : IsSound (marked guard frame pool)
  marked-IsSound =
      (Sets-updated pool s guard.frame frame there id (record frame { dirty = true }) page page
        (s.frames guard.frame frame there).0 refl).sound

  recorded_full :
      (r : Result (PageBytes × PageEntryId))
      → (close guard (recorded guard frame pool r).0 (recorded guard frame pool r).1).1
        ≡ err page_full
      → IsSound (close guard (recorded guard frame pool r).0 (recorded guard frame pool r).1).0
  recorded_full (ok (bytes, entry)) h =
      absurd (close_ok guard (rewritten guard frame bytes pool) _ page_full h)
  recorded_full (err x) h = close_err guard (marked guard frame pool) x page_full marked-IsSound h
  recorded_full panic h = absurd cc

  -- Where the page is full, the pool is sound.
  pub put_closed_full :
      (put_closed d guard pool).1 ≡ err page_full → IsSound (put_closed d guard pool).0
  put_closed_full =
      let e = put_record-cast guard pool there d (cast heap frame.bytes) refl in
      rw e (recorded_full (cast heap frame.bytes >>= insert d))

  -- An empty heap page takes every record that passes the test of its size.
  pub put_closed_empty :
      Holds frame.bytes []
      → page_kind frame.bytes ≡ ok heap
      → length d ≤ page_size - header_size - entry_size
      → (put_closed d guard pool).1 ≢ err page_full
  put_closed_empty empty kind small =
      let (p', done, holds, number, same) = insert-Holds frame.bytes [] d empty (omega arith) in
      let taken : (cast heap frame.bytes >>= insert d)
          ≡ ok (p', record { page = page_id frame.bytes; slot = 0 }) =
        unfold cast in rw kind done in
      let e =
        put_record-cast guard pool there d (cast heap frame.bytes) refl
        ∙ ap (recorded guard frame pool) taken in
      rw e (λ h. close_ok guard (rewritten guard frame p' pool) _ page_full h)
