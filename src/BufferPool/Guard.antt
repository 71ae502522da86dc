-- ===== src/BufferPool/Guard.antt =====
-- Page guards in use: `cast_read` and `cast_write` of src/page/mod.rs with what their callers do to the
-- page (`as_catalog`, `as_catalog_mut`, `as_heap`, `as_heap_mut`, `with_heap`, `with_heap_mut` of
-- src/page/catalog.rs and src/page/heap.rs), and the scope at whose end a guard is dropped.
use db_rs.Base.{Result, ok, err, panic}
use db_rs.Page.{PageBytes, PageKind, cast}
use db_rs.BufferPool.{
  BufferPool, Pool, PageGuard, ◌>>=◌, ◌>>◌, give, borrow_data, update_data, drop_guard,
}

-- `cast_read`
unfoldable pub view_page : PageKind → PageGuard → Pool PageBytes
view_page kind guard = do bytes ← borrow_data guard; give (cast kind bytes)

abbrev keep_bytes {ℓ} : {A : Type ℓ} → PageGuard → PageBytes × A → Pool A
keep_bytes guard (bytes, a) = update_data guard (λ old. bytes) >> give (ok a)

-- `cast_write`, which marks the frame as dirty first, and a change of the page.
unfoldable pub change_page {ℓ} :
    {A : Type ℓ} → PageKind → PageGuard → (PageBytes → Result (PageBytes × A)) → Pool A
change_page kind guard change = do
  update_data guard (λ bytes. bytes)
  bytes ← borrow_data guard
  page ← give (cast kind bytes)
  changed ← give (change page)
  keep_bytes guard changed

-- The end of a guard's scope, on every way out but a panic.
abbrev pub close {ℓ} : {A : Type ℓ} → PageGuard → BufferPool → Result A → BufferPool × Result A
close guard pool (ok a) = (drop_guard guard >> give (ok a)) pool
close guard pool (err e) = (drop_guard guard >> give (err e)) pool
close guard pool panic = (pool, panic)

unfoldable pub with_guard {ℓ} : {A : Type ℓ} → Pool PageGuard → (PageGuard → Pool A) → Pool A
with_guard opens body = do
  guard ← opens
  λ pool. close guard (body guard pool).0 (body guard pool).1
