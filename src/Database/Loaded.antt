-- ===== src/Database/Loaded.antt =====
-- The catalog that `Database::open` of src/database.rs loads through the buffer pool.
use db_rs.Base.{
  ℕ, true, ◌≡◌, ◌∙◌, refl, sym, ap, none, some, List, set, set-set, get_elem?, get_elem?-set_self,
  lookup, Result, ok, pos, negsuc, ◌+ℤ◌, check_i32,
}
use db_rs.Page.{PageBytes, PageKind, catalog, cast, page_kind}
use db_rs.Page.Layout.{Holds}
use db_rs.Storage.{PageId, read_block}
use db_rs.BufferPool.{Frame, BufferPool, PageGuard, same_page, update_data, borrow_data}
use db_rs.BufferPool.Access.{get_page}
use db_rs.BufferPool.Access.Load.{fresh}
use db_rs.BufferPool.Guard.{with_guard, change_page}
use db_rs.BufferPool.Sound.{IsSound, bytes_of, shown, view}
use db_rs.BufferPool.Sound.Loads.{HasRoom, get_page-loads}
use db_rs.BufferPool.Sound.Reach.{drop_guard-eq}
use db_rs.Catalog.{CatalogEntry}
use db_rs.Catalog.Manager.{CatalogManager, load_entries, load_page, get_table}
use db_rs.Catalog.Manager.Load.{Decode, last_named, load_page-get_table}
use db_rs.Database.{catalog_page_id, load_catalog}

-- The pool with another frame `i`.
abbrev framed : ℕ → Frame → BufferPool → BufferPool
framed i frame pool = record pool { frames = set pool.frames i frame }

-- A change of the page under a guard that goes well marks its frame as dirty and gives it the bytes.
change_page-eq :
    {A : Type 0} (kind : PageKind) (guard : PageGuard) (change : PageBytes → Result (PageBytes × A))
    (pool : BufferPool) (frame : Frame) (page bytes : PageBytes) (a : A)
    → get_elem? pool.frames guard.frame ≡ some frame
    → cast kind frame.bytes ≡ ok page
    → change page ≡ ok (bytes, a)
    → change_page kind guard change pool
      ≡ (framed guard.frame (record frame { dirty = true; bytes = bytes }) pool, ok a)
unfolding change_page update_data borrow_data
change_page-eq kind guard change pool frame page bytes a there casts changes =
    let marked : Frame = record frame { dirty = true } in
    let on = get_elem?-set_self pool.frames guard.frame marked there in
    rw
      (
        there,
        on,
        casts,
        changes,
        on,
        set-set pool.frames guard.frame marked (record marked { bytes = bytes }),
      )
      refl

-- The frame of the catalog page once it was loaded and its guard was dropped.
abbrev used_once : PageId → PageBytes → Frame
used_once id bytes = record (fresh id bytes) { pin_count = pos 0; dirty = true }

last_pin : check_i32 (pos 1 +ℤ negsuc 0) ≡ ok (pos 0)
unfolding ◌+ℤ◌
last_pin = refl

-- A guard that is used once: the page is loaded, changed, and left.
with_guard-eq :
    {A : Type 0} (id : PageId) (kind : PageKind) (change : PageBytes → Result (PageBytes × A))
    (pool pool' : BufferPool) (i : ℕ) (page bytes : PageBytes) (a : A)
    → get_page id pool ≡ (pool', ok (record { page_id = id; frame = i }))
    → get_elem? pool'.frames i ≡ some (fresh id page)
    → cast kind page ≡ ok page
    → change page ≡ ok (bytes, a)
    → with_guard (get_page id) (λ guard. change_page kind guard change) pool
      ≡ (framed i (used_once id bytes) pool', ok a)
unfolding with_guard
with_guard-eq id kind change pool pool' i page bytes a gets there casts changes =
    let guard : PageGuard = record { page_id = id; frame = i } in
    let changed : Frame = record (fresh id bytes) { dirty = true } in
    rw
      (
        gets,
        change_page-eq kind guard change pool' (fresh id page) page bytes a there casts changes,
        drop_guard-eq guard (framed i changed pool')
            (get_elem?-set_self pool'.frames i changed there) last_pin,
        set-set pool'.frames i changed (used_once id bytes),
      )
      refl

cast-kind :
    (kind : PageKind) (page : PageBytes) → page_kind page ≡ ok kind → cast kind page ≡ ok page
unfolding cast
cast-kind PageKind.catalog page h = rw h refl
cast-kind PageKind.heap page h = rw h refl

module _ (lossy : List ℕ → List ℕ) where
  load_page-cast :
      (page : PageBytes)
      → cast catalog page ≡ ok page
      → load_page lossy page ≡ load_entries lossy page
  unfolding load_page
  load_page-cast page h = rw h refl

  loads :
      (page : PageBytes) (manager : CatalogManager) (pool pool' : BufferPool) (i : ℕ)
      → get_page catalog_page_id pool
        ≡ (pool', ok (record { page_id = catalog_page_id; frame = i }))
      → get_elem? pool'.frames i ≡ some (fresh catalog_page_id page)
      → cast catalog page ≡ ok page
      → load_entries lossy page ≡ ok manager
      → load_catalog lossy pool ≡ (framed i (used_once catalog_page_id page) pool', ok manager)
  unfolding load_catalog
  loads page manager pool pool' i gets there casts entries =
      with_guard-eq catalog_page_id catalog _ pool pool' i page page manager gets there casts
        (rw entries refl)

  -- On a sound pool with a frame to spare, where the catalog page is in no frame and its block reads
  -- as a page that holds the bytes of some entries, loading the catalog succeeds: `get_table` then
  -- gives for a name the last of the entries with that name, and `None` where there is none, and the
  -- catalog page is shown as its block's bytes.
  pub load_catalog-get_table :
      (pool : BufferPool) (page : PageBytes) (rs : List (List ℕ)) (entries : List CatalogEntry)
      (name : List ℕ)
      → IsSound pool
      → HasRoom pool
      → lookup same_page catalog_page_id pool.page_table ≡ none
      → read_block catalog_page_id pool.storage_manager ≡ ok page
      → page_kind page ≡ ok catalog
      → Holds page rs
      → Decode lossy rs entries
      → (pool' : BufferPool) × (manager : CatalogManager) × (load_catalog lossy pool
          ≡ (pool', ok manager))
        × (get_table name manager ≡ last_named name entries)
        × (view catalog_page_id pool' ≡ ok page)
  load_catalog-get_table pool page rs entries name s room absent read kind holds decode =
      let (manager, run, last) = load_page-get_table lossy page rs entries name kind holds decode in
      let (pool', i, gets, free, there, mapped) =
        get_page-loads catalog_page_id pool page s room absent read in
      let casts = cast-kind catalog page kind in
      let after = used_once catalog_page_id page in
      (
        framed i after pool',
        manager,
        loads page manager pool pool' i gets there casts (sym (load_page-cast page casts) ∙ run),
        last,
        ap (shown (framed i after pool') catalog_page_id) mapped
            ∙ ap bytes_of (get_elem?-set_self pool'.frames i after there),
      )
