-- ===== src/BufferPool/Sound/CreatePage.antt =====
-- `create_page` of src/buffer_pool.rs on a sound pool: the page is a new one of its file, it is shown
-- with an empty header, and every other page is shown as before.
use db_rs.Base.{
  ℕ, ◌≡◌, ◌≢◌, ◌∙◌, subst, refl, sym, ap, inl, inr, Option-cases, none, some, get_elem?,
  get_elem?-set_self, set, set-set, lookup, insert_key, ok, err, panic, Error, ℤ, pos, ◌+ℤ◌,
  check_i32, true,
}
use db_rs.Page.{PageBytes, PageKind}
use db_rs.Page.Header.{HasHeader}
use db_rs.Storage.{PageId}
use db_rs.Storage.Managed.{Known}
use db_rs.Storage.Managed.Grown.{HasGrown}
use db_rs.BufferPool.{Frame, BufferPool, PageGuard, same_page, pin}
use db_rs.BufferPool.Evict.{evict_page}
use db_rs.BufferPool.Access.{create_in, new_header, next_page_of}
use db_rs.BufferPool.Sound.{IsSound, view, shown, changed}
use db_rs.BufferPool.Sound.Changes.{page_mapped}
use db_rs.BufferPool.Sound.Pages.{Sets, restored, IsSound-restored}

abbrev pub new_page : ℕ → ℕ → PageId
new_page file_id page_num = record { file_id = file_id; page_num = page_num }

-- A guard for a page that was not one of the file, with an empty header.
pub record Created (file_id : ℕ) (kind : PageKind) (pool : BufferPool) (guard : PageGuard)
    (pool' : BufferPool) : Type 0 where
  pub page_num : ℕ
  pub bytes : PageBytes
  pub page : guard.page_id ≡ new_page file_id page_num
  pub fresh : ¬ Known (new_page file_id page_num) pool.storage_manager
  pub header : HasHeader bytes page_num kind 0
  pub sets : Sets (new_page file_id page_num) bytes pool pool'
  pub frame : Frame
  pub there : get_elem? pool'.frames guard.frame ≡ some frame
  pub holds : frame.page_id ≡ some (new_page file_id page_num)
  pub has : frame.bytes ≡ bytes

-- A page that is not one of an open file is in no frame.
pub unknown_absent :
    (id : PageId) (pool : BufferPool)
    → IsSound pool
    → ¬ Known id pool.storage_manager
    → lookup same_page id pool.page_table ≡ none
unknown_absent id pool s never = elim (Option-cases (lookup same_page id pool.page_table)) [
  | inl e ↦ e
  | inr (i, e) ↦
      let (frame, there, page) = s.mapped id i e in
      let (m, k, c) = page_mapped pool s i frame there id page in absurd (never k)
]

module _ (file_id : ℕ) (pool : BufferPool) (s : IsSound pool)
    (g : HasGrown file_id pool.storage_manager) where
  known_ne : (q : PageId) → Known q pool.storage_manager → q ≢ new_page file_id g.page_num
  known_ne q k e = g.fresh (subst (λ p. Known p pool.storage_manager) e k)

  pub grown-IsSound : IsSound (restored g.after pool)
  grown-IsSound = IsSound-restored pool g.after s g.managed g.known (λ q i frame there page read.
      let (m, k, c) = page_mapped pool s i frame there q page in g.others q (known_ne q k) ∙ read)

  pub view-grown :
      (q : PageId) → q ≢ new_page file_id g.page_num → view q (restored g.after pool) ≡ view q pool
  view-grown q ne = elim (Option-cases (lookup same_page q pool.page_table)) [
    | inl e ↦ ap (shown (restored g.after pool) q) e ∙ g.others q ne ∙ sym (ap (shown pool q) e)
    | inr (i, e) ↦ ap (shown (restored g.after pool) q) e ∙ sym (ap (shown pool q) e)
  ]

-- What `create_in` does once its frame is evicted.
abbrev pub filled : ℕ → PageKind → ℕ → ℤ → Frame → Frame
filled file_id kind page_num pins frame = record frame {
  dirty = true;
  page_id = some (new_page file_id page_num);
  pin_count = pins;
  clock_flag = true;
  bytes = new_header kind page_num frame.bytes;
}

module _ (file_id : ℕ) (kind : PageKind) (i : ℕ) (pool grown pool' : BufferPool) (page_num : ℕ)
    (next : next_page_of file_id pool ≡ (grown, ok page_num)) where
  pub create_in_evict_panic :
      evict_page i grown ≡ (pool', panic) → create_in file_id kind i pool ≡ (pool', panic)
  unfolding create_in
  create_in_evict_panic h = rw (next, h) refl

  pub create_in_evict_err :
      (e : Error)
      → evict_page i grown ≡ (pool', err e)
      → create_in file_id kind i pool ≡ (pool', err e)
  unfolding create_in
  create_in_evict_err e h = rw (next, h) refl

  abbrev pub named : Frame → Frame
  named frame = record frame { dirty = true; page_id = some (new_page file_id page_num) }

  pub create_in_pin_panic :
      {frame : Frame}
      → evict_page i grown ≡ (pool', ok tt)
      → get_elem? pool'.frames i ≡ some frame
      → check_i32 (frame.pin_count +ℤ pos 1) ≡ panic
      → create_in file_id kind i pool ≡ (
        record pool' {
          frames = set pool'.frames i (named frame);
          page_table = insert_key same_page (new_page file_id page_num) i pool'.page_table;
        },
        panic,
      )
  unfolding create_in pin
  create_in_pin_panic {frame} evicts there counted =
      rw (next, evicts, there, get_elem?-set_self pool'.frames i (named frame) there, counted) refl

  pub create_in_done :
      {frame : Frame} {pins : ℤ}
      → evict_page i grown ≡ (pool', ok tt)
      → get_elem? pool'.frames i ≡ some frame
      → check_i32 (frame.pin_count +ℤ pos 1) ≡ ok pins
      → create_in file_id kind i pool ≡ (
        changed i
            (filled file_id kind page_num pins frame)
            (insert_key same_page (new_page file_id page_num) i pool'.page_table)
            pool'.storage_manager
            pool',
        ok (record { page_id = new_page file_id page_num; frame = i }),
      )
  unfolding create_in pin
  create_in_done {frame} {pins} evicts there counted =
      let pinned : Frame = record (named frame) { pin_count = pins; clock_flag = true } in
      rw
        (
          next,
          evicts,
          there,
          get_elem?-set_self pool'.frames i (named frame) there,
          counted,
          set-set pool'.frames i (named frame) pinned,
          get_elem?-set_self pool'.frames i pinned there,
          set-set pool'.frames i pinned (filled file_id kind page_num pins frame),
        )
        refl
