-- ===== src/Execution/Insert/Full.antt =====
-- A round of the loop of `insert_record`, src/execution/insert.rs: the page that it finds or makes, and
-- the new page after a full one.
use db_rs.Base.{
  ℕ, ◌≡◌, ◌≢◌, ◌⊎◌, ◌∙◌, ◌≤◌, ◌-◌, subst, refl, sym, ap, inl, inr, none, some, List, [], length,
  get_elem?, Result, ok, err, panic, Error, page_full,
}
use db_rs.Page.{PageBytes, heap, page_size, page_kind, header_size, entry_size}
use db_rs.Page.Layout.{Holds}
use db_rs.Storage.{PageId}
use db_rs.BufferPool.{Frame, BufferPool, PageGuard}
use db_rs.BufferPool.Access.{get_page, create_page}
use db_rs.BufferPool.Guard.{with_guard, close}
use db_rs.BufferPool.Sound.{IsSound, view}
use db_rs.BufferPool.Sound.Changes.{Keeps}
use db_rs.BufferPool.Sound.Outcome.{Outcome, Failed, NotFull}
use db_rs.BufferPool.Sound.Got.{Got}
use db_rs.BufferPool.Sound.GetPage.{get_page-Got}
use db_rs.BufferPool.Sound.CreatePage.{Created, new_page}
use db_rs.BufferPool.Sound.Created.{create_page-Created, Created-empty}
use db_rs.BufferPool.Sound.Reach.{drop_guard-cases, drop_guard-Keeps}
use db_rs.Tables.Table.{Table}
use db_rs.Execution.Insert.{
  RecordId, State, or_create, get_or_create, placed, handle_full_page, moved, round_ends,
  after_full,
}
use db_rs.Execution.Insert.Placed.{put_closed_full, put_closed_empty}

-- A guard whose frame holds a page of a sound pool; `P` is what is known of its bytes.
pub record Ready (P : PageBytes → Type 0) (guard : PageGuard) (pool : BufferPool) : Type 0 where
  sound : IsSound pool
  frame : Frame
  id : PageId
  there : get_elem? pool.frames guard.frame ≡ some frame
  page : frame.page_id ≡ some id
  bytes : P frame.bytes

abbrev pub EmptyHeap : PageBytes → Type 0
EmptyHeap bytes = Holds bytes [] × (page_kind bytes ≡ ok heap)

abbrev pub AnyBytes : PageBytes → Type 0
AnyBytes bytes = Unit {0}

abbrev pub Refused : Error → BufferPool → Type 0
Refused e pool = e ≢ page_full

Created-Ready :
    (P : PageBytes → Type 0) (file_id : ℕ) (pool : BufferPool)
    (done : BufferPool × Result PageGuard)
    → ((bytes : PageBytes) → EmptyHeap bytes → P bytes)
    → Outcome (Created file_id heap pool) (NotFull pool) done
    → Outcome (Ready P) Refused done
Created-Ready P file_id pool (pool', ok guard) weaken h =
    let (empty, number, kind) = Created-empty file_id heap pool guard pool' h in
    record {
      sound = h.sets.sound;
      frame = h.frame;
      id = new_page file_id h.page_num;
      there = h.there;
      page = h.holds;
      bytes = subst P (sym h.has) (weaken h.bytes (empty, kind));
    }
Created-Ready P file_id pool (pool', err e) weaken h = h.0
Created-Ready P file_id pool (pool', panic) weaken h = tt

or_create-Ready :
    (P : PageBytes → Type 0) (id : PageId) (pool : BufferPool)
    (done : BufferPool × Result PageGuard)
    → ((bytes : PageBytes) → EmptyHeap bytes → P bytes)
    → ((bytes : PageBytes) → view id pool ≡ ok bytes → P bytes)
    → Outcome (Got id pool) (Failed pool) done
    → Outcome (Ready P) Refused (or_create id.file_id done.0 done.1)
or_create-Ready P id pool (pool', ok guard) weaken known h = record {
  sound = h.keeps.sound;
  frame = h.frame;
  id = id;
  there = h.there;
  page = h.holds;
  bytes = known h.frame.bytes h.shows;
}
or_create-Ready P id pool (pool', err e) weaken known h =
    Created-Ready P id.file_id pool' (create_page id.file_id heap pool') weaken
      (create_page-Created id.file_id heap pool' h.sound)
or_create-Ready P id pool (pool', panic) weaken known h = tt

pub get_or_create-Ready :
    (P : PageBytes → Type 0) (file_id page_num : ℕ) (pool : BufferPool)
    → IsSound pool
    → ((bytes : PageBytes) → EmptyHeap bytes → P bytes)
    → ((bytes : PageBytes) → view (new_page file_id page_num) pool ≡ ok bytes → P bytes)
    → Outcome (Ready P) Refused (get_or_create file_id page_num pool)
unfolding get_or_create
get_or_create-Ready P file_id page_num pool s weaken known =
    or_create-Ready P (new_page file_id page_num) pool (get_page (new_page file_id page_num) pool)
      weaken known (get_page-Got (new_page file_id page_num) pool s)

-- An attempt on a sound pool that finds its page full leaves it sound.
pub placed_full :
    (d : List ℕ) (table : Table) (done : BufferPool × Result PageGuard)
    → Outcome (Ready AnyBytes) Refused done
    → (placed table d done.0 done.1).1 ≡ err page_full
    → IsSound (placed table d done.0 done.1).0.1
unfolding with_guard
placed_full d table (pool, ok guard) h e = put_closed_full guard pool h.sound d h.there h.page e
placed_full d table (pool, err x) h e = absurd (h cc)
placed_full d table (pool, panic) h e = absurd cc

-- An attempt on an empty page does not find it full.
pub placed_empty :
    (d : List ℕ) (table : Table) (done : BufferPool × Result PageGuard)
    → length d ≤ page_size - header_size - entry_size
    → Outcome (Ready EmptyHeap) Refused done
    → (placed table d done.0 done.1).1 ≢ err page_full
unfolding with_guard
placed_empty d table (pool, ok guard) small h =
    put_closed_empty guard pool h.sound d h.there h.page h.bytes.0 h.bytes.1 small
placed_empty d table (pool, err x) small h = λ e. h cc
placed_empty d table (pool, panic) small h = λ e. cc

pub round_cases :
    (r : Result RecordId) → ((x : Result RecordId) × (round_ends r ≡ some x)) ⊎ (r ≡ err page_full)
round_cases (ok id) = inl (ok id, refl)
round_cases panic = inl (panic, refl)
round_cases (err Error.page_full) = inr refl
round_cases (err (Error.table_not_found name)) = inl (err (Error.table_not_found name), refl)
round_cases (err (Error.input_error e)) = inl (err (Error.input_error e), refl)
round_cases (err Error.slice_cast) = inl (err Error.slice_cast, refl)
round_cases (err Error.int_conversion) = inl (err Error.int_conversion, refl)
round_cases (err Error.io) = inl (err Error.io, refl)
round_cases (err Error.page_not_found) = inl (err Error.page_not_found, refl)
round_cases (err Error.file_not_found) = inl (err Error.file_not_found, refl)
round_cases (err Error.no_more_tuples) = inl (err Error.no_more_tuples, refl)
round_cases (err Error.corrupt_page_file) = inl (err Error.corrupt_page_file, refl)
round_cases (err Error.no_pages_available) = inl (err Error.no_pages_available, refl)
round_cases (err Error.page_cast) = inl (err Error.page_cast, refl)
round_cases (err Error.invalid_comparison) = inl (err Error.invalid_comparison, refl)
round_cases (err Error.parse_error) = inl (err Error.parse_error, refl)
round_cases (err Error.utf8_conversion) = inl (err Error.utf8_conversion, refl)
round_cases (err Error.utf8_error) = inl (err Error.utf8_error, refl)
round_cases (err Error.unknown) = inl (err Error.unknown, refl)

-- What `handle_full_page` leaves, if it leaves anything to do: the table is at an empty heap page.
pub record AtEmpty (state : State) : Type 0 where
  pub sound : IsSound state.1
  pub bytes : PageBytes
  pub shows : view (new_page state.0.file_id state.0.current_heap_page) state.1 ≡ ok bytes
  pub empty : EmptyHeap bytes

abbrev pub HandlesFull : State × Result (Unit {0}) → Type 0
HandlesFull done =
    ((x : Result RecordId) × (after_full done.1 ≡ some x))
    ⊎ ((after_full done.1 ≡ none) × AtEmpty done.0)

new_guard_closed :
    (table : Table) (start pool : BufferPool) (guard : PageGuard)
    → Created table.file_id heap start guard pool
    → HandlesFull (
        moved table (close guard pool (ok guard.page_id)).0 (close guard pool (ok guard.page_id)).1)
new_guard_closed table start pool guard h = elim (drop_guard-cases guard pool) [
  | inr d ↦ rw d (inl (panic, refl))
  | inl (pool', d) ↦
      let kept =
        subst (Outcome (λ u. Keeps pool) (Failed pool)) d
          (drop_guard-Keeps guard pool (Failed pool) h.sets.sound) in
      let (empty, number, kind) = Created-empty table.file_id heap start guard pool h in
      rw d (
        inr (
          refl,
          record {
            sound = kept.sound;
            bytes = h.bytes;
            shows =
                ap (λ (p : PageId). view (new_page table.file_id p.page_num) pool') h.page
                ∙ kept.same (new_page table.file_id h.page_num)
                ∙ h.sets.own;
            empty = (empty, kind);
          },
        ))
]

pub empty_page_next :
    (table : Table) (start : BufferPool) (done : BufferPool × Result PageGuard)
    → create_page table.file_id heap start ≡ done
    → Outcome (Created table.file_id heap start) (NotFull start) done
    → HandlesFull (handle_full_page (table, start))
unfolding handle_full_page with_guard
empty_page_next table start (pool, ok guard) e h = rw e (new_guard_closed table start pool guard h)
empty_page_next table start (pool, err x) e h = rw e (inl (err x, refl))
empty_page_next table start (pool, panic) e h = rw e (inl (panic, refl))
