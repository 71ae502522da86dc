-- ===== src/BufferPool/Sound/Got.antt =====
-- `get_page` of src/buffer_pool.rs on a sound pool: whatever it evicts and loads, every page is shown as
-- before, and the guard has the page.
use db_rs.Base.{
  ℕ, ◌≡◌, ◌⊎◌, refl, sym, ap, ◌∙◌, inl, inr, Bool-cases, true, none, some, List, get_elem?,
  get_elem?-set_self, lookup, insert_key, remove_key, lookup-insert_key_ne, lookup-remove_key_self,
  lookup-remove_key_ne, Result, ok, err, panic, Error, ℤ, pos, ◌+ℤ◌, check_i32, ltb, leb, ◌&&◌,
  neg_part, pos_part, ◌^◌,
}
use db_rs.Storage.{PageId, read_block}
use db_rs.Storage.Managed.{read_block-Known}
use db_rs.BufferPool.{Frame, BufferPool, PageGuard, same_page, follow, pin}
use db_rs.BufferPool.Clock.{select_victim}
use db_rs.BufferPool.Access.{get_page, load, take_victim}
use db_rs.BufferPool.Access.Load.{
  same_page_iff, get_page_hit, fresh, with_frame, idle, load_ok, load_err,
}
use db_rs.BufferPool.Sound.{IsSound, bytes_of, shown, view}
use db_rs.BufferPool.Sound.Changes.{Keeps, Keeps-join, Keeps-touch, same_page_ne, page_cases}
use db_rs.BufferPool.Sound.Pages.{Keeps-Sets, Sets-installed}
use db_rs.BufferPool.Sound.Outcome.{Failed, Outcome}
use db_rs.BufferPool.Sound.Emptied.{Emptied}

-- A guard for a page, whose frame has the bytes that are shown for it.
pub record Got (id : PageId) (pool : BufferPool) (guard : PageGuard) (pool' : BufferPool)
    : Type 0 where
  pub keeps : Keeps pool pool'
  pub page : guard.page_id ≡ id
  pub frame : Frame
  pub there : get_elem? pool'.frames guard.frame ≡ some frame
  pub holds : frame.page_id ≡ some id
  pub flagged : frame.clock_flag ≡ true
  pub shows : view id pool ≡ ok frame.bytes

pub check_i32-cases : (n : ℤ) → ((m : ℤ) × (check_i32 n ≡ ok m)) ⊎ (check_i32 n ≡ panic)
check_i32-cases n = elim (Bool-cases (ltb (pos_part n) (2 ^ 31) && leb (neg_part n) (2 ^ 31))) [
  | inl e ↦ inl (n, rw e refl)
  | inr e ↦ inr (rw e refl)
]

get_page_pinned_full :
    (id : PageId) (pool : BufferPool) (i : ℕ) {frame : Frame}
    → lookup same_page id pool.page_table ≡ some i
    → get_elem? pool.frames i ≡ some frame
    → check_i32 (frame.pin_count +ℤ pos 1) ≡ panic
    → get_page id pool ≡ (pool, panic)
unfolding get_page pin
get_page_pinned_full id pool i mapped there counted = rw (mapped, there, counted) refl

pub get_page_absent :
    (id : PageId) (pool : BufferPool)
    → lookup same_page id pool.page_table ≡ none
    → get_page id pool ≡ follow (take_victim id) (select_victim pool).0 (select_victim pool).1
unfolding get_page
get_page_absent id pool h = rw h refl

pub hit-Got :
    (id : PageId) (pool : BufferPool) (i : ℕ)
    → IsSound pool
    → lookup same_page id pool.page_table ≡ some i
    → Outcome (Got id pool) (Failed pool) (get_page id pool)
hit-Got id pool i s mapped =
    let (frame, there, page) = s.mapped id i mapped in
    elim (check_i32-cases (frame.pin_count +ℤ pos 1)) [
      | inr full ↦ rw (get_page_pinned_full id pool i mapped there full) tt
      | inl (pins, counted) ↦
          let pinned : Frame = record frame { pin_count = pins; clock_flag = true } in
          rw (get_page_hit id pool i mapped there counted) (record {
            keeps =
                Keeps-touch pool s i frame there pinned pool.page_table refl refl refl (λ q. refl);
            page = refl;
            frame = pinned;
            there = get_elem?-set_self pool.frames i pinned there;
            holds = page;
            flagged = refl;
            shows = ap (shown pool id) mapped ∙ ap bytes_of there;
          })
    ]

-- The page table after a page was mapped and unmapped again.
mapped_unmapped :
    (id q : PageId) (i : ℕ) (table : List (PageId × ℕ))
    → lookup same_page id table ≡ none
    → lookup same_page q (remove_key same_page id (insert_key same_page id i table))
      ≡ lookup same_page q table
mapped_unmapped id q i table absent =
    let there = insert_key same_page id i table in
    elim (page_cases q id) [
      | inl e ↦
          ap (λ p. lookup same_page p (remove_key same_page id there)) e
          ∙ lookup-remove_key_self same_page same_page_iff id there
          ∙ sym absent
          ∙ sym (ap (λ p. lookup same_page p table) e)
      | inr ne ↦
          let apart = same_page_ne id q (λ e. ne (sym e)) in
          lookup-remove_key_ne same_page same_page_iff id q there apart
          ∙ lookup-insert_key_ne same_page same_page_iff id q i table apart
    ]

load_panic :
    (id : PageId) (i : ℕ) (pool : BufferPool)
    → read_block id pool.storage_manager ≡ panic
    → load id i pool ≡ (pool, panic)
unfolding load
load_panic id i pool h = rw h refl

Result-cases {ℓ} :
    {A : Type ℓ} (r : Result A) → ((a : A) × (r ≡ ok a)) ⊎ ((e : Error) × (r ≡ err e)) ⊎ (r ≡ panic)
Result-cases (ok a) = inl (a, refl)
Result-cases (err e) = inr (inl (e, refl))
Result-cases panic = inr (inr refl)

-- The block is read into an emptied frame.
pub load-Got :
    (id : PageId) (i : ℕ) (start pool : BufferPool) (h : Emptied i start pool)
    → lookup same_page id pool.page_table ≡ none
    → Outcome (Got id start) (Failed start) (
        load id i
          (with_frame i (fresh id h.frame.bytes) (insert_key same_page id i pool.page_table) pool))
load-Got id i start pool h absent =
    let table = insert_key same_page id i pool.page_table in
    let s = h.keeps.sound in
    elim (Result-cases (read_block id pool.storage_manager)) [
      | inl (bytes, read) ↦
          let new = fresh id bytes in
          let (known, full) = read_block-Known id pool.storage_manager bytes read in
          let shows : view id pool ≡ ok bytes = ap (shown pool id) absent ∙ read in
          let sets =
            Sets-installed pool s i h.frame h.there id new h.empty absent refl full known
              (inr read) in
          rw (load_ok id i pool bytes h.frame.bytes table h.there read) (record {
            keeps =
                Keeps-join start pool (with_frame i new table pool) h.keeps
                  (Keeps-Sets id bytes pool (with_frame i new table pool) shows sets);
            page = refl;
            frame = new;
            there = get_elem?-set_self pool.frames i new h.there;
            holds = refl;
            flagged = refl;
            shows = sym (h.keeps.same id) ∙ shows;
          })
      | inr (inl (e, read)) ↦ rw (load_err id i pool h.frame.bytes table e h.there read) (
          Keeps-join start pool _ h.keeps (
            Keeps-touch pool s i h.frame h.there (idle h.frame.bytes)
              (remove_key same_page id table) refl (sym h.empty) (sym h.clean)
              (λ q. mapped_unmapped id q i pool.page_table absent)))
      | inr (inr read) ↦
          rw (load_panic id i (with_frame i (fresh id h.frame.bytes) table pool) read) tt
    ]
