-- ===== src/BufferPool/Sound/Created.antt =====
-- All of `create_page` of src/buffer_pool.rs on a sound pool.
use db_rs.Base.{
  [], ℕ, ◌≡◌, ◌≢◌, ◌∙◌, subst, refl, sym, ap, inl, inr, Option, none, some, get_elem?-set_self,
  insert_key, Result, ok, err, panic, Error, ℤ, pos, ◌+ℤ◌, arith, ◌<◌, ◌^◌,
}
use db_rs.Page.{PageBytes, PageKind, page_kind, page_id}
use db_rs.Page.Header.{HasHeader-read, HasHeader-Holds, set-HasHeader}
use db_rs.Page.Layout.{Holds}
use db_rs.Storage.{PageId, get_next_page_id}
use db_rs.Storage.Managed.{Known}
use db_rs.Storage.Managed.Grown.{HasGrown, get_next_page_id-HasGrown}
use db_rs.BufferPool.{BufferPool, PageGuard, same_page}
use db_rs.BufferPool.Clock.{select_victim}
use db_rs.BufferPool.Evict.{evict_page}
use db_rs.BufferPool.Access.{create_page, create_at, create_in, new_header, next_page_of}
use db_rs.BufferPool.Sound.{IsSound, view, changed}
use db_rs.BufferPool.Sound.Changes.{Keeps, Keeps-self, Keeps-join, page_mapped}
use db_rs.BufferPool.Sound.Pages.{Sets-installed, restored}
use db_rs.BufferPool.Sound.Outcome.{NotFull, Outcome, Outcome-follow, Outcome-weaken}
use db_rs.BufferPool.Sound.Emptied.{Emptied, evict_page-Emptied}
use db_rs.BufferPool.Sound.Selected.{Kept, select_victim-Keeps}
use db_rs.BufferPool.Sound.Got.{check_i32-cases}
use db_rs.BufferPool.Sound.CreatePage.{
  new_page, Created, unknown_absent, grown-IsSound, view-grown, filled, create_in_evict_panic,
  create_in_pin_panic, create_in_done,
}

next_page_of_closed :
    (file_id : ℕ) (pool : BufferPool) (e : Error)
    → get_next_page_id file_id pool.storage_manager ≡ err e
    → next_page_of file_id pool ≡ (pool, err e)
next_page_of_closed file_id pool e h = rw h refl

create_in_closed :
    (file_id : ℕ) (kind : PageKind) (i : ℕ) (pool : BufferPool) (e : Error)
    → get_next_page_id file_id pool.storage_manager ≡ err e
    → create_in file_id kind i pool ≡ (pool, err e)
unfolding create_in
create_in_closed file_id kind i pool e h = rw h refl

create_in_too_long :
    (file_id : ℕ) (kind : PageKind) (i : ℕ) (pool : BufferPool)
    → get_next_page_id file_id pool.storage_manager ≡ panic
    → create_in file_id kind i pool ≡ (pool, panic)
unfolding create_in
create_in_too_long file_id kind i pool h = rw h refl

module _ (file_id : ℕ) (kind : PageKind) (i : ℕ) (pool : BufferPool) (s : IsSound pool)
    (g : HasGrown file_id pool.storage_manager) where
  grown_next : next_page_of file_id pool ≡ (restored g.after pool, ok g.page_num)
  grown_next = rw g.gives refl

  filled-Created :
      (pool' : BufferPool) (h : Emptied i (restored g.after pool) pool') (pins : ℤ)
      → Created file_id kind pool
          (record { page_id = new_page file_id g.page_num; frame = i })
          (changed i
            (filled file_id kind g.page_num pins h.frame)
            (insert_key same_page (new_page file_id g.page_num) i pool'.page_table)
            pool'.storage_manager
            pool')
  filled-Created pool' h pins =
      let id = new_page file_id g.page_num in
      let new = filled file_id kind g.page_num pins h.frame in
      let full = (h.keeps.sound.frames i h.frame h.there).0 in
      let header = set-HasHeader h.frame.bytes g.page_num kind 0 full in
      let sets =
        Sets-installed pool' h.keeps.sound i h.frame h.there id new h.empty
          (h.absent id (unknown_absent id pool s g.fresh)) refl header.size (h.keeps.known id g.new)
          (inl refl) in
      record {
        page_num = g.page_num;
        bytes = new_header kind g.page_num h.frame.bytes;
        page = refl;
        fresh = g.fresh;
        header = header;
        sets = record {
          sound = sets.sound;
          own = sets.own;
          others = λ q ne. sets.others q ne ∙ h.keeps.same q ∙ view-grown file_id pool s g q ne;
          known = λ q k. sets.known q (h.keeps.known q (g.known q k));
        };
        frame = new;
        there = get_elem?-set_self pool'.frames i new h.there;
        holds = refl;
        has = refl;
      }

  create_in_after :
      (done : BufferPool × Result (Unit {0}))
      → evict_page i (restored g.after pool) ≡ done
      → Outcome (λ u pool'. Emptied i (restored g.after pool) pool') (λ x pool'. ⊥) done
      → Outcome (Created file_id kind pool) (NotFull pool) (create_in file_id kind i pool)
  create_in_after (pool', panic) e h =
      rw
        (create_in_evict_panic file_id kind i pool (restored g.after pool) pool' g.page_num
          grown_next e)
        tt
  create_in_after (pool', err x) e h = absurd h
  create_in_after (pool', ok u) e h = elim (check_i32-cases (h.frame.pin_count +ℤ pos 1)) [
    | inr full ↦
        rw
          (create_in_pin_panic file_id kind i pool (restored g.after pool) pool' g.page_num
            grown_next e h.there full)
          tt
    | inl (pins, counted) ↦
        rw
          (create_in_done file_id kind i pool (restored g.after pool) pool' g.page_num grown_next e
            h.there counted)
          (filled-Created pool' h pins)
  ]

create_in-Created :
    (file_id : ℕ) (kind : PageKind) (i : ℕ) (pool : BufferPool)
    → IsSound pool
    → Outcome (Created file_id kind pool) (NotFull pool) (create_in file_id kind i pool)
create_in-Created file_id kind i pool s =
    elim (get_next_page_id-HasGrown file_id pool.storage_manager s.managed) [
      | inl e ↦ rw (create_in_closed file_id kind i pool _ e) ((λ h. cc), Keeps-self pool s)
      | inr (inl e) ↦ rw (create_in_too_long file_id kind i pool e) tt
      | inr (inr g) ↦
          create_in_after file_id kind i pool s g (evict_page i (restored g.after pool)) refl (
            evict_page-Emptied i (restored g.after pool) (λ x pool'. ⊥)
              (grown-IsSound file_id pool s g))
    ]

Created-after :
    (file_id : ℕ) (kind : PageKind) (start pool : BufferPool) (guard : PageGuard)
    (pool' : BufferPool)
    → Keeps start pool
    → Created file_id kind pool guard pool'
    → Created file_id kind start guard pool'
Created-after file_id kind start pool guard pool' k h = record {
  page_num = h.page_num;
  bytes = h.bytes;
  page = h.page;
  fresh = λ x. h.fresh (k.known (new_page file_id h.page_num) x);
  header = h.header;
  sets = record {
    sound = h.sets.sound;
    own = h.sets.own;
    others = λ q ne. h.sets.others q ne ∙ k.same q;
    known = λ q x. h.sets.known q (k.known q x);
  };
  frame = h.frame;
  there = h.there;
  holds = h.holds;
  has = h.has;
}

chosen-Created :
    (file_id : ℕ) (kind : PageKind) (start pool : BufferPool) (i : ℕ)
    → Keeps start pool
    → Outcome (Created file_id kind start) (NotFull start) (create_in file_id kind i pool)
chosen-Created file_id kind start pool i k =
    Outcome-weaken (Created file_id kind pool) (Created file_id kind start) (NotFull pool)
      (NotFull start) (create_in file_id kind i pool)
      (create_in-Created file_id kind i pool k.sound)
      (λ guard pool' h. Created-after file_id kind start pool guard pool' k h)
      (λ x pool' h. (h.0, Keeps-join start pool pool' k h.1))

pub create_page-Created :
    (file_id : ℕ) (kind : PageKind) (pool : BufferPool)
    → IsSound pool
    → Outcome (Created file_id kind pool) (NotFull pool) (create_page file_id kind pool)
unfolding create_page
create_page-Created file_id kind pool s =
    Outcome-follow (Kept pool) (Created file_id kind pool) (NotFull pool) (NotFull pool)
      (select_victim pool) (create_at file_id kind) (select_victim-Keeps pool (NotFull pool) s)
      (λ x pool' h. h) (λ victim pool'. chosen victim pool')
  where
    chosen :
        (victim : Option ℕ) (pool' : BufferPool)
        → Keeps pool pool'
        → Outcome (Created file_id kind pool) (NotFull pool) (create_at file_id kind victim pool')
    chosen none pool' k = ((λ h. cc), k)
    chosen (some i) pool' k = chosen-Created file_id kind pool pool' i k

-- The page number is a u64, and the page is an empty one of the kind.
pub Created-empty :
    (file_id : ℕ) (kind : PageKind) (pool : BufferPool) (guard : PageGuard) (pool' : BufferPool)
    (h : Created file_id kind pool guard pool')
    → Holds h.bytes [] × (page_id h.bytes ≡ h.page_num) × (page_kind h.bytes ≡ ok kind)
Created-empty file_id kind pool guard pool' h =
    let id = new_page file_id h.page_num in
    let s' = h.sets.sound in
    let (m, known, c) = page_mapped pool' s' guard.frame h.frame h.there id h.holds in
    let (info, found, less) = known in
    let (magic, room) = s'.managed.words file_id info found in
    let bound : h.page_num < 2 ^ 64 = omega arith in
    let (number, kind_read, count) =
      HasHeader-read h.page_num kind 0 bound (omega arith) h.header in
    (HasHeader-Holds h.header, number, kind_read)

-- On a sound pool, when `create_page` gives a guard: the pool is sound, the guard is for a page of the
-- file that the file did not have and now has, the page is shown with the bytes of a page that holds
-- no record, with its number and the kind that was asked for, and every other page is shown as before.
pub create_page-shows :
    (file_id : ℕ) (kind : PageKind) (other : PageId) (pool pool' : BufferPool) (guard : PageGuard)
    → IsSound pool
    → create_page file_id kind pool ≡ (pool', ok guard)
    → other ≢ guard.page_id
    → IsSound pool'
      × (view other pool' ≡ view other pool)
      × (guard.page_id.file_id ≡ file_id)
      × (¬ Known guard.page_id pool.storage_manager)
      × Known guard.page_id pool'.storage_manager
      × ((bytes : PageBytes) × (view guard.page_id pool' ≡ ok bytes)
          × Holds bytes []
          × (page_id bytes ≡ guard.page_id.page_num)
          × (page_kind bytes ≡ ok kind))
create_page-shows file_id kind other pool pool' guard s e ne =
    let h =
      subst (Outcome (Created file_id kind pool) (NotFull pool)) e
        (create_page-Created file_id kind pool s) in
    let id = new_page file_id h.page_num in
    let s' = h.sets.sound in
    let (m, known, c) = page_mapped pool' s' guard.frame h.frame h.there id h.holds in
    let (empty, number, kind_read) = Created-empty file_id kind pool guard pool' h in
    (
      s',
      h.sets.others other (λ k. ne (k ∙ sym h.page)),
      ap (λ (p : PageId). p.file_id) h.page,
      λ k. h.fresh (subst (λ p. Known p pool.storage_manager) h.page k),
      subst (λ p. Known p pool'.storage_manager) (sym h.page) known,
      (
        h.bytes,
        ap (λ p. view p pool') h.page ∙ h.sets.own,
        empty,
        number ∙ sym (ap (λ (p : PageId). p.page_num) h.page),
        kind_read,
      ),
    )
