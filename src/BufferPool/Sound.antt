-- ===== src/BufferPool/Sound.antt =====
-- What a buffer pool of src/buffer_pool.rs promises: the page table and the frames agree, a clean frame
-- has the bytes of its page's block, and the pages as a whole are what the frames and the storage show.
use db_rs.Base.{
  ℕ, ◌≡◌, ◌≢◌, ◌⊎◌, refl, sym, ap, ◌∙◌, subst, inl, inr, Bool-cases, Option-cases, true, false,
  Option, none, some, List, length, set, get_elem?, get_elem?-set_self, get_elem?-set_ne, lookup,
  Result, ok, panic, ==_iff, ◌==◌,
}
use db_rs.Page.{PageBytes, page_size}
use db_rs.Storage.{StorageManager, PageId, read_block}
use db_rs.Storage.Managed.{IsManaged, Known}
use db_rs.BufferPool.{Frame, BufferPool, same_page}
pub mod Changes
pub mod Pages
pub mod Outcome
pub mod Emptied
pub mod Selected
pub mod Got
pub mod GetPage
pub mod Loads
pub mod Again
pub mod CreatePage
pub mod Created
pub mod Flush
pub mod Reach
mod Tests

-- What a frame holds, by its page: a frame without a page is clean; the page of one that has a page
-- is mapped to it, is a page of an open file, and is what its block reads as unless it is dirty.
abbrev pub FrameHolds : StorageManager → List (PageId × ℕ) → ℕ → Frame → Option PageId → Type 0
FrameHolds sm table i frame none = frame.dirty ≡ false
FrameHolds sm table i frame (some id) =
    (lookup same_page id table ≡ some i)
    × Known id sm
    × ((frame.dirty ≡ true) ⊎ (read_block id sm ≡ ok frame.bytes))

abbrev pub FrameOk : StorageManager → List (PageId × ℕ) → ℕ → Frame → Type 0
FrameOk sm table i frame =
    (length frame.bytes ≡ page_size) × FrameHolds sm table i frame frame.page_id

pub record IsSound (pool : BufferPool) : Type 0 where
  pub managed : IsManaged pool.storage_manager
  pub frames :
      (i : ℕ) (frame : Frame)
      → get_elem? pool.frames i ≡ some frame
      → FrameOk pool.storage_manager pool.page_table i frame
  pub mapped :
      (id : PageId) (i : ℕ)
      → lookup same_page id pool.page_table ≡ some i
      → (frame : Frame) × (get_elem? pool.frames i ≡ some frame) × (frame.page_id ≡ some id)

-- The bytes of a page, for whoever reads it through the pool.
abbrev pub bytes_of : Option Frame → Result PageBytes
bytes_of none = panic
bytes_of (some frame) = ok frame.bytes

abbrev pub shown : BufferPool → PageId → Option ℕ → Result PageBytes
shown pool id none = read_block id pool.storage_manager
shown pool id (some i) = bytes_of (get_elem? pool.frames i)

abbrev pub view : PageId → BufferPool → Result PageBytes
view id pool = shown pool id (lookup same_page id pool.page_table)

pub set_cases :
    (frames : List Frame) (i j : ℕ) (f g : Frame) {old : Frame}
    → get_elem? frames i ≡ some old
    → get_elem? (set frames i f) j ≡ some g
    → ((i ≡ j) × (f ≡ g)) ⊎ ((i ≢ j) × (get_elem? frames j ≡ some g))
set_cases frames i j f g there h = elim (Bool-cases (i == j)) [
  | inl e ↦
      let same = (==_iff i j).0 e in
      let k =
        sym (get_elem?-set_self frames i f there) ∙ ap (get_elem? (set frames i f)) same ∙ h in
      inl (same, cc)
  | inr e ↦
      let ne : i ≢ j = λ k. let yes = (==_iff i j).1 k in cc in
      inr (ne, sym (get_elem?-set_ne frames i j f ne) ∙ h)
]

-- A pool with another frame `i`, page table and storage.
abbrev pub changed : ℕ → Frame → List (PageId × ℕ) → StorageManager → BufferPool → BufferPool
changed i frame table sm pool = record pool {
  storage_manager = sm;
  frames = set pool.frames i frame;
  page_table = table;
}

module _ (pool : BufferPool) (s : IsSound pool) (i : ℕ) (old new : Frame)
    (table : List (PageId × ℕ)) (sm : StorageManager)
    (there : get_elem? pool.frames i ≡ some old) where
  FrameHolds-changed :
      (j : ℕ) (frame : Frame) (page : Option PageId)
      → i ≢ j
      → ((id : PageId) → Known id pool.storage_manager → Known id sm)
      → ((id : PageId) (k : ℕ)
          → i ≢ k
          → lookup same_page id pool.page_table ≡ some k
          → (lookup same_page id table ≡ some k)
            × (read_block id sm ≡ read_block id pool.storage_manager))
      → FrameHolds pool.storage_manager pool.page_table j frame page
      → FrameHolds sm table j frame page
  FrameHolds-changed j frame none ne known keep h = h
  FrameHolds-changed j frame (some id) ne known keep (m, k, inl d) =
      ((keep id j ne m).0, known id k, inl d)
  FrameHolds-changed j frame (some id) ne known keep (m, k, inr r) =
      ((keep id j ne m).0, known id k, inr ((keep id j ne m).1 ∙ r))

  -- The pool stays sound when the new frame is right, and the other frames' pages stay mapped and read
  -- as they did.
  pub IsSound-changed :
      IsManaged sm
      → FrameOk sm table i new
      → ((id : PageId) → Known id pool.storage_manager → Known id sm)
      → ((id : PageId) (k : ℕ)
          → i ≢ k
          → lookup same_page id pool.page_table ≡ some k
          → (lookup same_page id table ≡ some k)
            × (read_block id sm ≡ read_block id pool.storage_manager))
      → ((id : PageId) (k : ℕ)
          → lookup same_page id table ≡ some k
          → ((i ≡ k) × (new.page_id ≡ some id))
            ⊎ ((i ≢ k) × (lookup same_page id pool.page_table ≡ some k)))
      → IsSound (changed i new table sm pool)
  IsSound-changed managed right known keep back = record {
    managed = managed;
    frames = λ j frame h. elim (set_cases pool.frames i j new frame there h) [
      | inl (e, k) ↦ subst (FrameOk sm table j) k (subst (λ n. FrameOk sm table n new) e right)
      | inr (ne, k) ↦
          let (full, holds) = s.frames j frame k in
          (full, FrameHolds-changed j frame frame.page_id ne known keep holds)
    ];
    mapped = λ id j h. elim (back id j h) [
      | inl (e, k) ↦ (
        new,
        subst (λ n. get_elem? (set pool.frames i new) n ≡ some new) e
            (get_elem?-set_self pool.frames i new there),
        k,
      )
      | inr (ne, k) ↦
          let (frame, h', page) = s.mapped id j k in
          (frame, get_elem?-set_ne pool.frames i j new ne ∙ h', page)
    ];
  }

  -- A page is shown as before when it is mapped as before, and frame `i` keeps its bytes if it is
  -- the page's, or its block reads as before if there is none.
  pub view-changed :
      (id : PageId)
      → lookup same_page id table ≡ lookup same_page id pool.page_table
      → (lookup same_page id pool.page_table ≡ some i → new.bytes ≡ old.bytes)
      → (lookup same_page id pool.page_table ≡ none
          → read_block id sm ≡ read_block id pool.storage_manager)
      → view id (changed i new table sm pool) ≡ view id pool
  view-changed id same own unmapped =
      ap (shown (changed i new table sm pool) id) same
      ∙ elim (Option-cases (lookup same_page id pool.page_table)) [
        | inl e ↦ rw e (unmapped e)
        | inr (j, e) ↦ rw e (framed j e)
      ]
    where
      framed :
          (j : ℕ)
          → lookup same_page id pool.page_table ≡ some j
          → bytes_of (get_elem? (set pool.frames i new) j) ≡ bytes_of (get_elem? pool.frames j)
      framed j e = elim (Bool-cases (i == j)) [
        | inl b ↦
            let k = (==_iff i j).0 b in
            subst
              (λ n.
                bytes_of (get_elem? (set pool.frames i new) n) ≡ bytes_of (get_elem? pool.frames n))
              k
              (ap bytes_of (get_elem?-set_self pool.frames i new there)
                ∙ ap ok (own (e ∙ ap some (sym k)))
                ∙ sym (ap bytes_of there))
        | inr b ↦
            let ne : i ≢ j = λ k. let yes = (==_iff i j).1 k in cc in
            ap bytes_of (get_elem?-set_ne pool.frames i j new ne)
      ]
