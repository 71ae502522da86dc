-- ===== src/BufferPool/Sound/Pages.antt =====
-- Changes of a buffer pool of src/buffer_pool.rs that give one page new bytes, and those of its storage.
use db_rs.Base.{
  ℕ, ◌≡◌, ◌≢◌, ◌⊎◌, refl, sym, ap, ◌∙◌, subst, inl, inr, true, none, some, length, get_elem?,
  get_elem?-set_self, lookup, insert_key, lookup-insert_key_self, lookup-insert_key_ne, ok,
  Option-cases,
}
use db_rs.Page.{PageBytes, page_size}
use db_rs.Storage.{StorageManager, PageId, read_block}
use db_rs.Storage.Managed.{IsManaged, Known}
use db_rs.BufferPool.{Frame, BufferPool, same_page}
use db_rs.BufferPool.Access.Load.{same_page_iff}
use db_rs.BufferPool.Sound.{
  FrameHolds, IsSound, bytes_of, shown, view, changed, IsSound-changed, view-changed,
}
use db_rs.BufferPool.Sound.Changes.{
  Keeps, same_page_ne, page_cases, frame_cases, mapped_page, page_mapped,
}

-- A pool that is still sound and shows every page as before but one, which has the given bytes.
pub record Sets (id : PageId) (bytes : PageBytes) (pool pool' : BufferPool) : Type 0 where
  pub sound : IsSound pool'
  pub own : view id pool' ≡ ok bytes
  pub others : (q : PageId) → q ≢ id → view q pool' ≡ view q pool
  pub known : (q : PageId) → Known q pool.storage_manager → Known q pool'.storage_manager

pub Keeps-Sets :
    (id : PageId) (bytes : PageBytes) (pool pool' : BufferPool)
    → view id pool ≡ ok bytes
    → Sets id bytes pool pool'
    → Keeps pool pool'
Keeps-Sets id bytes pool pool' h k = record {
  sound = k.sound;
  same = λ q. elim (page_cases q id) [
    | inl e ↦ ap (λ p. view p pool') e ∙ k.own ∙ sym h ∙ sym (ap (λ p. view p pool) e)
    | inr ne ↦ k.others q ne
  ];
  known = k.known;
}

module _ (pool : BufferPool) (s : IsSound pool) (i : ℕ) (old : Frame)
    (there : get_elem? pool.frames i ≡ some old) where
  -- A page is put in a frame that has none.
  pub Sets-installed :
      (id : PageId) (new : Frame)
      → old.page_id ≡ none
      → lookup same_page id pool.page_table ≡ none
      → new.page_id ≡ some id
      → length new.bytes ≡ page_size
      → Known id pool.storage_manager
      → (new.dirty ≡ true) ⊎ (read_block id pool.storage_manager ≡ ok new.bytes)
      → Sets id new.bytes pool
          (changed i new (insert_key same_page id i pool.page_table) pool.storage_manager pool)
  Sets-installed id new empty absent page full k clean =
      let table = insert_key same_page id i pool.page_table in
      let sm = pool.storage_manager in
      let here = lookup-insert_key_self same_page same_page_iff id i pool.page_table in
      record {
        sound =
            IsSound-changed pool s i old new table sm there s.managed
              (full, subst (FrameHolds sm table i new) (sym page) (here, k, clean)) (λ q h. h)
              (λ q j ne h.
                let apart : q ≢ id = λ e.
                  let both =
                    sym absent ∙ ap (λ p. lookup same_page p pool.page_table) (sym e) ∙ h in
                  absurd cc in
                (inserted q apart ∙ h, refl))
              (λ q j h. elim (page_cases q id) [
                | inl e ↦
                    let both = sym here ∙ ap (λ p. lookup same_page p table) (sym e) ∙ h in
                    inl (same_index both, page ∙ ap some (sym e))
                | inr apart ↦ elim (frame_cases i j) [
                  | inl e ↦
                      let back =
                        mapped_page pool s i old there q
                          (sym (inserted q apart) ∙ h ∙ ap some (sym e)) in
                      let both = sym empty ∙ back in absurd cc
                  | inr ne ↦ inr (ne, sym (inserted q apart) ∙ h)
                ]
              ]);
        own =
            ap (shown (changed i new table sm pool) id) here
            ∙ ap bytes_of (get_elem?-set_self pool.frames i new there);
        others = λ q apart.
            view-changed pool s i old new table sm there q (inserted q apart)
              (λ h. let both = sym empty ∙ mapped_page pool s i old there q h in absurd cc)
              (λ h. refl);
        known = λ q h. h;
      }
    where
      same_index : {a b : ℕ} → some a ≡ some b → a ≡ b
      same_index h = cc

      inserted :
          (q : PageId)
          → q ≢ id
          → lookup same_page q (insert_key same_page id i pool.page_table)
            ≡ lookup same_page q pool.page_table
      inserted q ne =
          lookup-insert_key_ne same_page same_page_iff id q i pool.page_table
            (same_page_ne id q (λ e. ne (sym e)))

  -- The page of a frame gets new bytes, and its frame becomes dirty.
  pub Sets-updated :
      (id : PageId) (new : Frame)
      → old.page_id ≡ some id
      → new.page_id ≡ some id
      → length new.bytes ≡ page_size
      → new.dirty ≡ true
      → Sets id new.bytes pool (changed i new pool.page_table pool.storage_manager pool)
  Sets-updated id new page page' full dirty =
      let table = pool.page_table in
      let sm = pool.storage_manager in
      let (m, k, clean) = page_mapped pool s i old there id page in
      record {
        sound =
            IsSound-changed pool s i old new table sm there s.managed
              (full, subst (FrameHolds sm table i new) (sym page') (m, k, inl dirty)) (λ q h. h)
              (λ q j ne h. (h, refl))
              (λ q j h. elim (frame_cases i j) [
                | inl e ↦
                    let back = mapped_page pool s i old there q (h ∙ ap some (sym e)) in
                    inl (e, page' ∙ sym page ∙ back)
                | inr ne ↦ inr (ne, h)
              ]);
        own =
            ap (shown (changed i new table sm pool) id) m
            ∙ ap bytes_of (get_elem?-set_self pool.frames i new there);
        others = λ q apart.
            view-changed pool s i old new table sm there q refl
              (λ h.
                let both = sym page ∙ mapped_page pool s i old there q h in
                absurd (apart (same_name both)))
              (λ h. refl);
        known = λ q h. h;
      }
    where
      same_name : {a b : PageId} → some a ≡ some b → b ≡ a
      same_name h = cc

-- A pool with another storage.
abbrev pub restored : StorageManager → BufferPool → BufferPool
restored sm pool = record pool { storage_manager = sm }

-- The storage changes so that all pages of open files stay and read as before, but for dirty frames'
-- pages.
pub IsSound-restored :
    (pool : BufferPool) (sm : StorageManager)
    → IsSound pool
    → IsManaged sm
    → ((q : PageId) → Known q pool.storage_manager → Known q sm)
    → ((q : PageId) (i : ℕ) (frame : Frame)
        → get_elem? pool.frames i ≡ some frame
        → frame.page_id ≡ some q
        → read_block q pool.storage_manager ≡ ok frame.bytes
        → read_block q sm ≡ ok frame.bytes)
    → IsSound (restored sm pool)
IsSound-restored pool sm s managed known reads = record {
  managed = managed;
  frames = λ i frame h.
      let (full, holds) = s.frames i frame h in
      (
        full,
        elim (Option-cases frame.page_id) [
          | inl e ↦
              subst (FrameHolds sm pool.page_table i frame) (sym e)
                (subst (FrameHolds pool.storage_manager pool.page_table i frame) e holds)
          | inr (q, e) ↦ subst (FrameHolds sm pool.page_table i frame) (sym e) (
              kept i frame q h e
                (subst (FrameHolds pool.storage_manager pool.page_table i frame) e holds))
        ],
      );
  mapped = s.mapped;
}
  where
    kept :
        (i : ℕ) (frame : Frame) (q : PageId)
        → get_elem? pool.frames i ≡ some frame
        → frame.page_id ≡ some q
        → FrameHolds pool.storage_manager pool.page_table i frame (some q)
        → FrameHolds sm pool.page_table i frame (some q)
    kept i frame q h e (m, k, inl d) = (m, known q k, inl d)
    kept i frame q h e (m, k, inr r) = (m, known q k, inr (reads q i frame h e r))
