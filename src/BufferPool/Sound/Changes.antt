-- ===== src/BufferPool/Sound/Changes.antt =====
-- Changes of one frame of a buffer pool of src/buffer_pool.rs that keep it sound: its pins, the loss of
-- its page, a page that is put in it, and new bytes of its page.
use db_rs.Base.{
  arith, ℕ, ◌≡◌, ◌≢◌, ◌⊎◌, refl, sym, ap, ◌∙◌, subst, inl, inr, Bool-cases, false, Option, none,
  some, List, length, get_elem?, lookup, remove_key, lookup-remove_key_self, lookup-remove_key_ne,
  ok,
}
use db_rs.Storage.{StorageManager, PageId, read_block}
use db_rs.Storage.Managed.{IsManaged, Known}
use db_rs.BufferPool.{Frame, BufferPool, same_page}
use db_rs.BufferPool.Access.Load.{same_page_iff}
use db_rs.BufferPool.Sound.{
  FrameHolds, IsSound, bytes_of, shown, view, changed, IsSound-changed, view-changed,
}

-- A pool that is still sound and shows every page as before.
pub record Keeps (pool pool' : BufferPool) : Type 0 where
  pub sound : IsSound pool'
  pub same : (id : PageId) → view id pool' ≡ view id pool
  pub known : (id : PageId) → Known id pool.storage_manager → Known id pool'.storage_manager

pub Keeps-self : (pool : BufferPool) → IsSound pool → Keeps pool pool
Keeps-self pool s = record { sound = s; same = λ id. refl; known = λ id k. k }

pub Keeps-join : (a b c : BufferPool) → Keeps a b → Keeps b c → Keeps a c
Keeps-join a b c h k = record {
  sound = k.sound;
  same = λ id. k.same id ∙ h.same id;
  known = λ id x. k.known id (h.known id x);
}

pub same_page_ne : (a b : PageId) → a ≢ b → same_page a b ≡ false
same_page_ne a b ne = elim (Bool-cases (same_page a b)) [
  | inl e ↦ absurd (ne ((same_page_iff a b).0 e))
  | inr e ↦ e
]

pub page_cases : (a b : PageId) → (a ≡ b) ⊎ (a ≢ b)
page_cases a b = elim (Bool-cases (same_page a b)) [
  | inl e ↦ inl ((same_page_iff a b).0 e)
  | inr e ↦ inr (λ k. let yes = (same_page_iff a b).1 k in cc)
]

pub frame_cases : (i j : ℕ) → (i ≡ j) ⊎ (i ≢ j)
frame_cases i j = ground arith

module _ (pool : BufferPool) (s : IsSound pool) (i : ℕ) (old : Frame)
    (there : get_elem? pool.frames i ≡ some old) where
  -- A page that is mapped to the frame is the frame's page.
  pub mapped_page :
      (id : PageId) → lookup same_page id pool.page_table ≡ some i → old.page_id ≡ some id
  mapped_page id h =
      let (frame, h', page) = s.mapped id i h in
      let e : old ≡ frame = cc in ap (λ (f : Frame). f.page_id) e ∙ page

  -- The frame's page is mapped to it.
  pub page_mapped :
      (id : PageId)
      → old.page_id ≡ some id
      → FrameHolds pool.storage_manager pool.page_table i old (some id)
  page_mapped id e =
      subst (FrameHolds pool.storage_manager pool.page_table i old) e (s.frames i old there).1

  pub unmapped_clean : old.page_id ≡ none → old.dirty ≡ false
  unmapped_clean e =
      subst (FrameHolds pool.storage_manager pool.page_table i old) e (s.frames i old there).1

  -- Pins and flags do not matter, nor how the page table is written down.
  pub Keeps-touch :
      (new : Frame) (table : List (PageId × ℕ))
      → new.bytes ≡ old.bytes
      → new.page_id ≡ old.page_id
      → new.dirty ≡ old.dirty
      → ((id : PageId) → lookup same_page id table ≡ lookup same_page id pool.page_table)
      → Keeps pool (changed i new table pool.storage_manager pool)
  Keeps-touch new table bytes page dirty lookups = record {
    sound =
        IsSound-changed pool s i old new table pool.storage_manager there s.managed
          (
            ap length bytes ∙ (s.frames i old there).0,
            subst (FrameHolds pool.storage_manager table i new) (sym page)
                (holds old.page_id (s.frames i old there).1),
          )
          (λ id k. k) (λ id k ne h. (lookups id ∙ h, refl))
          (λ id k h. elim (frame_cases i k) [
            | inl e ↦ inl (e, page ∙ mapped_page id (sym (lookups id) ∙ h ∙ ap some (sym e)))
            | inr ne ↦ inr (ne, sym (lookups id) ∙ h)
          ]);
    same = λ id.
        view-changed pool s i old new table pool.storage_manager there id (lookups id) (λ h. bytes)
          (λ h. refl);
    known = λ id k. k;
  }
    where
      holds :
          (o : Option PageId)
          → FrameHolds pool.storage_manager pool.page_table i old o
          → FrameHolds pool.storage_manager table i new o
      holds none h = dirty ∙ h
      holds (some id) (m, k, inl d) = (lookups id ∙ m, k, inl (dirty ∙ d))
      holds (some id) (m, k, inr r) = (lookups id ∙ m, k, inr (r ∙ ap ok (sym bytes)))

  -- The frame loses its page, whose block now reads as the frame's bytes.
  pub Keeps-evicted :
      (id : PageId) (new : Frame) (sm : StorageManager)
      → old.page_id ≡ some id
      → new.bytes ≡ old.bytes
      → new.page_id ≡ none
      → new.dirty ≡ false
      → IsManaged sm
      → read_block id sm ≡ ok old.bytes
      → ((q : PageId) → q ≢ id → read_block q sm ≡ read_block q pool.storage_manager)
      → ((q : PageId) → Known q pool.storage_manager → Known q sm)
      → Keeps pool (changed i new (remove_key same_page id pool.page_table) sm pool)
  Keeps-evicted id new sm page bytes none_now clean managed reads others known =
      let table = remove_key same_page id pool.page_table in
      let m = (page_mapped id page).0 in
      record {
        sound =
            IsSound-changed pool s i old new table sm there managed
              (
                ap length bytes ∙ (s.frames i old there).0,
                subst (FrameHolds sm table i new) (sym none_now) clean,
              )
              known
              (λ q k ne h.
                let apart : q ≢ id = λ e.
                  ne (same_index m (ap (λ p. lookup same_page p pool.page_table) (sym e) ∙ h)) in
                (removed q apart ∙ h, others q apart))
              (λ q k h. elim (page_cases q id) [
                | inl e ↦
                    let gone =
                      ap (λ p. lookup same_page p table) e
                      ∙ lookup-remove_key_self same_page same_page_iff id pool.page_table in
                    absurd cc
                | inr apart ↦ elim (frame_cases i k) [
                  | inl e ↦
                      let back = mapped_page q (sym (removed q apart) ∙ h ∙ ap some (sym e)) in
                      absurd (apart (same_name back page))
                  | inr ne ↦ inr (ne, sym (removed q apart) ∙ h)
                ]
              ]);
        same = λ q. elim (page_cases q id) [
          | inl e ↦
              ap (λ p. view p (changed i new table sm pool)) e
              ∙ ap (shown (changed i new table sm pool) id)
                  (lookup-remove_key_self same_page same_page_iff id pool.page_table)
              ∙ reads
              ∙ sym (ap bytes_of there)
              ∙ sym (ap (shown pool id) m)
              ∙ sym (ap (λ p. view p pool) e)
          | inr apart ↦
              view-changed pool s i old new table sm there q (removed q apart) (λ h. bytes)
                (λ h. others q apart)
        ];
        known = known;
      }
    where
      same_index : {a b : ℕ} {o : Option ℕ} → o ≡ some a → o ≡ some b → a ≡ b
      same_index h k = cc

      same_name : {a b : PageId} {o : Option PageId} → o ≡ some a → o ≡ some b → a ≡ b
      same_name h k = cc

      removed :
          (q : PageId)
          → q ≢ id
          → lookup same_page q (remove_key same_page id pool.page_table)
            ≡ lookup same_page q pool.page_table
      removed q ne =
          lookup-remove_key_ne same_page same_page_iff id q pool.page_table
            (same_page_ne id q (λ e. ne (sym e)))
