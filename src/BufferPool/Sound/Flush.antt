-- ===== src/BufferPool/Sound/Flush.antt =====
-- `flush_all` of src/buffer_pool.rs on a sound pool: afterwards every page's block reads as the page
-- was shown.
use db_rs.Base.{
  ℕ, zero, suc, ◌≡◌, ◌≢◌, ◌⊎◌, ◌∙◌, refl, sym, ap, inl, inr, Bool-cases, Option-cases, true, false,
  none, some, List, [], ◌∷◌, All, get_elem?, lookup, ok,
}
use db_rs.Storage.{StorageManager, PageId, same_id, read_block, write_block}
use db_rs.Storage.Managed.{IsManaged, write_block-IsManaged}
use db_rs.BufferPool.{Frame, BufferPool, same_page}
use db_rs.BufferPool.Evict.{flush_all, flush_frames}
use db_rs.BufferPool.Sound.{IsSound, FrameHolds, view, shown, bytes_of}
use db_rs.BufferPool.Sound.Changes.{page_mapped, unmapped_clean, page_cases}
use db_rs.BufferPool.Sound.Pages.{restored, IsSound-restored}

-- A frame with one page is the frame of that page.
one_frame :
    (pool : BufferPool) (s : IsSound pool) (i j : ℕ) (f g : Frame) (q : PageId)
    → get_elem? pool.frames i ≡ some f
    → get_elem? pool.frames j ≡ some g
    → f.page_id ≡ some q
    → g.page_id ≡ some q
    → f ≡ g
one_frame pool s i j f g q hf hg pf pg =
    let (m, k, c) = page_mapped pool s i f hf q pf in
    let (n, l, d) = page_mapped pool s j g hg q pg in
    let same : i ≡ j = cc in let here = sym hf ∙ ap (get_elem? pool.frames) same ∙ hg in cc

-- What the storage is once the frames of a list are flushed.
record Flushed (fs : List Frame) (pool : BufferPool) : Type 0 where
  after : StorageManager
  gives : flush_frames fs pool ≡ (restored after pool, ok tt)
  sound : IsSound (restored after pool)
  written :
      (i : ℕ) (frame : Frame) (q : PageId)
      → get_elem? pool.frames i ≡ some frame
      → frame.page_id ≡ some q
      → ((n : ℕ) × (get_elem? fs n ≡ some frame))
        ⊎ (read_block q pool.storage_manager ≡ ok frame.bytes)
      → read_block q after ≡ ok frame.bytes
  unmapped :
      (q : PageId)
      → lookup same_page q pool.page_table ≡ none
      → read_block q after ≡ read_block q pool.storage_manager

abbrev IsFrame : BufferPool → Frame → Type 0
IsFrame pool frame = (i : ℕ) × (get_elem? pool.frames i ≡ some frame)

flush_frames_clean :
    (f : Frame) (fs : List Frame) (pool : BufferPool)
    → f.dirty ≡ false
    → flush_frames (f ∷ fs) pool ≡ flush_frames fs pool
flush_frames_clean f fs pool h = rw h refl

flush_frames_dirty :
    (f : Frame) (fs : List Frame) (pool : BufferPool) {id : PageId} {sm : StorageManager}
    → f.dirty ≡ true
    → f.page_id ≡ some id
    → write_block id f.bytes pool.storage_manager ≡ ok sm
    → flush_frames (f ∷ fs) pool ≡ flush_frames fs (restored sm pool)
flush_frames_dirty f fs pool h e w = rw (h, e, w) refl

-- A frame is among the first of the list, or among the others.
member_cases :
    (f frame : Frame) (fs : List Frame) (n : ℕ)
    → get_elem? (f ∷ fs) n ≡ some frame
    → (f ≡ frame) ⊎ ((m : ℕ) × (get_elem? fs m ≡ some frame))
member_cases f frame fs zero h = inl cc
member_cases f frame fs (suc n) h = inr (n, h)

module _ (f : Frame) (fs : List Frame) (pool : BufferPool) (s : IsSound pool) (i : ℕ)
    (there : get_elem? pool.frames i ≡ some f) where
  Flushed-clean : f.dirty ≡ false → Flushed fs pool → Flushed (f ∷ fs) pool
  Flushed-clean clean h = record {
    after = h.after;
    gives = flush_frames_clean f fs pool clean ∙ h.gives;
    sound = h.sound;
    written = λ j frame q at page why. h.written j frame q at page (elim why [
      | inr r ↦ inr r
      | inl (n, m) ↦ elim (member_cases f frame fs n m) [
        | inr k ↦ inl k
        | inl e ↦ inr (
            read_clean j frame q (ap (λ (x : Frame). x.dirty) (sym e) ∙ clean)
              (page_mapped pool s j frame at q page))
      ]
    ]);
    unmapped = h.unmapped;
  }
    where
      read_clean :
          (j : ℕ) (frame : Frame) (q : PageId)
          → frame.dirty ≡ false
          → FrameHolds pool.storage_manager pool.page_table j frame (some q)
          → read_block q pool.storage_manager ≡ ok frame.bytes
      read_clean j frame q d (m, k, inl d') = absurd cc
      read_clean j frame q d (m, k, inr r) = r

  module _ (id : PageId) (page : f.page_id ≡ some id) (sm : StorageManager)
      (reads : read_block id sm ≡ ok f.bytes)
      (others : (q : PageId) → q ≢ id → read_block q sm ≡ read_block q pool.storage_manager) where
    -- What a frame's page reads as once the page of `f` is written.
    kept_read :
        (j : ℕ) (frame : Frame) (q : PageId)
        → get_elem? pool.frames j ≡ some frame
        → frame.page_id ≡ some q
        → (f ≡ frame) ⊎ (read_block q pool.storage_manager ≡ ok frame.bytes)
        → read_block q sm ≡ ok frame.bytes
    kept_read j frame q at e why = elim (page_cases q id) [
      | inl k ↦
          let same = one_frame pool s i j f frame id there at page (e ∙ ap some k) in
          ap (λ p. read_block p sm) k ∙ reads ∙ ap ok (ap (λ (x : Frame). x.bytes) same)
      | inr ne ↦ elim why [
        | inl k ↦
            let both : some id ≡ some q = sym page ∙ ap (λ (x : Frame). x.page_id) k ∙ e in
            absurd (ne cc)
        | inr r ↦ others q ne ∙ r
      ]
    ]

    written-IsSound :
        IsManaged sm → sm.files ≡ pool.storage_manager.files → IsSound (restored sm pool)
    written-IsSound managed files =
        IsSound-restored pool sm s managed
          (λ q k. (k.0, ap (λ ms. lookup same_id q.file_id ms) files ∙ k.1, k.2))
          (λ q j frame at e r. kept_read j frame q at e (inr r))

    Flushed-dirty :
        f.dirty ≡ true
        → write_block id f.bytes pool.storage_manager ≡ ok sm
        → Flushed fs (restored sm pool)
        → Flushed (f ∷ fs) pool
    Flushed-dirty dirty done h = record {
      after = h.after;
      gives = flush_frames_dirty f fs pool dirty page done ∙ h.gives;
      sound = record {
        managed = h.sound.managed;
        frames = h.sound.frames;
        mapped = h.sound.mapped;
      };
      written = λ j frame q at e why. h.written j frame q at e (elim why [
        | inr r ↦ inr (kept_read j frame q at e (inr r))
        | inl (n, m) ↦ elim (member_cases f frame fs n m) [
          | inr k ↦ inl k
          | inl k ↦ inr (kept_read j frame q at e (inl k))
        ]
      ]);
      unmapped = λ q none_there.
          h.unmapped q none_there
          ∙ others q (λ e.
            let m = (page_mapped pool s i f there id page).0 in
            let both = sym none_there ∙ ap (λ p. lookup same_page p pool.page_table) e ∙ m in
            absurd cc);
    }

flush_frames-Flushed :
    (fs : List Frame) (pool : BufferPool) → IsSound pool → All (IsFrame pool) fs → Flushed fs pool
flush_frames-Flushed [] pool s h = record {
  after = pool.storage_manager;
  gives = refl;
  sound = s;
  written = λ i frame q at page why. elim why [ inl (n, k) ↦ absurd cc | inr r ↦ r ];
  unmapped = λ q k. refl;
}
flush_frames-Flushed (f ∷ fs) pool s ((i, there), rest) = elim (Bool-cases f.dirty) [
  | inr clean ↦ Flushed-clean f fs pool s i there clean (flush_frames-Flushed fs pool s rest)
  | inl dirty ↦ elim (Option-cases f.page_id) [
    | inl e ↦ let clean = unmapped_clean pool s i f there e in absurd cc
    | inr (id, page) ↦
        let (m, k, c) = page_mapped pool s i f there id page in
        let (sm, done, reads, others, files, managed) =
          write_block-IsManaged id f.bytes pool.storage_manager s.managed k
            (s.frames i f there).0 in
        let sound = written-IsSound f fs pool s i there id page sm reads others managed files in
        Flushed-dirty f fs pool s i there id page sm reads others dirty done
          (flush_frames-Flushed fs (restored sm pool) sound rest)
  ]
]

shift_frames :
    (x : Frame) (xs ys : List Frame)
    → All (λ f. (i : ℕ) × (get_elem? xs i ≡ some f)) ys
    → All (λ f. (i : ℕ) × (get_elem? (x ∷ xs) i ≡ some f)) ys
shift_frames x xs [] h = tt
shift_frames x xs (y ∷ ys) ((i, e), h) = ((suc i, e), shift_frames x xs ys h)

frames-All : (xs : List Frame) → All (λ f. (i : ℕ) × (get_elem? xs i ≡ some f)) xs
frames-All [] = tt
frames-All (x ∷ xs) = ((zero, refl), shift_frames x xs xs (frames-All xs))

-- On a sound pool `flush_all` succeeds; the pool is then sound, every page is shown as before, and
-- its block reads as the page is shown.
pub flush_all-durable :
    (pool : BufferPool) (id : PageId)
    → IsSound pool
    → (pool' : BufferPool) × (flush_all pool ≡ (pool', ok tt))
      × IsSound pool'
      × (view id pool' ≡ view id pool)
      × (read_block id pool'.storage_manager ≡ view id pool)
unfolding flush_all
flush_all-durable pool id s =
    let h = flush_frames-Flushed pool.frames pool s (frames-All pool.frames) in
    let pool' = restored h.after pool in
    elim (Option-cases (lookup same_page id pool.page_table)) [
      | inl e ↦ (
        pool',
        h.gives,
        h.sound,
        ap (shown pool' id) e ∙ h.unmapped id e ∙ sym (ap (shown pool id) e),
        h.unmapped id e ∙ sym (ap (shown pool id) e),
      )
      | inr (i, e) ↦
          let (frame, there, page) = s.mapped id i e in
          (
            pool',
            h.gives,
            h.sound,
            ap (shown pool' id) e ∙ sym (ap (shown pool id) e),
            h.written i frame id there page (inl (i, there))
                ∙ sym (ap bytes_of there)
                ∙ sym (ap (shown pool id) e),
          )
    ]
