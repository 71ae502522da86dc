-- ===== src/Storage/Managed/Grown.antt =====
-- A file of a storage manager of src/storage.rs that grows by a page, where all open files are stored.
use db_rs.Base.{
  ℕ, ◌+◌, ◌*◌, ◌^◌, ◌<◌, ◌≤◌, ◌≡◌, ◌≢◌, ◌⊎◌, refl, sym, ap, ap₂, ◌∙◌, subst, inl, inr, Bool-cases,
  Option-cases, ==_iff, ◌==◌, false, some, none, List, replicate, arith, ok, err, panic,
  file_not_found, page_not_found, lookup-insert_key_ne, lt→ltb, ge→ltb,
}
use db_rs.Value.{bytes_eq}
use db_rs.Page.{page_size}
use db_rs.Storage.{
  FileInfo, PageId, StorageManager, content, put_content, put_info, set_num_pages, same_id,
  file_info, read_block, write_footer, append_empty_block, get_next_page_id,
}
use db_rs.Storage.File.{IsStored, content-put_content_ne, file_info-put_info_self}
use db_rs.Storage.Blocks.{read_block_found, block_at}
use db_rs.Storage.Grow.{
  grown, with_page, with_footer, append_empty_block-eq, get_next_page_id_found, grown-IsStored,
  read_block-grown_new, read_block-grown_old,
}
use db_rs.Storage.Managed.{IsManaged, Known, same_file, IsStored-same, page_ne, read_block_closed}

file_info-grown_ne :
    (a b : ℕ) (info : FileInfo) (sm : StorageManager)
    → (a == b) ≡ false
    → file_info b (grown a info sm) ≡ file_info b sm
unfolding put_content
file_info-grown_ne a b info sm ne =
    lookup-insert_key_ne same_id ==_iff a b (set_num_pages (info.metadata.num_pages + 1) info)
      sm.files ne

content-grown_ne :
    (a : ℕ) (info far : FileInfo) (sm : StorageManager)
    → bytes_eq info.file far.file ≡ false
    → content (grown a info sm) far.file ≡ content sm far.file
unfolding put_content content
content-grown_ne a info far sm h =
    let info' = set_num_pages (info.metadata.num_pages + 1) info in
    let bytes = with_page info.metadata.num_pages (content sm info.file) in
    let longer = put_info a info' (put_content info.file bytes sm) in
    content-put_content_ne info.file far.file
      (with_footer info'.metadata (content longer info.file)) longer h
    ∙ content-put_content_ne info.file far.file bytes sm h

past : (q n : ℕ) (bytes : List ℕ) → n ≤ q → block_at q n bytes ≡ err page_not_found
past q n bytes l = rw (ge→ltb q n l) refl

module _ (a : ℕ) (sm : StorageManager) {info : FileInfo} (m : IsManaged sm)
    (found : file_info a sm ≡ some info) where
  found_grown :
      file_info a (grown a info sm) ≡ some (set_num_pages (info.metadata.num_pages + 1) info)
  unfolding put_content
  found_grown = file_info-put_info_self a (set_num_pages (info.metadata.num_pages + 1) info) sm

  -- What is known of the files afterwards: the file itself, and every other one.
  file_info-grown_cases :
      (b : ℕ) (far : FileInfo)
      → file_info b (grown a info sm) ≡ some far
      → ((b ≡ a) × (far ≡ set_num_pages (info.metadata.num_pages + 1) info))
        ⊎ ((a ≢ b) × ((a == b) ≡ false) × (file_info b sm ≡ some far))
  file_info-grown_cases b far h = elim (Bool-cases (a == b)) [
    | inl e ↦
        let same = (==_iff a b).0 e in
        inl
          (sym same, same_file h (ap (λ c. file_info c (grown a info sm)) (sym same) ∙ found_grown))
    | inr e ↦
        inr ((λ k. let yes = (==_iff a b).1 k in cc), e, sym (file_info-grown_ne a b info sm e) ∙ h)
  ]

  -- Every file was there before, under its path and with no more pages.
  file_info-grown_before :
      (b : ℕ) (far : FileInfo)
      → file_info b (grown a info sm) ≡ some far
      → (x : FileInfo) × (file_info b sm ≡ some x) × (x.file ≡ far.file)
  file_info-grown_before b far h = elim (file_info-grown_cases b far h) [
    | inl (e, k) ↦ (info, ap (λ c. file_info c sm) e ∙ found, sym (ap (λ (x : FileInfo). x.file) k))
    | inr (ne, e, k) ↦ (far, k, refl)
  ]

  Known-grown : (id : PageId) → Known id sm → Known id (grown a info sm)
  Known-grown id (x, h, l) = elim (Bool-cases (a == id.file_id)) [
    | inl e ↦
        let same = (==_iff a id.file_id).0 e in
        let x_info : info ≡ x = same_file found (ap (λ c. file_info c sm) same ∙ h) in
        let less : id.page_num < info.metadata.num_pages =
          subst (λ (y : FileInfo). id.page_num < y.metadata.num_pages) (sym x_info) l in
        (
          set_num_pages (info.metadata.num_pages + 1) info,
          ap (λ c. file_info c (grown a info sm)) (sym same) ∙ found_grown,
          omega arith,
        )
    | inr e ↦ (x, file_info-grown_ne a id.file_id info sm e ∙ h, l)
  ]

  module _ (room : (info.metadata.num_pages + 1) * page_size + 17 < 2 ^ 64) where
    grown-IsManaged : IsManaged (grown a info sm)
    grown-IsManaged =
        let now = grown-IsStored a sm (m.stored a info found) (m.words a info found).0 room in
        record {
          stored = λ b far h. elim (file_info-grown_cases b far h) [
            | inl (e, k) ↦
                subst (λ x. IsStored b x (grown a info sm)) (sym k)
                  (subst
                    (λ c.
                      IsStored c (set_num_pages (info.metadata.num_pages + 1) info)
                        (grown a info sm))
                    (sym e) now)
            | inr (ne, e, k) ↦
                IsStored-same b far sm (grown a info sm) h
                  (content-grown_ne a info far sm (m.apart a b info far found k ne))
                  (m.stored b far k)
          ];
          words = λ b far h. elim (file_info-grown_cases b far h) [
            | inl (e, k) ↦ rw k ((m.words a info found).0, omega arith)
            | inr (ne, e, k) ↦ m.words b far k
          ];
          apart = λ b c x y h k ne.
              let (x', h', ex) = file_info-grown_before b x h in
              let (y', k', ey) = file_info-grown_before c y k in
              sym (ap₂ bytes_eq ex ey) ∙ m.apart b c x' y' h' k' ne;
        }

    read_block-grown_other :
        (other : PageId)
        → other ≢ record { file_id = a; page_num = info.metadata.num_pages }
        → read_block other (grown a info sm) ≡ read_block other sm
    read_block-grown_other other ne = elim (page_ne _ other ne) [
      | inl k ↦ elim (Option-cases (file_info other.file_id sm)) [
        | inl closed ↦
            read_block_closed other (grown a info sm) (apart_info k ∙ closed)
            ∙ sym (read_block_closed other sm closed)
        | inr (far, h) ↦
            read_block_found other (grown a info sm) (apart_info k ∙ h)
            ∙ ap (λ b. block_at other.page_num far.metadata.num_pages b)
                (content-grown_ne a info far sm
                  (m.apart a other.file_id info far found h (λ e. k (sym e))))
            ∙ sym (read_block_found other sm h)
      ]
      | inr (e, k) ↦
          ap (λ id. read_block id (grown a info sm)) (renamed e)
          ∙ in_file other.page_num k
          ∙ sym (ap (λ id. read_block id sm) (renamed e))
    ]
      where
        apart_info :
            other.file_id ≢ a
            → file_info other.file_id (grown a info sm) ≡ file_info other.file_id sm
        apart_info k = elim (Bool-cases (a == other.file_id)) [
          | inl e ↦ absurd (k (sym ((==_iff a other.file_id).0 e)))
          | inr e ↦ file_info-grown_ne a other.file_id info sm e
        ]

        renamed : other.file_id ≡ a → other ≡ record { file_id = a; page_num = other.page_num }
        renamed e = ap (λ f. record { file_id = f; page_num = other.page_num }) e

        beyond : (q n : ℕ) → q ≢ n → (q < n) ⊎ ((n ≤ q) × (n + 1 ≤ q))
        beyond q n ne = ground arith

        in_file :
            (q : ℕ)
            → q ≢ info.metadata.num_pages
            → read_block (record { file_id = a; page_num = q }) (grown a info sm)
              ≡ read_block (record { file_id = a; page_num = q }) sm
        in_file q ne = elim (beyond q info.metadata.num_pages ne) [
          | inl l ↦ read_block-grown_old a sm (m.stored a info found) q room l
          | inr (l, l') ↦
              read_block_found (record { file_id = a; page_num = q }) (grown a info sm) found_grown
              ∙ past q (info.metadata.num_pages + 1) _ l'
              ∙ sym (past q info.metadata.num_pages _ l)
              ∙ sym (read_block_found (record { file_id = a; page_num = q }) sm found)
        ]

-- What `get_next_page_id` does to a file that may grow.
pub record HasGrown (a : ℕ) (sm : StorageManager) : Type 0 where
  pub after : StorageManager
  pub page_num : ℕ
  pub gives : get_next_page_id a sm ≡ ok (after, page_num)
  pub zeros :
      read_block (record { file_id = a; page_num = page_num }) after ≡ ok (replicate page_size 0)
  pub others :
      (other : PageId)
      → other ≢ record { file_id = a; page_num = page_num }
      → read_block other after ≡ read_block other sm
  pub managed : IsManaged after
  pub known : (id : PageId) → Known id sm → Known id after
  pub new : Known (record { file_id = a; page_num = page_num }) after
  pub fresh : ¬ Known (record { file_id = a; page_num = page_num }) sm

get_next_page_id_closed :
    (a : ℕ) (sm : StorageManager)
    → file_info a sm ≡ none
    → get_next_page_id a sm ≡ err file_not_found
unfolding get_next_page_id
get_next_page_id_closed a sm h = rw h refl

-- The new page count is no u64.
append_empty_block_full :
    (a : ℕ) (sm : StorageManager) {info : FileInfo}
    → file_info a sm ≡ some info
    → info.metadata.num_pages * page_size < 2 ^ 64
    → 2 ^ 64 ≤ (info.metadata.num_pages + 1) * page_size
    → append_empty_block a sm ≡ panic
unfolding append_empty_block write_footer
append_empty_block_full a sm {info} found room full = rw (
  found,
  lt→ltb (info.metadata.num_pages * page_size) (2 ^ 64) room,
  lt→ltb (info.metadata.num_pages + 1) (2 ^ 64) (omega arith),
  ge→ltb (page_size * (info.metadata.num_pages + 1)) (2 ^ 64) (omega arith),
)

-- Where all open files are stored, `get_next_page_id` fails with `FileNotFound` for a file that is not
-- open, panics where the file would be too long for a u64, and otherwise lets the file grow: its new
-- page reads as zeros, all others as before, and all open files are still stored.
pub get_next_page_id-HasGrown :
    (a : ℕ) (sm : StorageManager)
    → IsManaged sm
    → (get_next_page_id a sm ≡ err file_not_found) ⊎ (get_next_page_id a sm ≡ panic) ⊎ HasGrown a sm
get_next_page_id-HasGrown a sm m = elim (Option-cases (file_info a sm)) [
  | inl closed ↦ inl (get_next_page_id_closed a sm closed)
  | inr (info, found) ↦ elim (fits ((info.metadata.num_pages + 1) * page_size)) [
    | inr full ↦ inr (
        inl (
          get_next_page_id_found a sm found
          ∙ append_empty_block_full a sm found (m.words a info found).1 full))
    | inl short ↦
        let room : (info.metadata.num_pages + 1) * page_size + 17 < 2 ^ 64 = omega arith in
        inr (
          inr (record {
            after = grown a info sm;
            page_num = info.metadata.num_pages;
            gives = get_next_page_id_found a sm found ∙ append_empty_block-eq a info sm found room;
            zeros = read_block-grown_new a sm (m.stored a info found) room;
            others = read_block-grown_other a sm m found room;
            managed = grown-IsManaged a sm m found room;
            known = Known-grown a sm m found;
            new = (
              set_num_pages (info.metadata.num_pages + 1) info,
              found_grown a sm m found,
              omega arith,
            );
            fresh = λ (far, h, l).
                let e : info.metadata.num_pages ≡ far.metadata.num_pages =
                  ap (λ (x : FileInfo). x.metadata.num_pages) (same_file found h) in
                absurd (omega arith);
          }))
  ]
]
  where
    fits : (n : ℕ) → (n < 2 ^ 64) ⊎ (2 ^ 64 ≤ n)
    fits n = ground arith
