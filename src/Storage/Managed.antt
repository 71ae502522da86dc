-- ===== src/Storage/Managed.antt =====
-- A storage manager of src/storage.rs whose open files are all stored, and what keeps it so.
use db_rs.Base.{
  ℕ, ◌+◌, ◌*◌, ◌^◌, ◌<◌, ◌≡◌, ◌≢◌, ◌⊎◌, refl, sym, ap, ap₂, ◌∙◌, subst, inl, inr, Bool-cases,
  Option-cases, ==_iff, ◌==◌, true, false, Option, some, none, List, length, arith, Result, ok, err,
  file_not_found, page_not_found, io, panic, ltb, leb, slice, length-slice, ◌≤◌, write_at,
}
use db_rs.Value.{bytes_eq}
use db_rs.Page.{page_size, PageBytes}
use db_rs.Storage.{
  FileInfo, FilePath, PageId, StorageManager, content, put_content, file_info, read_block,
  write_block, read_footer,
}
use db_rs.Storage.File.{IsStored, content-put_content_ne}
use db_rs.Storage.Blocks.{
  Elsewhere, write_block-read_self, read_block-put_content, read_block_found, block_at,
}
pub mod Grown
pub mod Opened

-- Every open file is stored, its length and its footer's words are u64, and no two have one path.
pub record IsManaged (sm : StorageManager) : Type 0 where
  pub stored : (a : ℕ) (info : FileInfo) → file_info a sm ≡ some info → IsStored a info sm
  pub words :
      (a : ℕ) (info : FileInfo)
      → file_info a sm ≡ some info
      → (info.metadata.magic_number < 2 ^ 64) × (info.metadata.num_pages * page_size < 2 ^ 64)
  pub apart :
      (a b : ℕ) (x y : FileInfo)
      → file_info a sm ≡ some x
      → file_info b sm ≡ some y
      → a ≢ b
      → bytes_eq x.file y.file ≡ false

-- The page is one of an open file.
abbrev pub Known : PageId → StorageManager → Type 0
Known id sm =
    (info : FileInfo) × (file_info id.file_id sm ≡ some info)
    × (id.page_num < info.metadata.num_pages)

pub same_file :
    {info far : FileInfo} {o : Option FileInfo} → o ≡ some info → o ≡ some far → info ≡ far
same_file h k = cc

-- A stored file stays stored when its information and its bytes stay.
pub IsStored-same :
    (a : ℕ) (info : FileInfo) (sm sm' : StorageManager)
    → file_info a sm' ≡ some info
    → content sm' info.file ≡ content sm info.file
    → IsStored a info sm
    → IsStored a info sm'
IsStored-same a info sm sm' found same h = record {
  found = found;
  pages = omega (arith, ap length same, h.pages);
  end = omega (arith, ap length same, h.end);
  footer = ap read_footer same ∙ h.footer;
}

-- The page of another file, or another page of the file.
pub page_ne :
    (id other : PageId)
    → other ≢ id
    → (other.file_id ≢ id.file_id) ⊎ ((other.file_id ≡ id.file_id) × (other.page_num ≢ id.page_num))
page_ne id other ne = elim (Bool-cases (other.file_id == id.file_id)) [
  | inl e ↦
      let same = (==_iff other.file_id id.file_id).0 e in
      inr (same, λ k. ne (ap₂ (λ f n. record { file_id = f; page_num = n }) same k))
  | inr e ↦ inl (λ k. let yes = (==_iff other.file_id id.file_id).1 k in cc)
]

read_block_closed :
    (id : PageId) (sm : StorageManager)
    → file_info id.file_id sm ≡ none
    → read_block id sm ≡ err file_not_found
unfolding read_block
read_block_closed id sm h = rw h refl

abbrev written : PageId → FileInfo → PageBytes → StorageManager → StorageManager
written id info page sm =
    put_content info.file (write_at (id.page_num * page_size) page (content sm info.file)) sm

read_block-written :
    (id other : PageId) (page : PageBytes) (sm : StorageManager) {info : FileInfo}
    → IsManaged sm
    → file_info id.file_id sm ≡ some info
    → id.page_num < info.metadata.num_pages
    → length page ≡ page_size
    → other ≢ id
    → read_block other (written id info page sm) ≡ read_block other sm
read_block-written id other page sm {info} m found h full ne =
    let after =
      read_block-put_content id other page sm (m.stored id.file_id info found) h
        (m.words id.file_id info found).1 full in
    elim (Option-cases (file_info other.file_id sm)) [
      | inl closed ↦
          read_block_closed other (written id info page sm) (unfold put_content in closed)
          ∙ sym (read_block_closed other sm closed)
      | inr (far, found') ↦ elim (page_ne id other ne) [
        | inl k ↦ after (
            inr (
              far,
              found',
              m.apart id.file_id other.file_id info far found found' (λ e. k (sym e)),
            ))
        | inr (e, k) ↦ after (inl (ap (λ a. file_info a sm) e ∙ found, k))
      ]
    ]

written-IsManaged :
    (id : PageId) (page : PageBytes) (sm : StorageManager) {info : FileInfo}
    → IsManaged sm
    → file_info id.file_id sm ≡ some info
    → IsStored id.file_id info (written id info page sm)
    → IsManaged (written id info page sm)
unfolding put_content
written-IsManaged id page sm {info} m found now = record {
  stored = λ a far found'. elim (Bool-cases (a == id.file_id)) [
    | inl e ↦
        let same = (==_iff a id.file_id).0 e in
        let far_info : info ≡ far = same_file (ap (λ b. file_info b sm) same ∙ found) found' in
        subst (λ x. IsStored a x (written id info page sm)) far_info
          (subst (λ b. IsStored b info (written id info page sm)) (sym same) now)
    | inr e ↦
        let ne : id.file_id ≢ a = λ k. let yes = (==_iff a id.file_id).1 (sym k) in cc in
        IsStored-same a far sm (written id info page sm) found'
          (content-put_content_ne info.file far.file
            (write_at (id.page_num * page_size) page (content sm info.file)) sm
            (m.apart id.file_id a info far found found' ne))
          (m.stored a far found')
  ];
  words = m.words;
  apart = m.apart;
}

-- Writing a page of 8192 bytes to a page of an open file succeeds when all open files are stored:
-- the page then reads as what was written, every other page, of any file or none, reads as it did, no
-- file's information changes, and all open files are still stored.
pub write_block-IsManaged :
    (id : PageId) (page : PageBytes) (sm : StorageManager)
    → IsManaged sm
    → Known id sm
    → length page ≡ page_size
    → (sm' : StorageManager) × (write_block id page sm ≡ ok sm')
      × (read_block id sm' ≡ ok page)
      × ((other : PageId) → other ≢ id → read_block other sm' ≡ read_block other sm)
      × (sm'.files ≡ sm.files)
      × IsManaged sm'
write_block-IsManaged id page sm m (info, found, h) full =
    let (sm', e, done, read, now) =
      write_block-read_self id page sm (m.stored id.file_id info found) h
        (m.words id.file_id info found).1 full in
    (
      sm',
      done,
      read,
      λ other ne. ap (read_block other) e ∙ read_block-written id other page sm m found h full ne,
      ap (λ (s : StorageManager). s.files) e ∙ unfold put_content in refl,
      subst IsManaged (sym e)
          (written-IsManaged id page sm m found (subst (IsStored id.file_id info) e now)),
    )

block_at-ok :
    (page_num num_pages : ℕ) (bytes page : List ℕ)
    → block_at page_num num_pages bytes ≡ ok page
    → (page_num < num_pages) × (length page ≡ page_size)
block_at-ok page_num num_pages bytes page h = elim (Bool-cases (ltb page_num num_pages)) [
  | inr e ↦ let k : err page_not_found ≡ ok page = rw e at h in absurd cc
  | inl e ↦ elim (Bool-cases (ltb (page_num * page_size) (2 ^ 64))) [
    | inr f ↦ let k : panic ≡ ok page = rw (e, f) at h in absurd cc
    | inl f ↦ elim (Bool-cases (leb (page_num * page_size + page_size) (length bytes))) [
      | inr g ↦ let k : err io ≡ ok page = rw (e, f, g) at h in absurd cc
      | inl g ↦
          let k : ok (slice (page_num * page_size) page_size bytes) ≡ ok page = rw (e, f, g) at h in
          let same : slice (page_num * page_size) page_size bytes ≡ page = cc in
          let fits : page_num * page_size + page_size ≤ length bytes = ground (arith, g) in
          (
            ground (arith, e),
            ap length (sym same) ∙ length-slice (page_num * page_size) page_size bytes fits,
          )
    ]
  ]
]

-- A page that is read is one of an open file and has 8192 bytes.
pub read_block-Known :
    (id : PageId) (sm : StorageManager) (page : PageBytes)
    → read_block id sm ≡ ok page
    → Known id sm × (length page ≡ page_size)
read_block-Known id sm page h = elim (Option-cases (file_info id.file_id sm)) [
  | inl closed ↦ let k = sym (read_block_closed id sm closed) ∙ h in absurd cc
  | inr (info, found) ↦
      let (less, full) =
        block_at-ok id.page_num info.metadata.num_pages (content sm info.file) page
          (sym (read_block_found id sm found) ∙ h) in
      ((info, found, less), full)
]
