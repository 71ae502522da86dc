-- ===== src/Storage/Managed/Opened.antt =====
-- A file that a storage manager of src/storage.rs creates, where all open files are stored.
use db_rs.Base.{
  ℕ, ◌<◌, ◌≡◌, ◌≢◌, ◌⊎◌, sym, ap, ◌∙◌, subst, inl, inr, Bool-cases, ==_iff, ◌==◌, false, some, none,
  List, [], length, arith, Result, ok, err, panic, lookup, lookup-insert_key_self,
  lookup-insert_key_ne,
}
use db_rs.Value.{bytes_eq}
use db_rs.Page.{create_blank_page, catalog}
use db_rs.Storage.{
  FileInfo, FilePath, StorageManager, content, put_content, same_id, file_info, read_block,
  open_or_create_file, fresh_file, fresh_footer,
}
use db_rs.Storage.File.{IsStored, content-put_content_ne}
use db_rs.Storage.Open.{opened, open_or_create_file_new, open_or_create_file-new}
use db_rs.Storage.Managed.{IsManaged, same_file, IsStored-same}

abbrev pub fresh_info : FilePath → FileInfo
fresh_info path = record { file = path; metadata = fresh_footer }

module _ (path : FilePath) (bytes : List ℕ) (sm : StorageManager) where
  file_info-opened_cases :
      (b : ℕ) (far : FileInfo)
      → file_info b (opened path bytes fresh_footer sm) ≡ some far
      → ((sm.next_id ≡ b) × (far ≡ fresh_info path))
        ⊎ ((sm.next_id ≢ b) × (file_info b sm ≡ some far))
  file_info-opened_cases b far h = elim (Bool-cases (sm.next_id == b)) [
    | inl e ↦
        let same = (==_iff sm.next_id b).0 e in
        inl (
          same,
          same_file h (
              ap (λ c. file_info c (opened path bytes fresh_footer sm)) (sym same)
              ∙ lookup-insert_key_self same_id ==_iff sm.next_id (fresh_info path) sm.files),
        )
    | inr e ↦ inr (
      (λ k. let yes = (==_iff sm.next_id b).1 k in cc),
      sym (lookup-insert_key_ne same_id ==_iff sm.next_id b (fresh_info path) sm.files e) ∙ h,
    )
  ]

  content-opened_ne :
      (far : FilePath)
      → bytes_eq path far ≡ false
      → content (opened path bytes fresh_footer sm) far ≡ content sm far
  unfolding put_content content
  content-opened_ne far h = content-put_content_ne path far bytes sm h

  opened-IsManaged :
      IsManaged sm
      → IsStored sm.next_id (fresh_info path) (opened path bytes fresh_footer sm)
      → ((b : ℕ) (x : FileInfo)
          → file_info b sm ≡ some x
          → (bytes_eq path x.file ≡ false) × (bytes_eq x.file path ≡ false))
      → IsManaged (opened path bytes fresh_footer sm)
  opened-IsManaged m now others = record {
    stored = λ b far h. elim (file_info-opened_cases b far h) [
      | inl (e, k) ↦
          subst (λ x. IsStored b x (opened path bytes fresh_footer sm)) (sym k)
            (subst (λ c. IsStored c (fresh_info path) (opened path bytes fresh_footer sm)) e now)
      | inr (ne, k) ↦
          IsStored-same b far sm (opened path bytes fresh_footer sm) h
            (content-opened_ne far.file (others b far k).0) (m.stored b far k)
    ];
    words = λ b far h. elim (file_info-opened_cases b far h) [
      | inl (e, k) ↦ rw k (omega arith, omega arith)
      | inr (ne, k) ↦ m.words b far k
    ];
    apart = λ b c x y h k ne. elim (file_info-opened_cases b x h) [
      | inl (e, ex) ↦ elim (file_info-opened_cases c y k) [
        | inl (f, ey) ↦ absurd (ne (sym e ∙ f))
        | inr (f, ey) ↦ ap (λ (z : FileInfo). bytes_eq z.file y.file) ex ∙ (others c y ey).0
      ]
      | inr (e, ex) ↦ elim (file_info-opened_cases c y k) [
        | inl (f, ey) ↦ ap (λ (z : FileInfo). bytes_eq x.file z.file) ey ∙ (others b x ex).1
        | inr (f, ey) ↦ m.apart b c x y ex ey ne
      ]
    ];
  }

abbrev manager_of : StorageManager → Result (StorageManager × ℕ) → StorageManager
manager_of sm (ok (made, file_id)) = made
manager_of sm (err e) = sm
manager_of sm panic = sm

-- Creating a file, where all open files are stored and none has its path, succeeds, and all open files
-- are still stored; the new file's page 0 reads as a blank catalog page.
pub open_or_create_file-IsManaged :
    (path : FilePath) (sm : StorageManager)
    → IsManaged sm
    → lookup bytes_eq path sm.paths ≡ none
    → length (content sm path) < 16
    → ((b : ℕ) (x : FileInfo)
        → file_info b sm ≡ some x
        → (bytes_eq path x.file ≡ false) × (bytes_eq x.file path ≡ false))
    → (sm' : StorageManager) × (open_or_create_file path sm ≡ ok (sm', sm.next_id))
      × IsManaged sm'
      × IsStored sm.next_id (fresh_info path) sm'
      × (read_block (record { file_id = sm.next_id; page_num = 0 }) sm'
          ≡ ok (create_blank_page 0 catalog))
open_or_create_file-IsManaged path sm m closed short others =
    let (sm', e, stored, read) = open_or_create_file-new path sm closed short in
    let made = open_or_create_file_new path sm closed short in
    let bytes = fresh_file (content sm path) in
    let same : sm' ≡ opened path bytes fresh_footer sm = ap (manager_of sm) (sym e ∙ made) in
    (
      sm',
      e,
      subst IsManaged (sym same) (
          opened-IsManaged path bytes sm m
            (subst (IsStored sm.next_id (fresh_info path)) same stored) others),
      stored,
      read,
    )

-- A manager with no open file.
pub IsManaged-nothing : (sm : StorageManager) → sm.files ≡ [] → IsManaged sm
IsManaged-nothing sm e = record {
  stored = λ a info h. absurd (closed a info h);
  words = λ a info h. absurd (closed a info h);
  apart = λ a b x y h k ne. absurd (closed a x h);
}
  where
    closed : (a : ℕ) (info : FileInfo) → ¬ (file_info a sm ≡ some info)
    closed a info h = let nothing = ap (λ fs. lookup same_id a fs) e in absurd cc
