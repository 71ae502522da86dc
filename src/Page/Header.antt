-- ===== src/Page/Header.antt =====
-- The header of a page, src/page/mod.rs: the setters and the readers agree, and
-- `create_blank_page` makes an empty page.
use db_rs.Base.{
  ℕ, ◌^◌, ◌≤◌, ◌<◌, ◌≡◌, refl, ◌∙◌, inl, inr, arith, List, [], ◌∷◌, length, slice, splice,
  replicate, length-splice, length-replicate, slice-splice_apart, slice-splice_eq,
  slice-splice_before, be_bytes, length-be_bytes, be_value-be_bytes, ok,
}
use db_rs.Page.{
  PageBytes, PageKind, heap, catalog, kind_byte, kind_of_byte, page_size, id_offset, kind_offset,
  entries_offset, next_page_offset, first_free_page_id_offset, initial_first_free_page_number,
  set_page_id, set_kind, set_num_entries, create_blank_page, page_id, page_kind, num_entries,
  next_page,
}
use db_rs.Page.Layout.{Holds}

-- A page of full length whose first 11 bytes are a number, a kind and a count of entries.
pub record HasHeader (p : PageBytes) (n : ℕ) (k : PageKind) (entries : ℕ) : Type 0 where
  pub size : length p ≡ page_size
  pub id_bytes : slice id_offset 8 p ≡ be_bytes 8 n
  pub kind_bytes : slice kind_offset 1 p ≡ kind_byte k ∷ []
  pub entries_bytes : slice entries_offset 2 p ≡ be_bytes 2 entries

-- The readers return what the header holds.
pub HasHeader-read :
    {p : PageBytes} (n : ℕ) (k : PageKind) (entries : ℕ)
    → n < 2 ^ 64
    → entries < 2 ^ 16
    → HasHeader p n k entries
    → (page_id p ≡ n) × (page_kind p ≡ ok k) × (num_entries p ≡ entries)
unfolding page_id page_kind num_entries
HasHeader-read n k entries hn he h = (
  rw h.id_bytes (be_value-be_bytes 8 n (omega arith)),
  rw h.kind_bytes (byte k),
  rw h.entries_bytes (be_value-be_bytes 2 entries (omega arith)),
)
  where
    byte : (k : PageKind) → kind_of_byte (kind_byte k ∷ []) ≡ ok k
    byte heap = refl
    byte catalog = refl

-- The setters of `create_page` of the buffer pool, in its order, on any page of full length.
pub set-HasHeader :
    (q : PageBytes) (n : ℕ) (k : PageKind) (entries : ℕ)
    → length q ≡ page_size
    → HasHeader (set_page_id n (set_num_entries entries (set_kind k q))) n k entries
unfolding set_page_id set_kind set_num_entries
set-HasHeader q n k entries z =
    let q₁ : PageBytes = splice kind_offset (kind_byte k ∷ []) q in
    let z₁ : length q₁ ≡ page_size = length-splice kind_offset (kind_byte k ∷ []) q ∙ z in
    let q₂ : PageBytes = splice entries_offset (be_bytes 2 entries) q₁ in
    let z₂ : length q₂ ≡ page_size = length-splice entries_offset (be_bytes 2 entries) q₁ ∙ z₁ in
    let e : length (be_bytes 8 n) ≡ 8 = length-be_bytes 8 n in
    record {
      size = length-splice id_offset (be_bytes 8 n) q₂ ∙ z₂;
      id_bytes = slice-splice_eq id_offset 8 (be_bytes 8 n) q₂ e (omega arith);
      kind_bytes =
          slice-splice_apart kind_offset 1 id_offset (be_bytes 8 n) q₂ (inr (omega arith))
          ∙ slice-splice_apart kind_offset 1 entries_offset (be_bytes 2 entries) q₁
              (inl (omega arith))
          ∙ slice-splice_eq kind_offset 1 (kind_byte k ∷ []) q refl (omega arith);
      entries_bytes =
          slice-splice_apart entries_offset 2 id_offset (be_bytes 8 n) q₂ (inr (omega arith))
          ∙ slice-splice_eq entries_offset 2 (be_bytes 2 entries) q₁ (length-be_bytes 2 entries)
              (omega arith);
    }

-- The setters of `create_blank_page`, in its order.
blank-HasHeader :
    (q : PageBytes) (n : ℕ) (k : PageKind)
    → length q ≡ page_size
    → HasHeader (set_num_entries 0 (set_kind k (set_page_id n q))) n k 0
unfolding set_page_id set_kind set_num_entries
blank-HasHeader q n k z =
    let q₁ : PageBytes = splice id_offset (be_bytes 8 n) q in
    let z₁ : length q₁ ≡ page_size = length-splice id_offset (be_bytes 8 n) q ∙ z in
    let q₂ : PageBytes = splice kind_offset (kind_byte k ∷ []) q₁ in
    let z₂ : length q₂ ≡ page_size = length-splice kind_offset (kind_byte k ∷ []) q₁ ∙ z₁ in
    record {
      size = length-splice entries_offset (be_bytes 2 0) q₂ ∙ z₂;
      id_bytes =
          slice-splice_apart id_offset 8 entries_offset (be_bytes 2 0) q₂ (inl (omega arith))
          ∙ slice-splice_apart id_offset 8 kind_offset (kind_byte k ∷ []) q₁ (inl (omega arith))
          ∙ slice-splice_eq id_offset 8 (be_bytes 8 n) q (length-be_bytes 8 n) (omega arith);
      kind_bytes =
          slice-splice_apart kind_offset 1 entries_offset (be_bytes 2 0) q₂ (inl (omega arith))
          ∙ slice-splice_eq kind_offset 1 (kind_byte k ∷ []) q₁ refl (omega arith);
      entries_bytes =
          slice-splice_eq entries_offset 2 (be_bytes 2 0) q₂ (length-be_bytes 2 0) (omega arith);
    }

-- A write behind the first 11 bytes keeps them.
pub HasHeader-splice :
    {p : PageBytes} (a : ℕ) (bs : List ℕ) {n : ℕ} {k : PageKind} {entries : ℕ}
    → next_page_offset ≤ a
    → HasHeader p n k entries
    → HasHeader (splice a bs p) n k entries
HasHeader-splice {p} a bs b h = record {
  size = length-splice a bs p ∙ h.size;
  id_bytes = slice-splice_apart id_offset 8 a bs p (inl (omega arith)) ∙ h.id_bytes;
  kind_bytes = slice-splice_apart kind_offset 1 a bs p (inl (omega arith)) ∙ h.kind_bytes;
  entries_bytes = slice-splice_apart entries_offset 2 a bs p (inl (omega arith)) ∙ h.entries_bytes;
}

-- A page whose header counts no entries holds no records.
pub HasHeader-Holds : {p : PageBytes} {n : ℕ} {k : PageKind} → HasHeader p n k 0 → Holds p []
HasHeader-Holds h = record {
  size = h.size;
  count = h.entries_bytes;
  fits = omega arith;
  layout = tt;
}

-- The page before a catalog page gets its first free page number.
abbrev plain : ℕ → PageKind → PageBytes
plain n k = set_num_entries 0 (set_kind k (set_page_id n (replicate page_size 0)))

plain-HasHeader : (n : ℕ) (k : PageKind) → HasHeader (plain n k) n k 0
plain-HasHeader n k =
    let zeros : PageBytes = replicate page_size 0 in
    blank-HasHeader zeros n k (length-replicate {A = ℕ} page_size 0)

create_blank_page-HasHeader : (n : ℕ) (k : PageKind) → HasHeader (create_blank_page n k) n k 0
unfolding create_blank_page
create_blank_page-HasHeader n heap =
    HasHeader-splice next_page_offset (be_bytes 8 0) (omega arith) (plain-HasHeader n heap)
create_blank_page-HasHeader n catalog =
    HasHeader-splice first_free_page_id_offset (be_bytes 8 initial_first_free_page_number)
      (omega arith)
      (HasHeader-splice next_page_offset (be_bytes 8 0) (omega arith) (plain-HasHeader n catalog))

next_page-plain :
    (n : ℕ) (k : PageKind)
    → slice next_page_offset 8 (splice next_page_offset (be_bytes 8 0) (plain n k)) ≡ be_bytes 8 0
next_page-plain n k =
    slice-splice_eq next_page_offset 8 (be_bytes 8 0) (plain n k) (length-be_bytes 8 0)
      (omega (arith, (plain-HasHeader n k).size))

next_page-create_blank_page : (n : ℕ) (k : PageKind) → next_page (create_blank_page n k) ≡ 0
unfolding create_blank_page next_page
next_page-create_blank_page n heap =
    rw (next_page-plain n heap, be_value-be_bytes 8 0 (omega arith))
next_page-create_blank_page n catalog = rw (
  slice-splice_before next_page_offset 8 first_free_page_id_offset
      (be_bytes 8 initial_first_free_page_number)
      (splice next_page_offset (be_bytes 8 0) (plain n catalog)) (omega arith),
  next_page-plain n catalog,
  be_value-be_bytes 8 0 (omega arith),
)

-- `create_blank_page` makes a page with the number and the kind that it is given, no record and no
-- next page.
pub create_blank_page_lem :
    (n : ℕ) (k : PageKind)
    → n < 2 ^ 64
    → let p = create_blank_page n k in
      Holds p [] × (page_id p ≡ n) × (page_kind p ≡ ok k) × (next_page p ≡ 0)
create_blank_page_lem n k h =
    let header = create_blank_page-HasHeader n k in
    let (id, kind, _) = HasHeader-read n k 0 h (omega arith) header in
    (HasHeader-Holds header, id, kind, next_page-create_blank_page n k)

pub length-create_blank_page : (n : ℕ) (k : PageKind) → length (create_blank_page n k) ≡ page_size
length-create_blank_page n k = (create_blank_page-HasHeader n k).size
