-- ===== src/Catalog/RoundTrip.antt =====
-- Encoded catalog entries are read back, src/catalog.rs.
use db_rs.Base.{
  ℕ, ◌+◌, ◌^◌, ◌≤◌, ◌<◌, ◌≡◌, refl, sym, ap, ◌∙◌, arith, List, [], ◌∷◌, ◌++◌, append-nil, All,
  length, length-append, be_bytes, length-be_bytes, be_value-be_bytes, lt→ltb, le→leb, ok,
  read_slice, take-append,
}
use db_rs.Tables.Schema.{schema_to_bytes, schema_from_bytes, tail_from}
use db_rs.Tables.Schema.RoundTrip.{
  HasShortName, HasTextName, tail_from-append, tail_from-one, read_slice-append,
  schema_from_bytes-schema_to_bytes,
}
use db_rs.Catalog.{CatalogEntry, entry_to_bytes, entry_from_bytes}

-- The bytes of an entry whose schema's bytes are `blob`.
abbrev entry_bytes_of : CatalogEntry → List ℕ → List ℕ
entry_bytes_of entry blob =
    be_bytes 4 entry.table_id
    ++ (length entry.table_name
        ∷ (entry.table_name
            ++ (length entry.file_name ∷ (entry.file_name ++ (be_bytes 2 (length blob) ++ blob)))))

entry_to_bytes_lem :
    (entry : CatalogEntry) (blob : List ℕ)
    → length entry.table_name ≤ 255
    → length entry.file_name ≤ 255
    → length blob < 65536
    → schema_to_bytes entry.schema ≡ ok blob
    → entry_to_bytes entry ≡ ok (entry_bytes_of entry blob)
unfolding entry_to_bytes
entry_to_bytes_lem entry blob t f b e = rw (
  lt→ltb (length entry.table_name) 256 (omega arith),
  lt→ltb (length entry.file_name) 256 (omega arith),
  e,
  lt→ltb (length blob) 65536 b,
)

read_slice_one : (x : ℕ) (xs ys : List ℕ) → read_slice 1 (length xs) (x ∷ (xs ++ ys)) ≡ ok xs
read_slice_one x xs ys = rw (
  le→leb (1 + length xs) (length (x ∷ (xs ++ ys))) (omega (arith, length-append xs ys)),
  take-append xs ys,
)

tail_from_behind : (x : ℕ) (xs ys : List ℕ) → tail_from (length xs + 1) (x ∷ (xs ++ ys)) ≡ ok ys
tail_from_behind x xs ys = tail_from-append (length xs + 1) (x ∷ xs) ys (omega arith)

module _ (lossy : List ℕ → List ℕ) where
  entry_from_bytes_lem :
      (entry : CatalogEntry) (blob : List ℕ)
      → entry.table_id < 2 ^ 32
      → lossy entry.table_name ≡ entry.table_name
      → lossy entry.file_name ≡ entry.file_name
      → length blob < 65536
      → schema_from_bytes lossy blob ≡ ok entry.schema
      → entry_from_bytes lossy (entry_bytes_of entry blob) ≡ ok entry
  unfolding entry_from_bytes
  entry_from_bytes_lem entry blob n t f b e =
      let end = be_bytes 2 (length blob) ++ blob in
      let behind_table = length entry.file_name ∷ (entry.file_name ++ end) in
      let behind_id = length entry.table_name ∷ (entry.table_name ++ behind_table) in
      let four = sym (length-be_bytes 4 entry.table_id) in
      let two = sym (length-be_bytes 2 (length blob)) in
      rw (
        read_slice-append 4 (be_bytes 4 entry.table_id) behind_id four,
        tail_from-append 4 (be_bytes 4 entry.table_id) behind_id four,
        tail_from-one (length entry.table_name) (entry.table_name ++ behind_table),
        read_slice-append (length entry.table_name) entry.table_name behind_table refl,
        tail_from-append (length entry.table_name) entry.table_name behind_table refl,
        read_slice_one (length entry.file_name) entry.file_name end,
        tail_from_behind (length entry.file_name) entry.file_name end,
        read_slice-append 2 (be_bytes 2 (length blob)) blob two,
        tail_from-append 2 (be_bytes 2 (length blob)) blob two,
        be_value-be_bytes 2 (length blob) (omega arith),
        read_slice_all blob,
        e,
        be_value-be_bytes 4 entry.table_id (omega arith),
        t,
        f,
      )
    where
      read_slice_all : (xs : List ℕ) → read_slice 0 (length xs) xs ≡ ok xs
      read_slice_all xs = rw append-nil at (read_slice-append (length xs) xs [] refl)

  -- A catalog entry is read back from its bytes. Its names and its columns' names are valid text of
  -- at most 255 bytes, its id is a u32, it has fewer than 2^32 columns, and its schema's bytes are
  -- fewer than 65536.
  pub entry_from_bytes-entry_to_bytes :
      (entry : CatalogEntry) {blob : List ℕ}
      → entry.table_id < 2 ^ 32
      → length entry.table_name ≤ 255
      → length entry.file_name ≤ 255
      → lossy entry.table_name ≡ entry.table_name
      → lossy entry.file_name ≡ entry.file_name
      → length entry.schema.attributes < 2 ^ 32
      → All HasShortName entry.schema.attributes
      → All (HasTextName lossy) entry.schema.attributes
      → schema_to_bytes entry.schema ≡ ok blob
      → length blob < 65536
      → (bytes : List ℕ) × (entry_to_bytes entry ≡ ok bytes)
        × (entry_from_bytes lossy bytes ≡ ok entry)
  entry_from_bytes-entry_to_bytes entry {blob} n t f lt lf columns short text encoded small =
      let (blob', encoded', read) =
        schema_from_bytes-schema_to_bytes lossy entry.schema columns short text in
      let same : blob' ≡ blob = cc in
      (
        entry_bytes_of entry blob,
        entry_to_bytes_lem entry blob t f small encoded,
        entry_from_bytes_lem entry blob n lt lf small
            (ap (schema_from_bytes lossy) (sym same) ∙ read),
      )
