-- ===== src/Tables/Schema/RoundTrip.antt =====
-- Encoded schemas are read back, src/tables.rs.
use db_rs.Base.{
  ℕ, ◌+◌, ◌^◌, ◌≤◌, ◌<◌, ◌≡◌, refl, sym, subst, arith, Bool, true, false, List, [], ◌∷◌, ◌++◌,
  append-nil, append_assoc, All, length, drop-append, length-append, take-append, be_bytes,
  length-be_bytes, be_value-be_bytes, lt→ltb, le→leb, ok, err, read_slice, int_conversion, ge→ltb,
}
use db_rs.Value.{DataType, data_type_byte}
use db_rs.Tables.Schema.{
  ColumnDefinition, TableSchema, bool_byte, column_to_bytes, data_type_from_u8, bool_from_u8,
  tail_from, attributes_to_bytes, schema_to_bytes, column_from_bytes, attributes_from_bytes,
  schema_from_bytes,
}

data_type_from_u8-byte : (t : DataType) → data_type_from_u8 (data_type_byte t) ≡ ok t
unfolding data_type_from_u8
data_type_from_u8-byte DataType.int = refl
data_type_from_u8-byte DataType.var_char = refl
data_type_from_u8-byte DataType.float = refl
data_type_from_u8-byte DataType.boolean = refl
data_type_from_u8-byte DataType.blob = refl

bool_from_u8-byte : (b : Bool) → bool_from_u8 (bool_byte b) ≡ ok b
unfolding bool_from_u8
bool_from_u8-byte true = refl
bool_from_u8-byte false = refl

-- The bytes of a column.
abbrev column_bytes : ColumnDefinition → List ℕ
column_bytes c =
    length c.name ∷ c.name ++ (data_type_byte c.data_type ∷ bool_byte c.is_nullable ∷ [])

abbrev pub HasShortName : ColumnDefinition → Type 0
HasShortName c = length c.name ≤ 255

abbrev columns_bytes : List ColumnDefinition → List ℕ
columns_bytes [] = []
columns_bytes (c ∷ cs) = column_bytes c ++ columns_bytes cs

column_to_bytes_lem :
    (c : ColumnDefinition) → HasShortName c → column_to_bytes c ≡ ok (column_bytes c)
unfolding column_to_bytes
column_to_bytes_lem c h = rw (lt→ltb (length c.name) 256 (omega arith))

attributes_to_bytes_lem :
    (cs : List ColumnDefinition)
    → All HasShortName cs
    → attributes_to_bytes cs ≡ ok (columns_bytes cs)
unfolding attributes_to_bytes
attributes_to_bytes_lem [] h = refl
attributes_to_bytes_lem (c ∷ cs) h = rw (column_to_bytes_lem c h.0, attributes_to_bytes_lem cs h.1)

pub tail_from-append : (n : ℕ) (xs ys : List ℕ) → n ≡ length xs → tail_from n (xs ++ ys) ≡ ok ys
tail_from-append n xs ys e = rw (
  e,
  le→leb (length xs) (length (xs ++ ys)) (omega (arith, length-append xs ys)),
  drop-append xs ys,
)

pub read_slice-append : (n : ℕ) (xs ys : List ℕ) → n ≡ length xs → read_slice 0 n (xs ++ ys) ≡ ok xs
read_slice-append n xs ys e = rw (
  e,
  le→leb (0 + length xs) (length (xs ++ ys)) (omega (arith, length-append xs ys)),
  take-append xs ys,
)

pub tail_from-one : (x : ℕ) (xs : List ℕ) → tail_from 1 (x ∷ xs) ≡ ok xs
tail_from-one x xs = rw (le→leb 1 (length (x ∷ xs)) (omega arith))

module _ (lossy : List ℕ → List ℕ) where
  -- Names that `from_utf8_lossy` leaves as they are.
  abbrev pub HasTextName : ColumnDefinition → Type 0
  HasTextName c = lossy c.name ≡ c.name

  column_from_bytes-append :
      (c : ColumnDefinition) (rest : List ℕ)
      → HasTextName c
      → column_from_bytes lossy (column_bytes c ++ rest) ≡ ok (c, 3 + length c.name)
  unfolding column_from_bytes
  column_from_bytes-append c rest t =
      let end : List ℕ = data_type_byte c.data_type ∷ bool_byte c.is_nullable ∷ rest in
      rw (
        append_assoc c.name (data_type_byte c.data_type ∷ bool_byte c.is_nullable ∷ []) rest,
        tail_from-one (length c.name) (c.name ++ end),
        read_slice-append (length c.name) c.name end refl,
        tail_from-append (length c.name) c.name end refl,
        data_type_from_u8-byte c.data_type,
        tail_from-one (data_type_byte c.data_type) (bool_byte c.is_nullable ∷ rest),
        bool_from_u8-byte c.is_nullable,
        t,
      )

  length-column_bytes : (c : ColumnDefinition) → 3 + length c.name ≡ length (column_bytes c)
  length-column_bytes c =
      omega
        (arith, length-append c.name (data_type_byte c.data_type ∷ bool_byte c.is_nullable ∷ []))

  attributes_from_bytes-cons :
      (c : ColumnDefinition) (cs : List ColumnDefinition) (rest : List ℕ)
      → HasTextName c
      → attributes_from_bytes lossy (length cs) rest ≡ ok cs
      → attributes_from_bytes lossy (length (c ∷ cs)) (column_bytes c ++ rest) ≡ ok (c ∷ cs)
  unfolding attributes_from_bytes
  attributes_from_bytes-cons c cs rest t e = rw (
    column_from_bytes-append c rest t,
    tail_from-append (3 + length c.name) (column_bytes c) rest (length-column_bytes c),
    e,
  )

  attributes_from_bytes-append :
      (cs : List ColumnDefinition) (rest : List ℕ)
      → All HasTextName cs
      → attributes_from_bytes lossy (length cs) (columns_bytes cs ++ rest) ≡ ok cs
  attributes_from_bytes-append [] rest t = unfold attributes_from_bytes in refl
  attributes_from_bytes-append (c ∷ cs) rest t =
      subst (λ bytes. attributes_from_bytes lossy (length (c ∷ cs)) bytes ≡ ok (c ∷ cs))
        (sym (append_assoc (column_bytes c) (columns_bytes cs) rest))
        (attributes_from_bytes-cons c cs (columns_bytes cs ++ rest) t.0
          (attributes_from_bytes-append cs rest t.1))

  -- The bytes of a schema are read back as the schema. Its names are valid text of at most 255
  -- bytes, and it has fewer than 2^32 columns.
  pub schema_from_bytes-schema_to_bytes :
      (s : TableSchema)
      → length s.attributes < 2 ^ 32
      → All HasShortName s.attributes
      → All HasTextName s.attributes
      → (bytes : List ℕ) × (schema_to_bytes s ≡ ok bytes) × (schema_from_bytes lossy bytes ≡ ok s)
  unfolding schema_to_bytes schema_from_bytes
  schema_from_bytes-schema_to_bytes s n short text =
      let cs : List ColumnDefinition = s.attributes in
      let count : List ℕ = be_bytes 4 (length cs) in
      (
        count ++ columns_bytes cs,
        rw (lt→ltb (length cs) (2 ^ 32) n, attributes_to_bytes_lem cs short),
        rw (
          read_slice-append 4 count (columns_bytes cs) (sym (length-be_bytes 4 (length cs))),
          tail_from-append 4 count (columns_bytes cs) (sym (length-be_bytes 4 (length cs))),
          be_value-be_bytes 4 (length cs) (omega arith),
          rw append-nil at (attributes_from_bytes-append cs [] text),
        ),
      )

-- A name of more than 255 bytes has no encoding: the schema that has it is refused.
pub schema_to_bytes_long_name :
    (before after : List ColumnDefinition) (c : ColumnDefinition)
    → All HasShortName before
    → 255 < length c.name
    → length (before ++ (c ∷ after)) < 2 ^ 32
    → schema_to_bytes (record { attributes = before ++ (c ∷ after) }) ≡ err int_conversion
unfolding schema_to_bytes
schema_to_bytes_long_name before after c short long n =
    rw (lt→ltb (length (before ++ (c ∷ after))) (2 ^ 32) n, stops before short)
  where
    stops :
        (before : List ColumnDefinition)
        → All HasShortName before
        → attributes_to_bytes (before ++ (c ∷ after)) ≡ err int_conversion
    stops [] short =
        unfold attributes_to_bytes column_to_bytes in rw (ge→ltb (length c.name) 256 long)
    stops (b ∷ before) short =
        unfold attributes_to_bytes in rw (column_to_bytes_lem b short.0, stops before short.1)
