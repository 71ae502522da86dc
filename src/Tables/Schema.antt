-- ===== src/Tables/Schema.antt =====
-- Column definitions and table schemas, src/tables.rs, with their byte encodings. A name is the
-- list of its UTF-8 bytes; `String::from_utf8_lossy` is the parameter `lossy`.
pub mod RoundTrip
pub mod Valid
use db_rs.Base.{
  ℕ, zero, suc, ◌+◌, ◌^◌, ◌≤◌, ◌<◌, Bool, true, false, not, ◌&&◌, Option, none, some, List, [], ◌∷◌,
  ◌++◌, length, get_elem?, slice, drop, ltb, leb, ◌==◌, if◌then◌else◌, be_bytes, be_value,
  u8_try_from, u32_try_from, read_slice, Result, ok, err, panic, ◌>>=◌, ◌>>◌, guard, assert, unwrap,
  input_error, string_too_long,
}
use db_rs.Value.{DataType, data_type_byte, data_type_size, same_type, Value, datatype}

pub record ColumnDefinition : Type 0 where
  pub name : List ℕ
  pub data_type : DataType
  pub is_nullable : Bool

pub record TableSchema : Type 0 where
  pub attributes : List ColumnDefinition

-- `ColumnDefinition::new`
unfoldable pub new_column : List ℕ → DataType → Bool → Result ColumnDefinition
new_column name data_type is_nullable = do
  guard (leb (length name) 255) (input_error string_too_long)
  ok (record { name = name; data_type = data_type; is_nullable = is_nullable })

-- `u8::from(bool)`
abbrev pub bool_byte : Bool → ℕ
bool_byte true = 1
bool_byte false = 0

-- `ColumnDefinition::to_be_bytes`
unfoldable pub column_to_bytes : ColumnDefinition → Result (List ℕ)
column_to_bytes c = do
  name_len ← u8_try_from (length c.name)
  ok (name_len ∷ c.name ++ (data_type_byte c.data_type ∷ bool_byte c.is_nullable ∷ []))

-- `DataType::from_u8`, with `unreachable!` on other bytes.
pub data_type_from_u8 : ℕ → Result DataType
data_type_from_u8 b =
    if b == 0
    then ok DataType.int
    else if b == 1
    then ok DataType.var_char
    else if b == 2
    then ok DataType.float
    else if b == 3
    then ok DataType.boolean
    else if b == 4
    then ok DataType.blob
    else panic

pub bool_from_u8 : ℕ → Result Bool
bool_from_u8 b = if b == 0 then ok false else if b == 1 then ok true else panic

-- `&bytes[n..]`
abbrev pub tail_from : ℕ → List ℕ → Result (List ℕ)
tail_from n bytes = if leb n (length bytes) then ok (drop n bytes) else panic

-- `TableSchema::to_be_bytes`, after the count.
unfoldable pub attributes_to_bytes : List ColumnDefinition → Result (List ℕ)
unfolding column_to_bytes
attributes_to_bytes [] = ok []
attributes_to_bytes (c ∷ cs) = do
  attr_bytes ← column_to_bytes c
  rest ← attributes_to_bytes cs
  ok (attr_bytes ++ rest)

unfoldable pub schema_to_bytes : TableSchema → Result (List ℕ)
unfolding attributes_to_bytes
schema_to_bytes s = do
  num_attrs ← u32_try_from (length s.attributes)
  bytes ← attributes_to_bytes s.attributes
  ok (be_bytes 4 num_attrs ++ bytes)

module _ (lossy : List ℕ → List ℕ) where
  -- `ColumnDefinition::from_be_bytes`: the column, and how many bytes it took.
  pub column_from_bytes : List ℕ → Result (ColumnDefinition × ℕ)
  unfolding data_type_from_u8 bool_from_u8
  column_from_bytes bytes = do
    name_len ← unwrap (get_elem? bytes 0)
    after_len ← tail_from 1 bytes
    name ← read_slice 0 name_len after_len
    after_name ← tail_from name_len after_len
    type_byte ← unwrap (get_elem? after_name 0)
    data_type ← data_type_from_u8 type_byte
    after_type ← tail_from 1 after_name
    null_byte ← unwrap (get_elem? after_type 0)
    is_nullable ← bool_from_u8 null_byte
    ok (
      record { name = lossy name; data_type = data_type; is_nullable = is_nullable },
      3 + name_len,
    )

  -- The loop of `TableSchema::from_be_bytes`, over the columns that are left.
  pub attributes_from_bytes : ℕ → List ℕ → Result (List ColumnDefinition)
  unfolding column_from_bytes
  attributes_from_bytes zero bytes = ok []
  attributes_from_bytes (suc n) bytes = do
    (attr, len) ← column_from_bytes bytes
    rest ← tail_from len bytes
    attrs ← attributes_from_bytes n rest
    ok (attr ∷ attrs)

  -- `TableSchema::from_be_bytes`
  pub schema_from_bytes : List ℕ → Result TableSchema
  unfolding attributes_from_bytes
  schema_from_bytes bytes = do
    count ← read_slice 0 4 bytes
    rest ← tail_from 4 bytes
    attrs ← attributes_from_bytes (be_value count) rest
    ok (record { attributes = attrs })

-- The loop of `TableSchema::is_valid_tuple`. `unwrap` panics on the type of a `Null`, so the test
-- on `is_nullable` behind it is never decisive.
valid_values : List ColumnDefinition → List Value → Result Bool
valid_values [] vals = ok true
valid_values (c ∷ cs) [] = ok true
valid_values (c ∷ cs) (v ∷ vs) = do
  found ← unwrap (datatype v)
  let rest = valid_values cs vs
  if not (same_type found c.data_type) then ok false else rest

-- `TableSchema::is_valid_tuple`
pub is_valid_tuple : TableSchema → List Value → Result Bool
unfolding valid_values
is_valid_tuple s vals =
    if length s.attributes == length vals then valid_values s.attributes vals else ok false
