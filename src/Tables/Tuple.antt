-- ===== src/Tables/Tuple.antt =====
-- Tuples and their byte encoding, src/tables.rs: a null bitmap, a header of fixed-width cells in
-- which a text or a blob is its offset and length, and the variable-length bytes behind it. A
-- `Tuple` is the list of its values.
mod Bits
pub mod Bitmap
pub mod Layout
mod Read
pub mod RoundTrip
use Prim.Native.Nat.{bit_or}
use db_rs.Base.{
  ℕ, zero, suc, ◌+◌, ◌-◌, ◌*◌, ◌/◌, ◌%◌, ◌^◌, ◌≤◌, ◌<◌, Bool, true, false, Option, none, some, List,
  [], ◌∷◌, ◌++◌, length, get_elem?, get_or, set, replicate, take, ltb, leb, ◌==◌, if◌then◌else◌,
  be_bytes, be_value, read_slice, Result, ok, err, panic, ◌>>=◌, ◌>>◌, guard, assert, unwrap,
  int_conversion, utf8_conversion, utf8_error, unknown, i32_bits, i32_from_bits,
}
use db_rs.Value.{DataType, data_type_size, Value, value_size}
use db_rs.Tables.Schema.{ColumnDefinition, TableSchema, bool_byte}

-- `len.div_ceil(8)`
abbrev pub bitmap_size : ℕ → ℕ
bitmap_size n = (n + 7) / 8

-- What a value adds in `Tuple::header_size`.
abbrev pub cell_size : Value → ℕ
cell_size (Value.var_char s) = 4
cell_size (Value.blob b) = 4
cell_size (Value.int i) = value_size (Value.int i)
cell_size (Value.float f) = value_size (Value.float f)
cell_size (Value.boolean b) = value_size (Value.boolean b)
cell_size Value.null = value_size Value.null

abbrev pub cells_size : List Value → ℕ
cells_size [] = 0
cells_size (v ∷ vs) = cell_size v + cells_size vs

-- `Tuple::header_size`
abbrev pub header_size : List Value → ℕ
header_size vs = bitmap_size (length vs) + cells_size vs

abbrev pub is_null_value : Value → Bool
is_null_value Value.null = true
is_null_value (Value.int i) = false
is_null_value (Value.float f) = false
is_null_value (Value.var_char s) = false
is_null_value (Value.boolean b) = false
is_null_value (Value.blob b) = false

-- `bytes[idx / 8] |= 1 << (7 - idx % 8)`; the index is in range wherever the code does this.
pub set_bit : ℕ → List ℕ → List ℕ
set_bit idx bytes = set bytes (idx / 8) (bit_or (get_or bytes (idx / 8) 0) (2 ^ (7 - idx % 8)))

-- The loop of `Tuple::gen_null_bitmap`, from the value `idx` on.
pub null_bits : ℕ → List Value → List ℕ → List ℕ
unfolding set_bit
null_bits idx [] bytes = bytes
null_bits idx (v ∷ vs) bytes =
    null_bits (suc idx) vs (if is_null_value v then set_bit idx bytes else bytes)

pub gen_null_bitmap : List Value → List ℕ
unfolding null_bits
gen_null_bitmap vs = null_bits 0 vs (replicate (bitmap_size (length vs)) 0)

-- The header bytes of a value whose variable-length bytes begin at `offset`; the casts to u16
-- truncate.
abbrev pub cell_bytes : ℕ → Value → ColumnDefinition → List ℕ
cell_bytes offset (Value.int i) col = be_bytes 4 (i32_bits i)
cell_bytes offset (Value.float f) col = be_bytes 4 f
cell_bytes offset (Value.boolean b) col = bool_byte b ∷ []
cell_bytes offset (Value.var_char s) col =
    be_bytes 2 (offset % 65536) ++ be_bytes 2 (length s % 65536)
cell_bytes offset (Value.blob b) col = be_bytes 2 (offset % 65536) ++ be_bytes 2 (length b % 65536)
cell_bytes offset Value.null col = replicate (data_type_size col.data_type) 0

abbrev pub variable_part : Value → List ℕ
variable_part (Value.var_char s) = s
variable_part (Value.blob b) = b
variable_part (Value.int i) = []
variable_part (Value.float f) = []
variable_part (Value.boolean b) = []
variable_part Value.null = []

-- The loop of `Tuple::serialize` over the values zipped with the columns, and the final join.
pub serialize_loop : List Value → List ColumnDefinition → ℕ → List ℕ → List ℕ → List ℕ
serialize_loop [] cols offset header variable = header ++ variable
serialize_loop (v ∷ vs) [] offset header variable = header ++ variable
serialize_loop (v ∷ vs) (c ∷ cs) offset header variable =
    serialize_loop vs cs (offset + length (variable_part v)) (header ++ cell_bytes offset v c)
      (variable ++ variable_part v)

-- `Tuple::serialize`
unfoldable pub serialize : List Value → TableSchema → List ℕ
unfolding serialize_loop gen_null_bitmap
serialize vs schema = serialize_loop vs schema.attributes (header_size vs) (gen_null_bitmap vs) []

-- `is_value_null` of `Tuple::deserialize`
pub is_value_null : List ℕ → ℕ → Result Bool
is_value_null bitmap idx = do
  byte ← unwrap (get_elem? bitmap (idx / 8))
  ok (byte / 2 ^ (7 - idx % 8) % 2 == 1)

-- `bytes[pos..pos + n]` as a number, and as the range of a text or a blob.
read_word : ℕ → ℕ → List ℕ → Result ℕ
read_word pos n bytes = do word ← read_slice pos n bytes; ok (be_value word)

read_range : ℕ → List ℕ → Result (List ℕ)
unfolding read_word
read_range pos bytes = do
  offset ← read_word pos 2 bytes
  size ← read_word (pos + 2) 2 bytes
  read_slice offset size bytes

module _ (utf8 : List ℕ → Bool) where
  -- The cell at `pos`, as `Tuple::deserialize` reads it.
  pub read_cell : DataType → ℕ → List ℕ → Result Value
  unfolding read_word read_range
  read_cell DataType.int pos bytes = do
    word ← read_word pos 4 bytes
    ok (Value.int (i32_from_bits word))
  read_cell DataType.float pos bytes = do word ← read_word pos 4 bytes; ok (Value.float word)
  read_cell DataType.boolean pos bytes = do
    byte ← unwrap (get_elem? bytes pos)
    ok (Value.boolean (byte == 1))
  read_cell DataType.var_char pos bytes = do
    text ← read_range pos bytes
    guard (utf8 text) utf8_conversion
    ok (Value.var_char text)
  read_cell DataType.blob pos bytes = do part ← read_range pos bytes; ok (Value.blob part)

  -- The loop of `Tuple::deserialize`, from the column `i` on, whose cell is at `pos`.
  pub deserialize_loop : List ColumnDefinition → ℕ → ℕ → List ℕ → List ℕ → Result (List Value)
  unfolding read_cell is_value_null
  deserialize_loop [] i pos bitmap bytes = ok []
  deserialize_loop (c ∷ cs) i pos bitmap bytes = do
    is_null ← is_value_null bitmap i
    value ← if is_null then ok Value.null else read_cell c.data_type pos bytes
    rest ← deserialize_loop cs (suc i) (pos + data_type_size c.data_type) bitmap bytes
    ok (value ∷ rest)

  -- `Tuple::deserialize`
  pub deserialize : List ℕ → TableSchema → Result (List Value)
  unfolding deserialize_loop
  deserialize bytes schema = do
    let size = bitmap_size (length schema.attributes)
    bitmap ← read_slice 0 size bytes
    deserialize_loop schema.attributes 0 size bitmap bytes

  -- The cell at `pos`, as `TupleRef::get_attr` reads it.
  pub read_attr : DataType → ℕ → List ℕ → Result Value
  unfolding read_word read_range
  read_attr DataType.int pos bytes = do
    word ← read_word pos 4 bytes
    ok (Value.int (i32_from_bits word))
  read_attr DataType.float pos bytes = do word ← read_word pos 4 bytes; ok (Value.float word)
  read_attr DataType.boolean pos bytes = do
    byte ← unwrap (get_elem? bytes pos)
    guard (ltb byte 2) int_conversion
    ok (Value.boolean (byte == 1))
  read_attr DataType.var_char pos bytes = do
    text ← read_range pos bytes
    guard (utf8 text) utf8_error
    ok (Value.var_char text)
  read_attr DataType.blob pos bytes = do part ← read_range pos bytes; ok (Value.blob part)

  -- The loop of `TupleRef::get_attr`: `left` columns are still to be passed over.
  pub attr_loop : List ColumnDefinition → ℕ → ℕ → List ℕ → Result Value
  unfolding read_attr
  attr_loop [] left pos bytes = err unknown
  attr_loop (c ∷ cs) zero pos bytes = read_attr c.data_type pos bytes
  attr_loop (c ∷ cs) (suc left) pos bytes =
      attr_loop cs left (pos + data_type_size c.data_type) bytes

  -- `TupleRef::get_attr`
  pub get_attr : ℕ → List ℕ → TableSchema → Result Value
  unfolding attr_loop
  get_attr idx bytes schema =
      attr_loop schema.attributes idx (bitmap_size (length schema.attributes)) bytes
