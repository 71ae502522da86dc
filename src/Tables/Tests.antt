-- ===== src/Tables/Tests.antt =====
-- The theorems on schemas and tuples at concrete ones, and runs of the encoder.
use db_rs.Base.{
  ℕ, ◌<◌, ◌≡◌, ◌≢◌, ◌↔◌, refl, arith, inl, Bool, true, false, List, [], ◌∷◌, length, ok, panic, pos,
  be_bytes, i32_bits,
}
use db_rs.Value.{DataType, Value}
use db_rs.Tables.Schema.{
  ColumnDefinition, TableSchema, schema_to_bytes, schema_from_bytes, is_valid_tuple,
}
use db_rs.Tables.Schema.RoundTrip.{schema_from_bytes-schema_to_bytes}
use db_rs.Tables.Schema.Valid.{OfTypes, is_valid_tuple_iff, is_valid_tuple_null}
use db_rs.Tables.Tuple.{gen_null_bitmap, is_value_null, serialize, deserialize, get_attr}
use db_rs.Tables.Tuple.Bitmap.{is_value_null-gen_null_bitmap}
use db_rs.Tables.Tuple.Layout.{AllConform}
use db_rs.Tables.Tuple.RoundTrip.{deserialize-serialize, get_attr-serialize, get_attr-ne-null}

abbrev any_text : List ℕ → Bool
any_text bytes = true

abbrev keep : List ℕ → List ℕ
keep bytes = bytes

abbrev column : List ℕ → DataType → Bool → ColumnDefinition
column name data_type nullable = record {
  name = name;
  data_type = data_type;
  is_nullable = nullable;
}

-- id INT NOT NULL, name VARCHAR, gpa FLOAT NOT NULL
abbrev students : TableSchema
students = record {
  attributes =
      column (105 ∷ 100 ∷ []) DataType.int false
      ∷ column (110 ∷ 97 ∷ []) DataType.var_char true
      ∷ column (103 ∷ []) DataType.float false
      ∷ [];
}

abbrev bob : List Value
bob = Value.int (pos 7) ∷ Value.var_char (98 ∷ 111 ∷ 98 ∷ []) ∷ Value.float 0x4060_0000 ∷ []

abbrev nameless : List Value
nameless = Value.int (pos 7) ∷ Value.null ∷ Value.float 0x4060_0000 ∷ []

bob_bytes :
    serialize bob students
    ≡ 0 ∷ 0 ∷ 0 ∷ 0 ∷ 7 ∷ 0 ∷ 13 ∷ 0 ∷ 3 ∷ 0x40 ∷ 0x60 ∷ 0 ∷ 0 ∷ 98 ∷ 111 ∷ 98 ∷ []
unfolding serialize be_bytes i32_bits
bob_bytes = refl

bob-AllConform : AllConform any_text bob students.attributes
bob-AllConform = ((refl, omega arith), ((refl, refl), ((refl, omega arith), tt)))

bob_short : length (serialize bob students) < 65536
bob_short = rw bob_bytes (omega arith)

deserialize-serialize_example : deserialize any_text (serialize bob students) students ≡ ok bob
deserialize-serialize_example =
    deserialize-serialize any_text bob students bob-AllConform (inl (refl, (refl, (refl, tt))))
      bob_short

get_attr-serialize_example :
    get_attr any_text 1 (serialize bob students) students ≡ ok (Value.var_char (98 ∷ 111 ∷ 98 ∷ []))
get_attr-serialize_example =
    get_attr-serialize any_text bob students bob-AllConform (inl (refl, (refl, (refl, tt))))
      bob_short 1 (Value.var_char (98 ∷ 111 ∷ 98 ∷ [])) refl refl

get_attr-ne-null_example :
    get_attr any_text 1 (serialize nameless students) students ≢ ok Value.null
get_attr-ne-null_example = get_attr-ne-null any_text 1 (serialize nameless students) students

is_value_null-gen_null_bitmap_example : is_value_null (gen_null_bitmap nameless) 1 ≡ ok true
is_value_null-gen_null_bitmap_example = is_value_null-gen_null_bitmap nameless 1 Value.null refl

schema_from_bytes-schema_to_bytes_example :
    (bytes : List ℕ) × (schema_to_bytes students ≡ ok bytes)
    × (schema_from_bytes keep bytes ≡ ok students)
schema_from_bytes-schema_to_bytes_example =
    schema_from_bytes-schema_to_bytes keep students (omega arith) (omega arith)
      (refl, (refl, (refl, tt)))

is_valid_tuple_iff_example :
    (is_valid_tuple students bob ≡ ok true) ↔ OfTypes bob students.attributes
is_valid_tuple_iff_example = is_valid_tuple_iff students bob

is_valid_tuple_null_example : is_valid_tuple students nameless ≡ panic
is_valid_tuple_null_example =
    is_valid_tuple_null (Value.int (pos 7) ∷ []) (Value.float 0x4060_0000 ∷ [])
      (column (105 ∷ 100 ∷ []) DataType.int false ∷ [])
      (column (103 ∷ []) DataType.float false ∷ []) (column (110 ∷ 97 ∷ []) DataType.var_char true)
      (refl, tt) refl
