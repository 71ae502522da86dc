-- ===== src/Tables/Tuple/RoundTrip.antt =====
-- Encoded tuples are read back, src/tables.rs: `deserialize` after `serialize`, and `get_attr` on
-- each column.
use db_rs.Base.{
  ℕ, zero, suc, ◌+◌, ◌<◌, ◌≡◌, ◌≢◌, refl, sym, ap, inl, inr, arith, Bool, true, false, some, List,
  [], ◌∷◌, length, get_elem?, At, At-left, At-right, At-read_slice, ok, if◌then◌else◌, Bool-cases,
}
use native.Mathlib.Nat.{add-zero}
use db_rs.Value.{DataType, data_type_size, Value}
use db_rs.Tables.Schema.{ColumnDefinition, TableSchema}
use db_rs.Tables.Tuple.{
  bitmap_size, header_size, is_null_value, cell_bytes, variable_part, serialize, gen_null_bitmap,
  is_value_null, read_cell, deserialize_loop, deserialize, read_attr, attr_loop, get_attr,
}
use db_rs.Tables.Tuple.Bitmap.{length-gen_null_bitmap, is_value_null-gen_null_bitmap}
use db_rs.Tables.Tuple.Layout.{
  AllConform, IsAligned, cells, variables, length-cell_bytes, length-AllConform, At-bitmap,
  At-cells, At-variables,
}
use db_rs.Tables.Tuple.Read.{read_cell-At, read_attr-At}

-- What is left of an encoded tuple from a column on.
record Remains (utf8 : List ℕ → Bool) (bytes : List ℕ) (pos offset : ℕ) (vs : List Value)
    (cs : List ColumnDefinition) : Type 0 where
  conform : AllConform utf8 vs cs
  at_cells : At bytes pos (cells offset vs cs)
  at_variables : At bytes offset (variables vs)

null_of_is_null : (v : Value) → is_null_value v ≡ true → v ≡ Value.null
null_of_is_null Value.null h = refl
null_of_is_null (Value.int i) h = cc
null_of_is_null (Value.float f) h = cc
null_of_is_null (Value.var_char s) h = cc
null_of_is_null (Value.boolean b) h = cc
null_of_is_null (Value.blob b) h = cc

module _ (utf8 : List ℕ → Bool) (bytes : List ℕ) (short : length bytes < 65536) where
  -- One column on.
  Remains-tail :
      (pos offset : ℕ) (v : Value) (vs : List Value) (c : ColumnDefinition)
      (cs : List ColumnDefinition)
      → Remains utf8 bytes pos offset (v ∷ vs) (c ∷ cs)
      → Remains utf8 bytes
          (pos + data_type_size c.data_type)
          (offset + length (variable_part v))
          vs
          cs
  Remains-tail pos offset v vs c cs r = record {
    conform = r.conform.1;
    at_cells =
        At-right (cell_bytes offset v c) (cells (offset + length (variable_part v)) vs cs) _
          (ap (λ n. pos + n) (sym (length-cell_bytes utf8 offset v c r.conform.0))) r.at_cells;
    at_variables =
        At-right (variable_part v) (variables vs) (offset + length (variable_part v)) refl
          r.at_variables;
  }

  Remains-cell :
      (pos offset : ℕ) (v : Value) (vs : List Value) (c : ColumnDefinition)
      (cs : List ColumnDefinition)
      → Remains utf8 bytes pos offset (v ∷ vs) (c ∷ cs)
      → (if is_null_value v then ok Value.null else read_cell utf8 c.data_type pos bytes) ≡ ok v
  Remains-cell pos offset v vs c cs r = elim (Bool-cases (is_null_value v)) [
    | inl gone ↦ rw gone (ap ok (sym (null_of_is_null v gone)))
    | inr there ↦ rw there (
        read_cell-At utf8 offset c short v there r.conform.0
          (At-left (cell_bytes offset v c) (cells (offset + length (variable_part v)) vs cs)
            r.at_cells)
          (At-left (variable_part v) (variables vs) r.at_variables))
  ]

  deserialize_loop-Remains :
      (vs : List Value) (cs : List ColumnDefinition) (i pos offset : ℕ) (bitmap : List ℕ)
      → Remains utf8 bytes pos offset vs cs
      → ((k : ℕ) (v : Value)
          → get_elem? vs k ≡ some v
          → is_value_null bitmap (i + k) ≡ ok (is_null_value v))
      → deserialize_loop utf8 cs i pos bitmap bytes ≡ ok vs
  unfolding deserialize_loop
  deserialize_loop-Remains [] [] i pos offset bitmap r nulls = refl
  deserialize_loop-Remains [] (c ∷ cs) i pos offset bitmap r nulls = absurd r.conform
  deserialize_loop-Remains (v ∷ vs) [] i pos offset bitmap r nulls = absurd r.conform
  deserialize_loop-Remains (v ∷ vs) (c ∷ cs) i pos offset bitmap r nulls = rw (
    rw add-zero at (nulls 0 v refl),
    Remains-cell pos offset v vs c cs r,
    deserialize_loop-Remains vs cs (suc i) (pos + data_type_size c.data_type)
        (offset + length (variable_part v)) bitmap (Remains-tail pos offset v vs c cs r) later,
  )
    where
      later :
          (k : ℕ) (w : Value)
          → get_elem? vs k ≡ some w
          → is_value_null bitmap (suc i + k) ≡ ok (is_null_value w)
      later k w e = let f : suc i + k ≡ i + suc k = omega arith in rw f (nulls (suc k) w e)

  -- The loop of `get_attr` stops at the column that it is asked for.
  attr_loop-Remains :
      (vs : List Value) (cs : List ColumnDefinition) (left pos offset : ℕ) (v : Value)
      → Remains utf8 bytes pos offset vs cs
      → get_elem? vs left ≡ some v
      → is_null_value v ≡ false
      → attr_loop utf8 cs left pos bytes ≡ ok v
  unfolding attr_loop
  attr_loop-Remains [] cs left pos offset v r e n = cc
  attr_loop-Remains (x ∷ vs) [] left pos offset v r e n = absurd r.conform
  attr_loop-Remains (x ∷ vs) (c ∷ cs) zero pos offset v r e n =
      let same : x ≡ v = cc in
      rw (← same) (
        read_attr-At utf8 offset c short x (rw same n) r.conform.0
          (At-left (cell_bytes offset x c) (cells (offset + length (variable_part x)) vs cs)
            r.at_cells)
          (At-left (variable_part x) (variables vs) r.at_variables))
  attr_loop-Remains (x ∷ vs) (c ∷ cs) (suc left) pos offset v r e n =
      attr_loop-Remains vs cs left (pos + data_type_size c.data_type)
        (offset + length (variable_part x)) v (Remains-tail pos offset x vs c cs r) e n

module _ (utf8 : List ℕ → Bool) (vs : List Value) (schema : TableSchema)
    (conform : AllConform utf8 vs schema.attributes) (aligned : IsAligned vs)
    (short : length (serialize vs schema) < 65536) where
  encoded :
      Remains utf8
        (serialize vs schema)
        (bitmap_size (length vs))
        (header_size vs)
        vs
        schema.attributes
  encoded = record {
    conform = conform;
    at_cells = At-cells utf8 vs schema conform;
    at_variables = At-variables utf8 vs schema conform aligned;
  }

  -- `deserialize` reads back the tuple that `serialize` wrote. The tuple conforms to the schema, its
  -- encoding is shorter than 65536 bytes, and it has no null or no text and blob bytes.
  pub deserialize-serialize : deserialize utf8 (serialize vs schema) schema ≡ ok vs
  unfolding deserialize
  deserialize-serialize =
      let e : length schema.attributes ≡ length vs =
        sym (length-AllConform utf8 vs schema.attributes conform) in
      rw
        (
          e,
          At-read_slice (bitmap_size (length vs)) (sym (length-gen_null_bitmap vs))
              (At-bitmap utf8 vs schema conform),
        )
        (deserialize_loop-Remains utf8 (serialize vs schema) short vs schema.attributes 0
          (bitmap_size (length vs)) (header_size vs) (gen_null_bitmap vs) encoded
          (λ k v found.
            let z : 0 + k ≡ k = omega arith in rw z (is_value_null-gen_null_bitmap vs k v found)))

  -- `get_attr` on the encoding of a tuple gives the value at an index in the tuple, where that value
  -- is no null and the tuple conforms to the schema, is shorter than 65536 bytes and has no null or
  -- no text and blob bytes.
  pub get_attr-serialize :
      (idx : ℕ) (v : Value)
      → get_elem? vs idx ≡ some v
      → is_null_value v ≡ false
      → get_attr utf8 idx (serialize vs schema) schema ≡ ok v
  unfolding get_attr
  get_attr-serialize idx v e n =
      let z : length schema.attributes ≡ length vs =
        sym (length-AllConform utf8 vs schema.attributes conform) in
      rw z (
        attr_loop-Remains utf8 (serialize vs schema) short vs schema.attributes idx
          (bitmap_size (length vs)) (header_size vs) v encoded e n)

read_attr-ne-null :
    (utf8 : List ℕ → Bool) (t : DataType) (pos : ℕ) (bytes : List ℕ)
    → read_attr utf8 t pos bytes ≢ ok Value.null
unfolding read_attr
read_attr-ne-null utf8 DataType.int pos bytes e = ground arith
read_attr-ne-null utf8 DataType.float pos bytes e = ground arith
read_attr-ne-null utf8 DataType.boolean pos bytes e = ground arith
read_attr-ne-null utf8 DataType.var_char pos bytes e = ground arith
read_attr-ne-null utf8 DataType.blob pos bytes e = ground arith

attr_loop-ne-null :
    (utf8 : List ℕ → Bool) (cs : List ColumnDefinition) (left pos : ℕ) (bytes : List ℕ)
    → attr_loop utf8 cs left pos bytes ≢ ok Value.null
unfolding attr_loop
attr_loop-ne-null utf8 [] left pos bytes e = cc
attr_loop-ne-null utf8 (c ∷ cs) zero pos bytes e = read_attr-ne-null utf8 c.data_type pos bytes e
attr_loop-ne-null utf8 (c ∷ cs) (suc left) pos bytes e =
    attr_loop-ne-null utf8 cs left (pos + data_type_size c.data_type) bytes e

-- `get_attr` never gives a null, whatever the null bitmap of the tuple says.
pub get_attr-ne-null :
    (utf8 : List ℕ → Bool) (idx : ℕ) (bytes : List ℕ) (schema : TableSchema)
    → get_attr utf8 idx bytes schema ≢ ok Value.null
unfolding get_attr
get_attr-ne-null utf8 idx bytes schema =
    attr_loop-ne-null utf8 schema.attributes idx (bitmap_size (length schema.attributes)) bytes
