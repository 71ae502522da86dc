-- ===== src/Tables/Tuple/Read.antt =====
-- Reading one cell of an encoded tuple, src/tables.rs: `Tuple::deserialize` and
-- `TupleRef::get_attr` give back the value that was written.
use db_rs.Base.{
  ℕ, ◌+◌, ◌%◌, ◌^◌, ◌<◌, ◌≡◌, refl, sym, arith, Bool, true, false, List, ◌++◌, length, be_bytes,
  length-be_bytes, be_value-be_bytes, i32_bits, i32_bits_bound, i32_from_bits-i32_bits, At, At-left,
  At-right, At-end, At-read_slice, At-get_elem?, ok,
}
use db_rs.Value.{Value}
use db_rs.Tables.Schema.{ColumnDefinition}
use db_rs.Tables.Tuple.{
  is_null_value, cell_bytes, variable_part, read_word, read_range, read_cell, read_attr,
}
use db_rs.Tables.Tuple.Layout.{Conforms}

read_word-At :
    {bytes : List ℕ} {pos : ℕ} (n w : ℕ)
    → w < 256 ^ n
    → At bytes pos (be_bytes n w)
    → read_word pos n bytes ≡ ok w
unfolding read_word
read_word-At n w h a = rw (At-read_slice n (sym (length-be_bytes n w)) a, be_value-be_bytes n w h)

-- The range of a text or a blob `s` whose bytes begin at `offset`.
read_range-At :
    {bytes : List ℕ} {pos : ℕ} (offset : ℕ) (s : List ℕ)
    → length bytes < 65536
    → At bytes pos (be_bytes 2 (offset % 65536) ++ be_bytes 2 (length s % 65536))
    → At bytes offset s
    → read_range pos bytes ≡ ok s
unfolding read_range
read_range-At {bytes} {pos} offset s h a at_s =
    let o : offset % 65536 ≡ offset = omega (arith, At-end at_s) in
    let z : length s % 65536 ≡ length s = omega (arith, At-end at_s) in
    let low = At-left (be_bytes 2 (offset % 65536)) (be_bytes 2 (length s % 65536)) a in
    let high =
      At-right (be_bytes 2 (offset % 65536)) (be_bytes 2 (length s % 65536)) (pos + 2)
        (omega (arith, length-be_bytes 2 (offset % 65536))) a in
    rw
      (
        read_word-At 2 (offset % 65536) (omega arith) low,
        read_word-At 2 (length s % 65536) (omega arith) high,
        o,
        z,
      )
      (At-read_slice (length s) refl at_s)

module _ (utf8 : List ℕ → Bool) {bytes : List ℕ} {pos : ℕ} (offset : ℕ) (c : ColumnDefinition)
    (short : length bytes < 65536) where
  -- `Tuple::deserialize` on the cell of a value that is no null.
  pub read_cell-At :
      (v : Value)
      → is_null_value v ≡ false
      → Conforms utf8 v c
      → At bytes pos (cell_bytes offset v c)
      → At bytes offset (variable_part v)
      → read_cell utf8 c.data_type pos bytes ≡ ok v
  unfolding read_cell
  read_cell-At (Value.int i) n h a b =
      rw (h.0, read_word-At 4 (i32_bits i) (i32_bits_bound i h.1) a, i32_from_bits-i32_bits i h.1)
  read_cell-At (Value.float f) n h a b = rw (h.0, read_word-At 4 f (omega arith) a)
  read_cell-At (Value.boolean true) n h a b = rw (h, At-get_elem? a)
  read_cell-At (Value.boolean false) n h a b = rw (h, At-get_elem? a)
  read_cell-At (Value.var_char s) n h a b = rw (h.0, read_range-At offset s short a b, h.1)
  read_cell-At (Value.blob s) n h a b = rw (h, read_range-At offset s short a b)
  read_cell-At Value.null n h a b = cc

  -- `TupleRef::get_attr` on it.
  pub read_attr-At :
      (v : Value)
      → is_null_value v ≡ false
      → Conforms utf8 v c
      → At bytes pos (cell_bytes offset v c)
      → At bytes offset (variable_part v)
      → read_attr utf8 c.data_type pos bytes ≡ ok v
  unfolding read_attr
  read_attr-At (Value.int i) n h a b =
      rw (h.0, read_word-At 4 (i32_bits i) (i32_bits_bound i h.1) a, i32_from_bits-i32_bits i h.1)
  read_attr-At (Value.float f) n h a b = rw (h.0, read_word-At 4 f (omega arith) a)
  read_attr-At (Value.boolean true) n h a b = rw (h, At-get_elem? a)
  read_attr-At (Value.boolean false) n h a b = rw (h, At-get_elem? a)
  read_attr-At (Value.var_char s) n h a b = rw (h.0, read_range-At offset s short a b, h.1)
  read_attr-At (Value.blob s) n h a b = rw (h, read_range-At offset s short a b)
  read_attr-At Value.null n h a b = cc
