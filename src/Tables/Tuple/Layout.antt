-- ===== src/Tables/Tuple/Layout.antt =====
-- The encoding of a tuple as its three parts, src/tables.rs, and what a tuple must satisfy to be
-- read back.
use db_rs.Base.{
  ℕ, suc, ◌+◌, ◌%◌, ◌^◌, ◌≤◌, ◌<◌, ◌≡◌, refl, sym, ap, ◌∙◌, ◌⊎◌, inl, inr, arith, Bool, true, false,
  List, [], ◌∷◌, ◌++◌, append-nil, append_assoc, length, length-append, length-replicate, be_bytes,
  length-be_bytes, IsI32, At, At-left, At-right, At-nil, At-end, i32_bits,
}
use db_rs.Value.{DataType, data_type_size, Value}
use db_rs.Tables.Schema.{ColumnDefinition, TableSchema}
use db_rs.Tables.Tuple.{
  bitmap_size, cell_size, cells_size, header_size, is_null_value, cell_bytes, variable_part,
  serialize_loop, serialize, gen_null_bitmap,
}
use db_rs.Tables.Tuple.Bitmap.{length-gen_null_bitmap}

-- A value that may stand in a column: a null, or a value of the column's type whose number is in
-- the range of its machine type and whose text is valid UTF-8.
abbrev pub Conforms : (List ℕ → Bool) → Value → ColumnDefinition → Type 0
Conforms utf8 (Value.int i) c = (c.data_type ≡ DataType.int) × IsI32 i
Conforms utf8 (Value.float f) c = (c.data_type ≡ DataType.float) × (f < 2 ^ 32)
Conforms utf8 (Value.boolean b) c = c.data_type ≡ DataType.boolean
Conforms utf8 (Value.var_char s) c = (c.data_type ≡ DataType.var_char) × (utf8 s ≡ true)
Conforms utf8 (Value.blob b) c = c.data_type ≡ DataType.blob
Conforms utf8 Value.null c = Unit {0}

abbrev pub AllConform : (List ℕ → Bool) → List Value → List ColumnDefinition → Type 0
AllConform utf8 [] [] = Unit {0}
AllConform utf8 [] (c ∷ cs) = ⊥
AllConform utf8 (v ∷ vs) [] = ⊥
AllConform utf8 (v ∷ vs) (c ∷ cs) = Conforms utf8 v c × AllConform utf8 vs cs

-- The cells of the header, and the bytes behind it.
abbrev pub cells : ℕ → List Value → List ColumnDefinition → List ℕ
cells offset [] cs = []
cells offset (v ∷ vs) [] = []
cells offset (v ∷ vs) (c ∷ cs) =
    cell_bytes offset v c ++ cells (offset + length (variable_part v)) vs cs

abbrev pub variables : List Value → List ℕ
variables [] = []
variables (v ∷ vs) = variable_part v ++ variables vs

abbrev pub NullFree : List Value → Type 0
NullFree [] = Unit {0}
NullFree (v ∷ vs) = (is_null_value v ≡ false) × NullFree vs

-- The tuples whose variable-length bytes begin where `header_size` says: those without a null, and
-- those without text or blob bytes.
abbrev pub IsAligned : List Value → Type 0
IsAligned vs = NullFree vs ⊎ (variables vs ≡ [])

pub length-AllConform :
    (utf8 : List ℕ → Bool) (vs : List Value) (cs : List ColumnDefinition)
    → AllConform utf8 vs cs
    → length vs ≡ length cs
length-AllConform utf8 [] [] h = refl
length-AllConform utf8 [] (c ∷ cs) h = absurd h
length-AllConform utf8 (v ∷ vs) [] h = absurd h
length-AllConform utf8 (v ∷ vs) (c ∷ cs) h = ap suc (length-AllConform utf8 vs cs h.1)

serialize_loop-parts :
    (vs : List Value) (cs : List ColumnDefinition) (offset : ℕ) (header variable : List ℕ)
    → length vs ≡ length cs
    → serialize_loop vs cs offset header variable
      ≡ header ++ (cells offset vs cs ++ (variable ++ variables vs))
unfolding serialize_loop
serialize_loop-parts [] cs offset header variable h = rw append-nil
serialize_loop-parts (v ∷ vs) [] offset header variable h = absurd (omega arith)
serialize_loop-parts (v ∷ vs) (c ∷ cs) offset header variable h =
    rw
      (serialize_loop-parts vs cs (offset + length (variable_part v))
        (header ++ cell_bytes offset v c) (variable ++ variable_part v) (omega arith))
      (simp append_assoc)

-- A tuple is its bitmap, its cells and its variable-length bytes.
pub serialize-parts :
    (vs : List Value) (schema : TableSchema)
    → length vs ≡ length schema.attributes
    → serialize vs schema
      ≡ gen_null_bitmap vs ++ (cells (header_size vs) vs schema.attributes ++ variables vs)
unfolding serialize
serialize-parts vs schema h =
    serialize_loop-parts vs schema.attributes (header_size vs) (gen_null_bitmap vs) [] h

length-pair : (a b : ℕ) → length (be_bytes 2 (a % 65536) ++ be_bytes 2 (b % 65536)) ≡ 4
length-pair a b = omega (
  arith,
  length-append (be_bytes 2 (a % 65536)) (be_bytes 2 (b % 65536)),
  length-be_bytes 2 (a % 65536),
  length-be_bytes 2 (b % 65536),
)

-- A cell has the width of its column's type.
pub length-cell_bytes :
    (utf8 : List ℕ → Bool) (offset : ℕ) (v : Value) (c : ColumnDefinition)
    → Conforms utf8 v c
    → length (cell_bytes offset v c) ≡ data_type_size c.data_type
length-cell_bytes utf8 offset (Value.int i) c h = rw h.0 (length-be_bytes 4 _)
length-cell_bytes utf8 offset (Value.float f) c h = rw h.0 (length-be_bytes 4 f)
length-cell_bytes utf8 offset (Value.boolean b) c h = rw h
length-cell_bytes utf8 offset (Value.var_char s) c h = rw h.0 (length-pair offset (length s))
length-cell_bytes utf8 offset (Value.blob b) c h = rw h (length-pair offset (length b))
length-cell_bytes utf8 offset Value.null c h =
    length-replicate {A = ℕ} (data_type_size c.data_type) 0

-- `cell_size` is the width of the cell of any value but a null.
length-cell_bytes_size :
    (offset : ℕ) (v : Value) (c : ColumnDefinition)
    → is_null_value v ≡ false
    → length (cell_bytes offset v c) ≡ cell_size v
length-cell_bytes_size offset (Value.int i) c h = length-be_bytes 4 _
length-cell_bytes_size offset (Value.float f) c h = length-be_bytes 4 f
length-cell_bytes_size offset (Value.boolean b) c h = refl
length-cell_bytes_size offset (Value.var_char s) c h = length-pair offset (length s)
length-cell_bytes_size offset (Value.blob b) c h = length-pair offset (length b)
length-cell_bytes_size offset Value.null c h = cc

length-cells :
    (offset : ℕ) (vs : List Value) (cs : List ColumnDefinition)
    → NullFree vs
    → length vs ≡ length cs
    → length (cells offset vs cs) ≡ cells_size vs
length-cells offset [] cs n h = refl
length-cells offset (v ∷ vs) [] n h = absurd (omega arith)
length-cells offset (v ∷ vs) (c ∷ cs) n h = omega (
  arith,
  length-append (cell_bytes offset v c) (cells (offset + length (variable_part v)) vs cs),
  length-cell_bytes_size offset v c n.0,
  length-cells (offset + length (variable_part v)) vs cs n.1 (omega arith),
)

-- Nulls only make `cells_size` smaller than the cells.
cells_size-le :
    (utf8 : List ℕ → Bool) (offset : ℕ) (vs : List Value) (cs : List ColumnDefinition)
    → AllConform utf8 vs cs
    → cells_size vs ≤ length (cells offset vs cs)
cells_size-le utf8 offset [] cs h = omega arith
cells_size-le utf8 offset (v ∷ vs) [] h = absurd h
cells_size-le utf8 offset (v ∷ vs) (c ∷ cs) h = omega (
  arith,
  length-append (cell_bytes offset v c) (cells (offset + length (variable_part v)) vs cs),
  cell_size-le offset v c,
  cells_size-le utf8 (offset + length (variable_part v)) vs cs h.1,
)
  where
    cell_size-le :
        (offset : ℕ) (v : Value) (c : ColumnDefinition)
        → cell_size v ≤ length (cell_bytes offset v c)
    cell_size-le offset (Value.int i) c = omega (arith, length-be_bytes 4 (i32_bits i))
    cell_size-le offset (Value.float f) c = omega (arith, length-be_bytes 4 f)
    cell_size-le offset (Value.boolean b) c = omega arith
    cell_size-le offset (Value.var_char s) c = omega (arith, length-pair offset (length s))
    cell_size-le offset (Value.blob b) c = omega (arith, length-pair offset (length b))
    cell_size-le offset Value.null c = omega arith

module _ (utf8 : List ℕ → Bool) (vs : List Value) (schema : TableSchema)
    (conform : AllConform utf8 vs schema.attributes) where
  same_length : length vs ≡ length schema.attributes
  same_length = length-AllConform utf8 vs schema.attributes conform

  abbrev header_cells : List ℕ
  header_cells = cells (header_size vs) vs schema.attributes

  whole : At (serialize vs schema) 0 (gen_null_bitmap vs ++ (header_cells ++ variables vs))
  whole = record {
    before = [];
    after = [];
    split = serialize-parts vs schema same_length ∙ sym (append-nil _);
    place = refl;
  }

  -- The parts of an encoded tuple stand where its reader looks for them.
  pub At-bitmap : At (serialize vs schema) 0 (gen_null_bitmap vs)
  At-bitmap = At-left (gen_null_bitmap vs) (header_cells ++ variables vs) whole

  behind_bitmap : At (serialize vs schema) (bitmap_size (length vs)) (header_cells ++ variables vs)
  behind_bitmap =
      At-right (gen_null_bitmap vs) (header_cells ++ variables vs) (bitmap_size (length vs))
        (omega (arith, length-gen_null_bitmap vs)) whole

  pub At-cells : At (serialize vs schema) (bitmap_size (length vs)) header_cells
  At-cells = At-left header_cells (variables vs) behind_bitmap

  pub At-variables : IsAligned vs → At (serialize vs schema) (header_size vs) (variables vs)
  At-variables (inl null_free) =
      At-right header_cells (variables vs) (header_size vs)
        (omega (arith, length-cells (header_size vs) vs schema.attributes null_free same_length))
        behind_bitmap
  At-variables (inr fixed) = rw fixed (
      At-nil (serialize vs schema) (header_size vs) (
        omega (
          arith,
          At-end At-cells,
          cells_size-le utf8 (header_size vs) vs schema.attributes conform,
        )))
