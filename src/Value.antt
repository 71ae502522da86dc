-- ===== src/Value.antt =====
-- Values and their types, src/value.rs. An f32 is its bit pattern, below 2^32; text is the list of
-- its UTF-8 bytes. `ValueRef`, which borrows its bytes, has the same values as `Value`, and
-- `ValueRef::from_owned` is the identity, so both are `Value` here.
pub mod Order
use db_rs.Base.{
  ℕ, zero, suc, ◌+◌, ◌^◌, ◌≤◌, ◌<◌, Bool, true, false, not, ◌&&◌, ◌||◌, Option, none, some, List,
  [], ◌∷◌, length, ltb, ◌==◌, if◌then◌else◌, ℤ, ltb_ℤ, eqb_ℤ, IsI32,
}
use Prim.Native.Nat.{Ordering, compare}

pub data DataType : Type 0 where
  int var_char float boolean blob : DataType

-- `self.data_type as u8`
abbrev pub data_type_byte : DataType → ℕ
data_type_byte int = 0
data_type_byte var_char = 1
data_type_byte float = 2
data_type_byte boolean = 3
data_type_byte blob = 4

-- `DataType::size`, the bytes of a value in the header of a tuple.
abbrev pub data_type_size : DataType → ℕ
data_type_size int = 4
data_type_size float = 4
data_type_size boolean = 1
data_type_size var_char = 4
data_type_size blob = 4

abbrev pub same_type : DataType → DataType → Bool
same_type a b = data_type_byte a == data_type_byte b

pub data Value : Type 0 where
  int : ℤ → Value
  var_char : List ℕ → Value
  float : ℕ → Value
  boolean : Bool → Value
  blob : List ℕ → Value
  null : Value

-- The operations of `f32` that the source uses, on bit patterns. They are the standard library's.
pub record FloatOps : Type 0 where
  pub of_int : ℤ → ℕ
  pub eq : ℕ → ℕ → Bool
  pub lt : ℕ → ℕ → Bool
  pub gt : ℕ → ℕ → Bool
  pub add : ℕ → ℕ → ℕ
  pub sub : ℕ → ℕ → ℕ
  pub mul : ℕ → ℕ → ℕ
  pub div : ℕ → ℕ → ℕ
  pub total_cmp : ℕ → ℕ → Ordering

-- `Value::size`
abbrev pub value_size : Value → ℕ
value_size (int i) = 4
value_size (float f) = 4
value_size (var_char s) = length s
value_size (boolean b) = 1
value_size (blob b) = length b
value_size null = 0

-- `Value::datatype`
abbrev pub datatype : Value → Option DataType
datatype (blob b) = some DataType.blob
datatype (boolean b) = some DataType.boolean
datatype (int i) = some DataType.int
datatype (float f) = some DataType.float
datatype (var_char s) = some DataType.var_char
datatype null = none

-- `==` and `<` on `str` and `[u8]`, by bytes.
abbrev pub bytes_eq : List ℕ → List ℕ → Bool
bytes_eq [] [] = true
bytes_eq [] (b ∷ bs) = false
bytes_eq (a ∷ as') [] = false
bytes_eq (a ∷ as') (b ∷ bs) = a == b && bytes_eq as' bs

abbrev then_cmp : Ordering → Ordering → Ordering
then_cmp Ordering.lt rest = Ordering.lt
then_cmp Ordering.eq rest = rest
then_cmp Ordering.gt rest = Ordering.gt

unfoldable pub bytes_cmp : List ℕ → List ℕ → Ordering
bytes_cmp [] [] = Ordering.eq
bytes_cmp [] (b ∷ bs) = Ordering.lt
bytes_cmp (a ∷ as') [] = Ordering.gt
bytes_cmp (a ∷ as') (b ∷ bs) = then_cmp (compare a b) (bytes_cmp as' bs)

abbrev pub is_lt : Ordering → Bool
is_lt Ordering.lt = true
is_lt Ordering.eq = false
is_lt Ordering.gt = false

unfoldable pub bytes_lt : List ℕ → List ℕ → Bool
unfolding bytes_cmp
bytes_lt a b = is_lt (bytes_cmp a b)

abbrev pub bool_eq : Bool → Bool → Bool
bool_eq true b = b
bool_eq false b = not b

abbrev pub bool_cmp : Bool → Bool → Ordering
bool_cmp true true = Ordering.eq
bool_cmp true false = Ordering.gt
bool_cmp false true = Ordering.lt
bool_cmp false false = Ordering.eq

abbrev pub cmp_ℤ : ℤ → ℤ → Ordering
cmp_ℤ a b = if ltb_ℤ a b then Ordering.lt else if eqb_ℤ a b then Ordering.eq else Ordering.gt

module _ (f32 : FloatOps) where
  open f32 use {of_int, eq, total_cmp}

  -- `PartialEq for Value`
  pub value_eq : Value → Value → Bool
  value_eq (blob l) (blob r) = bytes_eq l r
  value_eq (boolean l) (boolean r) = bool_eq l r
  value_eq (int l) (int r) = eqb_ℤ l r
  value_eq (float l) (float r) = eq l r
  value_eq (float l) (int r) = eq l (of_int r)
  value_eq (int l) (float r) = eq (of_int l) r
  value_eq (var_char l) (var_char r) = bytes_eq l r
  value_eq null null = true
  value_eq _ _ = false

  -- `Ord for Value`
  pub value_cmp : Value → Value → Ordering
  unfolding bytes_cmp
  value_cmp (blob l) (blob r) = bytes_cmp l r
  value_cmp (boolean l) (boolean r) = bool_cmp l r
  value_cmp (int l) (int r) = cmp_ℤ l r
  value_cmp (float l) (float r) = total_cmp l r
  value_cmp (int l) (float r) = total_cmp (of_int l) r
  value_cmp (float l) (int r) = total_cmp l (of_int r)
  value_cmp (var_char l) (var_char r) = bytes_cmp l r
  value_cmp null null = Ordering.eq
  value_cmp null _ = Ordering.lt
  value_cmp _ null = Ordering.gt
  value_cmp (boolean l) _ = Ordering.lt
  value_cmp _ (boolean r) = Ordering.gt
  value_cmp (float l) _ = Ordering.lt
  value_cmp _ (float r) = Ordering.gt
  value_cmp (int l) _ = Ordering.lt
  value_cmp _ (int r) = Ordering.gt
  value_cmp (var_char l) _ = Ordering.lt
  value_cmp _ (var_char r) = Ordering.gt

-- A value whose numbers are in the range of their machine types, and whose text is valid UTF-8.
abbrev pub InRange : Value → Type 0
InRange (int i) = IsI32 i
InRange (float f) = f < 2 ^ 32
InRange (var_char s) = Unit {0}
InRange (boolean b) = Unit {0}
InRange (blob b) = Unit {0}
InRange null = Unit {0}
