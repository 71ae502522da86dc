-- ===== src/Tables/Schema/Valid.antt =====
-- `TableSchema::is_valid_tuple` of src/tables.rs: what it accepts, and where it panics.
use db_rs.Base.{
  suc, ◌≡◌, ◌↔◌, refl, ap, arith, Bool, true, false, not, Option, none, some, List, [], ◌∷◌, ◌++◌,
  length, length-append, ==_refl, ◌==◌, ==_iff, Result, ok, panic, unwrap, ◌>>=◌, if◌then◌else◌,
  Bool-cases, inl, inr,
}
use db_rs.Value.{DataType, same_type, Value, null, datatype, data_type_byte}
use db_rs.Tables.Schema.{ColumnDefinition, TableSchema, valid_values, is_valid_tuple}

-- Each value has the type of its column; no value is null, since a null has no type.
abbrev pub OfTypes : List Value → List ColumnDefinition → Type 0
OfTypes [] [] = Unit {0}
OfTypes [] (c ∷ cs) = ⊥
OfTypes (v ∷ vs) [] = ⊥
OfTypes (v ∷ vs) (c ∷ cs) = (datatype v ≡ some c.data_type) × OfTypes vs cs

same_type_refl : (t : DataType) → same_type t t ≡ true
same_type_refl t = ==_refl (data_type_byte t)

same_type→eq : (a b : DataType) → same_type a b ≡ true → a ≡ b
same_type→eq a b h = ground arith

length-OfTypes :
    (vs : List Value) (cs : List ColumnDefinition) → OfTypes vs cs → length cs ≡ length vs
length-OfTypes [] [] h = refl
length-OfTypes [] (c ∷ cs) h = absurd h
length-OfTypes (v ∷ vs) [] h = absurd h
length-OfTypes (v ∷ vs) (c ∷ cs) h = ap suc (length-OfTypes vs cs h.1)

valid_values-true :
    (vs : List Value) (cs : List ColumnDefinition) → OfTypes vs cs → valid_values cs vs ≡ ok true
unfolding valid_values
valid_values-true [] [] h = refl
valid_values-true [] (c ∷ cs) h = absurd h
valid_values-true (v ∷ vs) [] h = absurd h
valid_values-true (v ∷ vs) (c ∷ cs) h =
    rw (h.0, same_type_refl c.data_type) (valid_values-true vs cs h.1)

typed_of_valid :
    (o : Option DataType) (t : DataType) (rest : Result Bool)
    → (unwrap o >>= λ found. if not (same_type found t) then ok false else rest) ≡ ok true
    → (o ≡ some t) × (rest ≡ ok true)
typed_of_valid none t rest h = cc
typed_of_valid (some found) t rest h = elim (Bool-cases (same_type found t)) [
  | inl same ↦ (ap some (same_type→eq found t same), rw same at h)
  | inr other ↦ let e : ◌≡◌ {A = Result Bool} (ok false) (ok true) = rw other at h in cc
]

OfTypes-of_valid :
    (vs : List Value) (cs : List ColumnDefinition)
    → length cs ≡ length vs
    → valid_values cs vs ≡ ok true
    → OfTypes vs cs
unfolding valid_values
OfTypes-of_valid [] [] n h = tt
OfTypes-of_valid [] (c ∷ cs) n h = absurd (omega arith)
OfTypes-of_valid (v ∷ vs) [] n h = absurd (omega arith)
OfTypes-of_valid (v ∷ vs) (c ∷ cs) n h =
    let (typed, rest) = typed_of_valid (datatype v) c.data_type (valid_values cs vs) h in
    (typed, OfTypes-of_valid vs cs (omega arith) rest)

-- `is_valid_tuple` accepts exactly the tuples with as many values as the schema has columns, each
-- of the type of its column and none null.
pub is_valid_tuple_iff :
    (schema : TableSchema) (vs : List Value)
    → (is_valid_tuple schema vs ≡ ok true) ↔ OfTypes vs schema.attributes
unfolding is_valid_tuple
is_valid_tuple_iff schema vs = (
  (λ h. OfTypes-of_valid vs cs (same_length h) (rw (count (same_length h)) at h)),
  λ t. rw (count (length-OfTypes vs cs t)) (valid_values-true vs cs t),
)
  where
    cs : List ColumnDefinition
    cs = schema.attributes

    count : length schema.attributes ≡ length vs → (length schema.attributes == length vs) ≡ true
    count e = (==_iff (length schema.attributes) (length vs)).1 e

    same_length :
        (if length schema.attributes == length vs
            then valid_values schema.attributes vs
            else ok false)
          ≡ ok true
        → length schema.attributes ≡ length vs
    same_length h = ground arith

-- A null panics, in a nullable column too: `is_valid_tuple` asks for the type of a null when the
-- values before it have the types of their columns and the counts agree.
pub is_valid_tuple_null :
    (before after : List Value) (cs ds : List ColumnDefinition) (c : ColumnDefinition)
    → OfTypes before cs
    → length ds ≡ length after
    → is_valid_tuple (record { attributes = cs ++ (c ∷ ds) }) (before ++ (null ∷ after)) ≡ panic
unfolding is_valid_tuple
is_valid_tuple_null before after cs ds c typed n = rw equal (stops before cs typed)
  where
    equal : (length (cs ++ (c ∷ ds)) == length (before ++ (null ∷ after))) ≡ true
    equal = (==_iff (length (cs ++ (c ∷ ds))) (length (before ++ (null ∷ after)))).1 (
        omega (
          arith,
          length-append cs (c ∷ ds),
          length-append before (null ∷ after),
          length-OfTypes before cs typed,
        ))

    stops :
        (before : List Value) (cs : List ColumnDefinition)
        → OfTypes before cs
        → valid_values (cs ++ (c ∷ ds)) (before ++ (null ∷ after)) ≡ panic
    stops [] [] t = unfold valid_values in refl
    stops [] (d ∷ cs) t = absurd t
    stops (v ∷ before) [] t = absurd t
    stops (v ∷ before) (d ∷ cs) t =
        unfold valid_values in rw (t.0, same_type_refl d.data_type) (stops before cs t.1)
