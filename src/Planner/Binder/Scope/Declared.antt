-- ===== src/Planner/Binder/Scope/Declared.antt =====
-- The columns that the binder of src/planner/binder.rs takes from a CREATE TABLE.
use db_rs.Base.{
  ◌≤◌, Bool-cases, arith, not, length, leb, inl, inr, ◌≡◌, refl, List, [], ◌∷◌, Result, ok, err,
  panic,
}
use db_rs.Value.{DataType}
use db_rs.Planner.Ast.{ColumnDef}
use db_rs.Planner.Columns.{parse_data_type, has_not_null, parse_col, parse_cols}
use db_rs.Tables.Schema.{ColumnDefinition, new_column}
use db_rs.Planner.Binder.Scope.{Gives, Gives-bind}

-- A column is what a definition says: its name, which has at most 255 bytes, its type, and whether
-- NOT NULL is missing among its options.
pub record Declares (d : ColumnDef) (c : ColumnDefinition) : Type 0 where
  name : c.name ≡ d.name
  short : length c.name ≤ 255
  of_type : parse_data_type d.data_type ≡ ok c.data_type
  nullable : c.is_nullable ≡ not (has_not_null d.options)

abbrev pub AllDeclare : List ColumnDef → List ColumnDefinition → Type 0
AllDeclare [] [] = Unit {0}
AllDeclare [] (c ∷ cs) = ⊥
AllDeclare (d ∷ ds) [] = ⊥
AllDeclare (d ∷ ds) (c ∷ cs) = Declares d c × AllDeclare ds cs

new_column-Declares :
    (d : ColumnDef) (t : DataType)
    → parse_data_type d.data_type ≡ ok t
    → Gives (Declares d) (new_column d.name t (not (has_not_null d.options)))
unfolding new_column
new_column-Declares d t e = elim (Bool-cases (leb (length d.name) 255)) [
  | inl short ↦
      rw short (record { name = refl; short = ground arith; of_type = e; nullable = refl })
  | inr long ↦ rw long tt
]

result-Gives : {A : Type 0} (r : Result A) → Gives (λ a. r ≡ ok a) r
result-Gives (ok a) = refl
result-Gives (err e) = tt
result-Gives panic = tt

parse_col-Declares : (d : ColumnDef) → Gives (Declares d) (parse_col d)
unfolding parse_col
parse_col-Declares d =
    Gives-bind (Declares d) (parse_data_type d.data_type) _
      (result-Gives (parse_data_type d.data_type)) (λ t e. new_column-Declares d t e)

pub parse_cols-AllDeclare : (ds : List ColumnDef) → Gives (AllDeclare ds) (parse_cols ds)
parse_cols-AllDeclare [] = tt
parse_cols-AllDeclare (d ∷ ds) =
    Gives-bind (AllDeclare (d ∷ ds)) (parse_col d) _ (parse_col-Declares d) (λ c h.
      Gives-bind (AllDeclare (d ∷ ds)) (parse_cols ds) _ (parse_cols-AllDeclare ds)
        (λ cs k. (h, k)))
