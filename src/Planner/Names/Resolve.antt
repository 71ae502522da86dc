-- ===== src/Planner/Names/Resolve.antt =====
-- What `resolve_column` of src/planner/binder.rs finds, against all the columns with a name.
use db_rs.Base.{
  ℕ, suc, ◌≡◌, refl, ap, sym, ◌∙◌, inl, inr, Bool-cases, Option, none, some, List, [], ◌∷◌, ◌++◌,
  if◌then◌else◌, Result, ok, err, ◌>>=◌, parse_error, panic,
}
use db_rs.Value.{bytes_eq}
use db_rs.Expr.{Expr}
use db_rs.Tables.Schema.{ColumnDefinition}
use db_rs.Tables.Table.{Table}
use db_rs.Planner.Names.{match_columns, match_tables, attr_or_err, resolve_column}

-- The positions of the columns with a name, in one table and in all tables that may be meant.
abbrev pub positions : List ℕ → ℕ → List ColumnDefinition → List ℕ
positions column i [] = []
positions column i (col ∷ cols) =
    if bytes_eq col.name column
    then i ∷ positions column (suc i) cols
    else positions column (suc i) cols

abbrev pub meant : Option (List ℕ) → List Table → List Table
meant none tables = tables
meant (some name) [] = []
meant (some name) (table ∷ tables) =
    if bytes_eq name table.name then table ∷ meant (some name) tables else meant (some name) tables

abbrev pub all_positions : List ℕ → List Table → List ℕ
all_positions column [] = []
all_positions column (table ∷ tables) =
    positions column 0 table.schema.attributes ++ all_positions column tables

-- Exactly one column must have the name.
abbrev pub the_only : List ℕ → Result Expr
the_only [] = err parse_error
the_only (i ∷ []) = ok (Expr.attr_ref i)
the_only (i ∷ j ∷ is) = err parse_error

-- The last match so far, joined with further ones.
abbrev merge : Option ℕ → List ℕ → Result (Option ℕ)
merge matched [] = ok matched
merge none (i ∷ is) = merge (some i) is
merge (some j) (i ∷ is) = err parse_error

merge-++ :
    (matched : Option ℕ) (is js : List ℕ)
    → merge matched (is ++ js) ≡ (merge matched is >>= λ found. merge found js)
merge-++ matched [] js = refl
merge-++ none (i ∷ is) js = merge-++ (some i) is js
merge-++ (some j) (i ∷ is) js = refl

match_columns-merge :
    (column : List ℕ) (i : ℕ) (cols : List ColumnDefinition) (matched : Option ℕ)
    → match_columns column i cols matched ≡ merge matched (positions column i cols)
match_columns-merge column i [] matched = refl
match_columns-merge column i (col ∷ cols) none = elim (Bool-cases (bytes_eq col.name column)) [
  | inl h ↦ rw (h, match_columns-merge column (suc i) cols (some i)) refl
  | inr h ↦ rw (h, match_columns-merge column (suc i) cols none) refl
]
match_columns-merge column i (col ∷ cols) (some j) = elim (Bool-cases (bytes_eq col.name column)) [
  | inl h ↦ rw h refl
  | inr h ↦ rw (h, match_columns-merge column (suc i) cols (some j)) refl
]

and_then-same :
    {f g : Option ℕ → Result (Option ℕ)} (r : Result (Option ℕ))
    → ((m : Option ℕ) → f m ≡ g m)
    → (r >>= f) ≡ (r >>= g)
and_then-same (ok m) h = h m
and_then-same (err e) h = refl
and_then-same panic h = refl

-- One table that is meant, and then the others.
match_tables-step :
    (name : Option (List ℕ)) (column : List ℕ) (table : Table) (tables rest : List Table)
    (matched : Option ℕ)
    → ((m : Option ℕ) → match_tables name column tables m ≡ merge m (all_positions column rest))
    → (match_columns column 0 table.schema.attributes matched >>= match_tables name column tables)
      ≡ merge matched (all_positions column (table ∷ rest))
match_tables-step name column table tables rest matched next =
    ap (λ r. r >>= match_tables name column tables)
      (match_columns-merge column 0 table.schema.attributes matched)
    ∙ and_then-same (merge matched (positions column 0 table.schema.attributes)) next
    ∙ sym
        (merge-++ matched (positions column 0 table.schema.attributes) (all_positions column rest))

match_tables-merge :
    (name : Option (List ℕ)) (column : List ℕ) (tables : List Table) (matched : Option ℕ)
    → match_tables name column tables matched
      ≡ merge matched (all_positions column (meant name tables))
match_tables-merge none column [] matched = refl
match_tables-merge (some word) column [] matched = refl
match_tables-merge none column (table ∷ tables) matched =
    match_tables-step none column table tables tables matched
      (λ m. match_tables-merge none column tables m)
match_tables-merge (some word) column (table ∷ tables) matched =
    elim (Bool-cases (bytes_eq word table.name)) [
      | inl h ↦ rw h (
          match_tables-step (some word) column table tables (meant (some word) tables) matched
            (λ m. match_tables-merge (some word) column tables m))
      | inr h ↦ rw h (match_tables-merge (some word) column tables matched)
    ]

the_only-merge : (is : List ℕ) → (merge none is >>= λ matched. attr_or_err matched) ≡ the_only is
the_only-merge [] = refl
the_only-merge (i ∷ []) = refl
the_only-merge (i ∷ j ∷ is) = refl

-- `resolve_column` gives the position of the only column with the name among the tables that are
-- meant, all of them when no table is named and else those with the given name; it is an error when
-- no column or more than one has the name.
pub resolve_column-positions :
    (name : Option (List ℕ)) (column : List ℕ) (tables : List Table)
    → resolve_column name column tables ≡ the_only (all_positions column (meant name tables))
unfolding resolve_column
resolve_column-positions name column tables =
    ap (λ r. r >>= attr_or_err) (match_tables-merge name column tables none)
    ∙ the_only-merge (all_positions column (meant name tables))
