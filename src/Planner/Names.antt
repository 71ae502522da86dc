-- ===== src/Planner/Names.antt =====
-- Names of columns and tables, `resolve_column`, `resolve_compound_column` and `parse_from` of
-- src/planner/binder.rs.
use db_rs.Base.{
  ℕ, zero, suc, ◌+◌, Bool, true, false, not, ◌&&◌, Option, none, some, List, [], ◌∷◌, ◌++◌, ℤ, pos,
  guard, ◌>>◌, if◌then◌else◌, Result, ok, err, ◌>>=◌, ok_or, parse_error, table_not_found,
}
use db_rs.Value.{DataType, Value, bytes_eq}
use db_rs.Expr.{Expr}
use db_rs.Tables.Schema.{ColumnDefinition, TableSchema, new_column}
use db_rs.Tables.Table.{Table}
use db_rs.Database.{Database, get_table}
use db_rs.Planner.{SqlStatement}
use db_rs.Planner.Ast.{
  BinaryOperator, UnaryOperator, AstValue, AstExpr, AstDataType, ColumnOption, ColumnDef,
  SelectItem, TableFactor, TableWithJoins, Select, SetExpr, Statement,
}
pub mod Resolve

-- `resolve_column`: the loop over the columns of a table, and over the tables.
abbrev pub match_columns : List ℕ → ℕ → List ColumnDefinition → Option ℕ → Result (Option ℕ)
match_columns column idx [] matched = ok matched
match_columns column idx (col ∷ cols) matched =
    let rest = match_columns column (suc idx) cols in
    if bytes_eq col.name column
    then elim matched [ some other ↦ err parse_error | none ↦ rest (some idx) ]
    else rest matched

-- `table_name.is_some_and(|name| name != table.name)`
abbrev pub is_other : Option (List ℕ) → Table → Bool
is_other none table = false
is_other (some name) table = not (bytes_eq name table.name)

abbrev pub match_tables : Option (List ℕ) → List ℕ → List Table → Option ℕ → Result (Option ℕ)
match_tables table_name column [] matched = ok matched
match_tables table_name column (table ∷ tables) matched =
    if is_other table_name table
    then match_tables table_name column tables matched
    else (match_columns column 0 table.schema.attributes matched >>= λ found.
        match_tables table_name column tables found)

abbrev pub attr_or_err : Option ℕ → Result Expr
attr_or_err (some idx) = ok (Expr.attr_ref idx)
attr_or_err none = err parse_error

unfoldable pub resolve_column : Option (List ℕ) → List ℕ → List Table → Result Expr
resolve_column table_name column tables =
    match_tables table_name column tables none >>= λ matched. attr_or_err matched

-- `resolve_compound_column`
unfoldable pub resolve_compound_column : List (List ℕ) → List Table → Result Expr
resolve_compound_column (column ∷ []) tables = resolve_column none column tables
resolve_compound_column (table ∷ column ∷ []) tables = resolve_column (some table) column tables
resolve_compound_column _ tables = err parse_error

-- `parse_from`
abbrev pub parse_relation : TableFactor → Database → Result (List Table)
parse_relation (TableFactor.table name) db = do
  table ← ok_or (get_table name db) (table_not_found name)
  ok (table ∷ [])
parse_relation TableFactor.other db = err parse_error

abbrev pub is_nil {ℓ} : {A : Type ℓ} → List A → Bool
is_nil [] = true
is_nil (x ∷ xs) = false

unfoldable pub parse_from : List TableWithJoins → Database → Result (List Table)
parse_from (from ∷ []) db = do
  guard (is_nil from.joins) parse_error
  parse_relation from.relation db
parse_from _ db = err parse_error
