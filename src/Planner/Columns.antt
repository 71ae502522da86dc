-- ===== src/Planner/Columns.antt =====
-- The columns of CREATE TABLE, `parse_col` of src/planner/binder.rs.
use db_rs.Base.{Bool, true, false, not, List, [], ◌∷◌, Result, ok, err, ◌>>=◌, parse_error}
use db_rs.Value.{DataType}
use db_rs.Tables.Schema.{ColumnDefinition, new_column}
use db_rs.Planner.Ast.{AstDataType, ColumnOption, ColumnDef}

-- `parse_col`
abbrev pub parse_data_type : AstDataType → Result DataType
parse_data_type AstDataType.varchar = ok DataType.var_char
parse_data_type AstDataType.int32 = ok DataType.int
parse_data_type AstDataType.int = ok DataType.int
parse_data_type AstDataType.float32 = ok DataType.float
parse_data_type AstDataType.float = ok DataType.float
parse_data_type AstDataType.blob = ok DataType.blob
parse_data_type AstDataType.binary = ok DataType.blob
parse_data_type AstDataType.other = err parse_error

abbrev pub has_not_null : List ColumnOption → Bool
has_not_null [] = false
has_not_null (ColumnOption.not_null ∷ options) = true
has_not_null (_ ∷ options) = has_not_null options

unfoldable pub parse_col : ColumnDef → Result ColumnDefinition
parse_col col_def = do
  datatype ← parse_data_type col_def.data_type
  new_column col_def.name datatype (not (has_not_null col_def.options))

abbrev pub parse_cols : List ColumnDef → Result (List ColumnDefinition)
parse_cols [] = ok []
parse_cols (col_def ∷ col_defs) = do
  col ← parse_col col_def
  cols ← parse_cols col_defs
  ok (col ∷ cols)
