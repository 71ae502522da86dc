-- ===== src/Planner/Binder.antt =====
-- The binder, src/planner/binder.rs: names are resolved and a statement's expressions become those of
-- src/expr.rs. `parse_i32` and `parse_f32` are the standard library's `str::parse`. The messages of
-- errors are not modelled.
use db_rs.Base.{
  ℕ, zero, suc, ◌+◌, Bool, true, false, not, ◌&&◌, Option, none, some, List, [], ◌∷◌, ◌++◌, ℤ, pos,
  guard, ◌>>◌, if◌then◌else◌, Result, ok, err, ◌>>=◌, ok_or, parse_error, table_not_found,
}
use db_rs.Value.{DataType, Value, bytes_eq}
use db_rs.Expr.{Expr}
use db_rs.Tables.Schema.{ColumnDefinition, TableSchema, new_column}
use db_rs.Tables.Table.{Table}
use db_rs.Database.{Database, get_table}
use db_rs.Planner.{SqlStatement}
use db_rs.Planner.Ast.{
  BinaryOperator, UnaryOperator, AstValue, AstExpr, AstDataType, ColumnOption, ColumnDef,
  SelectItem, TableFactor, TableWithJoins, Select, SetExpr, Statement,
}
use db_rs.Planner.Names.{resolve_column, resolve_compound_column, parse_from}
use db_rs.Planner.Columns.{parse_cols}
pub mod Scope
pub mod Order

-- An operator on two operands, the left one bound first.
abbrev pub bind_both : (Expr → Expr → Expr) → Result Expr → Result Expr → Result Expr
bind_both op left right = do l ← left; r ← right; ok (op l r)

-- `parse_binary_expr`, on what `parse_expr` gives for the operands.
abbrev pub parse_binary_expr : Result Expr → BinaryOperator → Result Expr → Result Expr
parse_binary_expr left BinaryOperator.and right = bind_both Expr.and left right
parse_binary_expr left BinaryOperator.divide right = bind_both Expr.divide left right
parse_binary_expr left BinaryOperator.eq right = bind_both Expr.equal left right
parse_binary_expr left BinaryOperator.gt right = bind_both Expr.greater_than left right
parse_binary_expr left BinaryOperator.gt_eq right =
    bind_both Expr.or (bind_both Expr.greater_than left right) (bind_both Expr.equal left right)
parse_binary_expr left BinaryOperator.lt right = bind_both Expr.less_than left right
parse_binary_expr left BinaryOperator.lt_eq right =
    bind_both Expr.or (bind_both Expr.less_than left right) (bind_both Expr.equal left right)
parse_binary_expr left BinaryOperator.minus right = bind_both Expr.subtract left right
parse_binary_expr left BinaryOperator.multiply right = bind_both Expr.multiply left right
parse_binary_expr left BinaryOperator.not_eq right = do
  e ← bind_both Expr.equal left right
  ok (Expr.not e)
parse_binary_expr left BinaryOperator.or right = bind_both Expr.or left right
parse_binary_expr left BinaryOperator.plus right = bind_both Expr.add left right
parse_binary_expr left BinaryOperator.other right = err parse_error

-- `parse_unary_expr`
abbrev pub parse_unary_expr : UnaryOperator → Result Expr → Result Expr
parse_unary_expr UnaryOperator.bang_not operand = do e ← operand; ok (Expr.not e)
parse_unary_expr UnaryOperator.not operand = do e ← operand; ok (Expr.not e)
parse_unary_expr UnaryOperator.minus operand = do
  e ← operand
  ok (Expr.subtract (Expr.constant (Value.int (pos 0))) e)
parse_unary_expr UnaryOperator.plus operand = operand
parse_unary_expr UnaryOperator.other operand = err parse_error

module _ (parse_i32 : List ℕ → Option ℤ) (parse_f32 : List ℕ → Option ℕ) where
  -- `parse_value`
  abbrev pub parse_number : Option ℤ → Option ℕ → Result Value
  parse_number (some i) float = ok (Value.int i)
  parse_number none (some f) = ok (Value.float f)
  parse_number none none = err parse_error

  abbrev pub parse_literal : AstValue → Result Value
  parse_literal (AstValue.boolean b) = ok (Value.boolean b)
  parse_literal (AstValue.double_quoted_string s) = ok (Value.var_char s)
  parse_literal (AstValue.single_quoted_string s) = ok (Value.var_char s)
  parse_literal AstValue.null = ok Value.null
  parse_literal (AstValue.number s) = parse_number (parse_i32 s) (parse_f32 s)
  parse_literal AstValue.other = err parse_error

  abbrev pub parse_value : AstValue → Result Expr
  parse_value v = do c ← parse_literal v; ok (Expr.constant c)

  -- `parse_expr`
  unfoldable pub parse_expr : AstExpr → List Table → Result Expr
  parse_expr (AstExpr.binary_op left op right) tables =
      parse_binary_expr (parse_expr left tables) op (parse_expr right tables)
  parse_expr (AstExpr.compound_identifier idents) tables = resolve_compound_column idents tables
  parse_expr (AstExpr.identifier ident) tables = resolve_column none ident tables
  parse_expr (AstExpr.is_not_null e) tables = do
    bound ← parse_expr e tables
    ok (Expr.is_not_null bound)
  parse_expr (AstExpr.is_null e) tables = do bound ← parse_expr e tables; ok (Expr.is_null bound)
  parse_expr (AstExpr.nested e) tables = parse_expr e tables
  parse_expr (AstExpr.unary_op op e) tables = parse_unary_expr op (parse_expr e tables)
  parse_expr (AstExpr.value v) tables = parse_value v
  parse_expr AstExpr.other tables = err parse_error

  abbrev pub parse_exprs : List AstExpr → List Table → Result (List Expr)
  parse_exprs [] tables = ok []
  parse_exprs (e ∷ es) tables = do
    bound ← parse_expr e tables
    rest ← parse_exprs es tables
    ok (bound ∷ rest)

  -- `parse_projection`, with the expressions so far, which a wildcard drops.
  abbrev pub parse_items : List SelectItem → List Table → List Expr → Result (List Expr)
  parse_items [] tables exprs = ok exprs
  parse_items (SelectItem.wildcard ∷ items) tables exprs = ok []
  parse_items (SelectItem.qualified_wildcard ∷ items) tables exprs = ok []
  parse_items (SelectItem.unnamed_expr e ∷ items) tables exprs = do
    bound ← parse_expr e tables
    parse_items items tables (exprs ++ (bound ∷ []))
  parse_items (SelectItem.expr_with_alias e ∷ items) tables exprs = do
    bound ← parse_expr e tables
    parse_items items tables (exprs ++ (bound ∷ []))
  parse_items (SelectItem.expr_with_aliases e ∷ items) tables exprs = do
    bound ← parse_expr e tables
    parse_items items tables (exprs ++ (bound ∷ []))

  unfoldable pub parse_projection : List SelectItem → List Table → Result (List Expr)
  parse_projection items tables = parse_items items tables []

  -- `parse_filter`
  unfoldable pub parse_filter : Option AstExpr → List Table → Result (Option Expr)
  parse_filter none tables = ok none
  parse_filter (some e) tables = do bound ← parse_expr e tables; ok (some bound)

  -- `parse_select_ast`
  unfoldable pub parse_select_ast : Select → Database → Result SqlStatement
  parse_select_ast ast db = do
    tables ← parse_from ast.from db
    cols ← parse_projection ast.projection tables
    filter ← parse_filter ast.selection tables
    ok (SqlStatement.select cols tables filter)

  -- `bind`
  abbrev pub first_row : SetExpr → Result (List AstExpr)
  first_row (SetExpr.values (row ∷ rows)) = ok row
  first_row (SetExpr.values []) = err parse_error
  first_row (SetExpr.select ast) = err parse_error
  first_row SetExpr.other = err parse_error

  unfoldable pub bind : Statement → Database → Result SqlStatement
  bind (Statement.query (SetExpr.select ast)) db = parse_select_ast ast db
  bind (Statement.query (SetExpr.values rows)) db = err parse_error
  bind (Statement.query SetExpr.other) db = err parse_error
  bind (Statement.insert table_name source) db = do
    table ← ok_or (get_table table_name db) (table_not_found table_name)
    body ← ok_or source parse_error
    row ← first_row body
    values ← parse_exprs row (table ∷ [])
    ok (SqlStatement.insert table values)
  bind (Statement.create_table name col_defs) db = do
    columns ← parse_cols col_defs
    ok (SqlStatement.create_table name (record { attributes = columns }))
  bind Statement.other db = err parse_error
