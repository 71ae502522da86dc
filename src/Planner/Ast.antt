-- ===== src/Planner/Ast.antt =====
-- The syntax trees that the binder of src/planner/binder.rs takes, as far as it tells them apart: a
-- constructor for each pattern of the source, with the parts that the source binds, and `other` for
-- the patterns `other` and `_`. A name or an identifier is the text that the source gets of it.
use db_rs.Base.{ℕ, Bool, Option, List}

pub data BinaryOperator : Type 0 where
  and divide eq gt gt_eq lt lt_eq minus multiply not_eq or plus other : BinaryOperator

pub data UnaryOperator : Type 0 where
  bang_not not minus plus other : UnaryOperator

pub data AstValue : Type 0 where
  boolean : Bool → AstValue
  double_quoted_string single_quoted_string : List ℕ → AstValue
  null : AstValue
  number : List ℕ → AstValue
  other : AstValue

pub data AstExpr : Type 0 where
  binary_op : AstExpr → BinaryOperator → AstExpr → AstExpr
  compound_identifier : List (List ℕ) → AstExpr
  identifier : List ℕ → AstExpr
  is_not_null is_null nested : AstExpr → AstExpr
  unary_op : UnaryOperator → AstExpr → AstExpr
  value : AstValue → AstExpr
  other : AstExpr

pub data AstDataType : Type 0 where
  varchar int32 int float32 float blob binary other : AstDataType

pub data ColumnOption : Type 0 where
  primary_key not_null other : ColumnOption

pub record ColumnDef : Type 0 where
  pub name : List ℕ
  pub data_type : AstDataType
  pub options : List ColumnOption

pub data SelectItem : Type 0 where
  wildcard qualified_wildcard : SelectItem
  unnamed_expr expr_with_alias expr_with_aliases : AstExpr → SelectItem

pub data TableFactor : Type 0 where
  table : List ℕ → TableFactor
  other : TableFactor

pub record TableWithJoins : Type 0 where
  pub relation : TableFactor
  pub joins : List TableFactor

pub record Select : Type 0 where
  pub projection : List SelectItem
  pub from : List TableWithJoins
  pub selection : Option AstExpr

pub data SetExpr : Type 0 where
  select : Select → SetExpr
  values : List (List AstExpr) → SetExpr
  other : SetExpr

pub data Statement : Type 0 where
  query : SetExpr → Statement
  insert : List ℕ → Option SetExpr → Statement
  create_table : List ℕ → List ColumnDef → Statement
  other : Statement
