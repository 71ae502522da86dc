-- ===== src/Planner/Tests.antt =====
-- The theorems on src/planner/binder.rs at a database of one table.
use Prim.Native.Nat.{Ordering}
use db_rs.Base.{ℕ, ◌≡◌, refl, true, false, Option, none, some, List, [], ◌∷◌, ℤ, pos, ok}
use db_rs.Value.{DataType, Value, FloatOps}
use db_rs.Expr.{Expr, evaluate}
use db_rs.Tables.Table.{Table}
use db_rs.Storage.{StorageManager}
use db_rs.Database.{Database, get_table}
use db_rs.Planner.{SqlStatement}
use db_rs.Planner.Ast.{
  AstExpr, AstValue, BinaryOperator, UnaryOperator, SelectItem, TableFactor, SetExpr, Statement,
}
use db_rs.Planner.Names.{resolve_column, parse_from}
use db_rs.Planner.Names.Resolve.{resolve_column-positions}
use db_rs.Planner.Binder.{parse_expr, parse_projection, parse_filter, parse_select_ast, bind}
use db_rs.Planner.Binder.Order.{NotFloat, evaluate_bound, parse_expr-at_least}
use db_rs.Planner.Binder.Scope.Statements.{IsBound, bind-IsBound}

abbrev column_a : List ℕ
column_a = 97 ∷ []

abbrev column_b : List ℕ
column_b = 98 ∷ []

abbrev users_name : List ℕ
users_name = 117 ∷ []

abbrev users : Table
users = record {
  table_id = 1;
  file_id = 1;
  name = users_name;
  schema = record {
    attributes =
        record { name = column_a; data_type = DataType.int; is_nullable = false }
        ∷ record { name = column_b; data_type = DataType.int; is_nullable = false }
        ∷ [];
  };
  current_heap_page = 1;
}

abbrev no_storage : StorageManager
no_storage = record { disk = []; files = []; paths = []; next_id = 2 }

abbrev one_table : Database
one_table = record {
  buffer_manager = record {
    storage_manager = no_storage;
    frames = [];
    clock_hand = 0;
    free_frames = [];
    page_table = [];
  };
  catalog_manager = record { tables = [] };
  tables = (1, users) ∷ [];
  table_names = (users_name, 1) ∷ [];
  base_path = [];
}

resolve_column-positions_example :
    resolve_column (some users_name) column_b (users ∷ []) ≡ ok (Expr.attr_ref 1)
resolve_column-positions_example = resolve_column-positions (some users_name) column_b (users ∷ [])

-- Every number is read as 7.
abbrev sevens : List ℕ → Option ℤ
sevens text = some (pos 7)

abbrev no_floats : List ℕ → Option ℕ
no_floats text = none

-- Floats, which these expressions do not have.
abbrev plain_floats : FloatOps
plain_floats = record {
  of_int = λ i. 0;
  eq = λ a b. true;
  lt = λ a b. false;
  gt = λ a b. false;
  add = λ a b. a;
  sub = λ a b. a;
  mul = λ a b. a;
  div = λ a b. a;
  total_cmp = λ a b. Ordering.eq;
}

abbrev b : AstExpr
b = AstExpr.identifier column_b

abbrev seven : AstExpr
seven = AstExpr.value (AstValue.number (55 ∷ []))

abbrev b_at_least_seven : AstExpr
b_at_least_seven = AstExpr.binary_op b BinaryOperator.gt_eq seven

abbrev b_at_most_seven : AstExpr
b_at_most_seven = AstExpr.binary_op b BinaryOperator.lt_eq seven

b_bound : parse_expr sevens no_floats b (users ∷ []) ≡ ok (Expr.attr_ref 1)
unfolding parse_expr resolve_column
b_bound = refl

seven_bound :
    parse_expr sevens no_floats seven (users ∷ []) ≡ ok (Expr.constant (Value.int (pos 7)))
unfolding parse_expr
seven_bound = refl

abbrev row : Option (List Value)
row = some (Value.int (pos 1) ∷ Value.int (pos 9) ∷ [])

b_value : evaluate plain_floats row (Expr.attr_ref 1) ≡ ok (Value.int (pos 9))
unfolding evaluate
b_value = refl

seven_value : evaluate plain_floats row (Expr.constant (Value.int (pos 7))) ≡ ok (Value.int (pos 7))
unfolding evaluate
seven_value = refl

int-NotFloat : (i : ℤ) → NotFloat (Value.int i)
int-NotFloat i x e = cc

parse_expr-at_least_example :
    (evaluate_bound sevens no_floats plain_floats row (users ∷ []) b_at_least_seven
      ≡ evaluate_bound sevens no_floats plain_floats row (users ∷ []) (
          AstExpr.unary_op UnaryOperator.not
            (AstExpr.nested (AstExpr.binary_op b BinaryOperator.lt seven))))
    × (evaluate_bound sevens no_floats plain_floats row (users ∷ []) b_at_most_seven
        ≡ evaluate_bound sevens no_floats plain_floats row (users ∷ []) (
            AstExpr.unary_op UnaryOperator.not
              (AstExpr.nested (AstExpr.binary_op b BinaryOperator.gt seven))))
parse_expr-at_least_example =
    parse_expr-at_least sevens no_floats plain_floats row (users ∷ []) b seven (Expr.attr_ref 1)
      (Expr.constant (Value.int (pos 7))) (Value.int (pos 9)) (Value.int (pos 7)) b_bound
      seven_bound b_value seven_value (int-NotFloat (pos 9)) (int-NotFloat (pos 7))

-- SELECT b FROM u WHERE b
abbrev select_b : Statement
select_b = Statement.query (
    SetExpr.select (record {
      projection = SelectItem.unnamed_expr b ∷ [];
      from = record { relation = TableFactor.table users_name; joins = [] } ∷ [];
      selection = some b;
    }))

abbrev selects_b : SqlStatement
selects_b = SqlStatement.select (Expr.attr_ref 1 ∷ []) (users ∷ []) (some (Expr.attr_ref 1))

select_b-bound : bind sevens no_floats select_b one_table ≡ ok selects_b
unfolding bind parse_select_ast parse_from parse_projection parse_filter parse_expr resolve_column
    get_table
select_b-bound = refl

bind-IsBound_example : IsBound one_table select_b selects_b
bind-IsBound_example = bind-IsBound sevens no_floats select_b one_table selects_b select_b-bound
