-- ===== src/Execution/Executor.antt =====
-- The executor, src/execution/executor.rs and src/execution/create_table.rs.
use db_rs.Base.{
  ℕ, Bool, true, false, none, List, [], ◌∷◌, Result, ok, err, and_then, unknown, input_error,
  tuple_doesnt_match_schema,
}
use db_rs.Value.{Value, FloatOps}
use db_rs.Storage.{FilePath}
use db_rs.Expr.{Expr, evaluate}
use db_rs.Tables.Schema.{TableSchema, is_valid_tuple}
use db_rs.Tables.Tuple.{serialize}
use db_rs.Tables.Table.{Table}
use db_rs.Database.{Db, ◌>>=◌, ◌>>◌, give, create_db_table}
use db_rs.Planner.{QueryPlan, PlanNode}
use db_rs.Execution.Insert.{insert_into}
use db_rs.Execution.Cursor.{scan_transaction}

-- `CreateTableExecutor::execute`
unfoldable pub execute_create_table :
    (FilePath → FilePath → FilePath) → List ℕ → TableSchema → Db (Unit {0})
execute_create_table join name schema = do id ← create_db_table join name schema; give (ok tt)

-- The values of an INSERT are evaluated without a tuple.
abbrev pub evaluate_values : FloatOps → List Expr → Result (List Value)
evaluate_values f32 [] = ok []
evaluate_values f32 (e ∷ es) =
    and_then (evaluate f32 none e) (λ v. and_then (evaluate_values f32 es) (λ vs. ok (v ∷ vs)))

abbrev pub insert_valid : Table → List Value → Bool → Db (Unit {0})
insert_valid table values false = give (err (input_error tuple_doesnt_match_schema))
insert_valid table values true = do
  id ← insert_into table.table_id (serialize values table.schema)
  give (ok tt)

unfoldable pub execute_insert : FloatOps → Table → List Expr → Db (Unit {0})
execute_insert f32 table exprs = do
  values ← give (evaluate_values f32 exprs)
  valid ← give (is_valid_tuple table.schema values)
  insert_valid table values valid

module _ (join : FilePath → FilePath → FilePath) (f32 : FloatOps) (utf8 : List ℕ → Bool) where
  -- `Executor::execute`
  unfoldable pub execute : QueryPlan → Db (List (List Value))
  execute (QueryPlan.select (PlanNode.seq_scan cols table pred)) =
      scan_transaction f32 utf8 table.table_id cols pred
  execute (QueryPlan.select (PlanNode.filter nodes pred)) = give (err unknown)
  execute (QueryPlan.select (PlanNode.sort nodes order)) = give (err unknown)
  execute (QueryPlan.insert table values) = execute_insert f32 table values >> give (ok [])
  execute (QueryPlan.create_table name schema) =
      execute_create_table join name schema >> give (ok [])
  execute QueryPlan.update = give (err unknown)
  execute QueryPlan.delete = give (err unknown)
