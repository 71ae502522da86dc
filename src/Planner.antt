-- ===== src/Planner.antt =====
-- Bound statements and plans, src/planner/plan.rs.
use db_rs.Base.{ℕ, Option, none, some, List, [], ◌∷◌, Result, ok, panic}
use db_rs.Expr.{Expr}
use db_rs.Tables.Schema.{TableSchema}
use db_rs.Tables.Table.{Table}
pub mod Ast
pub mod Names
pub mod Columns
pub mod Binder
mod Tests

-- `SqlStatement`
pub data SqlStatement : Type 0 where
  select : List Expr → List Table → Option Expr → SqlStatement
  insert : Table → List Expr → SqlStatement
  create_table : List ℕ → TableSchema → SqlStatement

-- `SortOrder`
pub data SortOrder : Type 0 where
  ascending descending : SortOrder

-- `PlanNode`, whose children are a list of its own.
mutual
  pub data PlanNode : Type 0 where
    filter : PlanNodes → Expr → PlanNode
    seq_scan : List Expr → Table → Option Expr → PlanNode
    sort : PlanNodes → SortOrder → PlanNode

  pub data PlanNodes : Type 0 where
    no_node : PlanNodes
    more_nodes : PlanNode → PlanNodes → PlanNodes

-- `QueryPlan`
pub data QueryPlan : Type 0 where
  create_table : List ℕ → TableSchema → QueryPlan
  insert : Table → List Expr → QueryPlan
  update delete : QueryPlan
  select : PlanNode → QueryPlan

-- `Planner::plan`
unfoldable pub plan : SqlStatement → Result QueryPlan
plan (SqlStatement.select cols [] pred) = panic
plan (SqlStatement.select cols (table ∷ tables) pred) =
    ok (QueryPlan.select (seq_scan cols table pred))
plan (SqlStatement.insert table values) = ok (QueryPlan.insert table values)
plan (SqlStatement.create_table name schema) = ok (QueryPlan.create_table name schema)
