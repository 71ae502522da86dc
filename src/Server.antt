-- ===== src/Server.antt =====
-- The database worker, src/server.rs: the statements of a job are carried out one after the other, and
-- the result of each is sent. The SQL parser is the parameter `parse_sql`, which gives the statements
-- of a text or fails.
use db_rs.Base.{
  ℕ, ◌==◌, Bool, Option, List, [], ◌∷◌, ℤ, Result, ok, err, panic, parse_error, if◌then◌else◌,
  ok_or, and_then,
}
use db_rs.Value.{Value, FloatOps}
use db_rs.Storage.{FilePath}
use db_rs.Database.{Database, Db, ◌>>=◌, give, get_db}
use db_rs.Planner.{plan}
use db_rs.Planner.Ast.{Statement}
use db_rs.Planner.Binder.{bind}
use db_rs.Execution.Executor.{execute}
pub mod Answers
mod Tests

-- `sql_string.split(";")`
abbrev pub add_byte : ℕ → List (List ℕ) → List (List ℕ)
add_byte b [] = (b ∷ []) ∷ []
add_byte b (part ∷ parts) = (b ∷ part) ∷ parts

abbrev pub split_statements : List ℕ → List (List ℕ)
split_statements [] = [] ∷ []
split_statements (b ∷ bytes) =
    if b == 59 then [] ∷ split_statements bytes else add_byte b (split_statements bytes)

module _ (parse_sql : List ℕ → Option (List Statement)) (parse_i32 : List ℕ → Option ℤ)
    (parse_f32 : List ℕ → Option ℕ) (join : FilePath → FilePath → FilePath) (f32 : FloatOps)
    (utf8 : List ℕ → Bool) where
  -- `execute_sql`, on what the parser gives.
  abbrev pub execute_first : List Statement → Db (List (List Value))
  execute_first [] = give (ok [])
  execute_first (statement ∷ statements) = do
    db ← get_db
    query ← give (and_then (bind parse_i32 parse_f32 statement db) plan)
    execute join f32 utf8 query

  unfoldable pub execute_sql : List ℕ → Db (List (List Value))
  execute_sql sql = do
    statements ← give (ok_or (parse_sql sql) parse_error)
    execute_first statements

  -- `DbWorker::run` on a job: its results in order. A panic ends the worker.
  abbrev pub sent :
      Database
      → Result (List (List Value))
      → (Database → Database × List (Result (List (List Value))))
      → Database × List (Result (List (List Value)))
  sent db panic next = (db, panic ∷ [])
  sent db (ok rows) next = let rest = next db in (rest.0, ok rows ∷ rest.1)
  sent db (err e) next = let rest = next db in (rest.0, err e ∷ rest.1)

  unfoldable pub run_statements :
      List (List ℕ) → Database → Database × List (Result (List (List Value)))
  run_statements [] db = (db, [])
  run_statements ([] ∷ parts) db = run_statements parts db
  run_statements ((b ∷ sql) ∷ parts) db =
      let done = execute_sql (b ∷ sql) db in sent done.0 done.1 (run_statements parts)

  unfoldable pub run_job : List ℕ → Database → Database × List (Result (List (List Value)))
  run_job sql db = run_statements (split_statements sql) db
