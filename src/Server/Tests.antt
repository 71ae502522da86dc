-- ===== src/Server/Tests.antt =====
-- A job of two statements that the parser refuses, and the theorem on src/server.rs at it.
use Prim.Native.Nat.{Ordering}
use db_rs.Base.{
  ℕ, ◌≡◌, refl, Bool, true, false, Option, none, List, [], ◌∷◌, ◌++◌, length, ℤ, err, parse_error,
}
use db_rs.Value.{FloatOps}
use db_rs.Storage.{FilePath}
use db_rs.Database.{Database}
use db_rs.Planner.Ast.{Statement}
use db_rs.Server.{split_statements, execute_sql, run_statements, run_job}
use db_rs.Server.Answers.{NoPanic, join_statements, not_empty, results, run_job-answers}

abbrev no_database : Database
no_database = record {
  buffer_manager = record {
    storage_manager = record { disk = []; files = []; paths = []; next_id = 1 };
    frames = [];
    clock_hand = 0;
    free_frames = [];
    page_table = [];
  };
  catalog_manager = record { tables = [] };
  tables = [];
  table_names = [];
  base_path = [];
}

-- A parser that refuses every text, and no numbers.
abbrev refuses : List ℕ → Option (List Statement)
refuses sql = none

abbrev no_ints : List ℕ → Option ℤ
no_ints text = none

abbrev no_floats : List ℕ → Option ℕ
no_floats text = none

abbrev side_by_side : FilePath → FilePath → FilePath
side_by_side base name = base ++ name

abbrev plain_floats : FloatOps
plain_floats = record {
  of_int = λ i. 0;
  eq = λ a b. true;
  lt = λ a b. false;
  gt = λ a b. false;
  add = λ a b. a;
  sub = λ a b. a;
  mul = λ a b. a;
  div = λ a b. a;
  total_cmp = λ a b. Ordering.eq;
}

abbrev any_text : List ℕ → Bool
any_text bytes = true

-- "a;;b"
abbrev job : List ℕ
job = 97 ∷ 59 ∷ 59 ∷ 98 ∷ []

both_refused :
    results refuses no_ints no_floats side_by_side plain_floats any_text job no_database
    ≡ err parse_error ∷ err parse_error ∷ []
unfolding run_job run_statements execute_sql
both_refused = refl

job-NoPanic :
    NoPanic (results refuses no_ints no_floats side_by_side plain_floats any_text job no_database)
job-NoPanic = rw both_refused tt

run_job-answers_example :
    (join_statements (split_statements job) ≡ job)
    × (length (results refuses no_ints no_floats side_by_side plain_floats any_text job no_database)
        ≡ length (not_empty (split_statements job)))
run_job-answers_example =
    run_job-answers refuses no_ints no_floats side_by_side plain_floats any_text job no_database
      job-NoPanic
