-- ===== src/Server/Answers.antt =====
-- What the worker of src/server.rs sends for a job.
use db_rs.Base.{
  ℕ, suc, ◌≡◌, refl, sym, ap, ◌∙◌, inl, inr, Bool-cases, Bool, Option, List, [], ◌∷◌, ◌++◌, length,
  ℤ, Result, ok, err, panic, ◌==◌, ==_iff,
}
use db_rs.Value.{Value, FloatOps}
use db_rs.Storage.{FilePath}
use db_rs.Database.{Database}
use db_rs.Planner.Ast.{Statement}
use db_rs.Server.{add_byte, split_statements, execute_sql, sent, run_statements, run_job}

-- The parts with a ";" between them, and those that are not empty.
abbrev pub join_statements : List (List ℕ) → List ℕ
join_statements [] = []
join_statements (part ∷ []) = part
join_statements (part ∷ next ∷ parts) = part ++ (59 ∷ join_statements (next ∷ parts))

abbrev pub not_empty : List (List ℕ) → List (List ℕ)
not_empty [] = []
not_empty ([] ∷ parts) = not_empty parts
not_empty ((b ∷ sql) ∷ parts) = (b ∷ sql) ∷ not_empty parts

-- No statement panicked.
abbrev pub NoPanic {ℓ} : {A : Type ℓ} → List (Result A) → Type 0
NoPanic [] = Unit {0}
NoPanic (ok a ∷ rs) = NoPanic rs
NoPanic (err e ∷ rs) = NoPanic rs
NoPanic (panic ∷ rs) = ⊥

split_more :
    (bytes : List ℕ)
    → (part : List ℕ) × (parts : List (List ℕ)) × (split_statements bytes ≡ part ∷ parts)
split_more [] = ([], [], refl)
split_more (b ∷ bytes) =
    let (part, parts, e) = split_more bytes in
    elim (Bool-cases (b == 59)) [
      | inl h ↦ ([], split_statements bytes, rw h refl)
      | inr h ↦ (b ∷ part, parts, rw (h, e) refl)
    ]

join_statements-add_byte :
    (b : ℕ) (part : List ℕ) (parts : List (List ℕ))
    → join_statements (add_byte b (part ∷ parts)) ≡ b ∷ join_statements (part ∷ parts)
join_statements-add_byte b part [] = refl
join_statements-add_byte b part (next ∷ parts) = refl

join_statements-split_statements :
    (bytes : List ℕ) → join_statements (split_statements bytes) ≡ bytes
join_statements-split_statements [] = refl
join_statements-split_statements (b ∷ bytes) =
    let (part, parts, e) = split_more bytes in
    let rest = sym (ap join_statements e) ∙ join_statements-split_statements bytes in
    elim (Bool-cases (b == 59)) [
      | inl h ↦
          let same = (==_iff b 59).0 h in
          rw (h, e) (ap (λ bs. 59 ∷ bs) rest ∙ ap (λ c. c ∷ bytes) (sym same))
      | inr h ↦ rw (h, e) (join_statements-add_byte b part parts ∙ ap (λ bs. b ∷ bs) rest)
    ]

module _ (parse_sql : List ℕ → Option (List Statement)) (parse_i32 : List ℕ → Option ℤ)
    (parse_f32 : List ℕ → Option ℕ) (join : FilePath → FilePath → FilePath) (f32 : FloatOps)
    (utf8 : List ℕ → Bool) where
  abbrev pub results : List ℕ → Database → List (Result (List (List Value)))
  results sql db = (run_job parse_sql parse_i32 parse_f32 join f32 utf8 sql db).1

  abbrev answers : List (List ℕ) → Database → List (Result (List (List Value)))
  answers parts db = (run_statements parse_sql parse_i32 parse_f32 join f32 utf8 parts db).1

  length-sent :
      (sql : List ℕ) (parts : List (List ℕ)) (db : Database) (r : Result (List (List Value)))
      → ((db' : Database)
          → NoPanic (answers parts db')
          → length (answers parts db') ≡ length (not_empty parts))
      → NoPanic
          (sent parse_sql parse_i32 parse_f32 join f32 utf8 db r
            (run_statements parse_sql parse_i32 parse_f32 join f32 utf8 parts)).1
      → length
          (sent parse_sql parse_i32 parse_f32 join f32 utf8 db r
            (run_statements parse_sql parse_i32 parse_f32 join f32 utf8 parts)).1
        ≡ suc (length (not_empty parts))
  length-sent sql parts db (ok rows) next h = ap suc (next db h)
  length-sent sql parts db (err e) next h = ap suc (next db h)
  length-sent sql parts db panic next h = absurd h

  length-answers :
      (parts : List (List ℕ)) (db : Database)
      → NoPanic (answers parts db)
      → length (answers parts db) ≡ length (not_empty parts)
  unfolding run_statements
  length-answers [] db h = refl
  length-answers ([] ∷ parts) db h = length-answers parts db h
  length-answers ((b ∷ sql) ∷ parts) db h =
      let done = execute_sql parse_sql parse_i32 parse_f32 join f32 utf8 (b ∷ sql) db in
      length-sent (b ∷ sql) parts done.0 done.1 (length-answers parts) h

  -- The parts of a job's text with a ";" between them are the text, and as long as no statement panics
  -- the worker sends one result for each part that is not empty, whether it succeeds or fails.
  pub run_job-answers :
      (sql : List ℕ) (db : Database)
      → NoPanic (results sql db)
      → (join_statements (split_statements sql) ≡ sql)
        × (length (results sql db) ≡ length (not_empty (split_statements sql)))
  unfolding run_job
  run_job-answers sql db h =
      (join_statements-split_statements sql, length-answers (split_statements sql) db h)
