-- ===== src/Planner/Binder/Scope/Statements.antt =====
-- The tables and columns of a statement that the binder of src/planner/binder.rs has bound.
use db_rs.Base.{
  ℕ, ◌≡◌, subst, refl, Option, none, some, List, [], ◌∷◌, ◌++◌, ℤ, Result, ok, err, panic, ok_or,
  Error, ◌>>=◌,
}
use db_rs.Expr.{Expr}
use db_rs.Tables.Table.{Table}
use db_rs.Database.{Database, get_table}
use db_rs.Planner.{SqlStatement}
use db_rs.Planner.Ast.{
  ColumnDef, AstExpr, SelectItem, Select, SetExpr, Statement, TableWithJoins, TableFactor,
}
use db_rs.Planner.Names.{parse_from, parse_relation}
use db_rs.Planner.Columns.{parse_cols}
use db_rs.Planner.Binder.{
  parse_expr, parse_exprs, parse_items, parse_projection, parse_filter, parse_select_ast, first_row,
  bind,
}
use db_rs.Planner.Binder.Scope.Declared.{AllDeclare, parse_cols-AllDeclare}
use db_rs.Planner.Binder.Scope.{InScope, AllInScope, Gives, Gives-bind, width, parse_expr-InScope}

abbrev pub FilterInScope : ℕ → Option Expr → Type 0
FilterInScope n none = Unit {0}
FilterInScope n (some e) = InScope n e

-- A SELECT is on one table of the database and names only columns of that table; an INSERT is on the
-- table with its name, and its values name only columns of that table; and a CREATE TABLE has its name
-- and the columns that it defines.
abbrev pub IsBound : Database → Statement → SqlStatement → Type 0
IsBound db statement (SqlStatement.select cols tables filter) =
    (name : List ℕ) × (table : Table) × (tables ≡ table ∷ [])
    × (get_table name db ≡ some table)
    × AllInScope (width table) cols
    × FilterInScope (width table) filter
IsBound db statement (SqlStatement.insert table values) =
    (name : List ℕ) × (source : Option SetExpr) × (statement ≡ Statement.insert name source)
    × (get_table name db ≡ some table)
    × AllInScope (width table) values
IsBound db statement (SqlStatement.create_table name schema) =
    (defs : List ColumnDef) × (statement ≡ Statement.create_table name defs)
    × AllDeclare defs schema.attributes

AllInScope-append :
    (n : ℕ) (es fs : List Expr) → AllInScope n es → AllInScope n fs → AllInScope n (es ++ fs)
AllInScope-append n [] fs h k = k
AllInScope-append n (e ∷ es) fs (p, h) k = (p, AllInScope-append n es fs h k)

anything {ℓ} : {A : Type ℓ} (r : Result A) → Gives (λ a. Unit {0}) r
anything (ok a) = tt
anything (err e) = tt
anything panic = tt

-- The only table of a FROM clause is one of the database.
abbrev FromTable : Database → List Table → Type 0
FromTable db tables =
    (name : List ℕ) × (table : Table) × (tables ≡ table ∷ []) × (get_table name db ≡ some table)

ok_or-Gives :
    (found : Option Table) (e : Error) → Gives (λ table. found ≡ some table) (ok_or found e)
ok_or-Gives none e = tt
ok_or-Gives (some table) e = refl

parse_relation-FromTable :
    (relation : TableFactor) (db : Database) → Gives (FromTable db) (parse_relation relation db)
parse_relation-FromTable (TableFactor.table name) db =
    Gives-bind (FromTable db) (ok_or (get_table name db) _) _ (ok_or-Gives (get_table name db) _)
      (λ table h. (name, table, refl, h))
parse_relation-FromTable TableFactor.other db = tt

parse_from-FromTable :
    (from : List TableWithJoins) (db : Database) → Gives (FromTable db) (parse_from from db)
unfolding parse_from
parse_from-FromTable [] db = tt
parse_from-FromTable (from ∷ []) db =
    Gives-bind (FromTable db) _ _ (anything _) (λ u h. parse_relation-FromTable from.relation db)
parse_from-FromTable (a ∷ b ∷ from) db = tt

module _ (parse_i32 : List ℕ → Option ℤ) (parse_f32 : List ℕ → Option ℕ) where
  parse_exprs-AllInScope :
      (es : List AstExpr) (table : Table)
      → Gives (AllInScope (width table)) (parse_exprs parse_i32 parse_f32 es (table ∷ []))
  parse_exprs-AllInScope [] table = tt
  parse_exprs-AllInScope (e ∷ es) table =
      Gives-bind (AllInScope (width table)) (parse_expr parse_i32 parse_f32 e (table ∷ [])) _
        (parse_expr-InScope parse_i32 parse_f32 table e)
        (λ b h.
          Gives-bind (AllInScope (width table)) (parse_exprs parse_i32 parse_f32 es (table ∷ [])) _
            (parse_exprs-AllInScope es table) (λ bs k. (h, k)))

  parse_item-AllInScope :
      (e : AstExpr) (items : List SelectItem) (table : Table) (exprs : List Expr)
      → AllInScope (width table) exprs
      → ((more : List Expr)
          → AllInScope (width table) more
          → Gives
              (AllInScope (width table))
              (parse_items parse_i32 parse_f32 items (table ∷ []) more))
      → Gives (AllInScope (width table)) (
          parse_expr parse_i32 parse_f32 e (table ∷ []) >>= λ bound.
          parse_items parse_i32 parse_f32 items (table ∷ []) (exprs ++ (bound ∷ [])))
  parse_item-AllInScope e items table exprs h next =
      Gives-bind (AllInScope (width table)) (parse_expr parse_i32 parse_f32 e (table ∷ [])) _
        (parse_expr-InScope parse_i32 parse_f32 table e)
        (λ b k. next (exprs ++ (b ∷ [])) (AllInScope-append (width table) exprs (b ∷ []) h (k, tt)))

  parse_items-AllInScope :
      (items : List SelectItem) (table : Table) (exprs : List Expr)
      → AllInScope (width table) exprs
      → Gives (AllInScope (width table)) (parse_items parse_i32 parse_f32 items (table ∷ []) exprs)
  parse_items-AllInScope [] table exprs h = h
  parse_items-AllInScope (SelectItem.wildcard ∷ items) table exprs h = tt
  parse_items-AllInScope (SelectItem.qualified_wildcard ∷ items) table exprs h = tt
  parse_items-AllInScope (SelectItem.unnamed_expr e ∷ items) table exprs h =
      parse_item-AllInScope e items table exprs h (parse_items-AllInScope items table)
  parse_items-AllInScope (SelectItem.expr_with_alias e ∷ items) table exprs h =
      parse_item-AllInScope e items table exprs h (parse_items-AllInScope items table)
  parse_items-AllInScope (SelectItem.expr_with_aliases e ∷ items) table exprs h =
      parse_item-AllInScope e items table exprs h (parse_items-AllInScope items table)

  parse_filter-FilterInScope :
      (filter : Option AstExpr) (table : Table)
      → Gives (FilterInScope (width table)) (parse_filter parse_i32 parse_f32 filter (table ∷ []))
  unfolding parse_filter
  parse_filter-FilterInScope none table = tt
  parse_filter-FilterInScope (some e) table =
      Gives-bind (FilterInScope (width table)) (parse_expr parse_i32 parse_f32 e (table ∷ [])) _
        (parse_expr-InScope parse_i32 parse_f32 table e) (λ b h. h)

  select-IsBound :
      (statement : Statement) (ast : Select) (db : Database) (tables : List Table)
      → FromTable db tables
      → Gives (IsBound db statement) (do
        cols ← parse_projection parse_i32 parse_f32 ast.projection tables
        filter ← parse_filter parse_i32 parse_f32 ast.selection tables
        ok (SqlStatement.select cols tables filter))
  unfolding parse_projection
  select-IsBound statement ast db tables (name, table, e, found) = rw e (
      Gives-bind (IsBound db statement)
        (parse_items parse_i32 parse_f32 ast.projection (table ∷ []) []) _
        (parse_items-AllInScope ast.projection table [] tt)
        (λ cols h.
          Gives-bind (IsBound db statement)
            (parse_filter parse_i32 parse_f32 ast.selection (table ∷ [])) _
            (parse_filter-FilterInScope ast.selection table)
            (λ filter k. (name, table, refl, found, h, k))))

  bind-Gives :
      (statement : Statement) (db : Database)
      → Gives (IsBound db statement) (bind parse_i32 parse_f32 statement db)
  unfolding bind parse_select_ast
  bind-Gives (Statement.query (SetExpr.select ast)) db =
      Gives-bind (IsBound db (Statement.query (SetExpr.select ast))) (parse_from ast.from db) _
        (parse_from-FromTable ast.from db)
        (select-IsBound (Statement.query (SetExpr.select ast)) ast db)
  bind-Gives (Statement.query (SetExpr.values rows)) db = tt
  bind-Gives (Statement.query SetExpr.other) db = tt
  bind-Gives (Statement.insert table_name source) db =
      Gives-bind (IsBound db (Statement.insert table_name source))
        (ok_or (get_table table_name db) _) _ (ok_or-Gives (get_table table_name db) _)
        (λ table found.
          Gives-bind (IsBound db (Statement.insert table_name source)) (ok_or source _) _
            (anything (ok_or source _))
            (λ body u.
              Gives-bind (IsBound db (Statement.insert table_name source))
                (first_row parse_i32 parse_f32 body) _
                (anything (first_row parse_i32 parse_f32 body))
                (λ row v.
                  Gives-bind (IsBound db (Statement.insert table_name source))
                    (parse_exprs parse_i32 parse_f32 row (table ∷ [])) _
                    (parse_exprs-AllInScope row table)
                    (λ values h. (table_name, source, refl, found, h)))))
  bind-Gives (Statement.create_table name col_defs) db =
      Gives-bind (IsBound db (Statement.create_table name col_defs)) (parse_cols col_defs) _
        (parse_cols-AllDeclare col_defs) (λ cs h. (col_defs, refl, h))
  bind-Gives Statement.other db = tt

  -- A statement that is bound is what was parsed: a SELECT is on one table, which the database has, and
  -- its columns and filter name only attributes of the table's schema; an INSERT is on the database's
  -- table with its name, and its values name only attributes of the table's schema; and a CREATE
  -- TABLE has its name and, in their order, the columns that it defines, with their names, of at most
  -- 255 bytes, their types, and nullable unless NOT NULL is among their options.
  pub bind-IsBound :
      (statement : Statement) (db : Database) (bound : SqlStatement)
      → bind parse_i32 parse_f32 statement db ≡ ok bound
      → IsBound db statement bound
  bind-IsBound statement db bound h =
      subst (Gives (IsBound db statement)) h (bind-Gives statement db)
