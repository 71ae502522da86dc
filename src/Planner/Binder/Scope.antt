-- ===== src/Planner/Binder/Scope.antt =====
-- The columns that the binder of src/planner/binder.rs lets a statement name.
use db_rs.Base.{
  ℕ, zero, suc, ◌+◌, ◌<◌, ◌≡◌, subst, refl, sym, ap, ◌∙◌, inl, inr, Bool-cases, arith, Option, none,
  some, List, [], ◌∷◌, ◌++◌, append-nil, length, ℤ, Result, ok, err, panic, ◌>>=◌,
}
use db_rs.Value.{Value, bytes_eq}
use db_rs.Expr.{Expr}
use db_rs.Tables.Schema.{ColumnDefinition}
use db_rs.Tables.Table.{Table}
use db_rs.Database.{Database, get_table}
use db_rs.Planner.{SqlStatement}
use db_rs.Planner.Ast.{
  AstExpr, BinaryOperator, UnaryOperator, AstValue, SelectItem, Select, SetExpr, Statement,
  TableWithJoins, TableFactor,
}
use db_rs.Planner.Names.{resolve_column, resolve_compound_column, parse_from, parse_relation}
use db_rs.Planner.Names.Resolve.{
  positions, meant, all_positions, the_only, resolve_column-positions,
}
use db_rs.Planner.Binder.{
  bind_both, parse_binary_expr, parse_unary_expr, parse_literal, parse_value, parse_expr,
  parse_exprs, parse_items, parse_projection, parse_filter, parse_select_ast, bind,
}
pub mod Declared
pub mod Statements

-- Every attribute that the expression names is one of the first `n`.
abbrev pub InScope : ℕ → Expr → Type 0
InScope n (Expr.attr_ref i) = i < n
InScope n (Expr.constant c) = Unit {0}
InScope n (Expr.and l r) = InScope n l × InScope n r
InScope n (Expr.equal l r) = InScope n l × InScope n r
InScope n (Expr.greater_than l r) = InScope n l × InScope n r
InScope n (Expr.less_than l r) = InScope n l × InScope n r
InScope n (Expr.like l r) = InScope n l × InScope n r
InScope n (Expr.or l r) = InScope n l × InScope n r
InScope n (Expr.add l r) = InScope n l × InScope n r
InScope n (Expr.subtract l r) = InScope n l × InScope n r
InScope n (Expr.multiply l r) = InScope n l × InScope n r
InScope n (Expr.divide l r) = InScope n l × InScope n r
InScope n (Expr.is_null e) = InScope n e
InScope n (Expr.is_not_null e) = InScope n e
InScope n (Expr.not e) = InScope n e

abbrev pub AllInScope : ℕ → List Expr → Type 0
AllInScope n [] = Unit {0}
AllInScope n (e ∷ es) = InScope n e × AllInScope n es

-- A result is good when it is no success or its value is.
abbrev pub Gives {ℓ} : {A : Type ℓ} → (A → Type 0) → Result A → Type 0
Gives P (ok a) = P a
Gives P (err e) = Unit {0}
Gives P panic = Unit {0}

pub Gives-bind {ℓ κ} :
    {A : Type ℓ} {B : Type κ} {P : A → Type 0} (Q : B → Type 0) (r : Result A) (f : A → Result B)
    → Gives P r
    → ((a : A) → P a → Gives Q (f a))
    → Gives Q (r >>= f)
Gives-bind Q (ok a) f h k = k a h
Gives-bind Q (err e) f h k = tt
Gives-bind Q panic f h k = tt

Gives-bind_both :
    (n : ℕ) (op : Expr → Expr → Expr) (l r : Result Expr)
    → ((x y : Expr) → InScope n x → InScope n y → InScope n (op x y))
    → Gives (InScope n) l
    → Gives (InScope n) r
    → Gives (InScope n) (bind_both op l r)
Gives-bind_both n op l r make hl hr =
    Gives-bind (InScope n) l _ hl (λ x hx. Gives-bind (InScope n) r _ hr (λ y hy. make x y hx hy))

parse_binary_expr-InScope :
    (n : ℕ) (l : Result Expr) (op : BinaryOperator) (r : Result Expr)
    → Gives (InScope n) l
    → Gives (InScope n) r
    → Gives (InScope n) (parse_binary_expr l op r)
parse_binary_expr-InScope n l BinaryOperator.and r hl hr =
    Gives-bind_both n Expr.and l r (λ x y p q. (p, q)) hl hr
parse_binary_expr-InScope n l BinaryOperator.divide r hl hr =
    Gives-bind_both n Expr.divide l r (λ x y p q. (p, q)) hl hr
parse_binary_expr-InScope n l BinaryOperator.eq r hl hr =
    Gives-bind_both n Expr.equal l r (λ x y p q. (p, q)) hl hr
parse_binary_expr-InScope n l BinaryOperator.gt r hl hr =
    Gives-bind_both n Expr.greater_than l r (λ x y p q. (p, q)) hl hr
parse_binary_expr-InScope n l BinaryOperator.lt r hl hr =
    Gives-bind_both n Expr.less_than l r (λ x y p q. (p, q)) hl hr
parse_binary_expr-InScope n l BinaryOperator.minus r hl hr =
    Gives-bind_both n Expr.subtract l r (λ x y p q. (p, q)) hl hr
parse_binary_expr-InScope n l BinaryOperator.multiply r hl hr =
    Gives-bind_both n Expr.multiply l r (λ x y p q. (p, q)) hl hr
parse_binary_expr-InScope n l BinaryOperator.or r hl hr =
    Gives-bind_both n Expr.or l r (λ x y p q. (p, q)) hl hr
parse_binary_expr-InScope n l BinaryOperator.plus r hl hr =
    Gives-bind_both n Expr.add l r (λ x y p q. (p, q)) hl hr
parse_binary_expr-InScope n l BinaryOperator.gt_eq r hl hr =
    Gives-bind_both n Expr.or (bind_both Expr.greater_than l r) (bind_both Expr.equal l r)
      (λ x y p q. (p, q)) (Gives-bind_both n Expr.greater_than l r (λ x y p q. (p, q)) hl hr)
      (Gives-bind_both n Expr.equal l r (λ x y p q. (p, q)) hl hr)
parse_binary_expr-InScope n l BinaryOperator.lt_eq r hl hr =
    Gives-bind_both n Expr.or (bind_both Expr.less_than l r) (bind_both Expr.equal l r)
      (λ x y p q. (p, q)) (Gives-bind_both n Expr.less_than l r (λ x y p q. (p, q)) hl hr)
      (Gives-bind_both n Expr.equal l r (λ x y p q. (p, q)) hl hr)
parse_binary_expr-InScope n l BinaryOperator.not_eq r hl hr =
    Gives-bind (InScope n) (bind_both Expr.equal l r) _
      (Gives-bind_both n Expr.equal l r (λ x y p q. (p, q)) hl hr) (λ e h. h)
parse_binary_expr-InScope n l BinaryOperator.other r hl hr = tt

parse_unary_expr-InScope :
    (n : ℕ) (op : UnaryOperator) (r : Result Expr)
    → Gives (InScope n) r
    → Gives (InScope n) (parse_unary_expr op r)
parse_unary_expr-InScope n UnaryOperator.bang_not r h = Gives-bind (InScope n) r _ h (λ e k. k)
parse_unary_expr-InScope n UnaryOperator.not r h = Gives-bind (InScope n) r _ h (λ e k. k)
parse_unary_expr-InScope n UnaryOperator.minus r h = Gives-bind (InScope n) r _ h (λ e k. (tt, k))
parse_unary_expr-InScope n UnaryOperator.plus r h = h
parse_unary_expr-InScope n UnaryOperator.other r h = tt

-- Names are resolved to positions in the table.
abbrev AllBelow : ℕ → List ℕ → Type 0
AllBelow n [] = Unit {0}
AllBelow n (i ∷ is) = (i < n) × AllBelow n is

positions-AllBelow :
    (n i : ℕ) (column : List ℕ) (cols : List ColumnDefinition)
    → i + length cols ≡ n
    → AllBelow n (positions column i cols)
positions-AllBelow n i column [] e = tt
positions-AllBelow n i column (col ∷ cols) e = elim (Bool-cases (bytes_eq col.name column)) [
  | inl h ↦ rw h (omega arith, positions-AllBelow n (suc i) column cols (omega arith))
  | inr h ↦ rw h (positions-AllBelow n (suc i) column cols (omega arith))
]

the_only-InScope : (n : ℕ) (is : List ℕ) → AllBelow n is → Gives (InScope n) (the_only is)
the_only-InScope n [] h = tt
the_only-InScope n (i ∷ []) h = h.0
the_only-InScope n (i ∷ j ∷ is) h = tt

abbrev pub width : Table → ℕ
width table = length table.schema.attributes

columns-AllBelow :
    (column : List ℕ) (table : Table) → AllBelow (width table) (all_positions column (table ∷ []))
columns-AllBelow column table =
    subst (AllBelow (width table)) (sym (append-nil (positions column 0 table.schema.attributes)))
      (positions-AllBelow (width table) 0 column table.schema.attributes (omega arith))

all_positions-AllBelow :
    (name : Option (List ℕ)) (column : List ℕ) (table : Table)
    → AllBelow (width table) (all_positions column (meant name (table ∷ [])))
all_positions-AllBelow none column table = columns-AllBelow column table
all_positions-AllBelow (some name) column table = elim (Bool-cases (bytes_eq name table.name)) [
  | inl h ↦ rw h (columns-AllBelow column table)
  | inr h ↦ rw h tt
]

resolve_column-InScope :
    (name : Option (List ℕ)) (column : List ℕ) (table : Table)
    → Gives (InScope (width table)) (resolve_column name column (table ∷ []))
resolve_column-InScope name column table = rw (resolve_column-positions name column (table ∷ [])) (
    the_only-InScope (width table) (all_positions column (meant name (table ∷ [])))
      (all_positions-AllBelow name column table))

resolve_compound_column-InScope :
    (idents : List (List ℕ)) (table : Table)
    → Gives (InScope (width table)) (resolve_compound_column idents (table ∷ []))
unfolding resolve_compound_column
resolve_compound_column-InScope [] table = tt
resolve_compound_column-InScope (column ∷ []) table = resolve_column-InScope none column table
resolve_compound_column-InScope (name ∷ column ∷ []) table =
    resolve_column-InScope (some name) column table
resolve_compound_column-InScope (a ∷ b ∷ c ∷ idents) table = tt

module _ (parse_i32 : List ℕ → Option ℤ) (parse_f32 : List ℕ → Option ℕ) (table : Table) where
  parse_value-InScope :
      (v : AstValue) → Gives (InScope (width table)) (parse_value parse_i32 parse_f32 v)
  parse_value-InScope v =
      Gives-bind {P = λ c. Unit {0}} (InScope (width table)) (parse_literal parse_i32 parse_f32 v) _
        (anything (parse_literal parse_i32 parse_f32 v)) (λ c h. tt)
    where
      anything : (r : Result Value) → Gives (λ c. Unit {0}) r
      anything (ok c) = tt
      anything (err e) = tt
      anything panic = tt

  pub parse_expr-InScope :
      (e : AstExpr) → Gives (InScope (width table)) (parse_expr parse_i32 parse_f32 e (table ∷ []))
  unfolding parse_expr
  parse_expr-InScope (AstExpr.binary_op left op right) =
      parse_binary_expr-InScope (width table) (parse_expr parse_i32 parse_f32 left (table ∷ [])) op
        (parse_expr parse_i32 parse_f32 right (table ∷ [])) (parse_expr-InScope left)
        (parse_expr-InScope right)
  parse_expr-InScope (AstExpr.compound_identifier idents) =
      resolve_compound_column-InScope idents table
  parse_expr-InScope (AstExpr.identifier ident) = resolve_column-InScope none ident table
  parse_expr-InScope (AstExpr.is_not_null e) =
      Gives-bind (InScope (width table)) (parse_expr parse_i32 parse_f32 e (table ∷ [])) _
        (parse_expr-InScope e) (λ b h. h)
  parse_expr-InScope (AstExpr.is_null e) =
      Gives-bind (InScope (width table)) (parse_expr parse_i32 parse_f32 e (table ∷ [])) _
        (parse_expr-InScope e) (λ b h. h)
  parse_expr-InScope (AstExpr.nested e) = parse_expr-InScope e
  parse_expr-InScope (AstExpr.unary_op op e) =
      parse_unary_expr-InScope (width table) op (parse_expr parse_i32 parse_f32 e (table ∷ []))
        (parse_expr-InScope e)
  parse_expr-InScope (AstExpr.value v) = parse_value-InScope v
  parse_expr-InScope AstExpr.other = tt
