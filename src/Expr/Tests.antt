-- ===== src/Expr/Tests.antt =====
-- The theorems on expressions at concrete ones.
use Prim.Native.Nat.{Ordering, max}
use db_rs.Base.{
  ℕ, ◌-◌, ◌≡◌, ◌≢◌, refl, arith, inl, min, Bool, true, false, List, [], ◌∷◌, none, some, ok, panic,
  ltb, ◌==◌, pos, negsuc, ℤ, pos_part, ◌+ℤ◌, ◌-ℤ◌, ◌*ℤ◌, ◌/ℤ◌, be_bytes, i32_bits,
}
use db_rs.Value.{DataType, Value, int, boolean, null, FloatOps}
use db_rs.Tables.Schema.{TableSchema}
use db_rs.Tables.Tuple.{serialize}
use db_rs.Tables.Tuple.Layout.{AllConform}
use db_rs.Expr.{
  Expr, and, attr_ref, constant, equal, greater_than, less_than, not, or, add, subtract, multiply,
  divide, evaluate, evaluate_ref, equal_values, and_values,
}
use db_rs.Expr.Agree.{evaluate_ref-serialize}
use db_rs.Expr.Logic.{truth, evaluate-truth, evaluate-null}
use db_rs.Expr.Arithmetic.{Exact, evaluate-Exact, evaluate-divide}

-- Bit patterns compared as numbers stand in for the floats, which these inputs do not use.
abbrev plain_floats : FloatOps
plain_floats = record {
  of_int = λ i. pos_part i;
  eq = λ a b. a == b;
  lt = λ a b. ltb a b;
  gt = λ a b. ltb b a;
  add = λ a b. a;
  sub = λ a b. a;
  mul = λ a b. a;
  div = λ a b. a;
  total_cmp = λ a b. Ordering.eq;
}

abbrev any_text : List ℕ → Bool
any_text bytes = true

abbrev pairs : TableSchema
pairs = record {
  attributes =
      record { name = 97 ∷ []; data_type = DataType.int; is_nullable = false }
      ∷ record { name = 98 ∷ []; data_type = DataType.int; is_nullable = false }
      ∷ [];
}

abbrev row : List Value
row = int (pos 1) ∷ int (pos 10) ∷ []

row_bytes : serialize row pairs ≡ 0 ∷ 0 ∷ 0 ∷ 0 ∷ 1 ∷ 0 ∷ 0 ∷ 0 ∷ 10 ∷ []
unfolding serialize be_bytes i32_bits
row_bytes = refl

row-AllConform : AllConform any_text row pairs.attributes
row-AllConform = ((refl, omega arith), ((refl, omega arith), tt))

-- a = 1 AND b = 10
abbrev filter : Expr
filter =
    and (equal (attr_ref 0) (constant (int (pos 1)))) (equal (attr_ref 1) (constant (int (pos 10))))

filter-true : evaluate plain_floats (some row) filter ≡ ok (boolean true)
unfolding evaluate equal_values and_values
filter-true = refl

evaluate_ref-serialize_example :
    evaluate_ref plain_floats any_text (some (serialize row pairs, pairs)) filter
    ≡ evaluate plain_floats (some row) filter
evaluate_ref-serialize_example =
    evaluate_ref-serialize plain_floats any_text row pairs row-AllConform (inl (refl, (refl, tt)))
      (rw row_bytes (omega arith)) filter
      (((int (pos 1), refl, refl), tt), ((int (pos 10), refl, refl), tt))

abbrev yes_expr : Expr
yes_expr = constant (boolean true)

abbrev null_expr : Expr
null_expr = constant null

abbrev int_expr : ℤ → Expr
int_expr i = constant (int i)

constant_lem : (v : Value) → evaluate plain_floats none (constant v) ≡ ok v
unfolding evaluate
constant_lem v = refl

evaluate-truth_example :
    (evaluate plain_floats none (and yes_expr null_expr) ≡ ok (truth (min 2 1)))
    × (evaluate plain_floats none (or yes_expr null_expr) ≡ ok (truth (max 2 1)))
    × (evaluate plain_floats none (not yes_expr) ≡ ok (truth (2 - 2)))
evaluate-truth_example =
    evaluate-truth plain_floats none yes_expr null_expr 2 1 (omega arith) (omega arith)
      (constant_lem (boolean true)) (constant_lem null)

evaluate-null_example :
    let l = null_expr in
    let r = int_expr (pos 3) in
    (evaluate plain_floats none (equal l r) ≡ ok null)
    × (evaluate plain_floats none (greater_than l r) ≡ ok null)
    × (evaluate plain_floats none (less_than l r) ≡ ok null)
    × (evaluate plain_floats none (add l r) ≡ ok null)
    × (evaluate plain_floats none (subtract l r) ≡ ok null)
    × (evaluate plain_floats none (multiply l r) ≡ ok null)
    × (evaluate plain_floats none (divide l r) ≡ ok null)
evaluate-null_example =
    evaluate-null plain_floats none null_expr (int_expr (pos 3)) null (int (pos 3))
      (constant_lem null) (constant_lem (int (pos 3))) (inl refl)

-- The largest i32 and one: the sum overflows.
evaluate-Exact_example :
    let l = int_expr (pos 2147483647) in
    let r = int_expr (pos 1) in
    Exact (evaluate plain_floats none (add l r)) (pos 2147483647 +ℤ pos 1)
    × Exact (evaluate plain_floats none (subtract l r)) (pos 2147483647 -ℤ pos 1)
    × Exact (evaluate plain_floats none (multiply l r)) (pos 2147483647 *ℤ pos 1)
evaluate-Exact_example =
    evaluate-Exact plain_floats none (int_expr (pos 2147483647)) (int_expr (pos 1)) (pos 2147483647)
      (pos 1) (constant_lem (int (pos 2147483647))) (constant_lem (int (pos 1)))

evaluate-divide_example :
    let l = int_expr (negsuc 6) in
    let r = int_expr (pos 0) in
    (◌≡◌ {A = ℤ} (pos 0) (pos 0) → evaluate plain_floats none (divide l r) ≡ panic)
    × (◌≢◌ {A = ℤ} (pos 0) (pos 0)
        → Exact (evaluate plain_floats none (divide l r)) (negsuc 6 /ℤ pos 0))
evaluate-divide_example =
    evaluate-divide plain_floats none (int_expr (negsuc 6)) (int_expr (pos 0)) (negsuc 6) (pos 0)
      (constant_lem (int (negsuc 6))) (constant_lem (int (pos 0)))
