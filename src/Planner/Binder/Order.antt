-- ===== src/Planner/Binder/Order.antt =====
-- The operators `>=` and `<=`, which the binder of src/planner/binder.rs binds as `>` or `=` and as
-- `<` or `=`.
use Prim.Native.Nat.compare as compare_ℕ
use Prim.Native.Nat.{compare, Ordering}
use db_rs.Base.{
  ℕ, zero, suc, ◌≡◌, ◌≢◌, ◌⊎◌, refl, ap, inl, inr, not, ◌||◌, true, false, Bool, Option, List, [],
  ◌∷◌, ◌==◌, arith, ℤ, ltb_ℤ, eqb_ℤ, Result, ok, ◌>>=◌,
}
use db_rs.Value.{
  Value, int, var_char, float, boolean, blob, null, FloatOps, bytes_eq, bytes_lt, bytes_cmp, is_lt,
}
use db_rs.Tables.Table.{Table}
use db_rs.Expr.{Expr, evaluate, or_values, not_value, equal_values, less_values, greater_values}
use db_rs.Planner.Ast.{AstExpr, BinaryOperator, UnaryOperator}
use db_rs.Planner.Binder.{parse_expr}

-- The comparison of two bytes, of the same two exchanged, and their equality.
abbrev Compared : ℕ → ℕ → Ordering → Ordering → Bool → Type 0
Compared x y here there same = (compare x y ≡ here) × (compare y x ≡ there) × ((x == y) ≡ same)

zero_ne : (y : ℕ) → (zero == suc y) ≡ false
zero_ne y = ground arith

suc_ne : (x : ℕ) → (suc x == zero) ≡ false
suc_ne x = ground arith

compare-Compared :
    (x y : ℕ)
    → Compared x y Ordering.lt Ordering.gt false
      ⊎ Compared x y Ordering.eq Ordering.eq true
      ⊎ Compared x y Ordering.gt Ordering.lt false
compare-Compared zero zero = inr (inl (refl, refl, refl))
compare-Compared zero (suc y) = inl (compare_ℕ.zero-suc y, compare_ℕ.suc-zero y, zero_ne y)
compare-Compared (suc x) zero = inr (inr (compare_ℕ.suc-zero x, compare_ℕ.zero-suc x, suc_ne x))
compare-Compared (suc x) (suc y) =
    let same : (suc x == suc y) ≡ (x == y) = ground arith in
    rw (compare_ℕ.suc-suc x y, compare_ℕ.suc-suc y x, same) (compare-Compared x y)

at_least_bytes :
    (a b : List ℕ) → (is_lt (bytes_cmp b a) || bytes_eq a b) ≡ not (is_lt (bytes_cmp a b))
unfolding bytes_cmp
at_least_bytes [] [] = refl
at_least_bytes [] (y ∷ b) = refl
at_least_bytes (x ∷ a) [] = refl
at_least_bytes (x ∷ a) (y ∷ b) = elim (compare-Compared x y) [
  | inl (h, k, e) ↦ rw (e, h, k) refl
  | inr (inl (h, k, e)) ↦ rw (e, h, k) (at_least_bytes a b)
  | inr (inr (h, k, e)) ↦ rw (e, h, k) refl
]

at_least_ℤ : (i j : ℤ) → (ltb_ℤ j i || eqb_ℤ i j) ≡ not (ltb_ℤ i j)
at_least_ℤ i j = ground arith

at_most_ℤ : (i j : ℤ) → (ltb_ℤ i j || eqb_ℤ i j) ≡ not (ltb_ℤ j i)
at_most_ℤ i j = ground arith

at_most_bytes :
    (a b : List ℕ) → (is_lt (bytes_cmp a b) || bytes_eq a b) ≡ not (is_lt (bytes_cmp b a))
unfolding bytes_cmp
at_most_bytes [] [] = refl
at_most_bytes [] (y ∷ b) = refl
at_most_bytes (x ∷ a) [] = refl
at_most_bytes (x ∷ a) (y ∷ b) = elim (compare-Compared x y) [
  | inl (h, k, e) ↦ rw (e, h, k) refl
  | inr (inl (h, k, e)) ↦ rw (e, h, k) (at_most_bytes a b)
  | inr (inr (h, k, e)) ↦ rw (e, h, k) refl
]

-- No float, whose order need not be total.
abbrev pub NotFloat : Value → Type 0
NotFloat a = (x : ℕ) → a ≢ float x

-- A comparison with the equality, and the other comparison negated.
abbrev or_equal : FloatOps → (Value → Value → Result Value) → Value → Value → Result Value
or_equal f32 compares a b = do c ← compares a b; e ← equal_values f32 a b; or_values c e

greater_values-or_equal :
    (f32 : FloatOps) (a b : Value)
    → NotFloat a
    → NotFloat b
    → or_equal f32 (greater_values f32) a b ≡ (less_values f32 a b >>= not_value)
unfolding greater_values less_values equal_values or_values not_value bytes_lt
greater_values-or_equal f32 (float x) b h k = absurd (h x refl)
greater_values-or_equal f32 a (float y) h k = absurd (k y refl)
greater_values-or_equal f32 (int i) (int j) h k = ap (λ x. ok (boolean x)) (at_least_ℤ i j)
greater_values-or_equal f32 (int i) (var_char t) h k = refl
greater_values-or_equal f32 (int i) (boolean q) h k = refl
greater_values-or_equal f32 (int i) (blob t) h k = refl
greater_values-or_equal f32 (int i) null h k = refl
greater_values-or_equal f32 (var_char s) (int j) h k = refl
greater_values-or_equal f32 (var_char s) (var_char t) h k =
    ap (λ x. ok (boolean x)) (at_least_bytes s t)
greater_values-or_equal f32 (var_char s) (boolean q) h k = refl
greater_values-or_equal f32 (var_char s) (blob t) h k = refl
greater_values-or_equal f32 (var_char s) null h k = refl
greater_values-or_equal f32 (boolean p) (int j) h k = refl
greater_values-or_equal f32 (boolean p) (var_char t) h k = refl
greater_values-or_equal f32 (boolean p) (boolean q) h k = ground arith
greater_values-or_equal f32 (boolean p) (blob t) h k = refl
greater_values-or_equal f32 (boolean p) null h k = refl
greater_values-or_equal f32 (blob s) (int j) h k = refl
greater_values-or_equal f32 (blob s) (var_char t) h k = refl
greater_values-or_equal f32 (blob s) (boolean q) h k = refl
greater_values-or_equal f32 (blob s) (blob t) h k = ap (λ x. ok (boolean x)) (at_least_bytes s t)
greater_values-or_equal f32 (blob s) null h k = refl
greater_values-or_equal f32 null (int j) h k = refl
greater_values-or_equal f32 null (var_char t) h k = refl
greater_values-or_equal f32 null (boolean q) h k = refl
greater_values-or_equal f32 null (blob t) h k = refl
greater_values-or_equal f32 null null h k = refl

less_values-or_equal :
    (f32 : FloatOps) (a b : Value)
    → NotFloat a
    → NotFloat b
    → or_equal f32 (less_values f32) a b ≡ (greater_values f32 a b >>= not_value)
unfolding greater_values less_values equal_values or_values not_value bytes_lt
less_values-or_equal f32 (float x) b h k = absurd (h x refl)
less_values-or_equal f32 a (float y) h k = absurd (k y refl)
less_values-or_equal f32 (int i) (int j) h k = ap (λ x. ok (boolean x)) (at_most_ℤ i j)
less_values-or_equal f32 (int i) (var_char t) h k = refl
less_values-or_equal f32 (int i) (boolean q) h k = refl
less_values-or_equal f32 (int i) (blob t) h k = refl
less_values-or_equal f32 (int i) null h k = refl
less_values-or_equal f32 (var_char s) (int j) h k = refl
less_values-or_equal f32 (var_char s) (var_char t) h k =
    ap (λ x. ok (boolean x)) (at_most_bytes s t)
less_values-or_equal f32 (var_char s) (boolean q) h k = refl
less_values-or_equal f32 (var_char s) (blob t) h k = refl
less_values-or_equal f32 (var_char s) null h k = refl
less_values-or_equal f32 (boolean p) (int j) h k = refl
less_values-or_equal f32 (boolean p) (var_char t) h k = refl
less_values-or_equal f32 (boolean p) (boolean q) h k = ground arith
less_values-or_equal f32 (boolean p) (blob t) h k = refl
less_values-or_equal f32 (boolean p) null h k = refl
less_values-or_equal f32 (blob s) (int j) h k = refl
less_values-or_equal f32 (blob s) (var_char t) h k = refl
less_values-or_equal f32 (blob s) (boolean q) h k = refl
less_values-or_equal f32 (blob s) (blob t) h k = ap (λ x. ok (boolean x)) (at_most_bytes s t)
less_values-or_equal f32 (blob s) null h k = refl
less_values-or_equal f32 null (int j) h k = refl
less_values-or_equal f32 null (var_char t) h k = refl
less_values-or_equal f32 null (boolean q) h k = refl
less_values-or_equal f32 null (blob t) h k = refl
less_values-or_equal f32 null null h k = refl

-- A bound comparison evaluated on a tuple.
abbrev pub evaluate_bound :
    (List ℕ → Option ℤ)
    → (List ℕ → Option ℕ)
    → FloatOps
    → Option (List Value)
    → List Table
    → AstExpr
    → Result Value
evaluate_bound parse_i32 parse_f32 f32 tuple tables e =
    parse_expr parse_i32 parse_f32 e tables >>= evaluate f32 tuple

module _ (parse_i32 : List ℕ → Option ℤ) (parse_f32 : List ℕ → Option ℕ) (f32 : FloatOps)
    (tuple : Option (List Value)) (tables : List Table) where
  -- Where the operands of a comparison are bound and evaluate to values that are no floats,
  -- `l >= r` is bound to an expression that evaluates as that of `NOT (l < r)`, and `l <= r` as that
  -- of `NOT (l > r)`, errors included.
  pub parse_expr-at_least :
      (left right : AstExpr) (l r : Expr) (a b : Value)
      → parse_expr parse_i32 parse_f32 left tables ≡ ok l
      → parse_expr parse_i32 parse_f32 right tables ≡ ok r
      → evaluate f32 tuple l ≡ ok a
      → evaluate f32 tuple r ≡ ok b
      → NotFloat a
      → NotFloat b
      → (evaluate_bound parse_i32 parse_f32 f32 tuple tables
            (AstExpr.binary_op left BinaryOperator.gt_eq right)
          ≡ evaluate_bound parse_i32 parse_f32 f32 tuple tables (
              AstExpr.unary_op UnaryOperator.not
                (AstExpr.nested (AstExpr.binary_op left BinaryOperator.lt right))))
        × (evaluate_bound parse_i32 parse_f32 f32 tuple tables
              (AstExpr.binary_op left BinaryOperator.lt_eq right)
            ≡ evaluate_bound parse_i32 parse_f32 f32 tuple tables (
                AstExpr.unary_op UnaryOperator.not
                  (AstExpr.nested (AstExpr.binary_op left BinaryOperator.gt right))))
  unfolding parse_expr evaluate
  parse_expr-at_least left right l r a b el er va vb h k = (
    rw (el, er, va, vb) (greater_values-or_equal f32 a b h k),
    rw (el, er, va, vb) (less_values-or_equal f32 a b h k),
  )
