-- ===== src/Expr/Arithmetic.antt =====
-- Integer arithmetic of src/expr.rs: exact results within i32, panics outside, and no value out of
-- range.
use db_rs.Base.{
  ◌≡◌, ◌≢◌, arith, true, false, Option, List, Result, ok, panic, ◌>>=◌, ℤ, pos, ◌+ℤ◌, ◌*ℤ◌, ◌/ℤ◌,
  IsI32, check_i32, div_i32, eqb_ℤ, eqb_ℤ_iff, ◌-ℤ◌,
}
use db_rs.Value.{Value, int, FloatOps}
use db_rs.Expr.{
  Expr, add, subtract, multiply, divide, evaluate, add_values, subtract_values, multiply_values,
  divide_values,
}

-- What an i32 operation with the exact result `z` evaluates to.
abbrev pub Exact : Result Value → ℤ → Type 0
Exact r z = (IsI32 z → r ≡ ok (int z)) × (¬ IsI32 z → r ≡ panic)

check_i32-Exact : (z : ℤ) → Exact (check_i32 z >>= λ k. ok (int k)) z
check_i32-Exact z = (ground arith, ground arith)

zero_test : (b : ℤ) → b ≡ pos 0 → eqb_ℤ b (pos 0) ≡ true
zero_test b e = (eqb_ℤ_iff b (pos 0)).1 e

nonzero_test : (b : ℤ) → b ≢ pos 0 → eqb_ℤ b (pos 0) ≡ false
nonzero_test b n = ground (arith, eqb_ℤ_iff b (pos 0))

module _ (f32 : FloatOps) (tuple : Option (List Value)) where
  -- On integers `+`, `-` and `*` give the exact result if it is an i32, and panic if not.
  pub evaluate-Exact :
      (l r : Expr) (a b : ℤ)
      → evaluate f32 tuple l ≡ ok (int a)
      → evaluate f32 tuple r ≡ ok (int b)
      → Exact (evaluate f32 tuple (add l r)) (a +ℤ b)
        × Exact (evaluate f32 tuple (subtract l r)) (a -ℤ b)
        × Exact (evaluate f32 tuple (multiply l r)) (a *ℤ b)
  unfolding evaluate add_values subtract_values multiply_values
  evaluate-Exact l r a b el er =
      rw (el, er) (check_i32-Exact (a +ℤ b), check_i32-Exact (a -ℤ b), check_i32-Exact (a *ℤ b))

  -- Integer division by zero panics; by any other integer it gives the quotient rounded toward
  -- zero if that is an i32, and panics if not.
  pub evaluate-divide :
      (l r : Expr) (a b : ℤ)
      → evaluate f32 tuple l ≡ ok (int a)
      → evaluate f32 tuple r ≡ ok (int b)
      → (b ≡ pos 0 → evaluate f32 tuple (divide l r) ≡ panic)
        × (b ≢ pos 0 → Exact (evaluate f32 tuple (divide l r)) (a /ℤ b))
  unfolding evaluate divide_values div_i32
  evaluate-divide l r a b el er =
      rw (el, er) (λ z. rw (zero_test b z), λ n. rw (nonzero_test b n) (check_i32-Exact (a /ℤ b)))
