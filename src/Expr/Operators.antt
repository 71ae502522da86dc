-- ===== src/Expr/Operators.antt =====
-- The match of each operator of src/expr.rs on the values of its operands.
use db_rs.Base.{
  true, false, not, ◌&&◌, ◌||◌, ◌++◌, if◌then◌else◌, Result, ok, err, ◌>>=◌, invalid_comparison,
  ◌+ℤ◌, ◌-ℤ◌, ◌*ℤ◌, ltb_ℤ, eqb_ℤ, check_i32, div_i32,
}
use db_rs.Value.{
  Value, int, var_char, float, boolean, blob, null, FloatOps, bytes_eq, bytes_lt, bool_eq,
}

-- The comparison of values of types that have none, in which `Null` gives `Null`.
abbrev pub incomparable : Value → Value → Result Value
incomparable null _ = ok null
incomparable _ null = ok null
incomparable _ _ = err invalid_comparison

unfoldable pub and_values : Value → Value → Result Value
and_values (boolean l) (boolean r) = ok (boolean (l && r))
and_values (boolean b) null = if b then ok null else ok (boolean b)
and_values null (boolean b) = if b then ok null else ok (boolean b)
and_values null null = ok null
and_values _ _ = err invalid_comparison

unfoldable pub or_values : Value → Value → Result Value
or_values (boolean l) (boolean r) = ok (boolean (l || r))
or_values (boolean b) null = if b then ok (boolean b) else ok null
or_values null (boolean b) = if b then ok (boolean b) else ok null
or_values null null = ok null
or_values _ _ = err invalid_comparison

unfoldable pub not_value : Value → Result Value
not_value (boolean b) = ok (boolean (not b))
not_value null = ok null
not_value _ = err invalid_comparison

unfoldable pub is_null_of : Value → Result Value
is_null_of null = ok (boolean true)
is_null_of _ = ok (boolean false)

unfoldable pub is_not_null_of : Value → Result Value
is_not_null_of null = ok (boolean false)
is_not_null_of _ = ok (boolean true)

module _ (f32 : FloatOps) where
  open f32 use {of_int, eq, lt, gt, add, sub, mul, div}

  unfoldable pub equal_values : Value → Value → Result Value
  equal_values (boolean l) (boolean r) = ok (boolean (bool_eq l r))
  equal_values (int l) (int r) = ok (boolean (eqb_ℤ l r))
  equal_values (float l) (float r) = ok (boolean (eq l r))
  equal_values (int l) (float r) = ok (boolean (eq (of_int l) r))
  equal_values (float l) (int r) = ok (boolean (eq l (of_int r)))
  equal_values (var_char l) (var_char r) = ok (boolean (bytes_eq l r))
  equal_values (blob l) (blob r) = ok (boolean (bytes_eq l r))
  equal_values l r = incomparable l r

  unfoldable pub greater_values : Value → Value → Result Value
  greater_values (boolean l) (boolean r) = ok (boolean (l && not r))
  greater_values (int l) (int r) = ok (boolean (ltb_ℤ r l))
  greater_values (float l) (float r) = ok (boolean (gt l r))
  greater_values (int l) (float r) = ok (boolean (gt (of_int l) r))
  greater_values (float l) (int r) = ok (boolean (gt l (of_int r)))
  greater_values (var_char l) (var_char r) = ok (boolean (bytes_lt r l))
  greater_values (blob l) (blob r) = ok (boolean (bytes_lt r l))
  greater_values l r = incomparable l r

  unfoldable pub less_values : Value → Value → Result Value
  less_values (boolean l) (boolean r) = ok (boolean (not l && r))
  less_values (int l) (int r) = ok (boolean (ltb_ℤ l r))
  less_values (float l) (float r) = ok (boolean (lt l r))
  less_values (int l) (float r) = ok (boolean (lt (of_int l) r))
  less_values (float l) (int r) = ok (boolean (lt l (of_int r)))
  less_values (var_char l) (var_char r) = ok (boolean (bytes_lt l r))
  less_values (blob l) (blob r) = ok (boolean (bytes_lt l r))
  less_values l r = incomparable l r

  unfoldable pub add_values : Value → Value → Result Value
  add_values (int l) (int r) = do sum ← check_i32 (l +ℤ r); ok (int sum)
  add_values (float l) (float r) = ok (float (add l r))
  add_values (int l) (float r) = ok (float (add (of_int l) r))
  add_values (float l) (int r) = ok (float (add l (of_int r)))
  add_values (var_char l) (var_char r) = ok (var_char (l ++ r))
  add_values l r = incomparable l r

  unfoldable pub subtract_values : Value → Value → Result Value
  subtract_values (int l) (int r) = do difference ← check_i32 (l -ℤ r); ok (int difference)
  subtract_values (float l) (float r) = ok (float (sub l r))
  subtract_values (int l) (float r) = ok (float (sub (of_int l) r))
  subtract_values (float l) (int r) = ok (float (sub l (of_int r)))
  subtract_values l r = incomparable l r

  unfoldable pub multiply_values : Value → Value → Result Value
  multiply_values (int l) (int r) = do product ← check_i32 (l *ℤ r); ok (int product)
  multiply_values (float l) (float r) = ok (float (mul l r))
  multiply_values (int l) (float r) = ok (float (mul (of_int l) r))
  multiply_values (float l) (int r) = ok (float (mul l (of_int r)))
  multiply_values l r = incomparable l r

  unfoldable pub divide_values : Value → Value → Result Value
  divide_values (int l) (int r) = do quotient ← div_i32 l r; ok (int quotient)
  divide_values (float l) (float r) = ok (float (div l r))
  divide_values (int l) (float r) = ok (float (div (of_int l) r))
  divide_values (float l) (int r) = ok (float (div l (of_int r)))
  divide_values l r = incomparable l r
