-- ===== src/Expr/Logic.antt =====
-- Three-valued logic and nulls in the evaluator of src/expr.rs.
use Prim.Native.Nat.{max}
use db_rs.Base.{
  ℕ, zero, suc, ◌-◌, ◌≤◌, ◌≡◌, ◌⊎◌, inl, inr, ap, refl, arith, min, true, false, Option, List, ok,
}
use db_rs.Value.{Value, int, var_char, float, boolean, blob, null, FloatOps}
use db_rs.Expr.{
  Expr, and, equal, greater_than, less_than, not, or, add, subtract, multiply, divide, evaluate,
  and_values, or_values, not_value, equal_values, greater_values, less_values, add_values,
  subtract_values, multiply_values, divide_values,
}

-- The truth values in their order: false, unknown, true.
abbrev pub truth : ℕ → Value
truth zero = boolean false
truth (suc zero) = null
truth (suc (suc n)) = boolean true

and_values-truth : (a b : ℕ) → a ≤ 2 → b ≤ 2 → and_values (truth a) (truth b) ≡ ok (truth (min a b))
unfolding and_values
and_values-truth zero zero h k = refl
and_values-truth zero (suc zero) h k = refl
and_values-truth zero (suc (suc zero)) h k = refl
and_values-truth (suc zero) zero h k = refl
and_values-truth (suc zero) (suc zero) h k = refl
and_values-truth (suc zero) (suc (suc zero)) h k = refl
and_values-truth (suc (suc zero)) zero h k = refl
and_values-truth (suc (suc zero)) (suc zero) h k = refl
and_values-truth (suc (suc zero)) (suc (suc zero)) h k = refl
and_values-truth (suc (suc (suc a))) b h k = absurd (omega arith)
and_values-truth a (suc (suc (suc b))) h k = absurd (omega arith)

or_values-truth : (a b : ℕ) → a ≤ 2 → b ≤ 2 → or_values (truth a) (truth b) ≡ ok (truth (max a b))
unfolding or_values
or_values-truth zero zero h k = refl
or_values-truth zero (suc zero) h k = refl
or_values-truth zero (suc (suc zero)) h k = refl
or_values-truth (suc zero) zero h k = refl
or_values-truth (suc zero) (suc zero) h k = refl
or_values-truth (suc zero) (suc (suc zero)) h k = refl
or_values-truth (suc (suc zero)) zero h k = refl
or_values-truth (suc (suc zero)) (suc zero) h k = refl
or_values-truth (suc (suc zero)) (suc (suc zero)) h k = refl
or_values-truth (suc (suc (suc a))) b h k = absurd (omega arith)
or_values-truth a (suc (suc (suc b))) h k = absurd (omega arith)

not_value-truth : (a : ℕ) → a ≤ 2 → not_value (truth a) ≡ ok (truth (2 - a))
unfolding not_value
not_value-truth zero h = refl
not_value-truth (suc zero) h = refl
not_value-truth (suc (suc zero)) h = refl
not_value-truth (suc (suc (suc a))) h = absurd (omega arith)

-- What the operators give on values, one of which is null.
abbrev GiveNull : FloatOps → Value → Value → Type 0
GiveNull f32 a b =
    (equal_values f32 a b ≡ ok null)
    × (greater_values f32 a b ≡ ok null)
    × (less_values f32 a b ≡ ok null)
    × (add_values f32 a b ≡ ok null)
    × (subtract_values f32 a b ≡ ok null)
    × (multiply_values f32 a b ≡ ok null)
    × (divide_values f32 a b ≡ ok null)

GiveNull-right : (f32 : FloatOps) (a : Value) → GiveNull f32 a null
unfolding equal_values greater_values less_values add_values subtract_values multiply_values
    divide_values
GiveNull-right f32 (int i) = (refl, refl, refl, refl, refl, refl, refl)
GiveNull-right f32 (var_char s) = (refl, refl, refl, refl, refl, refl, refl)
GiveNull-right f32 (float x) = (refl, refl, refl, refl, refl, refl, refl)
GiveNull-right f32 (boolean b) = (refl, refl, refl, refl, refl, refl, refl)
GiveNull-right f32 (blob b) = (refl, refl, refl, refl, refl, refl, refl)
GiveNull-right f32 null = (refl, refl, refl, refl, refl, refl, refl)

GiveNull-null : (f32 : FloatOps) (a b : Value) → (a ≡ null) ⊎ (b ≡ null) → GiveNull f32 a b
GiveNull-null f32 a b (inl e) = rw e (
    unfold equal_values greater_values less_values add_values subtract_values multiply_values
      divide_values in
    (refl, refl, refl, refl, refl, refl, refl))
GiveNull-null f32 a b (inr e) = rw e (GiveNull-right f32 a)

module _ (f32 : FloatOps) (tuple : Option (List Value)) where
  -- On operands that evaluate to truth values AND is the smaller, OR the larger and NOT the
  -- opposite one in the order false, null, true.
  pub evaluate-truth :
      (l r : Expr) (a b : ℕ)
      → a ≤ 2
      → b ≤ 2
      → evaluate f32 tuple l ≡ ok (truth a)
      → evaluate f32 tuple r ≡ ok (truth b)
      → (evaluate f32 tuple (and l r) ≡ ok (truth (min a b)))
        × (evaluate f32 tuple (or l r) ≡ ok (truth (max a b)))
        × (evaluate f32 tuple (not l) ≡ ok (truth (2 - a)))
  unfolding evaluate
  evaluate-truth l r a b h k el er = (
    rw (el, er, and_values-truth a b h k),
    rw (el, er, or_values-truth a b h k),
    rw (el, not_value-truth a h),
  )

  -- A comparison or an arithmetic operation whose operands evaluate, one of them to null, gives
  -- null, whatever the other value is.
  pub evaluate-null :
      (l r : Expr) (a b : Value)
      → evaluate f32 tuple l ≡ ok a
      → evaluate f32 tuple r ≡ ok b
      → (a ≡ null) ⊎ (b ≡ null)
      → (evaluate f32 tuple (equal l r) ≡ ok null)
        × (evaluate f32 tuple (greater_than l r) ≡ ok null)
        × (evaluate f32 tuple (less_than l r) ≡ ok null)
        × (evaluate f32 tuple (add l r) ≡ ok null)
        × (evaluate f32 tuple (subtract l r) ≡ ok null)
        × (evaluate f32 tuple (multiply l r) ≡ ok null)
        × (evaluate f32 tuple (divide l r) ≡ ok null)
  unfolding evaluate
  evaluate-null l r a b el er h = rw (el, er) (GiveNull-null f32 a b h)

-- `>` on values is `<` with the operands exchanged, given that `>` on floats is.
greater_values-less_values :
    (f32 : FloatOps)
    → ((x y : ℕ) → f32.gt x y ≡ f32.lt y x)
    → (a b : Value) → greater_values f32 a b ≡ less_values f32 b a
unfolding greater_values less_values
greater_values-less_values f32 h (int i) (int j) = refl
greater_values-less_values f32 h (int i) (var_char t) = refl
greater_values-less_values f32 h (int i) (float y) = ap (λ t. ok (boolean t)) (h _ y)
greater_values-less_values f32 h (int i) (boolean q) = refl
greater_values-less_values f32 h (int i) (blob t) = refl
greater_values-less_values f32 h (int i) null = refl
greater_values-less_values f32 h (var_char s) (int j) = refl
greater_values-less_values f32 h (var_char s) (var_char t) = refl
greater_values-less_values f32 h (var_char s) (float y) = refl
greater_values-less_values f32 h (var_char s) (boolean q) = refl
greater_values-less_values f32 h (var_char s) (blob t) = refl
greater_values-less_values f32 h (var_char s) null = refl
greater_values-less_values f32 h (float x) (int j) = ap (λ t. ok (boolean t)) (h x _)
greater_values-less_values f32 h (float x) (var_char t) = refl
greater_values-less_values f32 h (float x) (float y) = ap (λ t. ok (boolean t)) (h x y)
greater_values-less_values f32 h (float x) (boolean q) = refl
greater_values-less_values f32 h (float x) (blob t) = refl
greater_values-less_values f32 h (float x) null = refl
greater_values-less_values f32 h (boolean p) (int j) = refl
greater_values-less_values f32 h (boolean p) (var_char t) = refl
greater_values-less_values f32 h (boolean p) (float y) = refl
greater_values-less_values f32 h (boolean p) (boolean q) = ground arith
greater_values-less_values f32 h (boolean p) (blob t) = refl
greater_values-less_values f32 h (boolean p) null = refl
greater_values-less_values f32 h (blob s) (int j) = refl
greater_values-less_values f32 h (blob s) (var_char t) = refl
greater_values-less_values f32 h (blob s) (float y) = refl
greater_values-less_values f32 h (blob s) (boolean q) = refl
greater_values-less_values f32 h (blob s) (blob t) = refl
greater_values-less_values f32 h (blob s) null = refl
greater_values-less_values f32 h null (int j) = refl
greater_values-less_values f32 h null (var_char t) = refl
greater_values-less_values f32 h null (float y) = refl
greater_values-less_values f32 h null (boolean q) = refl
greater_values-less_values f32 h null (blob t) = refl
greater_values-less_values f32 h null null = refl

-- `l > r` evaluates as `r < l`, if the operands evaluate, and `>` on floats is `<` exchanged.
pub evaluate-greater_than :
    (f32 : FloatOps)
    → ((x y : ℕ) → f32.gt x y ≡ f32.lt y x)
    → (tuple : Option (List Value)) (l r : Expr) (a b : Value) → evaluate f32 tuple l ≡ ok a
    → evaluate f32 tuple r ≡ ok b
    → evaluate f32 tuple (greater_than l r) ≡ evaluate f32 tuple (less_than r l)
unfolding evaluate
evaluate-greater_than f32 h tuple l r a b el er = rw (el, er, greater_values-less_values f32 h a b)
