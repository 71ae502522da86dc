-- ===== src/Expr.antt =====
-- Expressions and their two evaluators, src/expr.rs: `evaluate` over an owned tuple and
-- `evaluate_ref` over an encoded one. The arms of the two for a binary or unary operator have the
-- same results, so both use the functions on values below; `format!` of two texts is their
-- concatenation. `Like` is `todo!()`.
mod Operators
pub mod Agree
pub mod Logic
pub mod Arithmetic
mod Tests
unfoldable pub use Operators.*
use db_rs.Base.{ℕ, Bool, Option, none, some, List, get_elem?, Result, ok, err, panic, ◌>>=◌, unwrap}
use db_rs.Value.{Value, FloatOps}
use db_rs.Tables.Schema.{TableSchema}
use db_rs.Tables.Tuple.{get_attr}

pub data Expr : Type 0 where
  and : Expr → Expr → Expr
  attr_ref : ℕ → Expr
  constant : Value → Expr
  equal : Expr → Expr → Expr
  greater_than : Expr → Expr → Expr
  is_null : Expr → Expr
  is_not_null : Expr → Expr
  less_than : Expr → Expr → Expr
  like : Expr → Expr → Expr
  not : Expr → Expr
  or : Expr → Expr → Expr
  add : Expr → Expr → Expr
  subtract : Expr → Expr → Expr
  multiply : Expr → Expr → Expr
  divide : Expr → Expr → Expr

-- Both operands are evaluated, the left one first, and the first failure is the result.
abbrev pub both : Result Value → Result Value → (Value → Value → Result Value) → Result Value
both l r op = do a ← l; b ← r; op a b

module _ (f32 : FloatOps) where
  -- `Expr::evaluate`
  unfoldable pub evaluate : Option (List Value) → Expr → Result Value
  evaluate tuple (and l r) = both (evaluate tuple l) (evaluate tuple r) and_values
  evaluate tuple (attr_ref i) = unwrap (elim tuple [ none ↦ none | some vs ↦ get_elem? vs i ])
  evaluate tuple (constant c) = ok c
  evaluate tuple (equal l r) = both (evaluate tuple l) (evaluate tuple r) (equal_values f32)
  evaluate tuple (or l r) = both (evaluate tuple l) (evaluate tuple r) or_values
  evaluate tuple (greater_than l r) =
      both (evaluate tuple l) (evaluate tuple r) (greater_values f32)
  evaluate tuple (less_than l r) = both (evaluate tuple l) (evaluate tuple r) (less_values f32)
  evaluate tuple (not e) = evaluate tuple e >>= not_value
  evaluate tuple (is_null e) = evaluate tuple e >>= is_null_of
  evaluate tuple (is_not_null e) = evaluate tuple e >>= is_not_null_of
  evaluate tuple (like l r) = panic
  evaluate tuple (add l r) = both (evaluate tuple l) (evaluate tuple r) (add_values f32)
  evaluate tuple (subtract l r) = both (evaluate tuple l) (evaluate tuple r) (subtract_values f32)
  evaluate tuple (multiply l r) = both (evaluate tuple l) (evaluate tuple r) (multiply_values f32)
  evaluate tuple (divide l r) = both (evaluate tuple l) (evaluate tuple r) (divide_values f32)

  module _ (utf8 : List ℕ → Bool) where
    -- `Expr::evaluate_ref`; a `TupleRef` is the bytes of a tuple and its schema.
    pub evaluate_ref : Option (List ℕ × TableSchema) → Expr → Result Value
    evaluate_ref tuple (and l r) = both (evaluate_ref tuple l) (evaluate_ref tuple r) and_values
    evaluate_ref tuple (attr_ref i) = elim tuple [
      | none ↦ panic
      | some (bytes, schema) ↦ get_attr utf8 i bytes schema
    ]
    evaluate_ref tuple (constant c) = ok c
    evaluate_ref tuple (equal l r) =
        both (evaluate_ref tuple l) (evaluate_ref tuple r) (equal_values f32)
    evaluate_ref tuple (or l r) = both (evaluate_ref tuple l) (evaluate_ref tuple r) or_values
    evaluate_ref tuple (greater_than l r) =
        both (evaluate_ref tuple l) (evaluate_ref tuple r) (greater_values f32)
    evaluate_ref tuple (less_than l r) =
        both (evaluate_ref tuple l) (evaluate_ref tuple r) (less_values f32)
    evaluate_ref tuple (not e) = evaluate_ref tuple e >>= not_value
    evaluate_ref tuple (is_null e) = evaluate_ref tuple e >>= is_null_of
    evaluate_ref tuple (is_not_null e) = evaluate_ref tuple e >>= is_not_null_of
    evaluate_ref tuple (like l r) = panic
    evaluate_ref tuple (add l r) =
        both (evaluate_ref tuple l) (evaluate_ref tuple r) (add_values f32)
    evaluate_ref tuple (subtract l r) =
        both (evaluate_ref tuple l) (evaluate_ref tuple r) (subtract_values f32)
    evaluate_ref tuple (multiply l r) =
        both (evaluate_ref tuple l) (evaluate_ref tuple r) (multiply_values f32)
    evaluate_ref tuple (divide l r) =
        both (evaluate_ref tuple l) (evaluate_ref tuple r) (divide_values f32)
