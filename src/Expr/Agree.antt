-- ===== src/Expr/Agree.antt =====
-- The two evaluators of src/expr.rs agree on a tuple and its encoding.
use db_rs.Base.{ℕ, ◌<◌, ◌≡◌, refl, Bool, false, some, List, length, get_elem?}
use db_rs.Value.{Value, FloatOps}
use db_rs.Tables.Schema.{TableSchema}
use db_rs.Tables.Tuple.{is_null_value, serialize}
use db_rs.Tables.Tuple.Layout.{AllConform, IsAligned}
use db_rs.Tables.Tuple.RoundTrip.{get_attr-serialize}
use db_rs.Expr.{
  Expr, and, attr_ref, constant, equal, greater_than, is_null, is_not_null, less_than, like, not,
  or, add, subtract, multiply, divide, evaluate, evaluate_ref,
}

-- Each attribute that an expression refers to is in the tuple, and is no null.
abbrev pub Refers : List Value → Expr → Type 0
Refers vs (attr_ref i) = (v : Value) × (get_elem? vs i ≡ some v) × (is_null_value v ≡ false)
Refers vs (constant c) = Unit {0}
Refers vs (and l r) = Refers vs l × Refers vs r
Refers vs (equal l r) = Refers vs l × Refers vs r
Refers vs (greater_than l r) = Refers vs l × Refers vs r
Refers vs (is_null e) = Refers vs e
Refers vs (is_not_null e) = Refers vs e
Refers vs (less_than l r) = Refers vs l × Refers vs r
Refers vs (like l r) = Refers vs l × Refers vs r
Refers vs (not e) = Refers vs e
Refers vs (or l r) = Refers vs l × Refers vs r
Refers vs (add l r) = Refers vs l × Refers vs r
Refers vs (subtract l r) = Refers vs l × Refers vs r
Refers vs (multiply l r) = Refers vs l × Refers vs r
Refers vs (divide l r) = Refers vs l × Refers vs r

module _ (f32 : FloatOps) (utf8 : List ℕ → Bool) (vs : List Value) (schema : TableSchema)
    (conform : AllConform utf8 vs schema.attributes) (aligned : IsAligned vs)
    (short : length (serialize vs schema) < 65536) where
  -- On the encoding of a tuple `evaluate_ref` computes what `evaluate` computes on the tuple,
  -- errors and panics included. The tuple conforms to the schema, is shorter than 65536 bytes and has
  -- no null or no text and blob bytes, and the attributes that the expression refers to are in it and
  -- no nulls.
  pub evaluate_ref-serialize :
      (e : Expr)
      → Refers vs e
      → evaluate_ref f32 utf8 (some (serialize vs schema, schema)) e ≡ evaluate f32 (some vs) e
  unfolding evaluate evaluate_ref
  evaluate_ref-serialize (attr_ref i) (v, found, there) =
      rw (found, get_attr-serialize utf8 vs schema conform aligned short i v found there)
  evaluate_ref-serialize (constant c) h = refl
  evaluate_ref-serialize (and l r) h =
      rw (evaluate_ref-serialize l h.0, evaluate_ref-serialize r h.1)
  evaluate_ref-serialize (equal l r) h =
      rw (evaluate_ref-serialize l h.0, evaluate_ref-serialize r h.1)
  evaluate_ref-serialize (greater_than l r) h =
      rw (evaluate_ref-serialize l h.0, evaluate_ref-serialize r h.1)
  evaluate_ref-serialize (is_null e) h = rw (evaluate_ref-serialize e h)
  evaluate_ref-serialize (is_not_null e) h = rw (evaluate_ref-serialize e h)
  evaluate_ref-serialize (less_than l r) h =
      rw (evaluate_ref-serialize l h.0, evaluate_ref-serialize r h.1)
  evaluate_ref-serialize (like l r) h = refl
  evaluate_ref-serialize (not e) h = rw (evaluate_ref-serialize e h)
  evaluate_ref-serialize (or l r) h =
      rw (evaluate_ref-serialize l h.0, evaluate_ref-serialize r h.1)
  evaluate_ref-serialize (add l r) h =
      rw (evaluate_ref-serialize l h.0, evaluate_ref-serialize r h.1)
  evaluate_ref-serialize (subtract l r) h =
      rw (evaluate_ref-serialize l h.0, evaluate_ref-serialize r h.1)
  evaluate_ref-serialize (multiply l r) h =
      rw (evaluate_ref-serialize l h.0, evaluate_ref-serialize r h.1)
  evaluate_ref-serialize (divide l r) h =
      rw (evaluate_ref-serialize l h.0, evaluate_ref-serialize r h.1)
