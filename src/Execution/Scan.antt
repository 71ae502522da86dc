-- ===== src/Execution/Scan.antt =====
-- Tables read row by row, src/execution/seq_scan.rs.
use db_rs.Base.{
  ℕ, zero, suc, ◌+◌, ◌-◌, Bool, true, false, Option, none, some, List, [], ◌∷◌, ltb, if◌then◌else◌,
  lookup, Result, ok, err, panic, ◌>>=◌, unwrap, invalid_comparison, and_then,
}
use db_rs.Value.{Value, FloatOps}
use db_rs.Page.{PageBytes, PageKind, heap, cast, same_kind, get_slot, num_entries}
use db_rs.Storage.{same_id, get_num_pages}
use db_rs.BufferPool.{BufferPool}
use db_rs.Expr.{Expr, evaluate_ref}
use db_rs.Tables.Schema.{TableSchema}
use db_rs.Tables.Tuple.{deserialize}
use db_rs.Tables.Table.{Table}
pub mod Rows

-- `SeqScanExecutor`, without its transaction.
pub record SeqScan : Type 0 where
  pub filter : Option Expr
  pub current_page : ℕ
  pub current_slot : ℕ
  pub num_pages : Option ℕ
  pub table : Table
  pub cols : List Expr

-- `SeqScanExecutor::new`
unfoldable pub new_scan : Table → List Expr → Option Expr → BufferPool → SeqScan
new_scan table cols filter pool = record {
  filter = filter;
  current_page = 1;
  current_slot = 0;
  num_pages = get_num_pages table.file_id pool.storage_manager;
  table = table;
  cols = cols;
}

module _ (f32 : FloatOps) (utf8 : List ℕ → Bool) where
  -- Whether a row is given: the value of the filter.
  abbrev pub accepts : Value → Result Bool
  accepts (Value.boolean b) = ok b
  accepts Value.null = ok false
  accepts _ = err invalid_comparison

  abbrev pub test : Option Expr → TableSchema → List ℕ → Result Bool
  test none schema bytes = ok true
  test (some predicate) schema bytes = do
    v ← evaluate_ref f32 utf8 (some (bytes, schema)) predicate
    accepts v

  -- `match_output_schema`
  abbrev pub evaluate_cols : List Expr → TableSchema → List ℕ → Result (List Value)
  evaluate_cols [] schema bytes = ok []
  evaluate_cols (col ∷ cols) schema bytes = do
    v ← evaluate_ref f32 utf8 (some (bytes, schema)) col
    vs ← evaluate_cols cols schema bytes
    ok (v ∷ vs)

  -- The row that is given; without columns, for the wildcard, the whole tuple.
  abbrev pub output : List Expr → TableSchema → List ℕ → Result (List Value)
  output [] schema bytes = deserialize utf8 bytes schema
  output (col ∷ cols) schema bytes = evaluate_cols (col ∷ cols) schema bytes

  -- The loop over the slots of a page, `left` of them from `slot` on: the next row, with the slot
  -- behind it.
  abbrev pub give_row :
      SeqScan
      → ℕ
      → List ℕ
      → Bool
      → Result (Option (List Value × ℕ))
      → Result (Option (List Value × ℕ))
  give_row scan slot bytes true rest = do
    row ← output scan.cols scan.table.schema bytes
    ok (some (row, suc slot))
  give_row scan slot bytes false rest = rest

  abbrev pub try_slot :
      SeqScan
      → ℕ
      → Option (List ℕ)
      → Result (Option (List Value × ℕ))
      → Result (Option (List Value × ℕ))
  try_slot scan slot none rest = ok none
  try_slot scan slot (some bytes) rest = do
    accepted ← test scan.filter scan.table.schema bytes
    give_row scan slot bytes accepted rest

  unfoldable pub scan_slots : SeqScan → ℕ → ℕ → PageBytes → Result (Option (List Value × ℕ))
  scan_slots scan zero slot page = ok none
  scan_slots scan (suc left) slot page =
      let rest = scan_slots scan left (suc slot) page in
      get_slot slot page >>= λ bytes. try_slot scan slot bytes rest
