-- ===== src/Execution/Cursor.antt =====
-- A scan over the pages of a table, `next_tuple` of src/execution/seq_scan.rs and `scan` of
-- src/transaction.rs.
use db_rs.Base.{
  ℕ, zero, suc, ◌+◌, ◌-◌, ◌*◌, Bool, true, false, Option, none, some, List, [], ◌∷◌, ltb,
  if◌then◌else◌, lookup, Result, ok, err, panic, unwrap, unknown,
}
use db_rs.Value.{Value, FloatOps}
use db_rs.Page.{PageBytes, heap, same_kind, num_entries}
use db_rs.Storage.{same_id}
use db_rs.BufferPool.{BufferPool, Pool, PageGuard, give, guard_kind, ◌>>=◌}
use db_rs.BufferPool.Access.{get_page}
use db_rs.BufferPool.Guard.{with_guard, view_page}
use db_rs.Expr.{Expr}
use db_rs.Tables.Table.{Table}
use db_rs.Database.{Database, Db, on_pool}
use db_rs.Execution.Scan.{SeqScan, new_scan, scan_slots}
pub mod Fuel

-- A row, and the slot behind it.
abbrev pub Found : Type 0
Found = List Value × ℕ

abbrev to_next_page : SeqScan → SeqScan
to_next_page scan = record scan { current_page = suc scan.current_page; current_slot = 0 }

-- The pages that are left, and one round more for the test that ends the loop.
abbrev pages_left : SeqScan → ℕ
pages_left scan = elim scan.num_pages [ some n ↦ suc (n - scan.current_page) | none ↦ 1 ]

module _ (f32 : FloatOps) (utf8 : List ℕ → Bool) where
  -- A page under its guard: `none` when it is no heap page.
  abbrev pub scan_heap : SeqScan → PageGuard → Bool → Pool (Option (Option Found))
  scan_heap scan guard false = give (ok none)
  scan_heap scan guard true = do
    page ← view_page heap guard
    found ←
        give
          (scan_slots f32 utf8 scan (num_entries page - scan.current_slot) scan.current_slot page)
    give (ok (some found))

  unfoldable pub scan_page : SeqScan → Pool (Option (Option Found))
  scan_page scan =
      with_guard (get_page (record { file_id = scan.table.file_id; page_num = scan.current_page }))
        (λ guard. guard_kind guard >>= λ kind. scan_heap scan guard (same_kind kind heap))

  -- What follows a page, where `next` are the rounds on the pages after it: a page that is no heap
  -- page leaves the slot.
  abbrev pub after_page :
      SeqScan
      → (SeqScan → Pool (SeqScan × Option (List Value)))
      → Option (Option Found)
      → Pool (SeqScan × Option (List Value))
  after_page scan next none = next (record scan { current_page = suc scan.current_page })
  after_page scan next (some none) = next (to_next_page scan)
  after_page scan next (some (some (row, slot))) =
      give (ok (record scan { current_slot = slot }, some row))

  abbrev pub in_range :
      SeqScan
      → (SeqScan → Pool (SeqScan × Option (List Value)))
      → Bool
      → Pool (SeqScan × Option (List Value))
  in_range scan next false = give (ok (scan, none))
  in_range scan next true = scan_page scan >>= λ found. after_page scan next found

  -- `next_tuple`; `fuel` rounds of its loop.
  unfoldable pub next_tuple : ℕ → SeqScan → Pool (SeqScan × Option (List Value))
  next_tuple zero scan = give (ok (scan, none))
  next_tuple (suc fuel) scan = do
    n ← give (unwrap scan.num_pages)
    in_range scan (next_tuple fuel) (ltb scan.current_page n)

  -- The loop of `Transaction::scan`; `fuel` rows.
  abbrev pub collect_row :
      (SeqScan → Pool (List (List Value)))
      → SeqScan × Option (List Value)
      → Pool (List (List Value))
  collect_row next (scan, none) = give (ok [])
  collect_row next (scan, some row) = next scan >>= λ rows. give (ok (row ∷ rows))

  unfoldable pub collect : ℕ → SeqScan → Pool (List (List Value))
  collect zero scan = give (ok [])
  collect (suc fuel) scan =
      next_tuple (pages_left scan) scan >>= λ found. collect_row (collect fuel) found

  -- A page has fewer than 65536 rows.
  abbrev pub scan_fuel : SeqScan → ℕ
  scan_fuel scan = suc (pages_left scan * 65536)

  -- `Transaction::scan`
  abbrev scan_table : List Expr → Option Expr → Option Table → Db (List (List Value))
  scan_table cols filter none db = (db, panic)
  scan_table cols filter (some table) db =
      let scan = new_scan table cols filter db.buffer_manager in
      on_pool (collect (scan_fuel scan) scan) db

  unfoldable pub scan_transaction : ℕ → List Expr → Option Expr → Db (List (List Value))
  scan_transaction table_id cols filter db =
      scan_table cols filter (lookup same_id table_id db.tables) db
