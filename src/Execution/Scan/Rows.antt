-- ===== src/Execution/Scan/Rows.antt =====
-- The rows that a scan of src/execution/seq_scan.rs finds on a heap page, against the page's records.
use native.Mathlib.Nat.{add-zero, zero-add, suc-add}
use db_rs.Base.{
  ℕ, suc, ◌+◌, ◌≡◌, refl, sym, ap, ◌∙◌, arith, Bool, true, false, Option, none, some, List, [], ◌∷◌,
  ◌++◌, length, get_elem?, Result, ok, err, panic, ◌>>=◌,
}
use db_rs.Value.{Value, FloatOps}
use db_rs.Page.{PageBytes, get_slot}
use db_rs.Page.Layout.{Holds}
use db_rs.Page.Insert.{get_slot-Holds}
use db_rs.Execution.Scan.{SeqScan, test, output, scan_slots, give_row}

get_elem?-skip {ℓ} :
    {A : Type ℓ} (xs ys : List A) (j : ℕ) → get_elem? (xs ++ ys) (length xs + j) ≡ get_elem? ys j
get_elem?-skip [] ys j = ap (get_elem? ys) (zero-add j)
get_elem?-skip (x ∷ xs) ys j =
    ap (get_elem? (x ∷ (xs ++ ys))) (suc-add (length xs) j) ∙ get_elem?-skip xs ys j

-- The one or the other.
abbrev pub choose {ℓ} : {A : Type ℓ} → Bool → A → Result (Option A) → Result (Option A)
choose true a rest = ok (some a)
choose false a rest = rest

-- The first of the records that the filter accepts, with its slot; the records stand from `slot`
-- on. A test that fails ends the search.
abbrev pub first_accepted :
    (List ℕ → Result Bool) → ℕ → List (List ℕ) → Result (Option (List ℕ × ℕ))
first_accepted accepted slot [] = ok none
first_accepted accepted slot (bytes ∷ rs) =
    let rest = first_accepted accepted (suc slot) rs in
    accepted bytes >>= λ yes. choose yes (bytes, slot) rest

module _ (f32 : FloatOps) (utf8 : List ℕ → Bool) where
  abbrev pub show_row : SeqScan → Option (List ℕ × ℕ) → Result (Option (List Value × ℕ))
  show_row scan none = ok none
  show_row scan (some (bytes, slot)) = do
    row ← output f32 utf8 scan.cols scan.table.schema bytes
    ok (some (row, suc slot))

  give_row-choose :
      (scan : SeqScan) (slot : ℕ) (bytes : List ℕ) (accepted : Result Bool)
      (rest : Result (Option (List Value × ℕ))) (later : Result (Option (List ℕ × ℕ)))
      → rest ≡ (later >>= show_row scan)
      → (accepted >>= λ yes. give_row f32 utf8 scan slot bytes yes rest)
        ≡ ((accepted >>= λ yes. choose yes (bytes, slot) later) >>= show_row scan)
  give_row-choose scan slot bytes (ok true) rest later e = refl
  give_row-choose scan slot bytes (ok false) rest later e = e
  give_row-choose scan slot bytes (err x) rest later e = refl
  give_row-choose scan slot bytes panic rest later e = refl

  scan_slots-from :
      (scan : SeqScan) (slot : ℕ) (rest : List (List ℕ)) (page : PageBytes)
      → ((j : ℕ) → get_slot (slot + j) page ≡ ok (get_elem? rest j))
      → scan_slots f32 utf8 scan (length rest) slot page
        ≡ (first_accepted (test f32 utf8 scan.filter scan.table.schema) slot rest >>= show_row scan)
  unfolding scan_slots
  scan_slots-from scan slot [] page h = refl
  scan_slots-from scan slot (r ∷ rest) page h =
      let accepted = test f32 utf8 scan.filter scan.table.schema in
      let here : get_slot slot page ≡ ok (some r) =
        ap (λ i. get_slot i page) (sym (add-zero slot)) ∙ h 0 in
      let next =
        scan_slots-from scan (suc slot) rest page
          (λ j. ap (λ i. get_slot i page) (shift slot j) ∙ h (suc j)) in
      rw here (
        give_row-choose scan slot r (accepted r)
          (scan_slots f32 utf8 scan (length rest) (suc slot) page)
          (first_accepted accepted (suc slot) rest) next)
    where
      shift : (i j : ℕ) → suc i + j ≡ i + suc j
      shift i j = omega arith

  -- The search for the next row on a page that holds some records, from the slot behind the first
  -- `length seen` on, gives the output of the first record from there on that the filter accepts and the
  -- slot behind it, and nothing where the filter rejects them all; the first record on which the filter
  -- or the output fails ends it with that failure.
  pub scan_slots-first_accepted :
      (scan : SeqScan) (seen rest : List (List ℕ)) {page : PageBytes}
      → Holds page (seen ++ rest)
      → scan_slots f32 utf8 scan (length rest) (length seen) page ≡ (
          first_accepted (test f32 utf8 scan.filter scan.table.schema) (length seen) rest
          >>= show_row scan)
  scan_slots-first_accepted scan seen rest {page} h =
      scan_slots-from scan (length seen) rest page
        (λ j. get_slot-Holds (length seen + j) h ∙ ap ok (get_elem?-skip seen rest j))
