-- ===== src/Page/Tests.antt =====
-- The theorems on pages at concrete pages.
use db_rs.Base.{
  ℕ, ◌≡◌, arith, List, [], ◌∷◌, some, length, replicate, length-replicate, ok, err, page_full,
}
use db_rs.Page.{PageBytes, heap, create_blank_page, page_id, page_kind, insert, get_slot}
use db_rs.Page.Layout.{Holds}
use db_rs.Page.Insert.{insert-Holds, get_slot-Holds, insert_full}
use db_rs.Page.Header.{create_blank_page_lem}

abbrev blank : PageBytes
blank = create_blank_page 1 heap

blank-Holds : Holds blank []
blank-Holds = (create_blank_page_lem 1 heap (omega arith)).0

abbrev greeting : List ℕ
greeting = 104 ∷ 105 ∷ []

-- A record of the largest size that `insert_record` lets through is 8169 bytes.
abbrev zeros : ℕ → List ℕ
zeros n = replicate n 0

length-zeros : (n : ℕ) → length (zeros n) ≡ n
length-zeros n = length-replicate {A = ℕ} n 0

insert-Holds_example :
    (p' : PageBytes) × (insert greeting blank ≡ ok (p', record { page = page_id blank; slot = 0 }))
    × Holds p' (greeting ∷ [])
    × (page_id p' ≡ page_id blank)
    × (page_kind p' ≡ page_kind blank)
insert-Holds_example = insert-Holds blank [] greeting blank-Holds (omega arith)

greeted-Holds : (p' : PageBytes) × Holds p' (greeting ∷ [])
greeted-Holds =
    let made = insert-Holds blank [] greeting blank-Holds (omega arith) in (made.0, made.2)

get_slot-Holds_example : get_slot 0 greeted-Holds.0 ≡ ok (some greeting)
get_slot-Holds_example = get_slot-Holds 0 greeted-Holds.1

-- A record that fits the bytes of an empty page, and not with its entry.
insert_full_example : insert (zeros 8170) blank ≡ err page_full
insert_full_example =
    insert_full blank [] (zeros 8170) blank-Holds (omega (arith, length-zeros 8170))
      (omega (arith, length-zeros 8170))
