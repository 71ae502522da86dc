-- ===== src/Execution/Insert/Ends.antt =====
-- The rounds of the loop of `insert_record`, src/execution/insert.rs.
use db_rs.Base.{
  ℕ, suc, ◌≡◌, ◌≢◌, ◌∙◌, ◌≤◌, ◌-◌, subst, refl, sym, ap, inl, inr, arith, Bool-cases, ltb, none,
  some, List, length, Result, ok, err, page_full, input_error, record_too_large,
}
use db_rs.Page.{PageBytes, heap, page_size, header_size, entry_size}
use db_rs.BufferPool.{BufferPool}
use db_rs.BufferPool.Access.{create_page}
use db_rs.BufferPool.Sound.{IsSound}
use db_rs.BufferPool.Sound.Created.{create_page-Created}
use db_rs.Tables.Table.{Table}
use db_rs.Execution.Insert.{
  RecordId, State, get_or_create, try_insert_into_page, handle_full_page, round_ends, after_full,
  insert_loop, insert_record, insert_fuel,
}
use db_rs.Execution.Insert.Full.{
  AnyBytes, EmptyHeap, AtEmpty, get_or_create-Ready, placed_full, placed_empty, round_cases,
  empty_page_next,
}

-- A round that does not find its page full is the last.
loop_ends :
    (n : ℕ) (d : List ℕ) (state : State) (x : Result RecordId)
    → round_ends (try_insert_into_page d state).1 ≡ some x
    → insert_loop (suc n) d state ≡ ((try_insert_into_page d state).0, some x)
unfolding insert_loop
loop_ends n d state x e = rw (insert_loop, e) refl

loop_stops :
    (n : ℕ) (d : List ℕ) (state : State) (x : Result RecordId)
    → round_ends (try_insert_into_page d state).1 ≡ none
    → after_full (handle_full_page (try_insert_into_page d state).0).1 ≡ some x
    → insert_loop (suc n) d state ≡ ((handle_full_page (try_insert_into_page d state).0).0, some x)
unfolding insert_loop
loop_stops n d state x e f = rw (insert_loop, e, f) refl

loop_goes_on :
    (n : ℕ) (d : List ℕ) (state : State)
    → round_ends (try_insert_into_page d state).1 ≡ none
    → after_full (handle_full_page (try_insert_into_page d state).0).1 ≡ none
    → insert_loop (suc n) d state
      ≡ insert_loop n d (handle_full_page (try_insert_into_page d state).0).0
unfolding insert_loop
loop_goes_on n d state e f = rw (insert_loop, e, f) refl

attempt_full :
    (d : List ℕ) (table : Table) (pool : BufferPool)
    → IsSound pool
    → (try_insert_into_page d (table, pool)).1 ≡ err page_full
    → IsSound (try_insert_into_page d (table, pool)).0.1
unfolding try_insert_into_page
attempt_full d table pool s e =
    placed_full d table (get_or_create table.file_id table.current_heap_page pool)
      (get_or_create-Ready AnyBytes table.file_id table.current_heap_page pool s (λ b h. tt)
        (λ b h. tt))
      e

ok-injective : {a b : PageBytes} → Path (Result PageBytes) (ok a) (ok b) → a ≡ b
ok-injective e = cc

attempt_empty :
    (d : List ℕ) (table : Table) (pool : BufferPool)
    → length d ≤ page_size - header_size - entry_size
    → AtEmpty (table, pool)
    → (try_insert_into_page d (table, pool)).1 ≢ err page_full
unfolding try_insert_into_page
attempt_empty d table pool small h =
    placed_empty d table (get_or_create table.file_id table.current_heap_page pool) small (
      get_or_create-Ready EmptyHeap table.file_id table.current_heap_page pool h.sound (λ b e. e)
        (λ b e. subst EmptyHeap (ok-injective (sym h.shows ∙ e)) h.empty))

LoopEnds : ℕ → List ℕ → State → Type 0
LoopEnds n d state =
    (next : State) × (r : Result RecordId) × (insert_loop n d state ≡ (next, some r))

-- On an empty page one round is enough.
empty_ends :
    (d : List ℕ) (state : State)
    → length d ≤ page_size - header_size - entry_size
    → AtEmpty state
    → LoopEnds 1 d state
unfolding LoopEnds
empty_ends d (table, pool) small h = elim (round_cases (try_insert_into_page d (table, pool)).1) [
  | inl (x, e) ↦ (_, x, loop_ends 0 d (table, pool) x e)
  | inr full ↦ absurd (attempt_empty d table pool small h full)
]

full_ends :
    (d : List ℕ) (state : State)
    → length d ≤ page_size - header_size - entry_size
    → (try_insert_into_page d state).1 ≡ err page_full
    → IsSound (try_insert_into_page d state).0.1
    → LoopEnds 2 d state
unfolding LoopEnds
full_ends d state small full s =
    let tried = (try_insert_into_page d state).0 in
    let e = ap round_ends full in
    elim (empty_page_next tried.0 tried.1 (create_page tried.0.file_id heap tried.1) refl
      (create_page-Created tried.0.file_id heap tried.1 s)) [
        | inl (x, f) ↦ (_, x, loop_stops 1 d state x e f)
        | inr (f, at) ↦
            let (next, r, done) = empty_ends d (handle_full_page tried).0 small at in
            (next, r, loop_goes_on 1 d state e f ∙ done)
      ]

small_ends :
    (d : List ℕ) (table : Table) (pool : BufferPool)
    → IsSound pool
    → length d ≤ page_size - header_size - entry_size
    → LoopEnds 2 d (table, pool)
unfolding LoopEnds
small_ends d table pool s small = elim (round_cases (try_insert_into_page d (table, pool)).1) [
  | inl (x, e) ↦ (_, x, loop_ends 1 d (table, pool) x e)
  | inr full ↦ full_ends d (table, pool) small full (attempt_full d table pool s full)
]

-- On a sound pool `insert_record` comes to a result, an error among them, within its two rounds.
pub insert_record_ends :
    (d : List ℕ) (table : Table) (pool : BufferPool)
    → IsSound pool
    → (state : State) × (r : Result RecordId) × (insert_record insert_fuel d (table, pool)
        ≡ (state, some r))
unfolding insert_record LoopEnds
insert_record_ends d table pool s =
    elim (Bool-cases (ltb (page_size - header_size - entry_size) (length d))) [
      | inl large ↦ rw large ((table, pool), err (input_error record_too_large), refl)
      | inr small ↦ rw small (small_ends d table pool s (ground arith))
    ]
