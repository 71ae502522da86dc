-- ===== src/BufferPool/Clock/Select.antt =====
-- `select_victim_clock` of src/buffer_pool.rs finds a frame exactly when one is unpinned: its
-- `frames * 4` turns are enough.
use db_rs.Base.{
  ℕ, zero, suc, ◌+◌, ◌-◌, ◌*◌, ◌≤◌, ◌<◌, ◌≡◌, ◌≢◌, ◌⊎◌, inl, inr, refl, ◌∙◌, Bool-cases, none, some,
  length, get_elem?, get_elem?_of_lt, lt_of_get_elem?, arith, ok, pos, eqb_ℤ, eqb_ℤ_iff,
}
use db_rs.BufferPool.{Frame, BufferPool}
use db_rs.BufferPool.Clock.{clock, select_victim_clock}
use db_rs.BufferPool.Clock.Victim.{IsVictim, Ahead, clock-Found, turn, next_hand, clock_pinned}

distance : (hand n i : ℕ) → hand < n → i < n → (d : ℕ) × (d < n) × Ahead hand n i d
distance hand n i h k = elim (split hand i) [
  | inl (d, e) ↦ (d, omega arith, inl e)
  | inr l ↦ let (d, e) = gap hand (i + n) (omega arith) in (d, omega arith, inr e)
]
  where
    gap : (a b : ℕ) → a ≤ b → (d : ℕ) × (a + d ≡ b)
    gap a b h = (b - a, omega arith)

    le_or_gt : (a b : ℕ) → (a ≤ b) ⊎ (b < a)
    le_or_gt a b = ground arith

    split : (a b : ℕ) → ((d : ℕ) × (a + d ≡ b)) ⊎ (b < a)
    split a b = elim (le_or_gt a b) [ inl h ↦ inl (gap a b h) | inr h ↦ inr h ]

-- Where some frame is unpinned and the hand is on a frame, the clock gives a frame that is unpinned
-- and has its flag clear, within its `frames * 4` turns; only flags and the hand have changed.
pub select_victim_clock-IsVictim :
    (pool : BufferPool) (i : ℕ) {frame : Frame}
    → pool.clock_hand < length pool.frames
    → get_elem? pool.frames i ≡ some frame
    → frame.pin_count ≡ pos 0
    → (pool' : BufferPool) × (v : ℕ) × (select_victim_clock pool ≡ (pool', ok (some v)))
      × IsVictim pool pool' v
unfolding select_victim_clock
select_victim_clock-IsVictim pool i h there unpinned =
    let n = length pool.frames in
    let (d, l, ahead) = distance pool.clock_hand n i h (lt_of_get_elem? pool.frames i there) in
    clock-Found (n * 4) pool n i d refl h there unpinned l ahead (inl (omega arith))

clock-none :
    (fuel : ℕ) (pool : BufferPool)
    → pool.clock_hand < length pool.frames
    → ((i : ℕ) (f : Frame) → get_elem? pool.frames i ≡ some f → f.pin_count ≢ pos 0)
    → (hand : ℕ) × (clock fuel pool ≡ (record pool { clock_hand = hand }, ok none))
unfolding clock
clock-none zero pool h pinned = (pool.clock_hand, refl)
clock-none (suc fuel) pool h pinned =
    let (g, here) = get_elem?_of_lt pool.frames pool.clock_hand h in
    let n = length pool.frames in
    let next : (turn pool).clock_hand < n = elim (next_hand pool.clock_hand n h) [
      | inl (e, k) ↦ rw e k
      | inr (e, k) ↦ rw e (omega arith)
    ] in
    elim (Bool-cases (eqb_ℤ g.pin_count (pos 0))) [
      | inl p ↦ absurd (pinned pool.clock_hand g here ((eqb_ℤ_iff g.pin_count (pos 0)).0 p))
      | inr p ↦
          let (hand, run) = clock-none fuel (turn pool) next pinned in
          (hand, clock_pinned fuel pool here p ∙ run)
    ]

-- Where every frame is pinned, the clock gives no frame, and only its hand has moved.
pub select_victim_clock-none :
    (pool : BufferPool)
    → pool.clock_hand < length pool.frames
    → ((i : ℕ) (f : Frame) → get_elem? pool.frames i ≡ some f → f.pin_count ≢ pos 0)
    → (hand : ℕ) × (select_victim_clock pool ≡ (record pool { clock_hand = hand }, ok none))
unfolding select_victim_clock
select_victim_clock-none pool h pinned = clock-none (length pool.frames * 4) pool h pinned
