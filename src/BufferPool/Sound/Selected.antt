-- ===== src/BufferPool/Sound/Selected.antt =====
-- `select_victim` of src/buffer_pool.rs on a sound pool: every page is shown as before.
use db_rs.Base.{
  Error, ℕ, zero, suc, ◌≡◌, ◌*◌, ◌⊎◌, length, refl, inl, inr, Bool-cases, Option-cases, none, some,
  List, [], ◌∷◌, set, get_elem?, ok, panic, pos, eqb_ℤ,
}
use db_rs.BufferPool.{BufferPool}
use db_rs.BufferPool.Clock.{clock, select_victim_clock, select_victim}
use db_rs.BufferPool.Clock.Victim.{turn, unflag, clock_pinned, clock_flagged, clock_victim}
use db_rs.BufferPool.Sound.{IsSound}
use db_rs.BufferPool.Sound.Changes.{Keeps, Keeps-self, Keeps-join, Keeps-touch}
use db_rs.BufferPool.Sound.Outcome.{Outcome, Outcome-weaken}

-- The hand and the free frames do not matter.
pub Keeps-pointers :
    (pool : BufferPool) (hand : ℕ) (free : List ℕ)
    → IsSound pool
    → Keeps pool (record pool { clock_hand = hand; free_frames = free })
Keeps-pointers pool hand free s = record {
  sound = record { managed = s.managed; frames = s.frames; mapped = s.mapped };
  same = λ id. refl;
  known = λ id k. k;
}

clock_nowhere :
    (fuel : ℕ) (pool : BufferPool)
    → get_elem? pool.frames pool.clock_hand ≡ none
    → clock (suc fuel) pool ≡ (turn pool, panic)
unfolding clock
clock_nowhere fuel pool h = rw h refl

abbrev pub Kept {ℓ} : {A : Type ℓ} → BufferPool → A → BufferPool → Type 0
Kept pool a pool' = Keeps pool pool'

-- What follows a turn that keeps the pool.
clock_after :
    (fuel : ℕ) (pool next : BufferPool) (E : Error → BufferPool → Type 0)
    → ((start : BufferPool) → IsSound start → Outcome (Kept start) E (clock fuel start))
    → Keeps pool next
    → Outcome (Kept pool) E (clock fuel next)
clock_after fuel pool next E h k =
    Outcome-weaken (Kept next) (Kept pool) E E (clock fuel next) (h next k.sound)
      (λ r pool' kept. Keeps-join pool next pool' k kept) (λ x pool' e. e)

clock-Keeps :
    (fuel : ℕ) (pool : BufferPool) (E : Error → BufferPool → Type 0)
    → IsSound pool
    → Outcome (Kept pool) E (clock fuel pool)
clock-Keeps zero pool E s = unfold clock in Keeps-self pool s
clock-Keeps (suc fuel) pool E s =
    let hand = pool.clock_hand in
    let turned = Keeps-pointers pool (turn pool).clock_hand pool.free_frames s in
    let after : (next : BufferPool) → Keeps pool next → Outcome (Kept pool) E (clock fuel next) =
      λ next k. clock_after fuel pool next E (λ start h. clock-Keeps fuel start E h) k in
    elim (Option-cases (get_elem? pool.frames hand)) [
      | inl h ↦ rw (clock_nowhere fuel pool h) tt
      | inr (frame, there) ↦ elim (Bool-cases (eqb_ℤ frame.pin_count (pos 0))) [
        | inr p ↦ rw (clock_pinned fuel pool there p) (after (turn pool) turned)
        | inl p ↦ elim (Bool-cases frame.clock_flag) [
          | inr f ↦ rw (clock_victim fuel pool there p f) turned
          | inl f ↦
              let next = record (turn pool) { frames = set pool.frames hand (unflag frame) } in
              rw (clock_flagged fuel pool there p f) (
                after next (
                  Keeps-join pool (turn pool) next turned (
                    Keeps-touch (turn pool) turned.sound hand frame there (unflag frame)
                      pool.page_table refl refl refl (λ id. refl))))
        ]
      ]
    ]

pub select_victim_free :
    (pool : BufferPool) {i : ℕ} {rest : List ℕ}
    → pool.free_frames ≡ i ∷ rest
    → select_victim pool ≡ (record pool { free_frames = rest }, ok (some i))
unfolding select_victim
select_victim_free pool e = rw e refl

pub select_victim_full :
    (pool : BufferPool) → pool.free_frames ≡ [] → select_victim pool ≡ select_victim_clock pool
unfolding select_victim
select_victim_full pool e = rw e refl

pub select_victim-Keeps :
    (pool : BufferPool) (E : Error → BufferPool → Type 0)
    → IsSound pool
    → Outcome (Kept pool) E (select_victim pool)
select_victim-Keeps pool E s = elim (free_cases pool.free_frames) [
  | inl e ↦
      rw (select_victim_full pool e)
        (unfold select_victim_clock in clock-Keeps (length pool.frames * 4) pool E s)
  | inr (i, rest, e) ↦ rw (select_victim_free pool e) (Keeps-pointers pool pool.clock_hand rest s)
]
  where
    free_cases : (free : List ℕ) → (free ≡ []) ⊎ ((i : ℕ) × (rest : List ℕ) × (free ≡ i ∷ rest))
    free_cases [] = inl refl
    free_cases (i ∷ rest) = inr (i, rest, refl)
