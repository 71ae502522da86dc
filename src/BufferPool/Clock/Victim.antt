-- ===== src/BufferPool/Clock/Victim.antt =====
-- The clock of src/buffer_pool.rs selects an unpinned frame whenever there is one.
use db_rs.Base.{
  ℕ, zero, suc, ◌+◌, ◌%◌, ◌≤◌, ◌<◌, ◌≡◌, ◌≢◌, ◌⊎◌, inl, inr, refl, sym, ap, ◌∙◌, Bool, true, false,
  Bool-cases, some, List, [], ◌∷◌, length, set, get_elem?, get_elem?-set_self, get_elem?-set_ne,
  get_elem?_of_lt, lt_of_get_elem?, length-set, arith, ok, pos, eqb_ℤ, subst, eqb_ℤ_iff,
}
use native.Mathlib.Nat.{mod-eq_of_lt, mod_self}
use db_rs.BufferPool.{Frame, BufferPool}
use db_rs.BufferPool.Clock.{clock}

abbrev pub unflag : Frame → Frame
unflag frame = record frame { clock_flag = false }

-- The pool without its flags and its hand.
abbrev pub unflag_all : List Frame → List Frame
unflag_all [] = []
unflag_all (frame ∷ frames) = unflag frame ∷ unflag_all frames

abbrev pub forget : BufferPool → BufferPool
forget pool = record pool { frames = unflag_all pool.frames; clock_hand = 0 }

abbrev pub turn : BufferPool → BufferPool
turn pool = record pool { clock_hand = (pool.clock_hand + 1) % length pool.frames }

-- `v` is a frame that may be evicted, and nothing but flags and the hand has changed.
pub record IsVictim (pool pool' : BufferPool) (v : ℕ) : Type 0 where
  pub frame : Frame
  pub there : get_elem? pool'.frames v ≡ some frame
  pub unpinned : frame.pin_count ≡ pos 0
  pub unflagged : frame.clock_flag ≡ false
  pub same : forget pool' ≡ forget pool

unflag_all-set :
    (frames : List Frame) (i : ℕ) {frame : Frame}
    → get_elem? frames i ≡ some frame
    → unflag_all (set frames i (unflag frame)) ≡ unflag_all frames
unflag_all-set [] i h = refl
unflag_all-set (x ∷ xs) zero {frame} h =
    let e : x ≡ frame = cc in ap (λ f. unflag f ∷ unflag_all xs) (sym e)
unflag_all-set (x ∷ xs) (suc i) h = ap (λ fs. unflag x ∷ fs) (unflag_all-set xs i h)

pub next_hand :
    (hand n : ℕ)
    → hand < n
    → (((hand + 1) % n ≡ hand + 1) × (hand + 1 < n)) ⊎ (((hand + 1) % n ≡ 0) × (hand + 1 ≡ n))
next_hand hand n h = elim (cases (hand + 1) n (omega arith)) [
  | inl k ↦ inl (mod-eq_of_lt k, k)
  | inr e ↦ inr (ap (λ m. m % n) e ∙ mod_self n, e)
]
  where
    cases : (a b : ℕ) → a ≤ b → (a < b) ⊎ (a ≡ b)
    cases a b h = ground arith

-- One turn of the loop, by what the hand points at.
pub clock_pinned :
    (fuel : ℕ) (pool : BufferPool) {frame : Frame}
    → get_elem? pool.frames pool.clock_hand ≡ some frame
    → eqb_ℤ frame.pin_count (pos 0) ≡ false
    → clock (suc fuel) pool ≡ clock fuel (turn pool)
unfolding clock
clock_pinned fuel pool h p = rw (h, p) refl

pub clock_flagged :
    (fuel : ℕ) (pool : BufferPool) {frame : Frame}
    → get_elem? pool.frames pool.clock_hand ≡ some frame
    → eqb_ℤ frame.pin_count (pos 0) ≡ true
    → frame.clock_flag ≡ true
    → clock (suc fuel) pool
      ≡ clock fuel (record (turn pool) { frames = set pool.frames pool.clock_hand (unflag frame) })
unfolding clock
clock_flagged fuel pool h p f = rw (h, p, f) refl

pub clock_victim :
    (fuel : ℕ) (pool : BufferPool) {frame : Frame}
    → get_elem? pool.frames pool.clock_hand ≡ some frame
    → eqb_ℤ frame.pin_count (pos 0) ≡ true
    → frame.clock_flag ≡ false
    → clock (suc fuel) pool ≡ (turn pool, ok (some pool.clock_hand))
unfolding clock
clock_victim fuel pool h p f = rw (h, p, f) refl

abbrev pub Found : ℕ → BufferPool → Type 0
Found fuel pool =
    (pool' : BufferPool) × (v : ℕ) × (clock fuel pool ≡ (pool', ok (some v)))
    × IsVictim pool pool' v

Found-turn :
    (fuel : ℕ) (pool next : BufferPool)
    → clock (suc fuel) pool ≡ clock fuel next
    → forget next ≡ forget pool
    → Found fuel next
    → Found (suc fuel) pool
Found-turn fuel pool next step same (pool', v, run, victim) = (
  pool',
  v,
  step ∙ run,
  record {
    frame = victim.frame;
    there = victim.there;
    unpinned = victim.unpinned;
    unflagged = victim.unflagged;
    same = victim.same ∙ same;
  },
)

-- The hand is `d` turns before frame `i`.
abbrev pub Ahead : ℕ → ℕ → ℕ → ℕ → Type 0
Ahead hand n i d = (hand + d ≡ i) ⊎ (hand + d ≡ i + n)

-- The turns left are enough to meet the unpinned frame `i` when its flag is clear.
abbrev pub Enough : ℕ → ℕ → ℕ → Bool → Type 0
Enough fuel n d flag = (d + n < fuel) ⊎ ((flag ≡ false) × (d < fuel))

Ahead-turn :
    (hand n i d : ℕ)
    → hand < n
    → i < n
    → hand ≢ i
    → d < n
    → Ahead hand n i d
    → (d' : ℕ) × (d ≡ suc d') × Ahead ((hand + 1) % n) n i d' × ((hand + 1) % n < n)
Ahead-turn hand n i zero h k ne l (inl e) = absurd (ne (omega arith))
Ahead-turn hand n i zero h k ne l (inr e) = absurd (omega arith)
Ahead-turn hand n i (suc d) h k ne l ahead = elim (next_hand hand n h) [
  | inl (e, m) ↦ (d, refl, rw e (ground arith), rw e m)
  | inr (e, m) ↦ (d, refl, rw e (ground arith), rw e (omega arith))
]

-- After the flag of frame `i` under the hand was cleared, it is met again in a round.
Ahead-round :
    (i n : ℕ) → i < n → (d : ℕ) × (suc d ≡ n) × Ahead ((i + 1) % n) n i d × ((i + 1) % n < n)
Ahead-round i zero h = absurd (omega arith)
Ahead-round i (suc d) h = elim (next_hand i (suc d) h) [
  | inl (e, m) ↦ (d, refl, rw e (ground arith), rw e m)
  | inr (e, m) ↦ (d, refl, rw e (ground arith), rw e (omega arith))
]

Enough-turn :
    (fuel n d d' : ℕ) (flag : Bool)
    → d ≡ suc d'
    → Enough (suc fuel) n d flag
    → Enough fuel n d' flag
Enough-turn fuel n d d' flag e (inl h) = inl (omega arith)
Enough-turn fuel n d d' flag e (inr (f, h)) = inr (f, omega arith)

same_frame :
    (i j : ℕ) (frames : List Frame) {f g : Frame}
    → get_elem? frames i ≡ some f
    → get_elem? frames j ≡ some g
    → i ≡ j
    → f ≡ g
same_frame i j frames h k e = let k' = ap (λ x. get_elem? frames x) e ∙ k in cc

pinned_ne :
    (i j : ℕ) (frames : List Frame) {f g : Frame}
    → get_elem? frames i ≡ some f
    → get_elem? frames j ≡ some g
    → g.pin_count ≡ pos 0
    → eqb_ℤ f.pin_count (pos 0) ≡ false
    → i ≢ j
pinned_ne i j frames {f} {g} h k unpinned p e =
    let same = same_frame i j frames h k e in
    let zero_pins = ap (λ (x : Frame). x.pin_count) same ∙ unpinned in
    let yes = (eqb_ℤ_iff f.pin_count (pos 0)).1 zero_pins in cc

-- A flagged frame under the hand is met again with its flag clear.
Enough-round :
    (fuel n d d' : ℕ) (flag : Bool)
    → flag ≡ true
    → suc d' ≡ n
    → Enough (suc fuel) n d flag
    → Enough fuel n d' false
Enough-round fuel n d d' flag f e (inl h) = inr (refl, omega arith)
Enough-round fuel n d d' flag f e (inr (g, h)) = absurd cc

pub clock-Found :
    (fuel : ℕ) (pool : BufferPool) (n i d : ℕ) {frame : Frame}
    → length pool.frames ≡ n
    → pool.clock_hand < n
    → get_elem? pool.frames i ≡ some frame
    → frame.pin_count ≡ pos 0
    → d < n
    → Ahead pool.clock_hand n i d
    → Enough fuel n d frame.clock_flag
    → Found fuel pool
clock-Found zero pool n i d size h there unpinned l ahead (inl k) = absurd (omega arith)
clock-Found zero pool n i d size h there unpinned l ahead (inr (f, k)) = absurd (omega arith)
clock-Found (suc fuel) pool n i d {frame} size h there unpinned l ahead enough =
    let hand = pool.clock_hand in
    let (g, here) = get_elem?_of_lt pool.frames hand (omega arith) in
    let inside : i < n = omega (arith, lt_of_get_elem? pool.frames i there) in
    elim (Bool-cases (eqb_ℤ g.pin_count (pos 0))) [
      | inr p ↦
          let ne : hand ≢ i = pinned_ne hand i pool.frames here there unpinned p in
          let (d', ed, ahead', h') = Ahead-turn hand n i d h inside ne l ahead in
          Found-turn fuel pool (turn pool) (clock_pinned fuel pool here p) refl (
            clock-Found fuel (turn pool) n i d' size (rw size h') there unpinned (omega arith)
              (rw size ahead') (Enough-turn fuel n d d' frame.clock_flag ed enough))
      | inl p ↦ elim (Bool-cases g.clock_flag) [
        | inr f ↦ (
          turn pool,
          hand,
          clock_victim fuel pool here p f,
          record {
            frame = g;
            there = here;
            unpinned = (eqb_ℤ_iff g.pin_count (pos 0)).0 p;
            unflagged = f;
            same = refl;
          },
        )
        | inl f ↦
            let next : BufferPool = record (turn pool) {
              frames = set pool.frames hand (unflag g);
            } in
            let size' : length next.frames ≡ n = length-set pool.frames hand (unflag g) ∙ size in
            Found-turn fuel pool next (clock_flagged fuel pool here p f)
              (ap (λ (fs : List Frame). record pool { frames = fs; clock_hand = 0 })
                (unflag_all-set pool.frames hand here))
              (elim (same_or_not hand i) [
                | inl e ↦
                    let (d', ed, ahead', h') = Ahead-round i n inside in
                    clock-Found fuel next n i d' size'
                      (rw size (subst (λ j. (j + 1) % n < n) (sym e) h'))
                      (ap (λ j. get_elem? next.frames j) (sym e)
                        ∙ get_elem?-set_self pool.frames hand (unflag g) here)
                      ((eqb_ℤ_iff g.pin_count (pos 0)).0 p) (omega arith)
                      (rw size (subst (λ j. Ahead ((j + 1) % n) n i d') (sym e) ahead'))
                      (Enough-round fuel n d d' frame.clock_flag
                        (ap (λ (x : Frame). x.clock_flag)
                            (sym (same_frame hand i pool.frames here there e))
                          ∙ f)
                        ed enough)
                | inr ne ↦
                    let (d', ed, ahead', h') = Ahead-turn hand n i d h inside ne l ahead in
                    clock-Found fuel next n i d' size' (rw size h')
                      (get_elem?-set_ne pool.frames hand i (unflag g) ne ∙ there) unpinned
                      (omega arith) (rw size ahead')
                      (Enough-turn fuel n d d' frame.clock_flag ed enough)
              ])
      ]
    ]
  where
    same_or_not : (a b : ℕ) → (a ≡ b) ⊎ (a ≢ b)
    same_or_not a b = ground arith
