-- ===== src/BufferPool/Sound/Outcome.antt =====
-- What an operation on the pool of src/buffer_pool.rs leaves, by its result; a panic ends everything.
use db_rs.Base.{Result, ok, err, panic, Error, page_full, ◌≢◌}
use db_rs.BufferPool.Sound.Changes.{Keeps}
use db_rs.BufferPool.{BufferPool, Pool, follow}

abbrev pub Outcome {ℓ} :
    {A : Type ℓ}
    → (A → BufferPool → Type 0)
    → (Error → BufferPool → Type 0)
    → BufferPool × Result A
    → Type 0
Outcome Q E (pool, ok a) = Q a pool
Outcome Q E (pool, err e) = E e pool
Outcome Q E (pool, panic) = Unit {0}

pub Outcome-follow {ℓ κ} :
    {A : Type ℓ} {B : Type κ} (Q : A → BufferPool → Type 0) (R : B → BufferPool → Type 0)
    (D E : Error → BufferPool → Type 0) (done : BufferPool × Result A) (next : A → Pool B)
    → Outcome Q D done
    → ((e : Error) (pool : BufferPool) → D e pool → E e pool)
    → ((a : A) (pool : BufferPool) → Q a pool → Outcome R E (next a pool))
    → Outcome R E (follow next done.0 done.1)
Outcome-follow Q R D E (pool, ok a) next h fail k = k a pool h
Outcome-follow Q R D E (pool, err e) next h fail k = fail e pool h
Outcome-follow Q R D E (pool, panic) next h fail k = tt

pub Outcome-weaken {ℓ} :
    {A : Type ℓ} (Q R : A → BufferPool → Type 0) (D E : Error → BufferPool → Type 0)
    (done : BufferPool × Result A)
    → Outcome Q D done
    → ((a : A) (pool : BufferPool) → Q a pool → R a pool)
    → ((e : Error) (pool : BufferPool) → D e pool → E e pool)
    → Outcome R E done
Outcome-weaken Q R D E (pool, ok a) h k fail = k a pool h
Outcome-weaken Q R D E (pool, err e) h k fail = fail e pool h
Outcome-weaken Q R D E (pool, panic) h k fail = tt

-- An error that leaves every page as it was, and one that is not `PageFull` besides.
abbrev pub Failed : BufferPool → Error → BufferPool → Type 0
Failed pool e pool' = Keeps pool pool'

abbrev pub NotFull : BufferPool → Error → BufferPool → Type 0
NotFull pool e pool' = (e ≢ page_full) × Keeps pool pool'
