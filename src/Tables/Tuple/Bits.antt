-- ===== src/Tables/Tuple/Bits.antt =====
-- One bit of a bitmap, for src/tables.rs: what `bytes[idx / 8] |= 1 << (7 - idx % 8)` changes.
use Prim.Native.Nat.{bit_or}
use db_rs.Base.{
  ℕ, zero, suc, ◌-◌, ◌/◌, ◌%◌, ◌^◌, ◌<◌, ◌≡◌, ◌≢◌, refl, ap, inl, inr, arith, Bool, true, false,
  ◌&&◌, some, List, [], ◌∷◌, length, get_elem?, get_or, set, replicate, All, IsByte, ltb, ◌==◌,
  ==_refl, Bool-cases, if◌then◌else◌,
}
use db_rs.Tables.Tuple.{set_bit}

-- A table over the values of a byte and two positions in it, checked by evaluation.
all_below : ℕ → (ℕ → Bool) → Bool
all_below zero p = true
all_below (suc n) p = p n && all_below n p

all_below-lt : (n : ℕ) (p : ℕ → Bool) (x : ℕ) → all_below n p ≡ true → x < n → p x ≡ true
unfolding all_below
all_below-lt zero p x h lt = absurd (omega arith)
all_below-lt (suc n) p x h lt = ground (arith, all_below-lt n p x)

abbrev pub bit : ℕ → ℕ → ℕ
bit b t = b / 2 ^ t % 2

abbrev or_entry : ℕ → ℕ → ℕ → Bool
or_entry s t b =
    bit (bit_or b (2 ^ s)) t == (if s == t then 1 else bit b t) && ltb (bit_or b (2 ^ s)) 256

or_table : all_below 8 (λ s. all_below 8 (λ t. all_below 256 (or_entry s t))) ≡ true
unfolding all_below
or_table = refl

or_entry_lem : (s t b : ℕ) → s < 8 → t < 8 → b < 256 → or_entry s t b ≡ true
or_entry_lem s t b hs ht hb =
    all_below-lt 256 (or_entry s t) b
      (all_below-lt 8 (λ t. all_below 256 (or_entry s t)) t
        (all_below-lt 8 (λ s. all_below 8 (λ t. all_below 256 (or_entry s t))) s or_table hs) ht)
      hb

bit-bit_or :
    (s t b : ℕ)
    → s < 8
    → t < 8
    → b < 256
    → bit (bit_or b (2 ^ s)) t ≡ (if s == t then 1 else bit b t)
bit-bit_or s t b hs ht hb = ground (arith, or_entry_lem s t b)

pub bit_or-lt : (s b : ℕ) → s < 8 → b < 256 → bit_or b (2 ^ s) < 256
bit_or-lt s b hs hb = ground (arith, or_entry_lem s s b)

get_or-set_self : (xs : List ℕ) (i v : ℕ) → i < length xs → get_or (set xs i v) i 0 ≡ v
get_or-set_self [] i v h = absurd (omega arith)
get_or-set_self (x ∷ xs) zero v h = refl
get_or-set_self (x ∷ xs) (suc i) v h = get_or-set_self xs i v (omega arith)

get_or-set_ne : (xs : List ℕ) (i j v : ℕ) → i ≢ j → get_or (set xs i v) j 0 ≡ get_or xs j 0
get_or-set_ne [] i j v h = refl
get_or-set_ne (x ∷ xs) zero zero v h = absurd (h refl)
get_or-set_ne (x ∷ xs) zero (suc j) v h = refl
get_or-set_ne (x ∷ xs) (suc i) zero v h = refl
get_or-set_ne (x ∷ xs) (suc i) (suc j) v h = get_or-set_ne xs i j v (λ e. h (ap suc e))

pub All-set : (xs : List ℕ) (i v : ℕ) → v < 256 → All IsByte xs → All IsByte (set xs i v)
All-set [] i v h a = tt
All-set (x ∷ xs) zero v h a = (h, a.1)
All-set (x ∷ xs) (suc i) v h a = (a.0, All-set xs i v h a.1)

pub get_or-lt : (xs : List ℕ) (i : ℕ) → All IsByte xs → get_or xs i 0 < 256
get_or-lt [] i a = omega arith
get_or-lt (x ∷ xs) zero a = a.0
get_or-lt (x ∷ xs) (suc i) a = get_or-lt xs i a.1

pub get_or-replicate : (n i : ℕ) → get_or {A = ℕ} (replicate n 0) i 0 ≡ 0
get_or-replicate zero i = refl
get_or-replicate (suc n) zero = refl
get_or-replicate (suc n) (suc i) = get_or-replicate n i

pub All-replicate : (n : ℕ) → All IsByte (replicate n 0)
All-replicate zero = tt
All-replicate (suc n) = (omega arith, All-replicate n)

-- The bit of a bitmap for the value `j`.
abbrev pub bit_at : List ℕ → ℕ → ℕ
bit_at bytes j = bit (get_or bytes (j / 8) 0) (7 - j % 8)

pub bit_at-set_bit_self :
    (bytes : List ℕ) (i : ℕ)
    → i / 8 < length bytes
    → All IsByte bytes
    → bit_at (set_bit i bytes) i ≡ 1
unfolding set_bit
bit_at-set_bit_self bytes i h a = rw (
  get_or-set_self bytes (i / 8) _ h,
  bit-bit_or (7 - i % 8) (7 - i % 8) _ (omega arith) (omega arith) (get_or-lt bytes (i / 8) a),
  ==_refl (7 - i % 8),
)

pub bit_at-set_bit_ne :
    (bytes : List ℕ) (i j : ℕ)
    → i ≢ j
    → i / 8 < length bytes
    → All IsByte bytes
    → bit_at (set_bit i bytes) j ≡ bit_at bytes j
unfolding set_bit
bit_at-set_bit_ne bytes i j ne h a = elim (Bool-cases (i / 8 == j / 8)) [
  | inl same ↦
      let e : j / 8 ≡ i / 8 = ground arith in
      let f : (7 - i % 8 == 7 - j % 8) ≡ false = ground arith in
      rw (
        e,
        get_or-set_self bytes (i / 8) _ h,
        bit-bit_or (7 - i % 8) (7 - j % 8) (get_or bytes (i / 8) 0) (omega arith) (omega arith)
            (get_or-lt bytes (i / 8) a),
        f,
      )
  | inr other ↦ ap (λ b. bit b (7 - j % 8)) (get_or-set_ne bytes (i / 8) (j / 8) _ (ground arith))
]

pub get_elem?-eq-get_or :
    (xs : List ℕ) (i : ℕ) → i < length xs → get_elem? xs i ≡ some (get_or xs i 0)
get_elem?-eq-get_or [] i h = absurd (omega arith)
get_elem?-eq-get_or (x ∷ xs) zero h = refl
get_elem?-eq-get_or (x ∷ xs) (suc i) h = get_elem?-eq-get_or xs i (omega arith)
