-- ===== src/Base/Lists.antt =====
-- Lists measured and indexed by native numbers, and byte buffers: a part of a buffer (`slice`) and
-- a copy into a part of it (`splice`).
use Prim.Native.Nat.{ℕ, zero, suc, ◌+◌, ◌-◌, ◌≤◌, ◌<◌, min}
use mathlib.Core.Path.{◌≡◌, refl, ap}
use mathlib.Core.Logic.{◌⊎◌, ◌≢◌, inl, inr}
use mathlib.Core.List.{List, [], ◌∷◌, ◌++◌}
use mathlib.Core.Option.{Option, none, some}
use native.Mathlib.Omega.{arith}

module _ {ℓ} {A : Type ℓ} where
  abbrev pub length : List A → ℕ
  length [] = 0
  length (x ∷ xs) = suc (length xs)

  abbrev pub get_elem? : List A → ℕ → Option A
  get_elem? [] i = none
  get_elem? (x ∷ xs) zero = some x
  get_elem? (x ∷ xs) (suc i) = get_elem? xs i

  abbrev pub get_or : List A → ℕ → A → A
  get_or [] i d = d
  get_or (x ∷ xs) zero d = x
  get_or (x ∷ xs) (suc i) d = get_or xs i d

  abbrev pub set : List A → ℕ → A → List A
  set [] i v = []
  set (x ∷ xs) zero v = v ∷ xs
  set (x ∷ xs) (suc i) v = x ∷ set xs i v

  abbrev pub take : ℕ → List A → List A
  take zero xs = []
  take (suc n) [] = []
  take (suc n) (x ∷ xs) = x ∷ take n xs

  abbrev pub drop : ℕ → List A → List A
  drop zero xs = xs
  drop (suc n) [] = []
  drop (suc n) (x ∷ xs) = drop n xs

  abbrev pub replicate : ℕ → A → List A
  replicate zero a = []
  replicate (suc n) a = a ∷ replicate n a

  abbrev pub All {κ} : (A → Type κ) → List A → Type κ
  All P [] = Unit {κ}
  All P (x ∷ xs) = P x × All P xs

module _ {ℓ} {A : Type ℓ} where
  pub length-append : (xs ys : List A) → length (xs ++ ys) ≡ length xs + length ys
  length-append [] ys = omega arith
  length-append (x ∷ xs) ys = omega (arith, length-append xs ys)

  pub length-take : (n : ℕ) (xs : List A) → length (take n xs) ≡ min n (length xs)
  length-take zero xs = omega arith
  length-take (suc n) [] = omega arith
  length-take (suc n) (x ∷ xs) = omega (arith, length-take n xs)

  pub length-drop : (n : ℕ) (xs : List A) → length (drop n xs) ≡ length xs - n
  length-drop zero xs = omega arith
  length-drop (suc n) [] = omega arith
  length-drop (suc n) (x ∷ xs) = omega (arith, length-drop n xs)

  pub length-replicate : (n : ℕ) (a : A) → length (replicate n a) ≡ n
  length-replicate zero a = refl
  length-replicate (suc n) a = ap suc (length-replicate n a)

  pub length-set : (xs : List A) (i : ℕ) (v : A) → length (set xs i v) ≡ length xs
  length-set [] i v = refl
  length-set (x ∷ xs) zero v = refl
  length-set (x ∷ xs) (suc i) v = ap suc (length-set xs i v)

  pub take-append : (xs ys : List A) → take (length xs) (xs ++ ys) ≡ xs
  take-append [] ys = refl
  take-append (x ∷ xs) ys = ap (λ zs. x ∷ zs) (take-append xs ys)

  pub drop-append : (xs ys : List A) → drop (length xs) (xs ++ ys) ≡ ys
  drop-append [] ys = refl
  drop-append (x ∷ xs) ys = drop-append xs ys

  pub take_all : (n : ℕ) (xs : List A) → length xs ≡ n → take n xs ≡ xs
  take_all zero [] h = refl
  take_all zero (x ∷ xs) h = absurd (omega arith)
  take_all (suc n) [] h = refl
  take_all (suc n) (x ∷ xs) h = ap (λ zs. x ∷ zs) (take_all n xs (omega arith))

-- Parts of a buffer.
module _ {ℓ} {A : Type ℓ} where
  -- The `n` elements from index `a` on.
  abbrev pub slice : ℕ → ℕ → List A → List A
  slice a n xs = take n (drop a xs)

  -- `bs` written over the front of a buffer.
  abbrev pub overwrite : List A → List A → List A
  overwrite [] xs = xs
  overwrite (b ∷ bs) [] = []
  overwrite (b ∷ bs) (x ∷ xs) = b ∷ overwrite bs xs

  -- `bs` written over a buffer from index `a` on.
  abbrev pub splice : ℕ → List A → List A → List A
  splice zero bs xs = overwrite bs xs
  splice (suc a) bs [] = []
  splice (suc a) bs (x ∷ xs) = x ∷ splice a bs xs

  length-overwrite : (bs xs : List A) → length (overwrite bs xs) ≡ length xs
  length-overwrite [] xs = refl
  length-overwrite (b ∷ bs) [] = refl
  length-overwrite (b ∷ bs) (x ∷ xs) = ap suc (length-overwrite bs xs)

  pub length-splice : (a : ℕ) (bs xs : List A) → length (splice a bs xs) ≡ length xs
  length-splice zero bs xs = length-overwrite bs xs
  length-splice (suc a) bs [] = refl
  length-splice (suc a) bs (x ∷ xs) = ap suc (length-splice a bs xs)

  pub length-slice : (a n : ℕ) (xs : List A) → a + n ≤ length xs → length (slice a n xs) ≡ n
  length-slice a n xs h = omega (arith, length-take n (drop a xs), length-drop a xs)

  take-overwrite :
      (bs xs : List A) → length bs ≤ length xs → take (length bs) (overwrite bs xs) ≡ bs
  take-overwrite [] xs h = refl
  take-overwrite (b ∷ bs) [] h = absurd (omega arith)
  take-overwrite (b ∷ bs) (x ∷ xs) h = ap (λ zs. b ∷ zs) (take-overwrite bs xs (omega arith))

  -- What was written is read back.
  pub slice-splice_self :
      (a : ℕ) (bs xs : List A)
      → a + length bs ≤ length xs
      → slice a (length bs) (splice a bs xs) ≡ bs
  slice-splice_self zero bs xs h = take-overwrite bs xs (omega arith)
  slice-splice_self (suc a) bs [] h = absurd (omega arith)
  slice-splice_self (suc a) bs (x ∷ xs) h = slice-splice_self a bs xs (omega arith)

  take-splice : (n a : ℕ) (bs xs : List A) → n ≤ a → take n (splice a bs xs) ≡ take n xs
  take-splice zero a bs xs h = refl
  take-splice (suc n) zero bs xs h = absurd (omega arith)
  take-splice (suc n) (suc a) bs [] h = refl
  take-splice (suc n) (suc a) bs (x ∷ xs) h =
      ap (λ zs. x ∷ zs) (take-splice n a bs xs (omega arith))

  -- A part before the written one is unchanged.
  pub slice-splice_before :
      (c n a : ℕ) (bs xs : List A) → c + n ≤ a → slice c n (splice a bs xs) ≡ slice c n xs
  slice-splice_before zero n a bs xs h = take-splice n a bs xs (omega arith)
  slice-splice_before (suc c) n zero bs xs h = absurd (omega arith)
  slice-splice_before (suc c) n (suc a) bs [] h = refl
  slice-splice_before (suc c) n (suc a) bs (x ∷ xs) h =
      slice-splice_before c n a bs xs (omega arith)

  drop-overwrite : (c : ℕ) (bs xs : List A) → length bs ≤ c → drop c (overwrite bs xs) ≡ drop c xs
  drop-overwrite c [] xs h = refl
  drop-overwrite zero (b ∷ bs) xs h = absurd (omega arith)
  drop-overwrite (suc c) (b ∷ bs) [] h = refl
  drop-overwrite (suc c) (b ∷ bs) (x ∷ xs) h = drop-overwrite c bs xs (omega arith)

  drop-splice : (c a : ℕ) (bs xs : List A) → a + length bs ≤ c → drop c (splice a bs xs) ≡ drop c xs
  drop-splice c zero bs xs h = drop-overwrite c bs xs (omega arith)
  drop-splice zero (suc a) bs xs h = absurd (omega arith)
  drop-splice (suc c) (suc a) bs [] h = refl
  drop-splice (suc c) (suc a) bs (x ∷ xs) h = drop-splice c a bs xs (omega arith)

  -- A part behind the written one is unchanged.
  pub slice-splice_after :
      (c n a : ℕ) (bs xs : List A) → a + length bs ≤ c → slice c n (splice a bs xs) ≡ slice c n xs
  slice-splice_after c n a bs xs h = ap (take n) (drop-splice c a bs xs h)

  overwrite-append :
      (bs cs xs : List A) → overwrite (bs ++ cs) xs ≡ splice (length bs) cs (overwrite bs xs)
  overwrite-append [] cs xs = refl
  overwrite-append (b ∷ bs) cs [] = refl
  overwrite-append (b ∷ bs) cs (x ∷ xs) = ap (λ zs. b ∷ zs) (overwrite-append bs cs xs)

  -- Writing two parts is writing the one behind the other.
  pub splice-append :
      (a c : ℕ) (bs cs xs : List A)
      → c ≡ a + length bs
      → splice a (bs ++ cs) xs ≡ splice c cs (splice a bs xs)
  splice-append zero c bs cs xs h =
      let e : c ≡ length bs = omega arith in rw e (overwrite-append bs cs xs)
  splice-append (suc a) zero bs cs xs h = absurd (omega arith)
  splice-append (suc a) (suc c) bs cs [] h = refl
  splice-append (suc a) (suc c) bs cs (x ∷ xs) h =
      ap (λ zs. x ∷ zs) (splice-append a c bs cs xs (omega arith))

  -- A part that does not meet the written one is unchanged.
  pub slice-splice_apart :
      (c n a : ℕ) (bs xs : List A)
      → (c + n ≤ a) ⊎ (a + length bs ≤ c)
      → slice c n (splice a bs xs) ≡ slice c n xs
  slice-splice_apart c n a bs xs (inl h) = slice-splice_before c n a bs xs h
  slice-splice_apart c n a bs xs (inr h) = slice-splice_after c n a bs xs h

module _ {ℓ} {A : Type ℓ} where
  pub get_elem?_of_lt : (xs : List A) (i : ℕ) → i < length xs → (x : A) × (get_elem? xs i ≡ some x)
  get_elem?_of_lt [] i h = absurd (omega arith)
  get_elem?_of_lt (x ∷ xs) zero h = (x, refl)
  get_elem?_of_lt (x ∷ xs) (suc i) h = get_elem?_of_lt xs i (omega arith)

  pub get_elem?_of_ge : (xs : List A) (i : ℕ) → length xs ≤ i → get_elem? xs i ≡ none
  get_elem?_of_ge [] i h = refl
  get_elem?_of_ge (x ∷ xs) zero h = absurd (omega arith)
  get_elem?_of_ge (x ∷ xs) (suc i) h = get_elem?_of_ge xs i (omega arith)

  pub lt_of_get_elem? : (xs : List A) (i : ℕ) {x : A} → get_elem? xs i ≡ some x → i < length xs
  lt_of_get_elem? [] i h = cc
  lt_of_get_elem? (x ∷ xs) zero h = omega arith
  lt_of_get_elem? (x ∷ xs) (suc i) h = omega (arith, lt_of_get_elem? xs i h)

  pub ge_of_get_elem? : (xs : List A) (i : ℕ) → get_elem? xs i ≡ none → length xs ≤ i
  ge_of_get_elem? [] i h = omega arith
  ge_of_get_elem? (x ∷ xs) zero h = cc
  ge_of_get_elem? (x ∷ xs) (suc i) h = omega (arith, ge_of_get_elem? xs i h)

  -- `slice-splice_self`, with the length of what was written as a variable.
  pub slice-splice_eq :
      (a n : ℕ) (bs xs : List A)
      → length bs ≡ n
      → a + n ≤ length xs
      → slice a n (splice a bs xs) ≡ bs
  slice-splice_eq a n bs xs e h = rw (← e) (slice-splice_self a bs xs (omega arith))

module _ {ℓ} {A : Type ℓ} where
  pub get_elem?-set_self :
      (xs : List A) (i : ℕ) {x : A} (v : A)
      → get_elem? xs i ≡ some x
      → get_elem? (set xs i v) i ≡ some v
  get_elem?-set_self [] i v h = cc
  get_elem?-set_self (x ∷ xs) zero v h = refl
  get_elem?-set_self (x ∷ xs) (suc i) v h = get_elem?-set_self xs i v h

  pub get_elem?-set_ne :
      (xs : List A) (i j : ℕ) (v : A) → i ≢ j → get_elem? (set xs i v) j ≡ get_elem? xs j
  get_elem?-set_ne [] i j v h = refl
  get_elem?-set_ne (x ∷ xs) zero zero v h = absurd (h refl)
  get_elem?-set_ne (x ∷ xs) zero (suc j) v h = refl
  get_elem?-set_ne (x ∷ xs) (suc i) zero v h = refl
  get_elem?-set_ne (x ∷ xs) (suc i) (suc j) v h = get_elem?-set_ne xs i j v (λ e. h (ap suc e))

  pub set-get_elem? : (xs : List A) (i : ℕ) {v : A} → get_elem? xs i ≡ some v → set xs i v ≡ xs
  set-get_elem? [] i h = refl
  set-get_elem? (x ∷ xs) zero {v} h = let e : v ≡ x = cc in ap (λ y. y ∷ xs) e
  set-get_elem? (x ∷ xs) (suc i) h = ap (λ ys. x ∷ ys) (set-get_elem? xs i h)

  pub set-set : (xs : List A) (i : ℕ) (v w : A) → set (set xs i v) i w ≡ set xs i w
  set-set [] i v w = refl
  set-set (x ∷ xs) zero v w = refl
  set-set (x ∷ xs) (suc i) v w = ap (λ ys. x ∷ ys) (set-set xs i v w)
