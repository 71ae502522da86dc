-- ===== src/Base/Bytes.antt =====
-- Machine words as numbers, their big-endian bytes (`to_be_bytes`, `from_be_bytes` of the standard
-- library), checked arithmetic on u16 and slices that panic out of range.
use Prim.Native.Nat.{ℕ, zero, suc, ◌+◌, ◌-◌, ◌*◌, ◌/◌, ◌%◌, ◌^◌, ◌≤◌, ◌<◌}
use mathlib.Core.Path.{◌≡◌, refl}
use mathlib.Core.List.{List, [], ◌∷◌, ◌++◌}
use native.Mathlib.Omega.{arith}
use native.Mathlib.Nat.{pow-suc}
use db_rs.Base.Tests.{if◌then◌else◌, ltb, leb, le→leb}
use db_rs.Base.Lists.{length, length-append, slice, splice}
use db_rs.Base.Errors.{Result, ok, err, panic, int_conversion}

abbrev pub IsByte : ℕ → Type 0
IsByte b = b < 256

-- The `w` bytes of a word, the highest first.
unfoldable pub be_bytes : ℕ → ℕ → List ℕ
be_bytes zero n = []
be_bytes (suc w) n = be_bytes w (n / 256) ++ (n % 256 ∷ [])

be_from : ℕ → List ℕ → ℕ
be_from acc [] = acc
be_from acc (b ∷ bs) = be_from (acc * 256 + b) bs

unfoldable pub be_value : List ℕ → ℕ
unfolding be_from
be_value bs = be_from 0 bs

pub length-be_bytes : (w n : ℕ) → length (be_bytes w n) ≡ w
unfolding be_bytes
length-be_bytes zero n = refl
length-be_bytes (suc w) n =
    omega (arith, length-append (be_bytes w (n / 256)) (n % 256 ∷ []), length-be_bytes w (n / 256))

be_from-snoc :
    (acc : ℕ) (bs : List ℕ) (b : ℕ) → be_from acc (bs ++ (b ∷ [])) ≡ be_from acc bs * 256 + b
unfolding be_from
be_from-snoc acc [] b = refl
be_from-snoc acc (c ∷ bs) b = be_from-snoc (acc * 256 + c) bs b

-- A word that fits its width is read back from its bytes.
pub be_value-be_bytes : (w n : ℕ) → n < 256 ^ w → be_value (be_bytes w n) ≡ n
unfolding be_value be_bytes
be_value-be_bytes zero n h = omega arith
be_value-be_bytes (suc w) n h = omega (
  arith,
  be_from-snoc 0 (be_bytes w (n / 256)) (n % 256),
  be_value-be_bytes w (n / 256) (omega (arith, pow-suc 256 w)),
)

-- u16 arithmetic, which panics on overflow.
abbrev pub add_u16 : ℕ → ℕ → Result ℕ
add_u16 a b = if ltb (a + b) 65536 then ok (a + b) else panic

abbrev pub mul_u16 : ℕ → ℕ → Result ℕ
mul_u16 a b = if ltb (a * b) 65536 then ok (a * b) else panic

abbrev pub sub_u16 : ℕ → ℕ → Result ℕ
sub_u16 a b = if leb b a then ok (a - b) else panic

-- `uN::try_from` of a usize.
abbrev pub u8_try_from : ℕ → Result ℕ
u8_try_from n = if ltb n 256 then ok n else err int_conversion

abbrev pub u16_try_from : ℕ → Result ℕ
u16_try_from n = if ltb n 65536 then ok n else err int_conversion

abbrev pub u32_try_from : ℕ → Result ℕ
u32_try_from n = if ltb n (2 ^ 32) then ok n else err int_conversion

-- `&xs[a..a + n]`
abbrev pub read_slice {ℓ} : {A : Type ℓ} → ℕ → ℕ → List A → Result (List A)
read_slice a n xs = if leb (a + n) (length xs) then ok (slice a n xs) else panic

-- `xs[a..a + bs.len()].copy_from_slice(bs)`
abbrev pub copy_slice {ℓ} : {A : Type ℓ} → ℕ → List A → List A → Result (List A)
copy_slice a bs xs = if leb (a + length bs) (length xs) then ok (splice a bs xs) else panic

pub read_slice_lem {ℓ} :
    {A : Type ℓ} (a n : ℕ) (xs : List A) → a + n ≤ length xs → read_slice a n xs ≡ ok (slice a n xs)
read_slice_lem a n xs h = rw (le→leb _ _ h)

pub copy_slice_lem {ℓ} :
    {A : Type ℓ} (a : ℕ) (bs xs : List A)
    → a + length bs ≤ length xs
    → copy_slice a bs xs ≡ ok (splice a bs xs)
copy_slice_lem a bs xs h = rw (le→leb _ _ h)
