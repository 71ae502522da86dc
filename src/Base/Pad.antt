-- ===== src/Base/Pad.antt =====
-- Byte strings that grow with a write past their end, as the operating system's files do: the gap is
-- filled with zeros.
use Prim.Native.Nat.{ℕ, zero, suc, ◌+◌, ◌≤◌}
use mathlib.Core.Path.{◌≡◌, refl, ap, ◌∙◌}
use mathlib.Core.Logic.{◌⊎◌}
use mathlib.Core.List.{List, [], ◌∷◌}
use native.Mathlib.Omega.{arith}
use db_rs.Base.Lists.{
  length, slice, take, splice, length-splice, slice-splice_eq, slice-splice_apart,
}

-- At least `n` bytes.
abbrev pub pad : ℕ → List ℕ → List ℕ
pad zero xs = xs
pad (suc n) [] = 0 ∷ pad n []
pad (suc n) (x ∷ xs) = x ∷ pad n xs

-- `File::write_at`
abbrev pub write_at : ℕ → List ℕ → List ℕ → List ℕ
write_at offset bs xs = splice offset bs (pad (offset + length bs) xs)

-- `File::set_len`
abbrev pub set_len : ℕ → List ℕ → List ℕ
set_len n xs = take n (pad n xs)

pad_le : (n : ℕ) (xs : List ℕ) → n ≤ length xs → length (pad n xs) ≡ length xs
pad_le zero xs h = refl
pad_le (suc n) [] h = absurd (omega arith)
pad_le (suc n) (x ∷ xs) h = ap suc (pad_le n xs (omega arith))

pad_ge : (n : ℕ) (xs : List ℕ) → length xs ≤ n → length (pad n xs) ≡ n
pad_ge zero [] h = refl
pad_ge zero (x ∷ xs) h = absurd (omega arith)
pad_ge (suc n) [] h = ap suc (pad_ge n [] (omega arith))
pad_ge (suc n) (x ∷ xs) h = ap suc (pad_ge n xs (omega arith))

le_length-pad : (n : ℕ) (xs : List ℕ) → n ≤ length (pad n xs)
le_length-pad zero xs = omega arith
le_length-pad (suc n) [] = omega (arith, le_length-pad n [])
le_length-pad (suc n) (x ∷ xs) = omega (arith, le_length-pad n xs)

take-pad : (n c : ℕ) (xs : List ℕ) → c ≤ length xs → take c (pad n xs) ≡ take c xs
take-pad zero c xs h = refl
take-pad (suc n) zero xs h = refl
take-pad (suc n) (suc c) [] h = absurd (omega arith)
take-pad (suc n) (suc c) (x ∷ xs) h = ap (λ zs. x ∷ zs) (take-pad n c xs (omega arith))

slice-pad : (n a c : ℕ) (xs : List ℕ) → a + c ≤ length xs → slice a c (pad n xs) ≡ slice a c xs
slice-pad n zero c xs h = take-pad n c xs (omega arith)
slice-pad zero (suc a) c xs h = refl
slice-pad (suc n) (suc a) c [] h = absurd (omega arith)
slice-pad (suc n) (suc a) c (x ∷ xs) h = slice-pad n a c xs (omega arith)

-- A write within the file keeps its length.
pub length-write_at_within :
    (offset : ℕ) (bs xs : List ℕ)
    → offset + length bs ≤ length xs
    → length (write_at offset bs xs) ≡ length xs
length-write_at_within offset bs xs h =
    length-splice offset bs (pad (offset + length bs) xs) ∙ pad_le (offset + length bs) xs h

-- A write past the end makes the file end with it.
pub length-write_at_past :
    (offset : ℕ) (bs xs : List ℕ)
    → length xs ≤ offset + length bs
    → length (write_at offset bs xs) ≡ offset + length bs
length-write_at_past offset bs xs h =
    length-splice offset bs (pad (offset + length bs) xs) ∙ pad_ge (offset + length bs) xs h

-- What was written is read.
pub slice-write_at :
    (offset n : ℕ) (bs xs : List ℕ) → length bs ≡ n → slice offset n (write_at offset bs xs) ≡ bs
slice-write_at offset n bs xs e =
    slice-splice_eq offset n bs (pad (offset + length bs) xs) e
      (omega (arith, le_length-pad (offset + length bs) xs))

-- What the file had elsewhere is kept.
pub slice-write_at_apart :
    (a n offset : ℕ) (bs xs : List ℕ)
    → a + n ≤ length xs
    → (a + n ≤ offset) ⊎ (offset + length bs ≤ a)
    → slice a n (write_at offset bs xs) ≡ slice a n xs
slice-write_at_apart a n offset bs xs h apart =
    slice-splice_apart a n offset bs (pad (offset + length bs) xs) apart
    ∙ slice-pad (offset + length bs) a n xs h
