-- ===== src/Base/Int.antt =====
-- Signed integers over the native numbers, and i32 with its overflow checks and its bit pattern.
use Prim.Native.Nat.{ℕ, suc, ◌+◌, ◌-◌, ◌*◌, ◌/◌, ◌^◌, ◌≤◌, ◌<◌}
use mathlib.Core.Path.{◌≡◌}
use mathlib.Core.Logic.{◌↔◌}
use mathlib.Core.Bool.{Bool, true, ◌&&◌}
use native.Mathlib.Omega.{arith}
use db_rs.Base.Tests.{if◌then◌else◌, ltb, leb, ◌==◌}
use db_rs.Base.Errors.{Result, ok, panic}

-- `negsuc n` is -(n + 1).
pub data ℤ : Type 0 where
  pos : ℕ → ℤ
  negsuc : ℕ → ℤ

abbrev pub pos_part : ℤ → ℕ
pos_part (pos n) = n
pos_part (negsuc n) = 0

abbrev pub neg_part : ℤ → ℕ
neg_part (pos n) = 0
neg_part (negsuc n) = suc n

-- a - b, as an integer.
abbrev pub sub_ℕ : ℕ → ℕ → ℤ
sub_ℕ a b = if leb b a then pos (a - b) else negsuc (b - a - 1)

infixl 65 ◌+ℤ◌ ◌-ℤ◌
infixl 70 ◌*ℤ◌ ◌/ℤ◌
infix 50 ◌≤ℤ◌
unfoldable pub ◌+ℤ◌ : ℤ → ℤ → ℤ
a +ℤ b = sub_ℕ (pos_part a + pos_part b) (neg_part a + neg_part b)

unfoldable pub ◌-ℤ◌ : ℤ → ℤ → ℤ
a -ℤ b = sub_ℕ (pos_part a + neg_part b) (neg_part a + pos_part b)

unfoldable pub ◌*ℤ◌ : ℤ → ℤ → ℤ
a *ℤ b =
    sub_ℕ (pos_part a * pos_part b + neg_part a * neg_part b)
      (pos_part a * neg_part b + neg_part a * pos_part b)

-- Division rounds toward zero.
unfoldable pub ◌/ℤ◌ : ℤ → ℤ → ℤ
a /ℤ b =
    sub_ℕ (pos_part a / pos_part b + neg_part a / neg_part b)
      (pos_part a / neg_part b + neg_part a / pos_part b)

abbrev pub ◌≤ℤ◌ : ℤ → ℤ → Type 0
a ≤ℤ b = pos_part a + neg_part b ≤ pos_part b + neg_part a

abbrev pub ltb_ℤ : ℤ → ℤ → Bool
ltb_ℤ a b = ltb (pos_part a + neg_part b) (pos_part b + neg_part a)

abbrev pub eqb_ℤ : ℤ → ℤ → Bool
eqb_ℤ a b = pos_part a == pos_part b && neg_part a == neg_part b

abbrev pub IsI32 : ℤ → Type 0
IsI32 a = (pos_part a < 2 ^ 31) × (neg_part a ≤ 2 ^ 31)

-- The value of an i32 operation; out of range it panics.
abbrev pub check_i32 : ℤ → Result ℤ
check_i32 a = if ltb (pos_part a) (2 ^ 31) && leb (neg_part a) (2 ^ 31) then ok a else panic

unfoldable pub div_i32 : ℤ → ℤ → Result ℤ
div_i32 a b = if eqb_ℤ b (pos 0) then panic else check_i32 (a /ℤ b)

-- The two's complement pattern of an i32.
unfoldable pub i32_bits : ℤ → ℕ
i32_bits (pos n) = n
i32_bits (negsuc n) = 2 ^ 32 - suc n

unfoldable pub i32_from_bits : ℕ → ℤ
i32_from_bits w = if ltb w (2 ^ 31) then pos w else negsuc (2 ^ 32 - w - 1)

pub i32_bits_bound : (a : ℤ) → IsI32 a → i32_bits a < 2 ^ 32
unfolding i32_bits
i32_bits_bound (pos n) h = omega arith
i32_bits_bound (negsuc n) h = omega arith

pub i32_from_bits-i32_bits : (a : ℤ) → IsI32 a → i32_from_bits (i32_bits a) ≡ a
unfolding i32_bits i32_from_bits
i32_from_bits-i32_bits (pos n) h = ground arith
i32_from_bits-i32_bits (negsuc n) h = ground arith

pub eqb_ℤ_iff : (a b : ℤ) → (eqb_ℤ a b ≡ true) ↔ (a ≡ b)
eqb_ℤ_iff a b = ground arith
