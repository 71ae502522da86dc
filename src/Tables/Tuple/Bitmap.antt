-- ===== src/Tables/Tuple/Bitmap.antt =====
-- The null bitmap of src/tables.rs: `is_value_null` reads what `gen_null_bitmap` wrote.
use native.Mathlib.Nat.{add-zero, zero-div}
use db_rs.Base.{
  ℕ, zero, suc, ◌+◌, ◌-◌, ◌*◌, ◌/◌, ◌%◌, ◌^◌, ◌≤◌, ◌<◌, ◌≡◌, ◌≢◌, refl, ◌∙◌, arith, some, List, [],
  ◌∷◌, length, get_elem?, replicate, length-set, lt_of_get_elem?, length-replicate, All, IsByte,
  ◌==◌, if◌then◌else◌, ok,
}
use db_rs.Value.{Value}
use db_rs.Tables.Tuple.Bits.{
  bit, bit_at, bit_at-set_bit_self, bit_at-set_bit_ne, bit_or-lt, get_or-lt, get_or-replicate,
  All-set, All-replicate, get_elem?-eq-get_or,
}
use db_rs.Tables.Tuple.{
  bitmap_size, is_null_value, set_bit, null_bits, gen_null_bitmap, is_value_null,
}

set_bit-All : (bytes : List ℕ) (i : ℕ) → All IsByte bytes → All IsByte (set_bit i bytes)
unfolding set_bit
set_bit-All bytes i a =
    All-set bytes (i / 8) _ (bit_or-lt (7 - i % 8) _ (omega arith) (get_or-lt bytes (i / 8) a)) a

length-set_bit : (bytes : List ℕ) (i : ℕ) → length (set_bit i bytes) ≡ length bytes
unfolding set_bit
length-set_bit bytes i = length-set bytes (i / 8) _

-- The bitmap after one round of the loop.
abbrev mark : ℕ → Value → List ℕ → List ℕ
mark idx v bytes = if is_null_value v then set_bit idx bytes else bytes

mark-All : (v : Value) (idx : ℕ) (bytes : List ℕ) → All IsByte bytes → All IsByte (mark idx v bytes)
mark-All v idx bytes a = ground (arith, set_bit-All bytes idx a)

length-mark : (v : Value) (idx : ℕ) (bytes : List ℕ) → length (mark idx v bytes) ≡ length bytes
length-mark v idx bytes = ground (arith, length-set_bit bytes idx)

bit_at-mark_ne :
    (v : Value) (bytes : List ℕ) (idx j : ℕ)
    → idx ≢ j
    → idx / 8 < length bytes
    → All IsByte bytes
    → bit_at (mark idx v bytes) j ≡ bit_at bytes j
bit_at-mark_ne v bytes idx j ne h a = ground (arith, bit_at-set_bit_ne bytes idx j ne h a)

abbrev null_bit : Value → ℕ
null_bit v = if is_null_value v then 1 else 0

bit_at-mark_self :
    (v : Value) (bytes : List ℕ) (idx : ℕ)
    → bit_at bytes idx ≡ 0
    → idx / 8 < length bytes
    → All IsByte bytes
    → bit_at (mark idx v bytes) idx ≡ null_bit v
bit_at-mark_self v bytes idx z h a = ground (arith, bit_at-set_bit_self bytes idx h a)

length-null_bits :
    (idx : ℕ) (vs : List Value) (bytes : List ℕ) → length (null_bits idx vs bytes) ≡ length bytes
unfolding null_bits
length-null_bits idx [] bytes = refl
length-null_bits idx (v ∷ vs) bytes =
    length-null_bits (suc idx) vs (mark idx v bytes) ∙ length-mark v idx bytes

-- The loop leaves the bits of the values that it has passed.
null_bits_before :
    (idx : ℕ) (vs : List Value) (bytes : List ℕ) (j : ℕ)
    → j < idx
    → idx + length vs ≤ 8 * length bytes
    → All IsByte bytes
    → bit_at (null_bits idx vs bytes) j ≡ bit_at bytes j
unfolding null_bits
null_bits_before idx [] bytes j h b a = refl
null_bits_before idx (v ∷ vs) bytes j h b a =
    null_bits_before (suc idx) vs (mark idx v bytes) j (omega arith)
      (omega (arith, length-mark v idx bytes)) (mark-All v idx bytes a)
    ∙ bit_at-mark_ne v bytes idx j (omega arith) (omega arith) a

-- The loop sets the bit of each null among the values to come, and of no other.
null_bits_at :
    (idx : ℕ) (vs : List Value) (bytes : List ℕ) (k : ℕ) (v : Value)
    → get_elem? vs k ≡ some v
    → ((j : ℕ) → bit_at bytes (idx + j) ≡ 0)
    → idx + length vs ≤ 8 * length bytes
    → All IsByte bytes
    → bit_at (null_bits idx vs bytes) (idx + k) ≡ null_bit v
unfolding null_bits
null_bits_at idx [] bytes k v e z b a = cc
null_bits_at idx (x ∷ vs) bytes zero v e z b a =
    let z₀ : bit_at bytes idx ≡ 0 = rw add-zero at (z 0) in
    let same : x ≡ v = cc in
    rw (add-zero, ← same)
      (null_bits_before (suc idx) vs (mark idx x bytes) idx (omega arith)
          (omega (arith, length-mark x idx bytes)) (mark-All x idx bytes a)
        ∙ bit_at-mark_self x bytes idx z₀ (omega arith) a)
null_bits_at idx (x ∷ vs) bytes (suc k) v e z b a =
    let f : idx + suc k ≡ suc idx + k = omega arith in
    rw f (
      null_bits_at (suc idx) vs (mark idx x bytes) k v e later
        (omega (arith, length-mark x idx bytes)) (mark-All x idx bytes a))
  where
    later : (j : ℕ) → bit_at (mark idx x bytes) (suc idx + j) ≡ 0
    later j =
        let g : suc idx + j ≡ idx + suc j = omega arith in
        rw g (bit_at-mark_ne x bytes idx (idx + suc j) (omega arith) (omega arith) a ∙ z (suc j))

zero-bit : (j : ℕ) → bit 0 j ≡ 0
zero-bit j = omega (arith, zero-div (2 ^ j))

-- The bitmap has a bit for each value.
pub length-gen_null_bitmap :
    (vs : List Value) → length (gen_null_bitmap vs) ≡ bitmap_size (length vs)
unfolding gen_null_bitmap
length-gen_null_bitmap vs =
    let zeros : List ℕ = replicate (bitmap_size (length vs)) 0 in
    length-null_bits 0 vs zeros ∙ length-replicate {A = ℕ} (bitmap_size (length vs)) 0

bit_at-gen_null_bitmap :
    (vs : List Value) (k : ℕ) (v : Value)
    → get_elem? vs k ≡ some v
    → bit_at (gen_null_bitmap vs) k ≡ null_bit v
unfolding gen_null_bitmap
bit_at-gen_null_bitmap vs k v e =
    let n : ℕ = bitmap_size (length vs) in
    let z : 0 + k ≡ k = omega arith in
    let found =
      null_bits_at 0 vs (replicate n 0) k v e
        (λ j. rw (get_or-replicate n ((0 + j) / 8)) (zero-bit (7 - (0 + j) % 8)))
        (omega (arith, length-replicate {A = ℕ} n 0)) (All-replicate n) in
    rw z at found

null_bit-eq : (v : Value) → (null_bit v == 1) ≡ is_null_value v
null_bit-eq v = ground arith

-- `is_value_null` on the bitmap of a tuple tells the nulls of the tuple.
pub is_value_null-gen_null_bitmap :
    (vs : List Value) (k : ℕ) (v : Value)
    → get_elem? vs k ≡ some v
    → is_value_null (gen_null_bitmap vs) k ≡ ok (is_null_value v)
unfolding is_value_null
is_value_null-gen_null_bitmap vs k v e = rw (
  get_elem?-eq-get_or (gen_null_bitmap vs) (k / 8)
      (omega (arith, length-gen_null_bitmap vs, lt_of_get_elem? vs k e)),
  bit_at-gen_null_bitmap vs k v e,
  null_bit-eq v,
)
