-- ===== src/Base/Place.antt =====
-- A part of a byte string, by its place.
use Prim.Native.Nat.{ℕ, zero, suc, ◌+◌, ◌≤◌}
use mathlib.Core.Path.{◌≡◌, refl, sym, ap, ◌∙◌}
use mathlib.Core.List.{List, [], ◌∷◌, ◌++◌, append_assoc}
use mathlib.Core.Option.{some}
use native.Mathlib.Omega.{arith}
use db_rs.Base.Lists.{length, length-append, slice, get_elem?}
use db_rs.Base.Errors.{ok}
use db_rs.Base.Bytes.{read_slice, read_slice_lem}

-- `m` stands in `bytes` from `pos` on.
pub record At (bytes : List ℕ) (pos : ℕ) (m : List ℕ) : Type 0 where
  pub before : List ℕ
  pub after : List ℕ
  pub split : bytes ≡ before ++ (m ++ after)
  pub place : length before ≡ pos

pub At-left : {bytes : List ℕ} {pos : ℕ} (m n : List ℕ) → At bytes pos (m ++ n) → At bytes pos m
At-left m n h = record {
  before = h.before;
  after = n ++ h.after;
  split = h.split ∙ ap (λ zs. h.before ++ zs) (append_assoc m n h.after);
  place = h.place;
}

pub At-right :
    {bytes : List ℕ} {pos : ℕ} (m n : List ℕ) (q : ℕ)
    → q ≡ pos + length m
    → At bytes pos (m ++ n)
    → At bytes q n
At-right m n q e h = record {
  before = h.before ++ m;
  after = h.after;
  split =
      h.split
      ∙ ap (λ zs. h.before ++ zs) (append_assoc m n h.after)
      ∙ sym (append_assoc h.before m (n ++ h.after));
  place = omega (arith, length-append h.before m, h.place);
}

slice-append : (xs m ys : List ℕ) → slice (length xs) (length m) (xs ++ (m ++ ys)) ≡ m
slice-append [] [] ys = refl
slice-append [] (b ∷ m) ys = ap (λ zs. b ∷ zs) (slice-append [] m ys)
slice-append (x ∷ xs) m ys = slice-append xs m ys

pub At-end :
    {bytes : List ℕ} {pos : ℕ} {m : List ℕ} → At bytes pos m → pos + length m ≤ length bytes
At-end {bytes} {pos} {m} h = omega (
  arith,
  ap length h.split,
  length-append h.before (m ++ h.after),
  length-append m h.after,
  h.place,
)

pub At-slice :
    {bytes : List ℕ} {pos : ℕ} {m : List ℕ} (n : ℕ)
    → n ≡ length m
    → At bytes pos m
    → slice pos n bytes ≡ m
At-slice {bytes} {pos} {m} n e h = rw (e, h.split, ← h.place) (slice-append h.before m h.after)

-- Reading the part gives it.
pub At-read_slice :
    {bytes : List ℕ} {pos : ℕ} {m : List ℕ} (n : ℕ)
    → n ≡ length m
    → At bytes pos m
    → read_slice pos n bytes ≡ ok m
At-read_slice {bytes} {pos} {m} n e h =
    read_slice_lem pos n bytes (omega (arith, At-end h)) ∙ ap ok (At-slice n e h)

get_elem?-append : (xs ys : List ℕ) (b : ℕ) → get_elem? (xs ++ (b ∷ ys)) (length xs) ≡ some b
get_elem?-append [] ys b = refl
get_elem?-append (x ∷ xs) ys b = get_elem?-append xs ys b

pub At-get_elem? :
    {bytes : List ℕ} {pos : ℕ} {b : ℕ} → At bytes pos (b ∷ []) → get_elem? bytes pos ≡ some b
At-get_elem? {bytes} {pos} {b} h = rw (h.split, ← h.place) (get_elem?-append h.before h.after b)

-- The empty part is everywhere.
pub At-nil : (bytes : List ℕ) (pos : ℕ) → pos ≤ length bytes → At bytes pos []
At-nil bytes zero h = record { before = []; after = bytes; split = refl; place = refl }
At-nil [] (suc pos) h = absurd (omega arith)
At-nil (b ∷ bytes) (suc pos) h =
    let rest = At-nil bytes pos (omega arith) in
    record {
      before = b ∷ rest.before;
      after = rest.after;
      split = ap (λ zs. b ∷ zs) rest.split;
      place = ap suc rest.place;
    }
