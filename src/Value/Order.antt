-- ===== src/Value/Order.antt =====
-- The comparison of byte strings of src/value.rs decides equality.
use db_rs.Base.{
  ℕ, ◌≡◌, refl, ap₂, ◌↔◌, inl, inr, true, false, Bool-cases, List, [], ◌∷◌, ◌==◌, ==_iff, ==_refl,
}
use db_rs.Value.{bytes_eq}

pub bytes_eq_refl : (a : List ℕ) → bytes_eq a a ≡ true
bytes_eq_refl [] = refl
bytes_eq_refl (x ∷ a) = rw (==_refl x, bytes_eq_refl a)

pub eq_of_bytes_eq : (a b : List ℕ) → bytes_eq a b ≡ true → a ≡ b
eq_of_bytes_eq [] [] h = refl
eq_of_bytes_eq [] (y ∷ b) h = cc
eq_of_bytes_eq (x ∷ a) [] h = cc
eq_of_bytes_eq (x ∷ a) (y ∷ b) h = elim (Bool-cases (x == y)) [
  | inl e ↦ ap₂ (λ u us. u ∷ us) ((==_iff x y).0 e) (eq_of_bytes_eq a b (rw e at h))
  | inr e ↦ let k : false ≡ true = rw e at h in cc
]

pub bytes_eq_iff : (a b : List ℕ) → (bytes_eq a b ≡ true) ↔ (a ≡ b)
bytes_eq_iff a b = (eq_of_bytes_eq a b, λ e. rw e (bytes_eq_refl b))
