-- ===== src/Base/Maps.antt =====
-- Association lists for the source's `HashMap`, over a Boolean test of keys.
use mathlib.Core.Path.{◌≡◌, refl, ap}
use mathlib.Core.Logic.{◌↔◌, inl, inr}
use mathlib.Core.Bool.{Bool, true, false}
use mathlib.Core.List.{List, [], ◌∷◌}
use mathlib.Core.Option.{Option, none, some}
use db_rs.Base.Tests.{if◌then◌else◌, Bool-cases}

module _ {ℓ κ} {K : Type ℓ} {V : Type κ} (same : K → K → Bool) where
  abbrev pub lookup : K → List (K × V) → Option V
  lookup k [] = none
  lookup k ((j, v) ∷ m) = if same j k then some v else lookup k m

  -- `HashMap::insert`
  abbrev pub insert_key : K → V → List (K × V) → List (K × V)
  insert_key k v [] = (k, v) ∷ []
  insert_key k v ((j, w) ∷ m) = if same j k then (j, v) ∷ m else (j, w) ∷ insert_key k v m

  -- `HashMap::remove`
  abbrev pub remove_key : K → List (K × V) → List (K × V)
  remove_key k [] = []
  remove_key k ((j, w) ∷ m) = if same j k then remove_key k m else (j, w) ∷ remove_key k m

  module _ (same_iff : (a b : K) → (same a b ≡ true) ↔ (a ≡ b)) where
    pub lookup-insert_key_self :
        (k : K) (v : V) (m : List (K × V)) → lookup k (insert_key k v m) ≡ some v
    lookup-insert_key_self k v [] = rw ((same_iff k k).1 refl)
    lookup-insert_key_self k v ((j, w) ∷ m) = elim (Bool-cases (same j k)) [
      | inl e ↦ rw (e, e)
      | inr e ↦ rw (e, e) (lookup-insert_key_self k v m)
    ]

    pub lookup-insert_key_ne :
        (k j : K) (v : V) (m : List (K × V))
        → same k j ≡ false
        → lookup j (insert_key k v m) ≡ lookup j m
    lookup-insert_key_ne k j v [] h = rw h
    lookup-insert_key_ne k j v ((i, w) ∷ m) h = elim (Bool-cases (same i k)) [
      | inl e ↦ let f : i ≡ k = (same_iff i k).0 e in rw (e, f, h)
      | inr e ↦ rw e (ap (λ o. if same i j then some w else o) (lookup-insert_key_ne k j v m h))
    ]

    pub lookup-remove_key_self : (k : K) (m : List (K × V)) → lookup k (remove_key k m) ≡ none
    lookup-remove_key_self k [] = refl
    lookup-remove_key_self k ((j, w) ∷ m) = elim (Bool-cases (same j k)) [
      | inl e ↦ rw e (lookup-remove_key_self k m)
      | inr e ↦ rw (e, e) (lookup-remove_key_self k m)
    ]

    pub lookup-remove_key_ne :
        (k j : K) (m : List (K × V)) → same k j ≡ false → lookup j (remove_key k m) ≡ lookup j m
    lookup-remove_key_ne k j [] h = refl
    lookup-remove_key_ne k j ((i, w) ∷ m) h = elim (Bool-cases (same i k)) [
      | inl e ↦ let f : i ≡ k = (same_iff i k).0 e in rw (e, f, h) (lookup-remove_key_ne k j m h)
      | inr e ↦ rw e (ap (λ o. if same i j then some w else o) (lookup-remove_key_ne k j m h))
    ]
