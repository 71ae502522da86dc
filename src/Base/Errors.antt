-- ===== src/Base/Errors.antt =====
-- Results of fallible code, src/error.rs: a value, an `Error`, or a panic.
--
-- `panic` stands for every panic of the source: an index or a slice out of range, `unwrap` of a
-- `None`, `unreachable!`, `todo!`, and arithmetic overflow, which panics in cargo's dev and test
-- profiles. The message strings of `InvalidComparison` and `ParseError` are not modelled.
use Prim.Native.Nat.{ℕ}
use mathlib.Core.Path.{◌≡◌, refl}
use mathlib.Core.Bool.{Bool, true, false}
use mathlib.Core.List.{List}
use mathlib.Core.Option.{Option, none, some}

pub data InputError : Type 0 where
  string_too_long out_of_bounds record_too_large tuple_doesnt_match_schema : InputError

pub data Error : Type 0 where
  slice_cast int_conversion io page_not_found page_full file_not_found no_more_tuples : Error
  table_not_found : List ℕ → Error
  corrupt_page_file : Error
  input_error : InputError → Error
  no_pages_available page_cast invalid_comparison parse_error : Error
  utf8_conversion utf8_error unknown : Error

pub data Result {ℓ} (A : Type ℓ) : Type ℓ where
  ok : A → Result A
  err : Error → Result A
  panic : Result A

-- A condition without which the code panics.
abbrev pub assert : Bool → Result (Unit {0})
assert false = panic
assert true = ok tt

-- `if !test { return Err(e) }`
abbrev pub guard : Bool → Error → Result (Unit {0})
guard false e = err e
guard true e = ok tt

abbrev pub unwrap {ℓ} : {A : Type ℓ} → Option A → Result A
unwrap (some a) = ok a
unwrap none = panic

abbrev pub ok_or {ℓ} : {A : Type ℓ} → Option A → Error → Result A
ok_or (some a) e = ok a
ok_or none e = err e

-- `?`: an error or a panic ends the computation.
infixl 5 ◌>>=◌ ◌>>◌
abbrev pub ◌>>=◌ {ℓ κ} : {T : Type ℓ} {U : Type κ} → Result T → (T → Result U) → Result U
panic >>= next = panic
err e >>= next = err e
ok value >>= next = next value

abbrev pub ◌>>◌ {κ} : {U : Type κ} → Result (Unit {0}) → Result U → Result U
first >> next = first >>= λ done. next

-- `Result::and_then`, beside another `>>=`.
abbrev pub and_then {ℓ κ} : {T : Type ℓ} {U : Type κ} → Result T → (T → Result U) → Result U
and_then first next = first >>= next

pub >>=-eq-ok {ℓ κ} :
    {T : Type ℓ} {U : Type κ} (first : Result T) (next : T → Result U) {u : U}
    → (first >>= next) ≡ ok u
    → (t : T) × (first ≡ ok t) × (next t ≡ ok u)
>>=-eq-ok panic next h = cc
>>=-eq-ok (err e) next h = cc
>>=-eq-ok (ok t) next h = (t, refl, h)
