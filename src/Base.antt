-- ===== src/Base.antt =====
-- What the other modules share: the libraries' names, tests, lists, results and bytes.
mod Tests
mod Lists
mod Errors
mod Bytes
mod Place
mod Maps
mod Pad
mod Int
pub use Prim.Native.Nat.{ℕ, zero, suc, ◌+◌, ◌-◌, ◌*◌, ◌/◌, ◌%◌, ◌^◌, ◌≤◌, ◌<◌, min}
pub use mathlib.Core.Path.{◌≡◌, refl, sym, ap, ap₂, ◌∙◌, subst}
pub use mathlib.Core.Logic.{◌≢◌, ◌↔◌, ◌⊎◌, inl, inr}
pub use mathlib.Core.Bool.{Bool, true, false, not, ◌&&◌, ◌||◌}
pub use mathlib.Core.Option.{Option, none, some}
pub use mathlib.Core.List.{List, [], ◌∷◌, ◌++◌, append-nil, append_assoc}
pub use native.Mathlib.Omega.{arith}
pub use Tests.*
pub use Place.*
pub use Maps.*
pub use Pad.*
pub use Lists.*
pub use Errors.*
unfoldable pub use Int.*
unfoldable pub use Bytes.*
