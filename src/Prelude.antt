-- ===== src/Prelude.antt =====
-- The names that the other modules share: the library's, passed on, Boolean tests and lists over
-- the native numbers, and the result of code that may throw.
mod Tests
mod Lists
mod Results
mod Pod
mod Compare
pub use Tests.*
pub use Lists.*
pub use Results.*
unfoldable pub use Pod.*
unfoldable pub use Compare.*
pub use Prim.Native.Nat.{ℕ, zero, suc, ◌+◌, ◌-◌, ◌*◌, ◌/◌, ◌%◌, ◌^◌, ◌≤◌, ◌<◌, min, max}
pub use Prim.Native.String.{String}
pub use mathlib.Core.Path.{◌≡◌, refl, sym, ap, ◌∙◌, subst}
pub use mathlib.Core.Logic.{◌≢◌, ◌↔◌, ◌⊎◌, inl, inr}
pub use mathlib.Core.Bool.{Bool, true, false, not, ◌&&◌, ◌||◌}
pub use mathlib.Core.Option.{Option, none, some}
pub use mathlib.Core.List.{List, [], ◌∷◌, ◌++◌, map}
pub use native.Mathlib.Omega.{arith}
