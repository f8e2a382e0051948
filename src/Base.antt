-- ===== src/Base.antt =====
-- The names that every part shares: the library's, passed on, with Boolean tests on the native
-- numbers, integers over them, and the calls that a request makes on the store.
mod Tests
mod Lists
mod Outcome
mod Hoare
pub mod Int
pub use Tests.*
pub use Lists.*
pub use Outcome.*
pub use Hoare.*
pub use Prim.Native.Nat.{ℕ, zero, suc, ◌+◌, ◌-◌, ◌*◌, ◌/◌, ◌%◌, ◌^◌, ◌≤◌, ◌<◌, min, max}
pub use mathlib.Core.Path.{◌≡◌, refl, sym, ap, subst, ◌∙◌}
pub use mathlib.Core.Logic.{◌≢◌, ◌↔◌, ◌⊎◌, inl, inr}
pub use mathlib.Core.Bool.{Bool, true, false, not, ◌&&◌, ◌||◌}
pub use mathlib.Core.Option.{Option, none, some}
pub use mathlib.Core.List.{List, [], ◌∷◌, ◌++◌, map}
pub use native.Mathlib.Omega.{arith}
