-- ===== src/Base.antt =====
-- What every other module shares: the libraries' names passed on, and those of the children
-- (Boolean tests, lists over native numbers, texts, integers, maps, effects).
mod Tests
mod Lists
mod Bytes
mod Int
pub mod Assoc
mod Effect
pub use Tests.*
pub use Lists.*
unfoldable pub use Bytes.*
pub use Int.*
pub use Effect.*
pub use Prim.Native.Nat.{ℕ, zero, suc, ◌+◌, ◌-◌, ◌*◌, ◌/◌, ◌%◌, ◌^◌, ◌≤◌, ◌<◌}
pub use Prim.Native.String.{String}
pub use mathlib.Core.Path.{◌≡◌, refl, sym, ap, ◌∙◌, subst}
pub use mathlib.Core.Logic.{◌≢◌, ◌↔◌, ◌⊎◌, inl, inr}
pub use mathlib.Core.Bool.{Bool, true, false, not, ◌&&◌, ◌||◌}
pub use mathlib.Core.Option.{Option, none, some}
pub use mathlib.Core.List.{List, [], ◌∷◌, ◌++◌, map}
pub use native.Mathlib.Omega.{arith}
