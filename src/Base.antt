-- ===== src/Base.antt =====
-- Names that every module shares: the libraries', passed on, and those of the children (tests on
-- numbers, lists, texts, integers).
mod Numbers
mod Lists
mod Strings
mod Parse
pub mod Int
pub use Numbers.*
pub use Lists.*
unfoldable pub use Lists.{mem?, lookup}
unfoldable pub use Strings.*
unfoldable pub use Parse.*
pub use Prim.Native.Nat.{ℕ, zero, suc, ◌+◌, ◌-◌, ◌*◌, ◌/◌, ◌%◌, ◌^◌, ◌≤◌, ◌<◌, min, max}
pub use Prim.Native.String.{String}
pub use mathlib.Core.Path.{◌≡◌, refl, sym, ap, ◌∙◌, subst}
pub use mathlib.Core.Logic.{◌≢◌, ◌↔◌, ◌⊎◌, inl, inr}
pub use mathlib.Core.Bool.{Bool, true, false, not, ◌&&◌, ◌||◌}
pub use mathlib.Core.Option.{Option, none, some}
pub use mathlib.Core.List.{List, [], ◌∷◌, ◌++◌, map}
pub use native.Mathlib.Omega.{arith}
