-- ===== src/Base.antt =====
-- The names that every component shares: the libraries', passed on, and those of the children.
mod Tests
mod Lists
mod Perms
mod Faults
pub mod Word
pub use Tests.*
pub use Lists.*
pub use Perms.*
pub use Faults.*
pub use Prim.Native.Nat.{ℕ, zero, suc, ◌+◌, ◌-◌, ◌*◌, ◌%◌, ◌^◌, ◌≤◌, ◌<◌}
pub use mathlib.Core.Path.{◌≡◌, refl, sym, ap, subst, ◌∙◌}
pub use mathlib.Core.Logic.{◌≢◌, ◌↔◌, ◌⊎◌, inl, inr}
pub use mathlib.Core.Bool.{Bool, true, false, ◌&&◌, ◌||◌}
pub use mathlib.Core.Option.{Option, none, some}
pub use mathlib.Core.List.{List, [], ◌∷◌, ◌++◌, map, Memᴰ, Permᴰ}
pub use native.Mathlib.Omega.{arith}
