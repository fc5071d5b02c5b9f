-- ===== src/Base.antt =====
-- The names that all parts share: the libraries' names passed on, Boolean tests, arrays, lists
-- and fixed-width words.
mod Tests
mod Arrays
mod Lists
mod Latest
mod Words
mod Search
mod Text
pub use Tests.*
pub use Arrays.*
unfoldable pub use Lists.*
pub use Latest.*
pub use Words.*
unfoldable pub use Search.*
pub use Text.*
pub use Prim.Native.Nat.{ℕ, zero, suc, ◌+◌, ◌-◌, ◌*◌, ◌/◌, ◌%◌, ◌^◌, ◌≤◌, ◌<◌}
pub use mathlib.Core.Path.{◌≡◌, refl, sym, ap, ap₂, ◌∙◌, fun_ext}
pub use mathlib.Core.Logic.{◌≢◌, ◌↔◌, ◌⊎◌, inl, inr}
pub use mathlib.Core.Bool.{Bool, true, false, not, ◌&&◌, ◌||◌}
pub use mathlib.Core.Option.{Option, none, some}
pub use mathlib.Core.List.{List, [], ◌∷◌, ◌++◌, append-nil, append_assoc}
pub use native.Mathlib.Omega.{arith}
