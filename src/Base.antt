-- ===== src/Base.antt =====
-- Names that every module shares: the libraries' names passed on, Boolean tests, errors of Go,
-- lists by native numbers and Go maps with string keys.
mod Tests
mod Lists
mod Errors
mod Filter
pub mod Dict
pub mod Orders
pub use Tests.*
pub use Lists.*
pub use Filter.*
pub use Errors.*
pub use Prim.Native.Nat.{ℕ, zero, suc, ◌+◌, ◌-◌, ◌*◌, ◌/◌, ◌≤◌, ◌<◌}
pub use Prim.Native.String.{String}
pub use mathlib.Core.Path.{◌≡◌, refl, sym, ap, subst, fun_ext, ◌∙◌}
pub use mathlib.Core.Logic.{◌≢◌, ◌↔◌, ◌⊎◌, inl, inr}
pub use mathlib.Core.Bool.{Bool, true, false, not, ◌&&◌, ◌||◌}
pub use mathlib.Core.Option.{Option, none, some}
pub use mathlib.Core.List.{List, [], ◌∷◌, ◌++◌, map, append-nil, append_assoc}
pub use native.Mathlib.Omega.{arith}
pub use text.Mathlib.Text.{◌==◌ as str_eq}
pub use text.Mathlib.TextEquality.{eq_iff}
unfoldable pub use native.Mathlib.Decide.{ℕ_discrete}
