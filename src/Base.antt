-- ===== src/Base.antt =====
-- The names that the other modules share: the libraries', Go's errors as values, the actions of a
-- stateful component, Boolean tests on numbers, and Go's text functions (child Text).
mod Text
mod Effects
mod Lists
mod Int
mod Splitting
unfoldable pub use Text.*
pub use Effects.*
unfoldable pub use Lists.*
pub use Int.*
unfoldable pub use Splitting.*
pub use Prim.Native.Nat.{ℕ, zero, suc, ◌+◌, ◌-◌, ◌*◌, ◌≤◌, ◌<◌}
pub use Prim.Native.String.{String}
pub use mathlib.Core.Path.{◌≡◌, refl, sym, ◌∙◌, ap, subst, fun_ext}
pub use mathlib.Core.Logic.{◌≢◌, ◌↔◌, ◌⊎◌, inl, inr}
pub use mathlib.Core.Bool.{Bool, true, false, not, ◌&&◌, ◌||◌}
pub use mathlib.Core.Option.{Option, none, some}
pub use mathlib.Core.List.{List, [], ◌∷◌, ◌++◌, map, Memᴰ, append-nil, append_assoc}
pub use native.Mathlib.Omega.{arith}
pub use text.Mathlib.Text.{◌==◌}
pub use text.Mathlib.TextEquality.{eq_iff}
