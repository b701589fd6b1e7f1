-- ===== src/Base.antt =====
-- Names that all modules share: the libraries' names passed on, Boolean tests on the native
-- numbers, lists, results of fallible code, and texts. It models no source file; texts stand for
-- Python's `str`, results for calls that may raise.
mod Tests
mod Lists
mod Results
mod Texts
pub mod Int
pub use Tests.*
pub use Lists.*
pub use Results.*
unfoldable pub use Texts.*
pub use Prim.Native.Nat.{ℕ, zero, suc, ◌+◌, ◌-◌, ◌*◌, ◌/◌, ◌%◌, ◌^◌, ◌≤◌, ◌<◌}
pub use mathlib.Core.Path.{◌≡◌, refl, sym, ap, ◌∙◌, subst}
pub use mathlib.Core.Logic.{◌≢◌, ◌↔◌, ◌⊎◌, inl, inr}
pub use mathlib.Core.Bool.{Bool, true, false, not, ◌&&◌, ◌||◌}
pub use mathlib.Core.Option.{Option, none, some, some-injective}
pub use mathlib.Core.List.{List, [], ◌∷◌, ◌++◌, map, filter, append_assoc, append-nil}
pub use native.Mathlib.Omega.{arith}
