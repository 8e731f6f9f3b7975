-- ===== src/Base.antt =====
-- What every module shares: the library's names, tests on numbers and texts, saturating
-- arithmetic, results with errors, and maps keyed by texts. It models no code of its own, but
-- for the operations of Rust's integers, strings, `Option` and `Result` that the contracts use.
mod Tests
mod Texts
mod Words
mod Results
pub mod Maps
pub mod Sets
pub use Tests.*
unfoldable pub use Texts.*
pub use Words.*
pub use Results.*
pub use Prim.Native.Nat.{ℕ, zero, suc, ◌+◌, ◌-◌, ◌*◌, ◌/◌, ◌%◌, ◌^◌, ◌≤◌, ◌<◌, min, max}
pub use mathlib.Core.Path.{◌≡◌, refl, sym, ap, ◌∙◌, subst}
pub use mathlib.Core.Logic.{◌≢◌, ◌↔◌, ◌⊎◌, inl, inr}
pub use mathlib.Core.Bool.{Bool, true, false, not, ◌&&◌, ◌||◌}
pub use mathlib.Core.Option.{Option, none, some}
pub use mathlib.Core.List.{List, [], ◌∷◌, ◌++◌, map}
pub use native.Mathlib.Omega.{arith}
