-- ===== src/Base.antt =====
-- The names that the other modules share: those of the libraries, passed on, tests on numbers and
-- texts, results of code that may raise, and the tables of a database.
mod Tests
mod Results
pub mod Table
pub mod Chars
unfoldable pub use Tests.*
unfoldable pub use Results.*
unfoldable pub use Chars.{Text, codes, text_eq, Text-Eq}
pub use Chars.{text_eq_iff}
pub use Prim.Native.Nat.{ℕ, zero, suc, ◌+◌, ◌-◌, ◌*◌, ◌/◌, ◌%◌, ◌^◌, ◌≤◌, ◌<◌}
pub use Prim.Native.String.{String}
pub use mathlib.Core.Path.{◌≡◌, refl, sym, ap, ◌∙◌}
pub use mathlib.Core.Logic.{◌≢◌, ◌↔◌, ◌⊎◌, inl, inr}
pub use mathlib.Core.Bool.{Bool, true, false, not, ◌&&◌, ◌||◌}
pub use mathlib.Core.Option.{Option, none, some}
pub use mathlib.Core.List.{List, [], ◌∷◌, ◌++◌, map}
pub use native.Mathlib.Omega.{arith}
pub use text.Mathlib.TextEquality.{eq_iff}
