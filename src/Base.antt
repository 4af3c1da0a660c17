-- ===== src/Base.antt =====
-- The names that the modules share: the libraries', passed on, and those of the children: Boolean
-- tests, lists by native numbers, signed integers, words and bytes, keyed lists, and the parts of
-- Rust's `str` that the driver calls. A `String` is the list of its code points.
mod Tests
mod Lists
mod Searches
mod Segments
mod Int
mod Words
mod Text
mod Utf8
mod Keyed
pub use Tests.*
pub use Lists.*
pub use Searches.*
pub use Segments.*
pub use Int.*
pub use Words.*
unfoldable pub use Text.*
unfoldable pub use Utf8.*
unfoldable pub use Keyed.*
pub use Prim.Native.Nat.{ℕ, zero, suc, ◌+◌, ◌-◌, ◌*◌, ◌/◌, ◌%◌, ◌^◌, ◌≤◌, ◌<◌, min, max}
pub use mathlib.Core.Path.{◌≡◌, refl, sym, ap, ap₂, ◌∙◌}
pub use mathlib.Core.Logic.{◌≢◌, ◌↔◌, ◌⊎◌, inl, inr}
pub use mathlib.Core.Bool.{Bool, true, false, not, ◌&&◌, ◌||◌}
pub use mathlib.Core.Option.{Option, none, some}
pub use mathlib.Core.List.{List, [], ◌∷◌, ◌++◌, map}
pub use native.Mathlib.Omega.{arith}
