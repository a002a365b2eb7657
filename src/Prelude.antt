-- ===== src/Prelude.antt =====
-- Names that the other modules share: those of the libraries, passed on, and of the children:
-- Boolean tests, lists measured by the native numbers, and machine words.
mod Tests
mod Lists
mod Words
mod Results
mod Slices
mod Maps
mod Indexing
pub use Tests.*
pub use Lists.*
pub use Words.*
pub use Results.*
pub use Slices.*
pub use Maps.*
pub use Indexing.*
pub use Prim.Native.Nat.{ℕ, zero, suc, ◌+◌, ◌-◌, ◌*◌, ◌/◌, ◌%◌, ◌^◌, ◌≤◌, ◌<◌, min}
pub use mathlib.Core.Path.{◌≡◌, refl, sym, ap, ap₂, subst, ◌∙◌}
pub use mathlib.Core.Logic.{◌≢◌, ◌↔◌, ◌⊎◌, inl, inr}
pub use mathlib.Core.Bool.{Bool, true, false, not, ◌&&◌, ◌||◌}
pub use mathlib.Core.Option.{Option, none, some}
pub use mathlib.Core.List.{List, [], ◌∷◌, ◌++◌, map, append-nil, append_assoc}
pub use native.Mathlib.Omega.{arith}
