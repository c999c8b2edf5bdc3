-- ===== src/Prelude.antt =====
-- The names that the other modules share: the libraries', passed on, and those of the children.
-- `Tests`: Boolean tests and Go's `==`; `Lists`: slices; `Map`: Go's maps; `Text`: Go's strings;
-- `Int`: Go's `int`; `Sort`: sort.Strings; `Decimal`: strconv.Itoa; `Results`: a result and the state behind it.
pub mod Tests
pub mod Results
pub mod Lists
pub mod Map
pub mod Table
pub mod Text
pub mod Int
pub mod Sort
pub mod Decimal
pub use Tests.*
pub use Lists.*
pub use Prim.Native.Nat.{ℕ, zero, suc, ◌+◌, ◌-◌, ◌*◌, ◌/◌, ◌%◌, ◌^◌, ◌≤◌, ◌<◌}
pub use mathlib.Core.Path.{◌≡◌, refl, sym, ap, ◌∙◌}
pub use mathlib.Core.Logic.{◌≢◌, ◌↔◌, ◌⊎◌, inl, inr}
pub use mathlib.Core.Bool.{Bool, true, false, ◌&&◌, ◌||◌, not}
pub use mathlib.Core.Option.{Option, none, some}
pub use mathlib.Core.List.{List, [], ◌∷◌, ◌++◌, map, append-nil, append_assoc}
pub use native.Mathlib.Omega.{arith}
