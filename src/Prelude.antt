-- ===== src/Prelude.antt =====
-- The names that every component shares: the libraries', passed on, tests on native numbers,
-- lists indexed by native numbers, C strings, signed integers and the results of calls.
pub mod Tests
pub mod Lists
pub mod Members
pub mod CString
pub mod Results
pub mod Int
pub mod File
pub use Tests.*
pub use Lists.*
pub use Members.*
unfoldable pub use CString.*
pub use Results.*
pub use File.*
pub use Prim.Native.Nat.{ℕ, zero, suc, ◌+◌, ◌-◌, ◌*◌, ◌/◌, ◌%◌, ◌^◌, ◌≤◌, ◌<◌, min}
pub use mathlib.Core.Path.{◌≡◌, refl, sym, ap, ◌∙◌, subst}
pub use mathlib.Core.Logic.{◌≢◌, ◌⊎◌, inl, inr, ◌↔◌}
pub use mathlib.Core.Bool.{Bool, true, false, not, ◌&&◌, ◌||◌}
pub use mathlib.Core.Option.{Option, none, some}
pub use mathlib.Core.List.{List, [], ◌∷◌, ◌++◌, map, append-nil, append_assoc}
pub use native.Mathlib.Omega.{arith}
