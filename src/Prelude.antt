-- ===== src/Prelude.antt =====
-- Shared notation and helpers: the libraries' names passed on, and the lists, tests, dictionaries
-- and integers that several components use. Nothing here models a particular file of the
-- repository, except that `Map` stands for the standard library's ordered map `BTreeMap`.
mod Tests
mod Lists
mod Results
pub mod Map
pub mod Int
pub mod Bits
pub mod Bytes
unfoldable pub use Tests.*
unfoldable pub use Lists.*
unfoldable pub use Results.*
pub use Prim.Native.Nat.{
  ℕ, zero, suc, ◌+◌, ◌-◌, ◌*◌, ◌/◌, ◌%◌, ◌^◌, ◌≤◌, ◌<◌, min, max, bit_and, bit_or, bit_xor,
}
pub use mathlib.Core.Path.{◌≡◌, refl, sym, ap, subst, ◌∙◌}
pub use mathlib.Core.Logic.{◌≢◌, ◌↔◌, ◌⊎◌, inl, inr}
pub use mathlib.Core.Bool.{Bool, true, false, not, ◌&&◌, ◌||◌}
pub use mathlib.Core.Option.{Option, none, some}
pub use mathlib.Core.List.{List, [], ◌∷◌, ◌++◌, map}
pub use native.Mathlib.Omega.{arith}
