-- ===== src/Base.antt =====
-- Names, tests, byte strings and bit laws that the models of the extensions share.
mod Tests
mod Lists
mod Maps
mod Strings
mod Bits
mod Int
mod Decimal
pub use Tests.*
pub use Lists.*
pub use Maps.*
unfoldable pub use Strings.*
pub use Bits.*
unfoldable pub use Int.*
unfoldable pub use Decimal.*
pub use Prim.Native.Nat.{ℕ, zero, suc, ◌+◌, ◌-◌, ◌*◌, ◌/◌, ◌%◌, ◌^◌, ◌≤◌, ◌<◌, bit_and}
pub use mathlib.Core.Path.{◌≡◌, refl, sym, ap, ◌∙◌, subst}
pub use mathlib.Core.Logic.{◌≢◌, ◌↔◌, ◌⊎◌, inl, inr}
pub use mathlib.Core.Bool.{Bool, true, false, not, ◌&&◌, ◌||◌}
pub use mathlib.Core.Option.{Option, none, some}
pub use mathlib.Core.List.{List, [], ◌∷◌, ◌++◌, map}
pub use native.Mathlib.Omega.{arith}
