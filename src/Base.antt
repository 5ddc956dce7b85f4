-- ===== src/Base.antt =====
-- What the other modules share: library names passed on, Boolean tests, lists under native indices,
-- C's strings and signed integers.
mod Tests
mod Lists
mod Int
mod Bytes
mod Members
mod Lines
mod Digits
mod Numerals
mod Scan
unfoldable pub use Tests.*
pub use Lists.*
pub use Int.*
pub use Members.*
unfoldable pub use Bytes.*
unfoldable pub use Lines.*
unfoldable pub use Digits.*
pub use Numerals.*
unfoldable pub use Scan.*
pub use Prim.Native.Nat.{ℕ, zero, suc, ◌+◌, ◌-◌, ◌*◌, ◌/◌, ◌%◌, ◌^◌, ◌≤◌, ◌<◌, min}
pub use mathlib.Core.Path.{◌≡◌, refl, sym, ap, subst, ◌∙◌}
pub use mathlib.Core.Logic.{◌≢◌, ◌↔◌, ◌⊎◌, inl, inr}
pub use mathlib.Core.Bool.{Bool, true, false, not, ◌&&◌, ◌||◌}
pub use mathlib.Core.Option.{Option, none, some}
pub use mathlib.Core.List.{
  List, [], ◌∷◌, ◌++◌, map, reverse, reverse_aux, reverse_aux-eq, reverse-append, append_assoc,
  append-nil,
}
pub use native.Mathlib.Omega.{arith}
