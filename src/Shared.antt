-- ===== src/Shared.antt =====
-- What the components share: names of the libraries, Boolean tests, lists, and words of bits.
mod Tests
mod Lists
mod Bits
mod WellFounded
mod Int
mod Words
mod Format
pub use Tests.*
unfoldable pub use Lists.{count_below}
pub use Lists.*
unfoldable pub use Bits.{bit}
pub use Bits.*
pub use Int.*
pub use Words.*
unfoldable pub use Format.{codes, take, decimal_within, decimal, hex, spaces}
pub use Format.*
unfoldable pub use WellFounded.{lt_wf}
pub use WellFounded.{half-lt}
unfoldable pub use native.Mathlib.Decide.{dec_lt}
pub use Prim.Native.Nat.{
  ℕ, zero, suc, ◌+◌, ◌-◌, ◌*◌, ◌/◌, ◌%◌, ◌^◌, ◌≤◌, ◌<◌, min, max, bit_and, bit_or,
}
pub use mathlib.Core.Path.{◌≡◌, refl, sym, ap, ap₂, ◌∙◌, subst}
pub use mathlib.Core.Logic.{◌≢◌, ◌↔◌, ◌⊎◌, inl, inr, dite, dif_pos, dif_neg}
pub use native.Mathlib.Bridge.{le_prop}
pub use mathlib.Core.Bool.{Bool, true, false, not, ◌&&◌, ◌||◌, cond}
pub use mathlib.Core.Option.{Option, none, some}
pub use mathlib.Core.List.{List, [], ◌∷◌, ◌++◌, map}
pub use native.Mathlib.Omega.{arith}
pub use native.Mathlib.Nat.{pow-suc, add-zero, div-add-mod', mod-lt, zero-add, suc-add, add-suc}
