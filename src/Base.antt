-- ===== src/Base.antt =====
-- The names that the other modules share: those of the libraries, passed on, and six children.
mod Tests
mod Lists
mod Chars
mod Js
mod Decimal
mod Digits
pub use Tests.*
pub use Lists.*
pub use Chars.*
pub use Js.*
unfoldable pub use Decimal.{show}
pub use Digits.{digits_value, digits_value-number_text, number_text-All, number_text-ne-nil}
unfoldable pub use Digits.{number_text}
pub use Prim.Native.Nat.{ℕ, zero, suc, ◌+◌, ◌-◌, ◌*◌, ◌/◌, ◌%◌, ◌^◌, ◌≤◌, ◌<◌}
pub use Prim.Native.String.{String, ◌++◌ as ◌<>◌}
pub use mathlib.Core.Path.{◌≡◌, refl, sym, ap, ◌∙◌}
pub use mathlib.Core.Logic.{◌≢◌, ◌↔◌, ◌⊎◌, inl, inr}
pub use mathlib.Core.Bool.{Bool, true, false, ◌&&◌, ◌||◌, not}
pub use mathlib.Core.Option.{Option, none, some}
pub use mathlib.Core.List.{List, [], ◌∷◌, ◌++◌, append_assoc, append-nil}
pub use native.Mathlib.Omega.{arith}
pub use text.Mathlib.Text.{starts_with}
pub use text.Mathlib.TextEquality.{eq_iff}
pub use text.Mathlib.TextPositions.{eq_refl}
