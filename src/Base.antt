-- ===== src/Base.antt =====
-- The names that the other modules share: those of the libraries, passed on, and of the children.
mod Tests
mod Lists
pub mod Int
pub mod Text
pub mod Dict
pub mod Decimal
pub mod Printed
pub mod Split
pub use Tests.*
pub use Lists.*
pub use Int.{ℤ, pos, negsuc, pos_part, leb_ℤ, ltb_ℤ, IsInt}
unfoldable pub use Int.{◌-ℤ◌, ◌*ℤ◌, wrap, half}
unfoldable pub use Text.{is_space, trim_space}
unfoldable pub use Decimal.{atoi}
unfoldable pub use Printed.{itoa}
pub use Printed.{atoi-itoa}
unfoldable pub use Split.{split_on, has_none}
pub use Split.{split_on-append, split_on_of_none}
pub use Decimal.{atoi-IsInt}
pub use Text.{trim_space_of_ink, trim_space_idem, less, less_swap}
pub use Prim.Native.Nat.{ℕ, zero, suc, ◌+◌, ◌-◌, ◌*◌, ◌/◌, ◌%◌, ◌^◌, ◌≤◌, ◌<◌}
pub use Prim.Native.String.{String, ◌++◌ as cat}
pub use mathlib.Core.Path.{◌≡◌, refl, sym, ap, ◌∙◌, subst}
pub use mathlib.Core.Logic.{◌≢◌, ◌↔◌, ◌⊎◌, inl, inr}
pub use mathlib.Core.Bool.{Bool, true, false, not, ◌&&◌, ◌||◌}
pub use mathlib.Core.Option.{Option, none, some}
pub use mathlib.Core.List.{List, [], ◌∷◌, ◌++◌, map}
pub use native.Mathlib.Omega.{arith}
pub use text.Mathlib.Text.{◌==◌ as eqb}
pub use text.Mathlib.TextEquality.{eq_iff}
pub use text.Mathlib.TextPositions.{eq_refl}
