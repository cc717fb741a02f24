-- ===== src/Shared.antt =====
-- Names that the models share: the libraries' types and notation, and the children's helpers.
mod Tests
mod Lists
pub mod Int
mod Keyed
mod Dict
pub mod Options
pub use Tests.*
pub use Lists.*
unfoldable pub use Keyed.{find_id, erase_id, replace_id}
pub use Keyed.{
  All-erase_id, All-replace_id, All-find_id, find_id-append, find_id-erase_id, find_id-replace_id,
}
unfoldable pub use Dict.{lookup, insert, erase}
pub use Dict.{lookup-insert, lookup-erase}
pub use Prim.Native.Nat.{ℕ, zero, suc, ◌+◌, ◌-◌, ◌*◌, ◌/◌, ◌%◌, ◌^◌, ◌≤◌, ◌<◌, min, max}
pub use Prim.Native.String.{String}
pub use mathlib.Core.Path.{◌≡◌, refl, sym, ap, ◌∙◌}
pub use mathlib.Core.Logic.{◌≢◌, ◌↔◌, ◌⊎◌, inl, inr}
pub use mathlib.Core.Bool.{Bool, true, false, not, ◌&&◌, ◌||◌}
pub use mathlib.Core.Option.{Option, none, some}
pub use mathlib.Core.List.{List, [], ◌∷◌, ◌++◌, map}
pub use native.Mathlib.Omega.{arith}
pub use text.Mathlib.Text.{◌==◌ as str_eq}
pub use text.Mathlib.TextEquality.{eq_iff}
