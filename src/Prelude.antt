-- ===== src/Prelude.antt =====
-- The names that the other modules share: the libraries', passed on, and those of the children.
mod Tests
mod Text
mod Maps
mod Lists
mod Sizes
pub mod Int
pub mod Any
pub use Tests.*
unfoldable pub use Text.{str_lt}
pub use Text.{str_lt_irrefl, str_lt_trans, str_lt_total, str_cases}
unfoldable pub use Maps.{lookup, insert, delete, has}
pub use Maps.{
  Map, keys, lookup-insert, lookup-delete, lookup-insert_self, lookup-insert_ne, lookup-delete_self,
  lookup-delete_ne, keys-insert, mem-keys, lookup-keys, IsUnique,
}
unfoldable pub use Lists.{contains}
pub use Lists.{
  ◌>>=◌, length, length-append, Memᴰ-cons, contains_iff, mem_cases, mem_left, mem_right,
}
pub use Sizes.{insert-IsUnique, size-delete}
pub use Prim.Native.Nat.{ℕ, zero, suc, ◌+◌, ◌-◌, ◌*◌, ◌≤◌, ◌<◌}
pub use Prim.Native.String.{String}
pub use mathlib.Core.Path.{◌≡◌, refl, sym, ◌∙◌, ap, subst}
pub use mathlib.Core.Logic.{◌≢◌, ◌↔◌, ◌⊎◌, inl, inr}
pub use mathlib.Core.Bool.{Bool, true, false, not, ◌&&◌, ◌||◌}
pub use mathlib.Core.Option.{Option, none, some}
pub use mathlib.Core.List.{List, [], ◌∷◌, ◌++◌, map, Memᴰ}
pub use native.Mathlib.Omega.{arith}
pub use text.Mathlib.Text.{◌==◌}
pub use text.Mathlib.TextEquality.{eq_iff}
