-- ===== src/Prelude.antt =====
-- The names that the other modules share: the libraries', passed on, and those of the children.
mod Tests
mod Lists
mod Int
mod IntMap
pub use Tests.*
pub use Lists.*
unfoldable pub use Int.{to_int32, to_uint64}
pub use Int.{
  ℤ, pos, negsuc, minus_one, ◌≤ℤ◌, ◌==ℤ◌, ==ℤ_iff, ==ℤ_refl, signed32, to_int32_pos,
  to_int32_negsuc,
}
unfoldable pub use IntMap.{lookup, insert, erase}
pub use IntMap.{Map, contains, lookup-insert, lookup-erase, lookup-insert_self}
pub use Prim.Native.Nat.{ℕ, zero, suc, ◌+◌, ◌-◌, ◌*◌, ◌/◌, ◌%◌, ◌^◌, ◌≤◌, ◌<◌, min, max}
pub use mathlib.Core.Path.{◌≡◌, refl, sym, ap, ◌∙◌, subst}
pub use mathlib.Core.Logic.{◌≢◌, ◌↔◌, ◌⊎◌, inl, inr}
pub use mathlib.Core.Bool.{Bool, true, false, not, ◌&&◌, ◌||◌}
pub use mathlib.Core.Option.{Option, none, some}
pub use mathlib.Core.List.{List, [], ◌∷◌, ◌++◌, map, append-nil, append_assoc}
pub use native.Mathlib.Nat.{mod-eq_of_lt}
pub use native.Mathlib.Omega.{arith}
