-- ===== src/Base.antt =====
-- Names that the other modules share: the libraries', passed on, tests on numbers, lists and maps.
mod Tests
mod Lists
mod Maps
unfoldable pub use Maps.{lookup, insert, delete}
pub use Maps.{
  lookup-insert, lookup-delete, Assoc, Distinct, insert-Distinct, delete-Distinct, lookup-Absent,
  Absent,
}
unfoldable pub use Tests.{eqb}
unfoldable pub use Lists.{keep, gather}
pub use Tests.*
pub use Lists.*
pub use Prim.Native.Nat.{ℕ, zero, suc, ◌+◌, ◌-◌, ◌*◌, ◌/◌, ◌%◌, ◌^◌, ◌≤◌, ◌<◌, min}
pub use Prim.Native.String.{String}
pub use mathlib.Core.Path.{◌≡◌, refl, sym, ap, subst, ◌∙◌, ◌≡⟨◌⟩◌, ◌∎}
pub use mathlib.Core.Logic.{◌≢◌, ◌↔◌, ◌⊎◌, inl, inr}
pub use mathlib.Core.Bool.{Bool, true, false, not, ◌&&◌, ◌||◌}
pub use mathlib.Core.Option.{Option, none, some}
pub use mathlib.Core.List.{List, [], ◌∷◌, ◌++◌, map}
pub use native.Mathlib.Omega.{arith}

-- The Boolean tests, read as what they decide.
pub ruleset tests = (arith, ==_iff, eqb_iff, is_empty-false)
