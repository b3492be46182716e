-- ===== src/Prelude/Sizes.antt =====
-- The entries of a map, counted; and that writing keeps one entry to a key.
use Prim.Native.Nat.{◌≤◌, ◌<◌}
use Prim.Native.String.{String}
use mathlib.Core.Path.{◌≡◌, refl, subst}
use mathlib.Core.Logic.{inl, inr}
use mathlib.Core.Bool.{false}
use mathlib.Core.Option.{none, some}
use mathlib.Core.List.{[], ◌∷◌}
use native.Mathlib.Omega.{arith}
use text.Mathlib.Text.{◌==◌}
use text.Mathlib.TextEquality.{eq_iff}
use dra_driver_spyre.Prelude.Tests.{Bool-cases}
use dra_driver_spyre.Prelude.Lists.{length}
use dra_driver_spyre.Prelude.Maps.{Map, lookup, insert, delete, IsUnique, lookup-insert}

module _ {ℓ} {V : Type ℓ} where
  other_absent :
      (key name : String) (value : V) (rest : Map V)
      → (name == key) ≡ false
      → lookup name rest ≡ none
      → lookup name (insert key value rest) ≡ none
  other_absent key name value rest ne absent =
      ground (arith, eq_iff name key, eq_iff key name, lookup-insert key name value rest)

  pub insert-IsUnique :
      (key : String) (value : V) (m : Map V) → IsUnique m → IsUnique (insert key value m)
  unfolding lookup insert
  insert-IsUnique key value [] u = (refl, tt)
  insert-IsUnique key value ((name, old) ∷ rest) (absent, u) = elim (Bool-cases (name == key)) [
    | inl e ↦ rw (insert, e) (subst (λ k. lookup k rest ≡ none) ((eq_iff name key).0 e) absent, u)
    | inr ne ↦
        rw (insert, ne)
          (other_absent key name value rest ne absent, insert-IsUnique key value rest u)
  ]

  size-delete_le : (key : String) (m : Map V) → length (delete key m) ≤ length m
  unfolding delete
  size-delete_le key [] = omega arith
  size-delete_le key ((name, old) ∷ rest) = ground (arith, size-delete_le key rest)

  pub size-delete :
      (key : String) (value : V) (m : Map V)
      → lookup key m ≡ some value
      → length (delete key m) < length m
  unfolding lookup delete
  size-delete key value [] h = cc
  size-delete key value ((name, old) ∷ rest) h =
      ground (arith, eq_iff name key, size-delete key value rest, size-delete_le key rest)
