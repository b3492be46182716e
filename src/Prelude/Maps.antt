-- ===== src/Prelude/Maps.antt =====
-- Go's maps with string keys, as association lists: one entry to a key, in some order. The order of
-- the list stands for the order in which a `range` over the map happens to go.
use Prim.Native.String.{String}
use mathlib.Core.Path.{◌≡◌, refl, sym}
use mathlib.Core.Logic.{◌≢◌, inl, inr}
use mathlib.Core.Bool.{Bool, true, false}
use mathlib.Core.Option.{Option, none, some}
use mathlib.Core.List.{List, [], ◌∷◌, Memᴰ}
use mathlib.Core.List.Memᴰ
use native.Mathlib.Omega.{arith}
use text.Mathlib.Text.{◌==◌}
use text.Mathlib.TextEquality.{eq_iff}
use dra_driver_spyre.Prelude.Tests.{if◌then◌else◌}
use dra_driver_spyre.Prelude.Text.{str_cases}

abbrev pub Map {ℓ} : Type ℓ → Type ℓ
Map V = List (String × V)

module _ {ℓ} {V : Type ℓ} where
  -- v, ok := m[key]
  unfoldable pub lookup : String → Map V → Option V
  lookup key [] = none
  lookup key ((name, value) ∷ rest) = if name == key then some value else lookup key rest

  -- m[key] = value
  unfoldable pub insert : String → V → Map V → Map V
  insert key value [] = (key, value) ∷ []
  insert key value ((name, old) ∷ rest) =
      if name == key then (key, value) ∷ rest else (name, old) ∷ insert key value rest

  -- delete(m, key)
  unfoldable pub delete : String → Map V → Map V
  delete key [] = []
  delete key ((name, value) ∷ entries) =
      let rest = delete key entries in if name == key then rest else (name, value) ∷ rest

  -- the keys, in the order of a `range`
  abbrev pub keys : Map V → List String
  keys [] = []
  keys ((name, value) ∷ rest) = name ∷ keys rest

  -- _, ok := m[key]
  unfoldable pub has : String → Map V → Bool
  has key m = elim (lookup key m) [ none ↦ false | some _ ↦ true ]

  pub lookup-insert :
      (key other : String) (value : V) (entries : Map V)
      → lookup other (insert key value entries)
        ≡ (if key == other then some value else lookup other entries)
  unfolding lookup insert
  lookup-insert key other value [] = refl
  lookup-insert key other value ((name, old) ∷ rest) = ground (
    arith,
    lookup-insert key other value rest,
    eq_iff name key,
    eq_iff name other,
    eq_iff key other,
  )

  pub lookup-delete :
      (k j : String) (m : Map V) → lookup j (delete k m) ≡ (if k == j then none else lookup j m)
  unfolding lookup delete
  lookup-delete k j [] = ground arith
  lookup-delete k j ((i, w) ∷ m) =
      ground (arith, lookup-delete k j m, eq_iff i k, eq_iff i j, eq_iff k j)

  pub lookup-insert_self : (k : String) (v : V) (m : Map V) → lookup k (insert k v m) ≡ some v
  lookup-insert_self k v m = ground (arith, lookup-insert k k v m, eq_iff k k)

  pub lookup-insert_ne :
      (k j : String) (v : V) (m : Map V) → k ≢ j → lookup j (insert k v m) ≡ lookup j m
  lookup-insert_ne k j v m h = ground (arith, lookup-insert k j v m, eq_iff k j)

  pub lookup-delete_self : (k : String) (m : Map V) → lookup k (delete k m) ≡ none
  lookup-delete_self k m = ground (arith, lookup-delete k k m, eq_iff k k)

  pub lookup-delete_ne : (k j : String) (m : Map V) → k ≢ j → lookup j (delete k m) ≡ lookup j m
  lookup-delete_ne k j m h = ground (arith, lookup-delete k j m, eq_iff k j)

  -- Writing at a key that is there keeps the list of keys.
  pub keys-insert :
      (k : String) (v w : V) (m : Map V) → lookup k m ≡ some w → keys (insert k v m) ≡ keys m
  unfolding lookup insert
  keys-insert k v w [] h = cc
  keys-insert k v w ((i, u) ∷ m) h = ground (arith, eq_iff i k, keys-insert k v w m)

later_key : (x k : String) (ks : List String) → k ≢ x → Memᴰ x (k ∷ ks) → Memᴰ x ks
later_key x k ks ne m = elim (Memᴰ.cases_cons m) [ inl e ↦ absurd (ne (sym e)) | inr later ↦ later ]

module _ {ℓ} {V : Type ℓ} where
  pub mem-keys : (x : String) (v : V) (m : Map V) → lookup x m ≡ some v → Memᴰ x (keys m)
  unfolding lookup
  mem-keys x v [] h = cc
  mem-keys x v ((k, w) ∷ m) h = elim (str_cases k x) [
    | inl e ↦ Memᴰ.head (sym e)
    | inr ne ↦ Memᴰ.tail (mem-keys x v m (ground (arith, eq_iff k x)))
  ]

  pub lookup-keys : (x : String) (m : Map V) → Memᴰ x (keys m) → (v : V) × (lookup x m ≡ some v)
  unfolding lookup
  lookup-keys x [] h = absurd (Memᴰ.not-nil h)
  lookup-keys x ((k, w) ∷ m) h = elim (str_cases k x) [
    | inl e ↦ (w, ground (arith, eq_iff k x))
    | inr ne ↦
        let (v, l) = lookup-keys x m (later_key x k (keys m) ne h) in
        (v, ground (arith, eq_iff k x))
  ]

-- A map has one entry to a key.
abbrev pub IsUnique {ℓ} : {V : Type ℓ} → Map V → Type ℓ
IsUnique [] = Unit
IsUnique ((name, value) ∷ rest) = (lookup name rest ≡ none) × IsUnique rest
