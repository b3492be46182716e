-- ===== src/Prelude/Lists.antt =====
-- Lists under native numbers, and membership.
use Prim.Native.Nat.{ℕ, suc, ◌+◌}
use Prim.Native.String.{String}
use mathlib.Core.Path.{◌≡◌, sym}
use mathlib.Core.Logic.{◌⊎◌, inl, inr, ◌↔◌, ⊎_elim}
use mathlib.Core.Bool.{Bool, true, false}
use mathlib.Core.Option.{Option, none, some}
use mathlib.Core.List.{List, [], ◌∷◌, ◌++◌, Memᴰ}
use mathlib.Core.List.Memᴰ
use native.Mathlib.Omega.{arith}
use text.Mathlib.Text.{◌==◌}
use dra_driver_spyre.Prelude.Tests.{if◌then◌else◌, Bool-cases}
use text.Mathlib.TextEquality.{eq_iff}

-- A chain of steps of which one may give nothing.
infixl 5 ◌>>=◌
abbrev pub ◌>>=◌ {ℓ κ} : {A : Type ℓ} {B : Type κ} → Option A → (A → Option B) → Option B
none >>= f = none
some a >>= f = f a

module _ {ℓ} {A : Type ℓ} where
  abbrev pub length : List A → ℕ
  length [] = 0
  length (x ∷ xs) = suc (length xs)

  pub length-append : (xs ys : List A) → length (xs ++ ys) ≡ length xs + length ys
  length-append [] ys = omega arith
  length-append (x ∷ xs) ys = omega (arith, length-append xs ys)

  pub Memᴰ-cons : (a x : A) (xs : List A) → Memᴰ a (x ∷ xs) ↔ ((a ≡ x) ⊎ Memᴰ a xs)
  Memᴰ-cons a x xs = (Memᴰ.cases_cons, ⊎_elim Memᴰ.head Memᴰ.tail)

-- slices.Contains
unfoldable pub contains : List String → String → Bool
contains [] a = false
contains (x ∷ xs) a = if x == a then true else contains xs a

pub contains_iff : (xs : List String) (a : String) → (contains xs a ≡ true) ↔ Memᴰ a xs
unfolding contains
contains_iff [] a = (λ h. cc, λ m. absurd (Memᴰ.not-nil m))
contains_iff (x ∷ xs) a = elim (Bool-cases (x == a)) [
  | inl e ↦ (λ _. Memᴰ.head (sym ((eq_iff x a).0 e)), λ _. rw e)
  | inr ne ↦ (
    λ h. Memᴰ.tail ((contains_iff xs a).0 (rw ne at h)),
    λ m. rw ne (elim (Memᴰ.cases_cons m) [
      | inl e ↦ cc ((eq_iff x a).1 (sym e))
      | inr later ↦ (contains_iff xs a).1 later
    ]),
  )
]

-- Membership of a text is decided.
pub mem_cases : (a : String) (xs : List String) → Memᴰ a xs ⊎ (¬ Memᴰ a xs)
mem_cases a xs = elim (Bool-cases (contains xs a)) [
  | inl h ↦ inl ((contains_iff xs a).0 h)
  | inr h ↦ inr (λ m. cc ((contains_iff xs a).1 m))
]

module _ {ℓ} {A : Type ℓ} where
  pub mem_left : (x : A) (xs ys : List A) → Memᴰ x xs → Memᴰ x (xs ++ ys)
  mem_left x [] ys m = absurd (Memᴰ.not-nil m)
  mem_left x (y ∷ xs) ys m = elim (Memᴰ.cases_cons m) [
    | inl e ↦ Memᴰ.head e
    | inr later ↦ Memᴰ.tail (mem_left x xs ys later)
  ]

  pub mem_right : (x : A) (xs ys : List A) → Memᴰ x ys → Memᴰ x (xs ++ ys)
  mem_right x [] ys m = m
  mem_right x (y ∷ xs) ys m = Memᴰ.tail (mem_right x xs ys m)
