-- ===== src/Prelude/Text.antt =====
-- The order of Go's `<` on strings. Go compares bytes; on UTF-8 text that is the order of the code
-- points, by which the clauses go.
use Prim.Native.Nat.{ℕ, compare, Ordering}
use Prim.Native.Char.{Char, code}
use Prim.Native.String.{String}
use mathlib.Core.Path.{◌≡◌, refl, ap₂}
use mathlib.Core.Bool.{Bool, true, false}
use native.Mathlib.Omega.{arith}
use text.Mathlib.TextEquality.{codes_equal, eq_iff}
use text.Mathlib.Text.{◌==◌}
use mathlib.Core.Logic.{◌≢◌, ◌⊎◌, inl, inr}
use dra_driver_spyre.Prelude.Tests.{ltb, eqb, if◌then◌else◌, Bool-cases}

unfoldable pub str_lt : String → String → Bool
str_lt String.[] String.[] = false
str_lt String.[] (String.◌∷◌ d t) = true
str_lt (String.◌∷◌ c s) String.[] = false
str_lt (String.◌∷◌ c s) (String.◌∷◌ d t) =
    if ltb (code c) (code d) then true else if eqb (code c) (code d) then str_lt s t else false

pub str_lt_irrefl : (s : String) → str_lt s s ≡ false
unfolding str_lt
str_lt_irrefl String.[] = refl
str_lt_irrefl (String.◌∷◌ c s) = ground (arith, str_lt_irrefl s)

pub str_lt_trans : (s t u : String) → str_lt s t ≡ true → str_lt t u ≡ true → str_lt s u ≡ true
unfolding str_lt
str_lt_trans String.[] String.[] u h k = cc
str_lt_trans String.[] (String.◌∷◌ d t) String.[] h k = cc
str_lt_trans String.[] (String.◌∷◌ d t) (String.◌∷◌ e u) h k = refl
str_lt_trans (String.◌∷◌ c s) String.[] u h k = cc
str_lt_trans (String.◌∷◌ c s) (String.◌∷◌ d t) String.[] h k = cc
str_lt_trans (String.◌∷◌ c s) (String.◌∷◌ d t) (String.◌∷◌ e u) h k =
    ground (arith, str_lt_trans s t u)

same_code : (m n : ℕ) → m ≡ n → compare m n ≡ Ordering.eq
same_code m n h = ground arith

-- A text whose head is not below another's head, nor above it, has the same head; and the tails
-- are again unordered.
unordered_heads :
    (c d : Char) (s t : String)
    → str_lt (String.◌∷◌ c s) (String.◌∷◌ d t) ≡ false
    → str_lt (String.◌∷◌ d t) (String.◌∷◌ c s) ≡ false
    → (code c ≡ code d) × (str_lt s t ≡ false) × (str_lt t s ≡ false)
unfolding str_lt
unordered_heads c d s t h k = ground arith

-- Two texts of which neither is below the other are equal.
pub str_lt_total : (s t : String) → str_lt s t ≡ false → str_lt t s ≡ false → s ≡ t
unfolding str_lt
str_lt_total String.[] String.[] h k = refl
str_lt_total String.[] (String.◌∷◌ d t) h k = cc
str_lt_total (String.◌∷◌ c s) String.[] h k = cc
str_lt_total (String.◌∷◌ c s) (String.◌∷◌ d t) h k =
    let (heads, below, above) = unordered_heads c d s t h k in
    ap₂ String.◌∷◌ (codes_equal c d (same_code (code c) (code d) heads))
      (str_lt_total s t below above)

pub str_cases : (s t : String) → (s ≡ t) ⊎ (s ≢ t)
str_cases s t = elim (Bool-cases (s == t)) [
  | inl e ↦ inl ((eq_iff s t).0 e)
  | inr ne ↦ inr (λ e. ground (arith, eq_iff s t))
]
