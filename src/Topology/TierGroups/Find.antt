-- ===== src/Topology/TierGroups/Find.antt =====
-- `find` of tier_groups.go: with more fuel than there are keys below its argument it returns the
-- root, and path compression moves no root.
use dra_driver_spyre.Prelude.{
  ℕ, zero, suc, ◌≤◌, ◌<◌, String, ◌≡◌, ◌≢◌, refl, sym, ◌∙◌, ap, subst, true, false, some, inl, inr,
  List, [], ◌∷◌, Memᴰ, lookup, insert, lookup-insert_self, keys, keys-insert, mem-keys, length,
  str_lt, str_lt_trans, str_lt_irrefl, str_cases, eq_iff, arith, if◌then◌else◌, Memᴰ-cons,
}
use mathlib.Core.List.Memᴰ
use dra_driver_spyre.Topology.TierGroups.{UnionFind, parent_of, find, fuel_of}
use dra_driver_spyre.Topology.TierGroups.Roots.{
  Root, up, top, Root-top, Root-key, Root-compress, Root-le, Root-Connected, IsForest,
  IsForest-insert,
}

-- the keys below x
abbrev pub below : String → List String → ℕ
below x [] = 0
below x (k ∷ ks) = let rest = below x ks in if str_lt k x then suc rest else rest

below-le-length : (x : String) (ks : List String) → below x ks ≤ length ks
below-le-length x [] = omega arith
below-le-length x (k ∷ ks) = ground (arith, below-le-length x ks)

below_mono : (y x : String) (ks : List String) → str_lt y x ≡ true → below y ks ≤ below x ks
below_mono y x [] h = omega arith
below_mono y x (k ∷ ks) h = ground (arith, below_mono y x ks h, str_lt_trans k y x)

below_strict :
    (y x : String) (ks : List String) → str_lt y x ≡ true → Memᴰ y ks → below y ks < below x ks
below_strict y x [] h m = absurd (Memᴰ.not-nil m)
below_strict y x (k ∷ ks) h m = elim ((Memᴰ-cons y k ks).0 m) [
  | inl e ↦
      let k_lt_x : str_lt k x ≡ true = subst (λ t. str_lt t x ≡ true) e h in
      let self : str_lt k y ≡ false = rw e (str_lt_irrefl k) in ground (arith, below_mono y x ks h)
  | inr later ↦ ground (arith, below_strict y x ks h later, str_lt_trans k y x)
]

length-keys : (p : UnionFind) → length (keys p) ≡ length p
length-keys [] = refl
length-keys ((k, v) ∷ p) = ap suc (length-keys p)

pub fuel_suffices : (x : String) (p : UnionFind) → below x (keys p) < fuel_of p
fuel_suffices x p = omega (arith, below-le-length x (keys p), length-keys p)

parent_of_lem : (p : UnionFind) (x y : String) → lookup x p ≡ some y → parent_of p x ≡ y
unfolding parent_of
parent_of_lem p x y h = rw (h, parent_of)

find-root :
    (n : ℕ) (p : UnionFind) (x : String) → parent_of p x ≡ x → find (suc n) x p ≡ some (x, p)
unfolding find
find-root n p x h = ground (arith, eq_iff (parent_of p x) x)

find-step :
    (n : ℕ) (p p1 : UnionFind) (x y r : String)
    → parent_of p x ≡ y
    → x ≢ y
    → find n y p ≡ some (r, p1)
    → find (suc n) x p ≡ some (r, insert x r p1)
unfolding find
find-step n p p1 x y r h ne e =
    ground (
      arith,
      eq_iff (parent_of p x) x,
      parent_of_lem (insert x r p1) x r (lookup-insert_self x r p1),
    )

-- What `find` may do to the map: the forest stays one, and every key keeps its root.
pub record Compressed (E : String → String → Type 0) (p p' : UnionFind) : Type 0 where
  pub forest : IsForest E p'
  pub roots : (s z : String) → Root p s z → Root p' s z
  pub same_keys : keys p' ≡ keys p

pub lt-ne : (r x : String) → str_lt r x ≡ true → x ≢ r
lt-ne r x h e =
    let self : str_lt r r ≡ true = subst (λ t. str_lt r t ≡ true) e h in cc (str_lt_irrefl r)

module _ {E : String → String → Type 0} where
  compress_lem :
      (p p1 : UnionFind) (x y r : String)
      → IsForest E p
      → lookup x p ≡ some y
      → x ≢ y
      → Root p r y
      → Compressed E p p1
      → Compressed E p (insert x r p1)
  compress_lem p p1 x y r f l ne h c =
      let y_lt_x = f.descending x y l ne in
      let lower : str_lt r x ≡ true = (elim (Root-le f h) [
        | inl e ↦ subst (λ t. str_lt t x ≡ true) e y_lt_x
        | inr lt ↦ str_lt_trans r y x lt y_lt_x
      ]) in
      let whole : Root p r x = up l ne h in
      let moved = c.roots r x whole in
      record {
        forest = IsForest-insert c.forest x r (Root-top moved) lower (Root-Connected f whole);
        roots = λ s z k. Root-compress (lt-ne r x lower) moved (c.roots s z k);
        same_keys = (let (w, lw) = Root-key moved in keys-insert x r w p1 lw ∙ c.same_keys);
      }

  -- The answer of `find` on a key, with enough fuel.
  pub find_lem :
      (n : ℕ) (p : UnionFind) (x y : String)
      → IsForest E p
      → lookup x p ≡ some y
      → below x (keys p) < n
      → (r : String) × (p' : UnionFind) × (find n x p ≡ some (r, p'))
        × Root p r x
        × Compressed E p p'
  find_lem zero p x y f l h = absurd (omega arith)
  find_lem (suc n) p x y f l h = elim (str_cases x y) [
    | inl e ↦ (
      x,
      p,
      find-root n p x (parent_of_lem p x y l ∙ sym e),
      top refl (l ∙ ap some (sym e)),
      record { forest = f; roots = λ s z k. k; same_keys = refl },
    )
    | inr ne ↦
        let (z, lz) = f.closed x y l in
        let lt = below_strict y x (keys p) (f.descending x y l ne) (mem-keys y z p lz) in
        let (r, p1, e, h', c) = find_lem n p y z f lz (omega arith) in
        (
          r,
          insert x r p1,
          find-step n p p1 x y r (parent_of_lem p x y l) ne e,
          up l ne h',
          compress_lem p p1 x y r f l ne h' c,
        )
  ]
