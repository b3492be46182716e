-- ===== src/Topology/TierGroups/Roots.antt =====
-- The forest that a parent map stands for: which root a key leads to, and what a write does to it.
use dra_driver_spyre.Prelude.{
  String, ◌≡◌, ◌≢◌, refl, sym, ◌∙◌, subst, true, some, ◌⊎◌, inl, inr, lookup, insert, lookup-insert,
  lookup-insert_self, lookup-insert_ne, str_lt, str_lt_trans, ◌==◌, eq_iff, arith, if◌then◌else◌,
  str_cases,
}
use dra_driver_spyre.Topology.TierGroups.{UnionFind}

-- Following parents from the index leads to the root r.
pub data Root (p : UnionFind) (r : String) : String → Type 0 where
  top : {x : String} → x ≡ r → lookup r p ≡ some r → Root p r x
  up : {x y : String} → lookup x p ≡ some y → x ≢ y → Root p r y → Root p r x

pub Root-top : {p : UnionFind} {r x : String} → Root p r x → lookup r p ≡ some r
Root-top (top e l) = l
Root-top (up l ne h) = Root-top h

pub Root-unique : {p : UnionFind} {r s x : String} → Root p r x → Root p s x → r ≡ s
Root-unique (top e l) (top e' l') = cc
Root-unique {x = x} (top e l) (up l' ne k) = absurd (ne (cc))
Root-unique (up l ne h) (top e l') = absurd (ne (cc))
Root-unique {p} {s = s} (up l ne h) (up l' ne' k) = Root-unique h (subst (Root p s) (cc) k)

-- The equivalence closure of a relation.
pub data Connected (E : String → String → Type 0) : String → String → Type 0 where
  same : {a b : String} → a ≡ b → Connected E a b
  link : {a b : String} → E a b → Connected E a b
  back : {a b : String} → Connected E a b → Connected E b a
  through : {a b c : String} → Connected E a b → Connected E b c → Connected E a c

-- Parents are keys, a parent other than the key itself is below it, and both are connected.
pub record IsForest (E : String → String → Type 0) (p : UnionFind) : Type 0 where
  pub closed : (x y : String) → lookup x p ≡ some y → (z : String) × (lookup y p ≡ some z)
  pub descending : (x y : String) → lookup x p ≡ some y → x ≢ y → str_lt y x ≡ true
  pub sound : (x y : String) → lookup x p ≡ some y → Connected E x y

-- A read of the key just written gives the value written.
target : (p : UnionFind) (x r z y : String) → x ≡ z → lookup z (insert x r p) ≡ some y → r ≡ y
target p x r z y e l = ground (arith, lookup-insert x z r p, eq_iff x z)

module _ {E : String → String → Type 0} {p : UnionFind} (f : IsForest E p) where
  pub Root-le : {r x : String} → Root p r x → (x ≡ r) ⊎ (str_lt r x ≡ true)
  Root-le (top e l) = inl e
  Root-le {r} {x} (up {y = y} l ne h) = inr (elim (Root-le h) [
    | inl e ↦ subst (λ t. str_lt t x ≡ true) e (f.descending x y l ne)
    | inr lt ↦ str_lt_trans r y x lt (f.descending x y l ne)
  ])

  pub Root-Connected : {r x : String} → Root p r x → Connected E x r
  Root-Connected (top e l) = same e
  Root-Connected {x = x} (up {y = y} l ne h) = through (f.sound x y l) (Root-Connected h)

  parent_in_old :
      (x r : String)
      → lookup r p ≡ some r
      → (z y : String) → lookup z (insert x r p) ≡ some y
      → (w : String) × (lookup y p ≡ some w)
  parent_in_old x r root z y l = elim (str_cases x z) [
    | inl e ↦ (r, rw (← target p x r z y e l) root)
    | inr ne ↦ f.closed z y (sym (lookup-insert_ne x z r p ne) ∙ l)
  ]

  -- Pointing x at a connected root below it keeps the forest.
  pub IsForest-insert :
      (x r : String)
      → lookup r p ≡ some r
      → str_lt r x ≡ true
      → Connected E x r
      → IsForest E (insert x r p)
  IsForest-insert x r root lt conn = record {
    closed = λ z y l. elim (str_cases x y) [
      | inl e ↦ (r, rw (← e) (lookup-insert_self x r p))
      | inr ne ↦ let (w, lw) = parent_in_old x r root z y l in (w, lookup-insert_ne x y r p ne ∙ lw)
    ];
    descending = λ z y l ne. elim (str_cases x z) [
      | inl e ↦
          subst (λ t. str_lt t z ≡ true) (target p x r z y e l)
            (subst (λ t. str_lt r t ≡ true) e lt)
      | inr off ↦ f.descending z y (sym (lookup-insert_ne x z r p off) ∙ l) ne
    ];
    sound = λ z y l. elim (str_cases x z) [
      | inl e ↦ subst (Connected E z) (target p x r z y e l) (subst (λ t. Connected E t r) e conn)
      | inr off ↦ f.sound z y (sym (lookup-insert_ne x z r p off) ∙ l)
    ];
  }

if_same : {A : Type 0} (u v : A) (a b : String) → a ≡ b → (if a == b then u else v) ≡ u
if_same u v a b e = ground (arith, eq_iff a b)

if_other : {A : Type 0} (u v : A) (a b : String) → a ≢ b → (if a == b then u else v) ≡ v
if_other u v a b ne = ground (arith, eq_iff a b)

-- Path compression: pointing a key at its own root moves no root.
pub Root-compress :
    {p : UnionFind} {r s x z : String} → x ≢ r → Root p r x → Root p s z → Root (insert x r p) s z
Root-compress {p} {r} {s} {x} {z} off h (top e l) = elim (str_cases x s) [
  | inl x_is_s ↦ absurd (off (sym (Root-unique h (top x_is_s l) ∙ sym x_is_s)))
  | inr ne ↦ top e (lookup-insert_ne x s r p ne ∙ l)
]
Root-compress {p} {r} {s} {x} {z} off h (up {y = y} l ne k) = elim (str_cases x z) [
  | inl x_is_z ↦
      let at_r = top refl (lookup-insert_ne x r r p off ∙ Root-top h) in
      let moved : Root (insert x r p) r x = up (lookup-insert_self x r p) off at_r in
      let r_is_s : r ≡ s = Root-unique h (subst (Root p s) (sym x_is_z) (up l ne k)) in
      subst (λ t. Root (insert x r p) t z) r_is_s (subst (Root (insert x r p) r) x_is_z moved)
  | inr x_off_z ↦ up (lookup-insert_ne x z r p x_off_z ∙ l) ne (Root-compress off h k)
]

-- Linking: pointing the root rb at the root ra moves rb's tree below ra and no other.
pub Root-link :
    {p : UnionFind} {s z : String} (ra rb : String)
    → lookup ra p ≡ some ra
    → lookup rb p ≡ some rb
    → ra ≢ rb
    → Root p s z
    → Root (insert rb ra p) (if rb == s then ra else s) z
Root-link {p} {s} {z} ra rb la lb ne (top e l) = elim (str_cases rb s) [
  | inl rb_is_s ↦ rw (if_same _ _ rb s rb_is_s) (
      up (rw (e, ← rb_is_s) (lookup-insert_self rb ra p)) (λ q. ne (cc))
        (top refl (lookup-insert_ne rb ra ra p (λ q. ne (sym q)) ∙ la)))
  | inr off ↦ rw (if_other _ _ rb s off) (top e (lookup-insert_ne rb s ra p off ∙ l))
]
Root-link {p} {s} {z} ra rb la lb ne (up {y = y} l ne' k) =
    up (lookup-insert_ne rb z ra p (λ q. ne' (cc)) ∙ l) ne' (Root-link ra rb la lb ne k)

-- What leads to a root is a key.
pub Root-key : {p : UnionFind} {r x : String} → Root p r x → (y : String) × (lookup x p ≡ some y)
Root-key {r = r} (top e l) = (r, rw e l)
Root-key (up {y = y} l ne h) = (y, l)
