-- ===== src/Topology/TierGroups/Union.antt =====
-- `union` and the loops around it: every call returns, the forest stays one, keys that shared a root
-- share one afterwards, and the two arguments share one.
use dra_driver_spyre.Prelude.{
  String, ◌≡◌, ◌≢◌, refl, sym, ◌∙◌, subst, true, false, none, some, inl, inr, Memᴰ, lookup,
  mem-keys, lookup-keys, insert, has, keys, keys-insert, str_lt, str_lt_total, str_cases, ◌==◌,
  eq_iff, arith, if◌then◌else◌, Bool-cases, Option-cases,
}
use dra_driver_spyre.Topology.TierGroups.{UnionFind, fuel_of, find, join_roots, union}
use dra_driver_spyre.Topology.TierGroups.Roots.{
  Root, Root-top, Root-link, Root-Connected, Connected, link, back, through, IsForest,
  IsForest-insert,
}
use dra_driver_spyre.Topology.TierGroups.Find.{Compressed, find_lem, fuel_suffices, lt-ne}

-- What a step of the main loop may do: roots are renamed, the same way for every key.
pub record Merged (E : String → String → Type 0) (p p' : UnionFind) : Type 0 where
  pub forest : IsForest E p'
  pub rename : String → String
  pub roots : (s z : String) → Root p s z → Root p' (rename s) z
  pub same_keys : keys p' ≡ keys p

-- Two keys have one root.
pub record Joined (p : UnionFind) (a b : String) : Type 0 where
  pub root : String
  pub left : Root p root a
  pub right : Root p root b

abbrev Unite : (String → String → Type 0) → UnionFind → UnionFind → String → String → Type 0
Unite E p q a b = Merged E p q × Joined q a b

-- both roots are renamed to the smaller one
renamed_lo : (lo hi : String) → (if hi == lo then lo else lo) ≡ lo
renamed_lo lo hi = ground arith

renamed_hi : (lo hi : String) → (if hi == hi then lo else hi) ≡ lo
renamed_hi lo hi = ground (arith, eq_iff hi hi)

swap_lt : (ra rb : String) → ra ≢ rb → str_lt ra rb ≡ false → str_lt rb ra ≡ true
swap_lt ra rb ne nlt = elim (Bool-cases (str_lt rb ra)) [
  | inl lt ↦ lt
  | inr nlt' ↦ absurd (ne (str_lt_total ra rb nlt nlt'))
]

union-absent : (a b : String) (p : UnionFind) → lookup b p ≡ none → union a b p ≡ some p
unfolding union has
union-absent a b p h = ground arith

union-present :
    (a b ra rb y : String) (p p1 p2 : UnionFind)
    → lookup b p ≡ some y
    → find (fuel_of p) a p ≡ some (ra, p1)
    → find (fuel_of p1) b p1 ≡ some (rb, p2)
    → union a b p ≡ some (join_roots ra rb p2)
unfolding union has
union-present a b ra rb y p p1 p2 h e1 e2 = ground arith

module _ (ra rb : String) (p : UnionFind) where
  join-same : ra ≡ rb → join_roots ra rb p ≡ p
  unfolding join_roots
  join-same e = ground (arith, eq_iff ra rb)

  join-left : ra ≢ rb → str_lt ra rb ≡ true → join_roots ra rb p ≡ insert rb ra p
  unfolding join_roots
  join-left ne lt = ground (arith, eq_iff ra rb)

  join-right : ra ≢ rb → str_lt ra rb ≡ false → join_roots ra rb p ≡ insert ra rb p
  unfolding join_roots
  join-right ne lt = ground (arith, eq_iff ra rb)

module _ {E : String → String → Type 0} where
  pub Merged-refl : {p : UnionFind} → IsForest E p → Merged E p p
  Merged-refl f = record { forest = f; rename = λ s. s; roots = λ s z h. h; same_keys = refl }

  pub Merged-trans : {p q r : UnionFind} → Merged E p q → Merged E q r → Merged E p r
  Merged-trans m n = record {
    forest = n.forest;
    rename = λ s. n.rename (m.rename s);
    roots = λ s z h. n.roots (m.rename s) z (m.roots s z h);
    same_keys = n.same_keys ∙ m.same_keys;
  }

  pub Merged-Compressed : {p q : UnionFind} → Compressed E p q → Merged E p q
  Merged-Compressed c = record {
    forest = c.forest;
    rename = λ s. s;
    roots = c.roots;
    same_keys = c.same_keys;
  }

  pub Joined-Merged : {p q : UnionFind} {a b : String} → Merged E p q → Joined p a b → Joined q a b
  Joined-Merged {a = a} {b = b} m j = record {
    root = m.rename j.root;
    left = m.roots j.root a j.left;
    right = m.roots j.root b j.right;
  }

  -- Writing the root hi below the smaller root lo.
  link_lem :
      (p : UnionFind) (lo hi : String)
      → IsForest E p
      → lookup lo p ≡ some lo
      → lookup hi p ≡ some hi
      → str_lt lo hi ≡ true
      → Connected E hi lo
      → Merged E p (insert hi lo p)
  link_lem p lo hi f l h lt conn = record {
    forest = IsForest-insert f hi lo l lt conn;
    rename = λ s. if hi == s then lo else s;
    roots = λ s z k. Root-link lo hi l h (λ e. lt-ne lo hi lt (sym e)) k;
    same_keys = keys-insert hi lo hi p h;
  }

  -- after the link, the key below lo and the key below hi have the root lo
  link-Joined :
      (p : UnionFind) (lo hi a b : String) (m : Merged E p (insert hi lo p))
      → lookup lo p ≡ some lo
      → lookup hi p ≡ some hi
      → str_lt lo hi ≡ true
      → Root p lo a
      → Root p hi b
      → (Root (insert hi lo p) lo a) × (Root (insert hi lo p) lo b)
  link-Joined p lo hi a b m l h lt ka kb =
      let off = λ (e : lo ≡ hi). lt-ne lo hi lt (sym e) in
      (
        subst (λ t. Root (insert hi lo p) t a) (renamed_lo lo hi) (Root-link lo hi l h off ka),
        subst (λ t. Root (insert hi lo p) t b) (renamed_hi lo hi) (Root-link lo hi l h off kb),
      )

  join_lem :
      (p : UnionFind) (a b ra rb : String)
      → IsForest E p
      → Root p ra a
      → Root p rb b
      → Connected E a b
      → Unite E p (join_roots ra rb p) a b
  join_lem p a b ra rb f ha hb conn =
      let la = Root-top ha in
      let lb = Root-top hb in
      let up_to_b : Connected E ra rb =
        through (back (Root-Connected f ha)) (through conn (Root-Connected f hb)) in
      elim (str_cases ra rb) [
        | inl e ↦
            rw (join-same ra rb p e)
              (Merged-refl f, record { root = rb; left = subst (λ t. Root p t a) e ha; right = hb })
        | inr ne ↦ elim (Bool-cases (str_lt ra rb)) [
          | inl lt ↦
              let m = link_lem p ra rb f la lb lt (back up_to_b) in
              let (ka, kb) = link-Joined p ra rb a b m la lb lt ha hb in
              rw (join-left ra rb p ne lt) (m, record { root = ra; left = ka; right = kb })
          | inr nlt ↦
              let lt = swap_lt ra rb ne nlt in
              let m = link_lem p rb ra f lb la lt up_to_b in
              let (kb, ka) = link-Joined p rb ra b a m lb la lt hb ha in
              rw (join-right ra rb p ne nlt) (m, record { root = rb; left = ka; right = kb })
        ]
      ]

  -- `union` of a key with any address returns; where the address is a key the two are joined.
  pub union_lem :
      (a b : String) (p : UnionFind)
      → IsForest E p
      → Memᴰ a (keys p)
      → (Memᴰ b (keys p) → E a b)
      → (q : UnionFind) × (union a b p ≡ some q) × Merged E p q × (Memᴰ b (keys p) → Joined q a b)
  union_lem a b p f ma edge = elim (Option-cases (lookup b p)) [
    | inl absent ↦ (
      p,
      union-absent a b p absent,
      Merged-refl f,
      λ mb. absurd (let (y, ly) = lookup-keys b p mb in cc),
    )
    | inr (y, ly) ↦
        let (x, lx) = lookup-keys a p ma in
        let (ra, p1, e1, h1, c1) = find_lem (fuel_of p) p a x f lx (fuel_suffices a p) in
        let mb = mem-keys b y p ly in
        let (y1, ly1) = lookup-keys b p1 (subst (Memᴰ b) (sym c1.same_keys) mb) in
        let (rb, p2, e2, h2, c2) =
          find_lem (fuel_of p1) p1 b y1 c1.forest ly1 (fuel_suffices b p1) in
        let (m, j) =
          join_lem p2 a b ra rb c2.forest (c2.roots ra a (c1.roots ra a h1)) (c2.roots rb b h2)
            (link (edge mb)) in
        (
          join_roots ra rb p2,
          union-present a b ra rb y p p1 p2 ly e1 e2,
          Merged-trans (Merged-Compressed c1) (Merged-trans (Merged-Compressed c2) m),
          λ _. j,
        )
  ]
