-- ===== src/Topology/TierGroups/Components.antt =====
-- connectedComponents of tier_groups.go computes the connected components of the peer graph.
use dra_driver_spyre.Prelude.{
  ℕ, String, ◌≡◌, ◌↔◌, refl, sym, ◌∙◌, ap, subst, some, ◌⊎◌, inl, inr, List, [], ◌∷◌, Map, Memᴰ,
  Memᴰ-cons, mem_cases, lookup, mem-keys, lookup-keys, insert, lookup-insert_self, lookup-insert_ne,
  keys, str_cases,
}
use mathlib.Core.List.Memᴰ
use dra_driver_spyre.Topology.TierGroups.{
  UnionFind, Adjacency, add_singletons, new_union_find, fuel_of, collect,
}
use dra_driver_spyre.Topology.TierGroups.Roots.{Root, Root-unique, same, IsForest}
use dra_driver_spyre.Topology.TierGroups.Find.{find_lem, fuel_suffices}
use dra_driver_spyre.Topology.TierGroups.Loops.{Peer}

-- An edge joins an address to a peer of it that is an address itself.
abbrev pub Edge : List String → Adjacency → ℕ → String → String → Type 0
Edge addrs adjacency tier a b = Memᴰ a addrs × Memᴰ b addrs × Peer adjacency tier a b

-- Each key is its own parent.
abbrev IsDiscrete : UnionFind → Type 0
IsDiscrete p = (x y : String) → lookup x p ≡ some y → x ≡ y

some-eq : {a b : String} → some a ≡ some b → a ≡ b
some-eq h = cc

insert-IsDiscrete : (a : String) (p : UnionFind) → IsDiscrete p → IsDiscrete (insert a a p)
insert-IsDiscrete a p d x y h = elim (str_cases a x) [
  | inl e ↦
      sym e
      ∙ some-eq
          (sym (lookup-insert_self a a p) ∙ subst (λ t. lookup t (insert a a p) ≡ some y) (sym e) h)
  | inr ne ↦ d x y (sym (lookup-insert_ne a x a p ne) ∙ h)
]

singletons_lem :
    (addrs : List String) (p : UnionFind)
    → IsDiscrete p
    → IsDiscrete (add_singletons p addrs)
      × ((x y : String)
          → lookup x (add_singletons p addrs) ≡ some y
          → (lookup x p ≡ some y) ⊎ Memᴰ x addrs)
      × ((x y : String) → lookup x p ≡ some y → lookup x (add_singletons p addrs) ≡ some x)
      × ((x : String) → Memᴰ x addrs → lookup x (add_singletons p addrs) ≡ some x)
unfolding add_singletons
singletons_lem [] p d =
    (d, λ x y h. inl h, λ x y h. h ∙ ap some (sym (d x y h)), λ x m. absurd (Memᴰ.not-nil m))
singletons_lem (a ∷ addrs) p d =
    let (d', back', kept, new) = singletons_lem addrs (insert a a p) (insert-IsDiscrete a p d) in
    (
      d',
      λ x y h. elim (back' x y h) [
        | inl old ↦ elim (str_cases a x) [
          | inl e ↦ inr (Memᴰ.head (sym e))
          | inr ne ↦ inl (sym (lookup-insert_ne a x a p ne) ∙ old)
        ]
        | inr m ↦ inr (Memᴰ.tail m)
      ],
      λ x y h. elim (str_cases a x) [
        | inl e ↦ kept x x (rw (← e) (lookup-insert_self a a p))
        | inr ne ↦ kept x y (lookup-insert_ne a x a p ne ∙ h)
      ],
      λ x m. elim ((Memᴰ-cons x a addrs).0 m) [
        | inl e ↦ kept x x (rw e (lookup-insert_self a a p))
        | inr later ↦ new x later
      ],
    )

pub empty_lookup : (x y : String) → lookup x [] ≡ some y → ⊥
unfolding lookup
empty_lookup x y h = cc

head_only : (a k : String) (ks : List String) → Memᴰ a (k ∷ ks) → ¬ Memᴰ a ks → a ≡ k
head_only a k ks m off = elim ((Memᴰ-cons a k ks).0 m) [
  | inl e ↦ e
  | inr later ↦ absurd (off later)
]

-- The union-find that the loops start from.
pub start_lem :
    (E : String → String → Type 0) (addrs : List String)
    → IsForest E (new_union_find addrs)
      × ((x : String) → Memᴰ x addrs ↔ Memᴰ x (keys (new_union_find addrs)))
unfolding new_union_find
start_lem E addrs =
    let (d, old, _, new) = singletons_lem addrs [] (λ x y h. absurd (empty_lookup x y h)) in
    (
      record {
        closed = λ x y h. (y, subst (λ t. lookup t (add_singletons [] addrs) ≡ some y) (d x y h) h);
        descending = λ x y h ne. absurd (ne (d x y h));
        sound = λ x y h. same (d x y h);
      },
      λ x. (
        λ m. mem-keys x x (add_singletons [] addrs) (new x m),
        λ m.
            let (y, h) = lookup-keys x (add_singletons [] addrs) m in
            elim (old x y h) [
              | inl none_there ↦ absurd (empty_lookup x y none_there)
              | inr mem ↦ mem
            ],
      ),
    )

module _ {E : String → String → Type 0} where
  pub found_top :
      (p : UnionFind) → IsForest E p → (a : String) → Memᴰ a (keys p) → (r : String) × Root p r a
  found_top p f a m =
      let (y, l) = lookup-keys a p m in
      let (r, _, _, h, _) = find_lem (fuel_of p) p a y f l (fuel_suffices a p) in (r, h)

  -- `groups` maps every key to its root.
  pub collect_lem :
      (ks : List String) (result : Map String) (p : UnionFind)
      → IsForest E p
      → ((a : String) → Memᴰ a ks → Memᴰ a (keys p))
      → (g : Map String) × (collect ks result p ≡ some g)
        × ((a : String) → Memᴰ a ks → (r : String) × (lookup a g ≡ some r) × Root p r a)
        × ((a : String) → ¬ Memᴰ a ks → lookup a g ≡ lookup a result)
  unfolding collect
  collect_lem [] result p f known = (result, refl, λ a m. absurd (Memᴰ.not-nil m), λ a _. refl)
  collect_lem (k ∷ ks) result p f known =
      let mk = known k (Memᴰ.head refl) in
      let (y, l) = lookup-keys k p mk in
      let (r, p', e, h, c) = find_lem (fuel_of p) p k y f l (fuel_suffices k p) in
      let known' =
        λ (a : String) (m : Memᴰ a ks). subst (Memᴰ a) (sym c.same_keys) (known a (Memᴰ.tail m)) in
      let (g, e', found, rest) = collect_lem ks (insert k r result) p' c.forest known' in
      (
        g,
        rw e e',
        λ a m. elim (mem_cases a ks) [
          | inl later ↦
              let (s, ls, hs) = found a later in
              let (t, ht) = found_top p f a (known a m) in
              (s, ls, subst (λ u. Root p u a) (Root-unique (c.roots t a ht) hs) ht)
          | inr not_later ↦
              let a_is_k = head_only a k ks m not_later in
              (
                r,
                rest a not_later ∙ rw a_is_k (lookup-insert_self k r result),
                subst (Root p r) (sym a_is_k) h,
              )
        ],
        λ a m.
            rest a (λ later. m (Memᴰ.tail later))
            ∙ lookup-insert_ne k a r result (λ e. m (Memᴰ.head (sym e))),
      )
