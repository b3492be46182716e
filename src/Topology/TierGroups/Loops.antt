-- ===== src/Topology/TierGroups/Loops.antt =====
-- The loops of connectedComponents over the peers: all return, and join every edge they pass.
use dra_driver_spyre.Prelude.{
  ℕ, String, ◌≡◌, refl, sym, subst, some, ◌⊎◌, inl, inr, List, [], ◌∷◌, Map, Memᴰ, keys, Memᴰ-cons,
}
use mathlib.Core.List.Memᴰ
use dra_driver_spyre.Prelude.Int.{ℤ}
use dra_driver_spyre.Topology.TierGroups.{
  UnionFind, Adjacency, union_neighbours, union_peers, union_all, peers_of, peers_up_to_tier,
}
use dra_driver_spyre.Topology.TierGroups.Roots.{IsForest}
use dra_driver_spyre.Topology.TierGroups.Union.{
  Merged, Merged-refl, Merged-trans, Joined, Joined-Merged, union_lem,
}

-- An address stands in one of the peer maps.
abbrev pub InSome : String → List (Map ℤ) → Type 0
InSome b [] = ⊥
InSome b (peers ∷ rest) = Memᴰ b (keys peers) ⊎ InSome b rest

-- b is a peer of a, up to the tier
abbrev pub Peer : Adjacency → ℕ → String → String → Type 0
Peer adjacency tier a b = InSome b (peers_up_to_tier (peers_of adjacency a) tier)

module _ {E : String → String → Type 0} where
  -- membership among the keys, carried along a step
  carry : {p q : UnionFind} {a : String} → Merged E p q → Memᴰ a (keys p) → Memᴰ a (keys q)
  carry {a = a} m h = subst (Memᴰ a) (sym m.same_keys) h

  fetch : {p q : UnionFind} {a : String} → Merged E p q → Memᴰ a (keys q) → Memᴰ a (keys p)
  fetch {a = a} m h = subst (Memᴰ a) m.same_keys h

  neighbours_lem :
      (a : String) (ns : List String) (p : UnionFind)
      → IsForest E p
      → Memᴰ a (keys p)
      → ((b : String) → Memᴰ b ns → Memᴰ b (keys p) → E a b)
      → (q : UnionFind) × (union_neighbours a ns p ≡ some q)
        × Merged E p q
        × ((b : String) → Memᴰ b ns → Memᴰ b (keys p) → Joined q a b)
  unfolding union_neighbours
  neighbours_lem a [] p f ma edge = (p, refl, Merged-refl f, λ b m _. absurd (Memᴰ.not-nil m))
  neighbours_lem a (n ∷ ns) p f ma edge =
      let (p1, e1, m1, j1) = union_lem a n p f ma (edge n (Memᴰ.head refl)) in
      let (q, e2, m2, j2) =
        neighbours_lem a ns p1 m1.forest (carry m1 ma)
          (λ b mb kb. edge b (Memᴰ.tail mb) (fetch m1 kb)) in
      (
        q,
        rw e1 e2,
        Merged-trans m1 m2,
        λ b mb kb. elim ((Memᴰ-cons b n ns).0 mb) [
          | inl e ↦
              subst (Joined q a) (sym e) (Joined-Merged m2 (j1 (subst (λ t. Memᴰ t (keys p)) e kb)))
          | inr later ↦ j2 b later (carry m1 kb)
        ],
      )

  peers_lem :
      (a : String) (ps : List (Map ℤ)) (p : UnionFind)
      → IsForest E p
      → Memᴰ a (keys p)
      → ((b : String) → InSome b ps → Memᴰ b (keys p) → E a b)
      → (q : UnionFind) × (union_peers a ps p ≡ some q)
        × Merged E p q
        × ((b : String) → InSome b ps → Memᴰ b (keys p) → Joined q a b)
  unfolding union_peers
  peers_lem a [] p f ma edge = (p, refl, Merged-refl f, λ b m _. absurd m)
  peers_lem a (peers ∷ rest) p f ma edge =
      let (p1, e1, m1, j1) = neighbours_lem a (keys peers) p f ma (λ b mb. edge b (inl mb)) in
      let (q, e2, m2, j2) =
        peers_lem a rest p1 m1.forest (carry m1 ma) (λ b mb kb. edge b (inr mb) (fetch m1 kb)) in
      (
        q,
        rw e1 e2,
        Merged-trans m1 m2,
        λ b mb kb. elim mb [
          | inl here ↦ Joined-Merged m2 (j1 b here kb)
          | inr later ↦ j2 b later (carry m1 kb)
        ],
      )

  module _ (adjacency : Adjacency) (tier : ℕ) where
    pub all_lem :
        (addrs : List String) (p : UnionFind)
        → IsForest E p
        → ((a : String) → Memᴰ a addrs → Memᴰ a (keys p))
        → ((a b : String) → Memᴰ a addrs → Peer adjacency tier a b → Memᴰ b (keys p) → E a b)
        → (q : UnionFind) × (union_all adjacency tier addrs p ≡ some q)
          × Merged E p q
          × ((a b : String)
              → Memᴰ a addrs
              → Peer adjacency tier a b
              → Memᴰ b (keys p)
              → Joined q a b)
    unfolding union_all
    all_lem [] p f known edge = (p, refl, Merged-refl f, λ a b m _ _. absurd (Memᴰ.not-nil m))
    all_lem (x ∷ xs) p f known edge =
        let start = Memᴰ.head refl in
        let (p1, e1, m1, j1) =
          peers_lem x (peers_up_to_tier (peers_of adjacency x) tier) p f (known x start)
            (λ b. edge x b start) in
        let (q, e2, m2, j2) =
          all_lem xs p1 m1.forest (λ a m. carry m1 (known a (Memᴰ.tail m)))
            (λ a b ma pb kb. edge a b (Memᴰ.tail ma) pb (fetch m1 kb)) in
        (
          q,
          rw e1 e2,
          Merged-trans m1 m2,
          λ a b ma pb kb. elim ((Memᴰ-cons a x xs).0 ma) [
            | inl e ↦
                subst (λ t. Joined q t b) (sym e)
                  (Joined-Merged m2 (j1 b (subst (λ t. Peer adjacency tier t b) e pb) kb))
            | inr later ↦ j2 a b later pb (carry m1 kb)
          ],
        )
