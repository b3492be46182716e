-- ===== src/Topology/TierGroups/Grouping.antt =====
-- connectedComponents of tier_groups.go against its contract: the groups are the connected
-- components of the peer graph, each named by its least address.
use dra_driver_spyre.Prelude.{
  ℕ, String, ◌≡◌, sym, ◌∙◌, subst, false, some, ◌⊎◌, inl, inr, List, [], Map, Memᴰ, mem_cases,
  lookup, mem-keys, keys, str_lt, str_lt_irrefl, str_lt_trans, Bool-cases,
}
use dra_driver_spyre.Topology.TierGroups.{Adjacency, new_union_find, groups, connected_components}
use dra_driver_spyre.Topology.TierGroups.Roots.{
  Root, Root-top, Root-unique, Root-le, Root-Connected, Connected, same, link, back, through,
  IsForest,
}
use dra_driver_spyre.Topology.TierGroups.Union.{Joined}
use dra_driver_spyre.Topology.TierGroups.Loops.{all_lem}
use dra_driver_spyre.Topology.TierGroups.Components.{Edge, start_lem, collect_lem, empty_lookup}

-- What it is to group addresses by the components of a graph: every address (of K) has a group,
-- named by the least address of its component, and nothing else has one.
pub record IsGrouping (E : String → String → Type 0) (K : String → Type 0) (g : Map String)
    : Type 0 where
  pub representative :
      (a : String)
      → K a
      → (r : String) × (lookup a g ≡ some r)
        × K r
        × Connected E a r
        × ((b : String) → Connected E a b → str_lt b r ≡ false)
  pub only : (a r : String) → lookup a g ≡ some r → K a

-- Where every edge is joined, connected addresses are equal or joined.
Connected-Joined :
    {E : String → String → Type 0} {p : Map String}
    → ((a b : String) → E a b → Joined p a b)
    → {a b : String} → Connected E a b
    → (a ≡ b) ⊎ Joined p a b
Connected-Joined edge (same e) = inl e
Connected-Joined edge (link {a} {b} h) = inr (edge a b h)
Connected-Joined edge (back h) = elim (Connected-Joined edge h) [
  | inl e ↦ inl (sym e)
  | inr j ↦ inr (record { root = j.root; left = j.right; right = j.left })
]
Connected-Joined {p = p} edge (through {a} {b} {c} h k) = elim (Connected-Joined edge h) [
  | inl e ↦ subst (λ t. (t ≡ c) ⊎ Joined p t c) (sym e) (Connected-Joined edge k)
  | inr j ↦ elim (Connected-Joined edge k) [
    | inl e ↦ inr (subst (Joined p a) e j)
    | inr j' ↦ inr (record {
      root = j.root;
      left = j.left;
      right = subst (λ t. Root p t c) (Root-unique j'.left j.right) j'.right;
    })
  ]
]

-- The root of an address is not above any address that shares it.
not_above :
    {E : String → String → Type 0} {p : Map String} {r b : String}
    → IsForest E p
    → Root p r b
    → str_lt b r ≡ false
not_above {r = r} {b} f h = elim (Root-le f h) [
  | inl e ↦ rw e (str_lt_irrefl r)
  | inr lt ↦ elim (Bool-cases (str_lt b r)) [
    | inl below ↦ cc (str_lt_irrefl r, str_lt_trans r b r lt below)
    | inr nlt ↦ nlt
  ]
]

-- `connectedComponents` returns, and its result groups the addresses by the connected components of
-- the peer graph up to the tier, each component under its lexicographically least address.
pub connected_components-IsGrouping :
    (addrs : List String) (adjacency : Adjacency) (tier : ℕ)
    → (g : Map String) × (connected_components addrs adjacency tier ≡ some g)
      × IsGrouping (Edge addrs adjacency tier) (λ a. Memᴰ a addrs) g
unfolding connected_components groups
connected_components-IsGrouping addrs adjacency tier =
    let E = Edge addrs adjacency tier in
    let start = new_union_find addrs in
    let (f, mem) = start_lem E addrs in
    let (q, e, m, joined) =
      all_lem adjacency tier addrs start f (λ a. (mem a).0)
        (λ a b ma pb kb. (ma, (mem b).1 kb, pb)) in
    let inside = λ (a : String) (h : Memᴰ a (keys q)). (mem a).1 (subst (Memᴰ a) m.same_keys h) in
    let (g, e', found, rest) = collect_lem (keys q) [] q m.forest (λ a h. h) in
    let edges = λ (a b : String) (h : E a b). joined a b h.0 h.2 ((mem b).0 h.1) in
    (
      g,
      rw e e',
      record {
        representative = λ a ma.
            let (r, l, h) = found a (subst (Memᴰ a) (sym m.same_keys) ((mem a).0 ma)) in
            (
              r,
              l,
              inside r (mem-keys r r q (Root-top h)),
              Root-Connected m.forest h,
              λ b conn. elim (Connected-Joined edges conn) [
                | inl e ↦ not_above m.forest (subst (Root q r) e h)
                | inr j ↦
                    not_above m.forest (subst (λ t. Root q t b) (Root-unique j.left h) j.right)
              ],
            );
        only = λ a r l. elim (mem_cases a (keys q)) [
          | inl there ↦ inside a there
          | inr absent ↦ absurd (empty_lookup a r (sym (rest a absent) ∙ l))
        ];
      },
    )
