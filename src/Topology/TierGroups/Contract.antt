-- ===== src/Topology/TierGroups/Contract.antt =====
-- GenerateTierGroupsFromTopo of tier_groups.go: the contract of its comment, read off the document.
use dra_driver_spyre.Prelude.{
  IsUnique, ℕ, String, ◌≡◌, ◌↔◌, sym, ◌∙◌, subst, some, lookup, Map, keys, arith,
}
use dra_driver_spyre.Topology.Defs.{Pcitopo, entries}
use dra_driver_spyre.Topology.TierGroups.{
  TierGroups, build_adjacency, connected_components, generate_tier_groups_from_topo,
}
use dra_driver_spyre.Topology.TierGroups.Roots.{Connected}
use dra_driver_spyre.Topology.TierGroups.Components.{Edge}
use dra_driver_spyre.Topology.TierGroups.Grouping.{IsGrouping, connected_components-IsGrouping}
use dra_driver_spyre.Topology.TierGroups.Tiers.{
  Connected-mono, same_group_lem, grouping_unique, IsGrouping-iff,
}
use dra_driver_spyre.Topology.TierGroups.Graph.{
  IsAddress, TopoEdge, addresses, IsAddress-iff, Peer-iff, TopoEdge-IsAddress, TopoEdge-mono,
}

-- the maps of the document have one entry to a key
pub record IsDocument (topo : Pcitopo) : Type 0 where
  pub pf : IsUnique (entries topo.devices)
  pub vf : IsUnique (entries topo.spyre_vf_devices)

-- the three maps group the addresses by the components at the three tiers
pub record GroupsOf (topo : Pcitopo) (tg : TierGroups) : Type 0 where
  pub at_tier0 : IsGrouping (TopoEdge topo 0) (IsAddress topo) tg.tier0
  pub at_tier1 : IsGrouping (TopoEdge topo 1) (IsAddress topo) tg.tier1
  pub at_tier2 : IsGrouping (TopoEdge topo 2) (IsAddress topo) tg.tier2

some-eq : {s t : TierGroups} → some s ≡ some t → s ≡ t
some-eq h = cc

TopoEdge-iff :
    (topo : Pcitopo) (doc : IsDocument topo) (tier : ℕ) (a b : String)
    → Edge (addresses topo doc.pf doc.vf) (build_adjacency topo) tier a b ↔ TopoEdge topo tier a b
TopoEdge-iff topo doc tier a b = (
  λ (ma, mb, p).
      ((IsAddress-iff topo doc.pf doc.vf b).0 mb, (Peer-iff topo doc.pf doc.vf tier a b).0 p),
  λ h. (
    (IsAddress-iff topo doc.pf doc.vf a).1 (TopoEdge-IsAddress topo tier a b h),
    (IsAddress-iff topo doc.pf doc.vf b).1 h.0,
    (Peer-iff topo doc.pf doc.vf tier a b).1 h.1,
  ),
)

components_lem :
    (topo : Pcitopo) (doc : IsDocument topo) (tier : ℕ)
    → (g : Map String) × (connected_components
          (keys (build_adjacency topo))
          (build_adjacency topo)
          tier
        ≡ some g)
      × IsGrouping (TopoEdge topo tier) (IsAddress topo) g
components_lem topo doc tier =
    let (g, e, h) =
      connected_components-IsGrouping (keys (build_adjacency topo)) (build_adjacency topo) tier in
    (g, e, IsGrouping-iff (IsAddress-iff topo doc.pf doc.vf) (TopoEdge-iff topo doc tier) h)

-- For a document with one entry to a key the three tier groups are computed, and at each tier every
-- PF and VF address, and nothing else, has a group: the lexicographically least address of its
-- component in the graph whose edges are peers_0 (tier 0), peers_0 ∪ peers_1 (tier 1) or all three
-- (tier 2), the peers of an address that is a VF's being its spyre_vf_peers.
pub generate-GroupsOf :
    (topo : Pcitopo)
    → IsDocument topo
    → (tg : TierGroups) × (generate_tier_groups_from_topo topo ≡ some tg) × GroupsOf topo tg
unfolding generate_tier_groups_from_topo
generate-GroupsOf topo doc =
    let (t0, e0, h0) = components_lem topo doc 0 in
    let (t1, e1, h1) = components_lem topo doc 1 in
    let (t2, e2, h2) = components_lem topo doc 2 in
    (
      record { tier0 = t0; tier1 = t1; tier2 = t2 },
      rw (e0, e1, e2),
      record { at_tier0 = h0; at_tier1 = h1; at_tier2 = h2 },
    )

groups_of :
    (topo : Pcitopo) (tg : TierGroups)
    → IsDocument topo
    → generate_tier_groups_from_topo topo ≡ some tg
    → GroupsOf topo tg
groups_of topo tg doc e =
    let (tg', e', h) = generate-GroupsOf topo doc in subst (GroupsOf topo) (some-eq (sym e' ∙ e)) h

-- For a document with one entry to a key: at each tier two addresses of the document have the same group exactly when they are connected in
-- the graph of that tier.
pub same_group_iff :
    (topo : Pcitopo) (tg : TierGroups)
    → IsDocument topo
    → generate_tier_groups_from_topo topo ≡ some tg
    → (a b : String) → IsAddress topo a
    → IsAddress topo b
    → ((lookup a tg.tier0 ≡ lookup b tg.tier0) ↔ Connected (TopoEdge topo 0) a b)
      × ((lookup a tg.tier1 ≡ lookup b tg.tier1) ↔ Connected (TopoEdge topo 1) a b)
      × ((lookup a tg.tier2 ≡ lookup b tg.tier2) ↔ Connected (TopoEdge topo 2) a b)
same_group_iff topo tg doc e a b ma mb =
    let h = groups_of topo tg doc e in
    (
      same_group_lem h.at_tier0 a b ma mb,
      same_group_lem h.at_tier1 a b ma mb,
      same_group_lem h.at_tier2 a b ma mb,
    )

-- For a document with one entry to a key: addresses that share a tier-0 group share their tier-1 group.
pub tier0_nests :
    (topo : Pcitopo) (tg : TierGroups)
    → IsDocument topo
    → generate_tier_groups_from_topo topo ≡ some tg
    → (a b : String) → IsAddress topo a
    → IsAddress topo b
    → lookup a tg.tier0 ≡ lookup b tg.tier0
    → lookup a tg.tier1 ≡ lookup b tg.tier1
tier0_nests topo tg doc e a b ma mb h =
    let (s0, s1, s2) = same_group_iff topo tg doc e a b ma mb in
    s1.1 (Connected-mono (TopoEdge-mono topo 0 1 (omega arith)) (s0.0 h))

-- For a document with one entry to a key: addresses that share a tier-1 group share their tier-2 group.
pub tier1_nests :
    (topo : Pcitopo) (tg : TierGroups)
    → IsDocument topo
    → generate_tier_groups_from_topo topo ≡ some tg
    → (a b : String) → IsAddress topo a
    → IsAddress topo b
    → lookup a tg.tier1 ≡ lookup b tg.tier1
    → lookup a tg.tier2 ≡ lookup b tg.tier2
tier1_nests topo tg doc e a b ma mb h =
    let (s0, s1, s2) = same_group_iff topo tg doc e a b ma mb in
    s2.1 (Connected-mono (TopoEdge-mono topo 1 2 (omega arith)) (s1.0 h))

-- Two documents, with one entry to a key, the same addresses and the same peers at every tier, whatever the order in which
-- their maps are ranged over, give every address the same three groups.
pub order_irrelevant :
    (topo topo' : Pcitopo) (tg tg' : TierGroups)
    → IsDocument topo
    → IsDocument topo'
    → generate_tier_groups_from_topo topo ≡ some tg
    → generate_tier_groups_from_topo topo' ≡ some tg'
    → ((a : String) → IsAddress topo a ↔ IsAddress topo' a)
    → ((tier : ℕ) (a b : String) → TopoEdge topo tier a b ↔ TopoEdge topo' tier a b)
    → (a : String)
    → (lookup a tg.tier0 ≡ lookup a tg'.tier0)
      × (lookup a tg.tier1 ≡ lookup a tg'.tier1)
      × (lookup a tg.tier2 ≡ lookup a tg'.tier2)
order_irrelevant topo topo' tg tg' doc doc' e e' members edges a =
    let h = groups_of topo tg doc e in
    let k = groups_of topo' tg' doc' e' in
    (
      grouping_unique h.at_tier0 k.at_tier0 members (edges 0) a,
      grouping_unique h.at_tier1 k.at_tier1 members (edges 1) a,
      grouping_unique h.at_tier2 k.at_tier2 members (edges 2) a,
    )
