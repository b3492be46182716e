-- ===== src/Tests/Topo.antt =====
-- A topology document of a PF and a VF that are peers and a PF alone, in two orders.
use dra_driver_spyre.Prelude.{
  ℕ, String, ◌≡◌, ◌↔◌, refl, subst, false, true, none, some, ◌⊎◌, inl, inr, [], ◌∷◌, Map, lookup,
  ◌==◌, eq_iff, arith, Memᴰ,
}
use dra_driver_spyre.Prelude.Int.{pos}
use dra_driver_spyre.Strings.{split_last_dot, str_append}
use dra_driver_spyre.Discovery.{generate_pseudo_devices_from_topo}
use dra_driver_spyre.Discovery.Pseudo.{HasVf, generate_pseudo_devices_from_topo-HasVf}
use dra_driver_spyre.Topology.Defs.{Pcitopo, Device, Peers, entries}
use dra_driver_spyre.Topology.TierGroups.{
  peer_sets, TierGroups, generate_tier_groups_from_topo, build_adjacency, connected_components,
}
use dra_driver_spyre.Topology.TierGroups.Roots.{Connected, link}
use dra_driver_spyre.Topology.TierGroups.Graph.{
  IsAddress, TopoEdge, document_peers, lookup-build_adjacency, AtTier,
}
use dra_driver_spyre.Topology.TierGroups.Components.{Edge}
use dra_driver_spyre.Topology.TierGroups.Grouping.{IsGrouping, connected_components-IsGrouping}
use dra_driver_spyre.Topology.TierGroups.Contract.{
  IsDocument, GroupsOf, generate-GroupsOf, same_group_iff, tier0_nests, tier1_nests,
  order_irrelevant,
}

abbrev no_peers : Peers
no_peers = record { peer0 = none; peer1 = none; peer2 = none }

abbrev peer_of : String → Peers
peer_of a = record { peer0 = some ((a, pos 3) ∷ []); peer1 = none; peer2 = none }

abbrev device : String → Peers → Peers → Device
device name peers vf_peers = record {
  name = name;
  numa_node = pos 0;
  linkspeed = "32.0 GT/s PCIe";
  peers = peers;
  spyre_vf_peers = vf_peers;
  device_id = "06a7";
  is_pf = true;
  metadata = none;
}

abbrev document : Map Device → Map Device → Pcitopo
document pfs vfs = record {
  timestamp = "";
  version = "1";
  server = "";
  num_devices = pos 2;
  devices = some pfs;
  spyre_vf_num_devices = pos 1;
  spyre_vf_devices = some vfs;
}

abbrev one : Device
one = device "one" (peer_of "0000:02:00.1") no_peers

abbrev two : Device
two = device "two" no_peers no_peers

abbrev three : Device
three = device "three" no_peers (peer_of "0000:01:00.0")

abbrev small : Pcitopo
small = document (("0000:01:00.0", one) ∷ ("0000:03:00.0", two) ∷ []) (("0000:02:00.1", three) ∷ [])

abbrev turned : Pcitopo
turned =
    document (("0000:03:00.0", two) ∷ ("0000:01:00.0", one) ∷ []) (("0000:02:00.1", three) ∷ [])

small-IsDocument : IsDocument small
unfolding lookup
small-IsDocument = record { pf = (refl, (refl, tt)); vf = (refl, tt) }

turned-IsDocument : IsDocument turned
unfolding lookup
turned-IsDocument = record { pf = (refl, (refl, tt)); vf = (refl, tt) }

abbrev groups_of_small : TierGroups
groups_of_small = (generate-GroupsOf small small-IsDocument).0

abbrev groups_of_turned : TierGroups
groups_of_turned = (generate-GroupsOf turned turned-IsDocument).0

small_groups : generate_tier_groups_from_topo small ≡ some groups_of_small
small_groups = (generate-GroupsOf small small-IsDocument).1

turned_groups : generate_tier_groups_from_topo turned ≡ some groups_of_turned
turned_groups = (generate-GroupsOf turned turned-IsDocument).1

pf-IsAddress : IsAddress small "0000:01:00.0"
unfolding lookup
pf-IsAddress = inl (one, refl)

vf-IsAddress : IsAddress small "0000:02:00.1"
unfolding lookup
vf-IsAddress = inr (three, refl)

connected_components-IsGrouping_example :
    (g : Map String) × (connected_components
        ("0000:01:00.0" ∷ "0000:02:00.1" ∷ [])
        (build_adjacency small)
        0
      ≡ some g)
    × IsGrouping
        (Edge ("0000:01:00.0" ∷ "0000:02:00.1" ∷ []) (build_adjacency small) 0)
        (λ a. Memᴰ a ("0000:01:00.0" ∷ "0000:02:00.1" ∷ []))
        g
connected_components-IsGrouping_example =
    connected_components-IsGrouping ("0000:01:00.0" ∷ "0000:02:00.1" ∷ []) (build_adjacency small) 0

generate-GroupsOf_example :
    (tg : TierGroups) × (generate_tier_groups_from_topo small ≡ some tg) × GroupsOf small tg
generate-GroupsOf_example = generate-GroupsOf small small-IsDocument

lookup-build_adjacency_example :
    lookup "0000:02:00.1" (build_adjacency small)
    ≡ document_peers
        (lookup "0000:02:00.1" (entries small.devices))
        (lookup "0000:02:00.1" (entries small.spyre_vf_devices))
lookup-build_adjacency_example =
    lookup-build_adjacency small "0000:02:00.1" small-IsDocument.pf small-IsDocument.vf

same_group_iff_example :
    ((lookup "0000:01:00.0" groups_of_small.tier0 ≡ lookup "0000:02:00.1" groups_of_small.tier0)
      ↔ Connected (TopoEdge small 0) "0000:01:00.0" "0000:02:00.1")
    × ((lookup "0000:01:00.0" groups_of_small.tier1 ≡ lookup "0000:02:00.1" groups_of_small.tier1)
        ↔ Connected (TopoEdge small 1) "0000:01:00.0" "0000:02:00.1")
    × ((lookup "0000:01:00.0" groups_of_small.tier2 ≡ lookup "0000:02:00.1" groups_of_small.tier2)
        ↔ Connected (TopoEdge small 2) "0000:01:00.0" "0000:02:00.1")
same_group_iff_example =
    same_group_iff small groups_of_small small-IsDocument small_groups "0000:01:00.0" "0000:02:00.1"
      pf-IsAddress vf-IsAddress

pf_vf_peers : Connected (TopoEdge small 0) "0000:01:00.0" "0000:02:00.1"
unfolding lookup peer_sets
pf_vf_peers = link {a = "0000:01:00.0"} {b = "0000:02:00.1"} (vf-IsAddress, inl (Memᴰ.head refl))

same_tier0 :
    lookup "0000:01:00.0" groups_of_small.tier0 ≡ lookup "0000:02:00.1" groups_of_small.tier0
same_tier0 =
    (same_group_iff small groups_of_small small-IsDocument small_groups "0000:01:00.0"
        "0000:02:00.1" pf-IsAddress vf-IsAddress).0.1
      pf_vf_peers

tier0_nests_example :
    lookup "0000:01:00.0" groups_of_small.tier1 ≡ lookup "0000:02:00.1" groups_of_small.tier1
tier0_nests_example =
    tier0_nests small groups_of_small small-IsDocument small_groups "0000:01:00.0" "0000:02:00.1"
      pf-IsAddress vf-IsAddress same_tier0

tier1_nests_example :
    lookup "0000:01:00.0" groups_of_small.tier2 ≡ lookup "0000:02:00.1" groups_of_small.tier2
tier1_nests_example =
    tier1_nests small groups_of_small small-IsDocument small_groups "0000:01:00.0" "0000:02:00.1"
      pf-IsAddress vf-IsAddress tier0_nests_example

apart : ("0000:01:00.0" == "0000:03:00.0") ≡ false
apart = refl

same_pfs : (a : String) → lookup a (entries small.devices) ≡ lookup a (entries turned.devices)
unfolding lookup
same_pfs a = ground (
  arith,
  eq_iff "0000:01:00.0" a,
  eq_iff "0000:03:00.0" a,
  apart,
  eq_iff "0000:01:00.0" "0000:03:00.0",
)

same_members : (a : String) → IsAddress small a ↔ IsAddress turned a
same_members a =
    subst
      (λ o.
        IsAddress small a
        ↔ ((d : Device) × (o ≡ some d))
          ⊎ ((d : Device) × (lookup a (entries turned.spyre_vf_devices) ≡ some d)))
      (same_pfs a) (λ h. h, λ h. h)

same_edges : (tier : ℕ) (a b : String) → TopoEdge small tier a b ↔ TopoEdge turned tier a b
same_edges tier a b =
    subst
      (λ o.
        TopoEdge small tier a b
        ↔ IsAddress turned b
          × AtTier (document_peers o (lookup a (entries turned.spyre_vf_devices))) tier b)
      (same_pfs a) (λ h. ((same_members b).0 h.0, h.1), λ h. ((same_members b).1 h.0, h.1))

order_irrelevant_example :
    (lookup "0000:02:00.1" groups_of_small.tier0 ≡ lookup "0000:02:00.1" groups_of_turned.tier0)
    × (lookup "0000:02:00.1" groups_of_small.tier1 ≡ lookup "0000:02:00.1" groups_of_turned.tier1)
    × (lookup "0000:02:00.1" groups_of_small.tier2 ≡ lookup "0000:02:00.1" groups_of_turned.tier2)
order_irrelevant_example =
    order_irrelevant small turned groups_of_small groups_of_turned small-IsDocument
      turned-IsDocument small_groups turned_groups same_members same_edges "0000:02:00.1"

split : split_last_dot "0000:01:00.0" ≡ some ("0000:01:00", "0")
unfolding split_last_dot
split = refl

generate_pseudo_devices_from_topo-HasVf_example :
    HasVf
      (str_append "0000:01:00" (str_append "." "2"))
      (generate_pseudo_devices_from_topo false small)
generate_pseudo_devices_from_topo-HasVf_example =
    generate_pseudo_devices_from_topo-HasVf small "0000:01:00.0" "0000:01:00" "0" "2"
      (Memᴰ.head refl) split (inr refl)
