-- ===== src/Topology/TierGroups/Graph.antt =====
-- The peer graph of a topology, read off the document, and that `buildAdjacency` builds it.
use dra_driver_spyre.Prelude.{
  IsUnique, ℕ, ◌≤◌, String, ◌≡◌, ◌↔◌, refl, sym, ◌∙◌, subst, none, some, ◌⊎◌, inl, inr, List, [],
  ◌∷◌, Map, Memᴰ, lookup, mem-keys, lookup-keys, insert, lookup-insert, keys, Option, arith, eq_iff,
}
use mathlib.Core.List.Memᴰ
use dra_driver_spyre.Topology.Defs.{Pcitopo, Device, entries}
use dra_driver_spyre.Topology.TierGroups.{
  PeerSets, Adjacency, peer_sets, add_pf_devices, add_vf_devices, build_adjacency, peers_up_to_tier,
  peers_of,
}
use dra_driver_spyre.Topology.TierGroups.Loops.{Peer, InSome}

-- An address of the document: a PF's or a VF's.
abbrev pub IsAddress : Pcitopo → String → Type 0
IsAddress topo a =
    ((d : Device) × (lookup a (entries topo.devices) ≡ some d))
    ⊎ ((d : Device) × (lookup a (entries topo.spyre_vf_devices) ≡ some d))

-- The peers that the document gives for an address: a VF's own, and otherwise a PF's.
abbrev pub document_peers : Option Device → Option Device → Option PeerSets
document_peers pf (some vf) = some (peer_sets vf.spyre_vf_peers)
document_peers (some pf) none = some (peer_sets pf.peers)
document_peers none none = none

-- b is among the peers that count at the tier: `peers_0`, from tier 1 on `peers_1`, from tier 2 on
-- `peers_2`.
abbrev pub AtTier : Option PeerSets → ℕ → String → Type 0
AtTier none tier b = ⊥
AtTier (some ps) tier b =
    Memᴰ b (keys (entries ps.p0))
    ⊎ (1 ≤ tier) × Memᴰ b (keys (entries ps.p1))
    ⊎ (2 ≤ tier) × Memᴰ b (keys (entries ps.p2))

abbrev pub TopoEdge : Pcitopo → ℕ → String → String → Type 0
TopoEdge topo tier a b =
    IsAddress topo b
    × AtTier
        (document_peers (lookup a (entries topo.devices))
          (lookup a (entries topo.spyre_vf_devices)))
        tier b

empty_lem : (a : String) → lookup {V = PeerSets} a [] ≡ none
unfolding lookup
empty_lem a = refl

add_pf_lem :
    (a : String) (m : Map Device) (adj : Adjacency)
    → IsUnique m
    → lookup a (add_pf_devices adj m)
      ≡ (elim (lookup a m) [ some d ↦ some (peer_sets d.peers) | none ↦ lookup a adj ])
unfolding lookup add_pf_devices
add_pf_lem a [] adj u = refl
add_pf_lem a ((k, d) ∷ m) adj u = ground (
  arith,
  eq_iff k a,
  add_pf_lem a m (insert k (peer_sets d.peers) adj) u.1,
  lookup-insert k a (peer_sets d.peers) adj,
)

add_vf_lem :
    (a : String) (m : Map Device) (adj : Adjacency)
    → IsUnique m
    → lookup a (add_vf_devices adj m)
      ≡ (elim (lookup a m) [ some d ↦ some (peer_sets d.spyre_vf_peers) | none ↦ lookup a adj ])
unfolding lookup add_vf_devices
add_vf_lem a [] adj u = refl
add_vf_lem a ((k, d) ∷ m) adj u = ground (
  arith,
  eq_iff k a,
  add_vf_lem a m (insert k (peer_sets d.spyre_vf_peers) adj) u.1,
  lookup-insert k a (peer_sets d.spyre_vf_peers) adj,
)

-- Where both maps of the document have one entry to a key, the adjacency of an address is what the
-- document gives: the spyre_vf_peers of an address that is a VF's, else the peers of one that is a PF's.
pub lookup-build_adjacency :
    (topo : Pcitopo) (a : String)
    → IsUnique (entries topo.devices)
    → IsUnique (entries topo.spyre_vf_devices)
    → lookup a (build_adjacency topo)
      ≡ document_peers (lookup a (entries topo.devices)) (lookup a (entries topo.spyre_vf_devices))
unfolding build_adjacency
lookup-build_adjacency topo a u v = ground (
  arith,
  add_pf_lem a (entries topo.devices) [] u,
  add_vf_lem a (entries topo.spyre_vf_devices) (add_pf_devices [] (entries topo.devices)) v,
  empty_lem a,
)

-- The list of peer maps at a tier holds the peers that count there.
InSome-iff :
    (ps : PeerSets) (tier : ℕ) (b : String)
    → InSome b (peers_up_to_tier ps tier) ↔ AtTier (some ps) tier b
unfolding peers_up_to_tier
InSome-iff ps tier b = (ground arith, ground arith)

document_address :
    (x y : Option Device) {ps : PeerSets}
    → document_peers x y ≡ some ps
    → ((d : Device) × (x ≡ some d)) ⊎ ((d : Device) × (y ≡ some d))
document_address x (some d) h = inr (d, refl)
document_address (some d) none h = inl (d, refl)
document_address none none h = cc

peers_address :
    (x y : Option Device) (tier : ℕ) (b : String)
    → AtTier (document_peers x y) tier b
    → ((d : Device) × (x ≡ some d)) ⊎ ((d : Device) × (y ≡ some d))
peers_address x (some d) tier b h = inr (d, refl)
peers_address (some d) none tier b h = inl (d, refl)
peers_address none none tier b h = absurd h

address_document :
    (x y : Option Device)
    → ((d : Device) × (x ≡ some d)) ⊎ ((d : Device) × (y ≡ some d))
    → (ps : PeerSets) × (document_peers x y ≡ some ps)
address_document x (some d) h = (peer_sets d.spyre_vf_peers, refl)
address_document (some d) none h = (peer_sets d.peers, refl)
address_document none none h = elim h [ inl (d, e) ↦ cc | inr (d, e) ↦ cc ]

abbrev no_peers : PeerSets
no_peers = record { p0 = none; p1 = none; p2 = none }

no_peers_lem : (tier : ℕ) (b : String) → AtTier (some no_peers) tier b → ⊥
no_peers_lem tier b h = elim h [
  | inl m ↦ Memᴰ.not-nil m
  | inr rest ↦ elim rest [ inl (_, m) ↦ Memᴰ.not-nil m | inr (_, m) ↦ Memᴰ.not-nil m ]
]

found_iff :
    (o : Option PeerSets) (tier : ℕ) (b : String)
    → InSome b (peers_up_to_tier (elim o [ none ↦ no_peers | some ps ↦ ps ]) tier) ↔ AtTier o tier b
found_iff none tier b = (λ h. no_peers_lem tier b ((InSome-iff no_peers tier b).0 h), λ h. absurd h)
found_iff (some ps) tier b = InSome-iff ps tier b

-- What has peers is an address.
pub TopoEdge-IsAddress :
    (topo : Pcitopo) (tier : ℕ) (a b : String) → TopoEdge topo tier a b → IsAddress topo a
TopoEdge-IsAddress topo tier a b h =
    peers_address (lookup a (entries topo.devices)) (lookup a (entries topo.spyre_vf_devices)) tier
      b h.1

AtTier-mono : (o : Option PeerSets) (s t : ℕ) (b : String) → s ≤ t → AtTier o s b → AtTier o t b
AtTier-mono none s t b h e = e
AtTier-mono (some ps) s t b h e = elim e [
  | inl m ↦ inl m
  | inr rest ↦
      inr (elim rest [ inl (le, m) ↦ inl (omega arith, m) | inr (le, m) ↦ inr (omega arith, m) ])
]

module _ (topo : Pcitopo) (pf : IsUnique (entries topo.devices))
    (vf : IsUnique (entries topo.spyre_vf_devices)) where
  abbrev pub addresses : List String
  addresses = keys (build_adjacency topo)

  -- the keys of the adjacency are the addresses of the document
  pub IsAddress-iff : (a : String) → Memᴰ a addresses ↔ IsAddress topo a
  IsAddress-iff a = (
    λ m.
        let (ps, l) = lookup-keys a (build_adjacency topo) m in
        document_address (lookup a (entries topo.devices))
          (lookup a (entries topo.spyre_vf_devices))
          (sym (lookup-build_adjacency topo a pf vf) ∙ l),
    λ h.
        let (ps, l) =
          address_document (lookup a (entries topo.devices))
            (lookup a (entries topo.spyre_vf_devices)) h in
        mem-keys a ps (build_adjacency topo) (lookup-build_adjacency topo a pf vf ∙ l),
  )

  -- its peers are those of the document
  pub Peer-iff :
      (tier : ℕ) (a b : String)
      → Peer (build_adjacency topo) tier a b
        ↔ AtTier
            (document_peers
              (lookup a (entries topo.devices))
              (lookup a (entries topo.spyre_vf_devices)))
            tier
            b
  unfolding peers_of
  Peer-iff tier a b =
      subst (λ o. Peer (build_adjacency topo) tier a b ↔ AtTier o tier b)
        (lookup-build_adjacency topo a pf vf) (found_iff (lookup a (build_adjacency topo)) tier b)

-- A higher tier has the edges of a lower one.
pub TopoEdge-mono :
    (topo : Pcitopo) (s t : ℕ) → s ≤ t → (a b : String) → TopoEdge topo s a b → TopoEdge topo t a b
TopoEdge-mono topo s t h a b e = (
  e.0,
  AtTier-mono
      (document_peers (lookup a (entries topo.devices)) (lookup a (entries topo.spyre_vf_devices)))
      s t b h e.1,
)
