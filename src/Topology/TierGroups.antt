-- ===== src/Topology/TierGroups.antt =====
-- pkg/topology/types/pcitopo/tier_groups.go. A `range` over a map goes in the order of the map's
-- list; the theorems hold for every such order. `find` recurs on fuel, and `none` means that the
-- fuel ran out: the fuel given is the number of keys, plus one.
pub mod Roots
pub mod Find
pub mod Union
pub mod Loops
pub mod Components
pub mod Grouping
pub mod Tiers
pub mod Graph
pub mod Contract
use dra_driver_spyre.Prelude.{
  ℕ, zero, suc, String, Option, none, some, List, [], ◌∷◌, ◌++◌, Map, lookup, insert, has, keys,
  length, leb, str_lt, ◌==◌, ◌>>=◌, if◌then◌else◌,
}
use dra_driver_spyre.Prelude.Int.{ℤ}
use dra_driver_spyre.Topology.Defs.{Pcitopo, Device, Peers, entries}

pub record PeerSets : Type 0 where
  pub p0 : Option (Map ℤ)
  pub p1 : Option (Map ℤ)
  pub p2 : Option (Map ℤ)

pub record TierGroups : Type 0 where
  pub tier0 : Map String
  pub tier1 : Map String
  pub tier2 : Map String

abbrev pub Adjacency : Type 0
Adjacency = Map PeerSets

unfoldable pub peer_sets : Peers → PeerSets
peer_sets p = record { p0 = p.peer0; p1 = p.peer1; p2 = p.peer2 }

-- the two loops of buildAdjacency
add_pf_devices : Adjacency → Map Device → Adjacency
add_pf_devices adjacency [] = adjacency
add_pf_devices adjacency ((addr, dev) ∷ rest) =
    add_pf_devices (insert addr (peer_sets dev.peers) adjacency) rest

add_vf_devices : Adjacency → Map Device → Adjacency
add_vf_devices adjacency [] = adjacency
add_vf_devices adjacency ((addr, dev) ∷ rest) =
    add_vf_devices (insert addr (peer_sets dev.spyre_vf_peers) adjacency) rest

pub build_adjacency : Pcitopo → Adjacency
unfolding add_pf_devices add_vf_devices peer_sets
build_adjacency topo =
    add_vf_devices (add_pf_devices [] (entries topo.devices)) (entries topo.spyre_vf_devices)

pub peers_up_to_tier : PeerSets → ℕ → List (Map ℤ)
peers_up_to_tier ps max_tier =
    entries ps.p0
    ∷ ((if leb 1 max_tier then entries ps.p1 ∷ [] else [])
        ++ (if leb 2 max_tier then entries ps.p2 ∷ [] else []))

abbrev pub UnionFind : Type 0
UnionFind = Map String

-- `parent[a] = a` for each address
add_singletons : UnionFind → List String → UnionFind
add_singletons parent [] = parent
add_singletons parent (a ∷ addrs) = add_singletons (insert a a parent) addrs

pub new_union_find : List String → UnionFind
unfolding add_singletons
new_union_find addrs = add_singletons [] addrs

-- `uf.parent[x]`, which is "" where x is no key
pub parent_of : UnionFind → String → String
parent_of uf x = elim (lookup x uf) [ none ↦ "" | some y ↦ y ]

pub find : ℕ → String → UnionFind → Option (String × UnionFind)
find zero x uf = none
find (suc fuel) x uf =
    let compress : Option (String × UnionFind) = (do
      (r, uf') ← find fuel (parent_of uf x) uf
      let p = insert x r uf'
      some (parent_of p x, p)) in
    if parent_of uf x == x then some (parent_of uf x, uf) else compress

abbrev pub fuel_of : UnionFind → ℕ
fuel_of uf = suc (length uf)

-- the smaller root becomes the root of both
pub join_roots : String → String → UnionFind → UnionFind
join_roots ra rb uf =
    if ra == rb then uf else if str_lt ra rb then insert rb ra uf else insert ra rb uf

pub union : String → String → UnionFind → Option UnionFind
union a b uf =
    if has b uf
    then (do
      (ra, uf1) ← find (fuel_of uf) a uf
      (rb, uf2) ← find (fuel_of uf1) b uf1
      some (join_roots ra rb uf2))
    else some uf

-- the three nested loops of connectedComponents, from the inside out
pub union_neighbours : String → List String → UnionFind → Option UnionFind
union_neighbours addr [] uf = some uf
union_neighbours addr (neighbour ∷ rest) uf = do
  uf' ← union addr neighbour uf
  union_neighbours addr rest uf'

pub union_peers : String → List (Map ℤ) → UnionFind → Option UnionFind
union_peers addr [] uf = some uf
union_peers addr (peers ∷ rest) uf = do
  uf' ← union_neighbours addr (keys peers) uf
  union_peers addr rest uf'

-- `adjacency[addr]`, which has no peers where addr is no key
pub peers_of : Adjacency → String → PeerSets
peers_of adjacency addr = elim (lookup addr adjacency) [
  | none ↦ record { p0 = none; p1 = none; p2 = none }
  | some ps ↦ ps
]

pub union_all : Adjacency → ℕ → List String → UnionFind → Option UnionFind
union_all adjacency max_tier [] uf = some uf
union_all adjacency max_tier (addr ∷ addrs) uf = do
  uf' ← union_peers addr (peers_up_to_tier (peers_of adjacency addr) max_tier) uf
  union_all adjacency max_tier addrs uf'

-- `find` rewrites values under the loop, never keys
pub collect : List String → Map String → UnionFind → Option (Map String)
collect [] result uf = some result
collect (a ∷ rest) result uf = do
  (r, uf') ← find (fuel_of uf) a uf
  collect rest (insert a r result) uf'

pub groups : UnionFind → Option (Map String)
groups uf = collect (keys uf) [] uf

pub connected_components : List String → Adjacency → ℕ → Option (Map String)
connected_components all_addrs adjacency max_tier = do
  uf ← union_all adjacency max_tier all_addrs (new_union_find all_addrs)
  groups uf

pub generate_tier_groups_from_topo : Pcitopo → Option TierGroups
generate_tier_groups_from_topo topo = do
  let adjacency = build_adjacency topo
  let all_addrs = keys adjacency
  t0 ← connected_components all_addrs adjacency 0
  t1 ← connected_components all_addrs adjacency 1
  t2 ← connected_components all_addrs adjacency 2
  some (record { tier0 = t0; tier1 = t1; tier2 = t2 })
