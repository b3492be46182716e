-- ===== src/Topology/Numa.antt =====
-- GenerateNumaInfoMapFromTopo of pkg/topology/types/pcitopo/pcitopo.go: NUMA numbers for pseudo
-- devices. A device that has none yet starts a new one, which its peers_0 get too.
use dra_driver_spyre.Prelude.{ℕ, suc, String, none, some, List, [], ◌∷◌, Map, lookup, insert, keys}
use dra_driver_spyre.Prelude.Int.{pos}
use dra_driver_spyre.Strings.{itoa}
use dra_driver_spyre.Topology.Defs.{Pcitopo, Device, entries}

-- the loop over deviceInfo.Peers.Peer0
set_all : List String → String → Map String → Map String
set_all [] numa numa_map = numa_map
set_all (peer ∷ rest) numa numa_map = set_all rest numa (insert peer numa numa_map)

-- the loop over topo.Devices
pub assign_numas : Map Device → ℕ → Map String → Map String
unfolding set_all
assign_numas [] numai numa_map = numa_map
assign_numas ((pci_address, device_info) ∷ rest) numai numa_map =
    elim (lookup pci_address numa_map) [
      | some _ ↦ assign_numas rest numai numa_map
      | none ↦ assign_numas rest (suc numai) (
          set_all (keys (entries device_info.peers.peer0)) (itoa (pos numai))
            (insert pci_address (itoa (pos numai)) numa_map))
    ]

pub generate_numa_info_map_from_topo : Pcitopo → Map String
generate_numa_info_map_from_topo topo = assign_numas (entries topo.devices) 0 []
