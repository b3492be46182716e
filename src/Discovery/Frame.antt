-- ===== src/Discovery/Frame.antt =====
-- What discovery leaves alone.
use dra_driver_spyre.Prelude.{String, Bool, List}
use dra_driver_spyre.Env.{Env, World, Result}
use dra_driver_spyre.Env.Keeps.{Keeps, IsFramed, keeps_rules}
use dra_driver_spyre.Devices.{HwDevice}
use dra_driver_spyre.Topology.Files.Frame.{get_pci_topology-Keeps}
use dra_driver_spyre.Discovery.{get_allocatable_devices}

module _ {env : Env} {P : World env → Type 0} (f : IsFramed P) where
  pub get_allocatable_devices-Keeps :
      (pseudo_topology node_name topology_file : String) (is_s390x disable : Bool)
      (listed : Result (List HwDevice))
      → Keeps P (
          get_allocatable_devices env pseudo_topology node_name topology_file is_s390x disable
            listed)
  unfolding get_allocatable_devices
  get_allocatable_devices-Keeps pseudo_topology node_name topology_file is_s390x disable listed =
      search (keeps_rules, get_pci_topology-Keeps f) depth 9
