-- ===== src/Discovery/Returns.antt =====
-- Discovery returns where the PCI devices can be listed.
use dra_driver_spyre.Prelude.{String, Bool, List, ◌≡◌, refl}
use dra_driver_spyre.Env.{Env, Result, ok}
use dra_driver_spyre.Env.Total.{
  Total, Total-bind, Total-if, Total-pure, Total-wrapping, Total-attempt, Total-reading,
}
use dra_driver_spyre.Devices.{HwDevice}
use dra_driver_spyre.Topology.Files.Returns.{get_pci_topology-Total}
use dra_driver_spyre.Discovery.{get_allocatable_devices, discover_target_devices}

pub get_allocatable_devices-Total :
    (env : Env) (pseudo_topology node_name topology_file : String) (is_s390x disable : Bool)
    (listed : Result (List HwDevice)) (found : List HwDevice)
    → listed ≡ ok found
    → Total (
        get_allocatable_devices env pseudo_topology node_name topology_file is_s390x disable listed)
unfolding get_allocatable_devices
get_allocatable_devices-Total env pseudo_topology node_name topology_file is_s390x disable listed
      found e =
    Total-bind (get_pci_topology-Total env _ _ _) λ topo.
      Total-bind
        (Total-if _ (Total-pure _) (
          Total-wrapping _
            (Total-attempt _ (λ d. (discover_target_devices env found d, rw e refl)))))
        λ devices. Total-reading _
