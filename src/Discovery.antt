-- ===== src/Discovery.antt =====
-- internal/discovery/discovery.go: which PCI devices the driver offers. The list of ghw.PCI(), and
-- whether the program was built for s390x, are arguments. Each range over a map goes in the order of
-- the map's list.
pub mod Frame
pub mod Pseudo
pub mod Returns
pub mod Targets
use dra_driver_spyre.Prelude.{
  String, Bool, true, false, ◌&&◌, ◌++◌, not, Option, none, some, List, [], ◌∷◌, Map, lookup, has,
  keys, contains, eqb, ◌==◌, if◌then◌else◌,
}
use dra_driver_spyre.Prelude.Int.{ℤ, pos, negsuc}
use dra_driver_spyre.Strings.{parse_int, split_last_dot, str_append}
use dra_driver_spyre.Topology.Defs.{Pcitopo, entries}
use dra_driver_spyre.Topology.Files.{get_pci_topology}
use dra_driver_spyre.Topology.Numa.{generate_numa_info_map_from_topo}
use dra_driver_spyre.Devices.{HwDevice, product_id_pf, product_id_vf, generate_pseudo_device}
use dra_driver_spyre.Devices.Allocatable.{AllocatableDevices, new_allocatable_devices}
use dra_driver_spyre.Utils.{is_pseudo_device_mode}
use dra_driver_spyre.Utils.Pci.{get_vfio_device_file}
use dra_driver_spyre.Env.{Env, Io, Result, ok, err, ◌>>=◌, attempt, reading, pure, wrapping}

-- the test of the class: supportedDeviceCodes
pub is_supported_class : Option ℤ → Bool
is_supported_class (some (pos n)) = if eqb n 0x00 then true else eqb n 0x12
is_supported_class (some (negsuc n)) = false
is_supported_class none = false

-- isSupportedDevice
pub is_supported_device : HwDevice → Bool
is_supported_device device =
    if is_supported_class (parse_int 16 device.class_id)
    then if contains ("06a7" ∷ "06a8" ∷ []) device.product_id
      then if contains ("vfio-pci" ∷ []) device.driver
        then contains ("1014" ∷ []) device.vendor_id
        else false
      else false
    else false

-- lookupNuma: strconv.Atoi, and 0 where it fails
pub number_or_zero : Option ℤ → ℤ
number_or_zero (some n) = n
number_or_zero none = pos 0

pub lookup_numa : Map String → String → ℤ
lookup_numa pseudo_numa_map pci_addr = elim (lookup pci_addr pseudo_numa_map) [
  | none ↦ pos 0
  | some numa_str ↦ number_or_zero (parse_int 10 numa_str)
]

-- the two first loops of generatePseudoDevicesFromTopo
pub pseudo_devices_of : String → Map String → List String → List HwDevice
pseudo_devices_of product_id numa_map [] = []
pseudo_devices_of product_id numa_map (addr ∷ rest) =
    generate_pseudo_device addr product_id (lookup_numa numa_map addr)
    ∷ pseudo_devices_of product_id numa_map rest

-- the function of a PF with the index, where the document does not list it
pub missing_vf : Pcitopo → Map String → String → String → String → List HwDevice
missing_vf topo numa_map pf_addr base func_idx =
    let vf_addr = str_append base (str_append "." func_idx) in
    if has vf_addr (entries topo.spyre_vf_devices)
    then []
    else generate_pseudo_device vf_addr product_id_vf (lookup_numa numa_map pf_addr) ∷ []

-- the third loop
pub missing_vfs : Pcitopo → Map String → List String → List HwDevice
missing_vfs topo numa_map [] = []
missing_vfs topo numa_map (pf_addr ∷ rest) =
    let later = missing_vfs topo numa_map rest in
    elim (split_last_dot pf_addr) [
      | none ↦ later
      | some (base, _) ↦
          missing_vf topo numa_map pf_addr base "1"
          ++ (missing_vf topo numa_map pf_addr base "2" ++ later)
    ]

-- generatePseudoDevicesFromTopo
pub generate_pseudo_devices_from_topo : Bool → Pcitopo → List HwDevice
generate_pseudo_devices_from_topo is_s390x topo =
    let numa_map = generate_numa_info_map_from_topo topo in
    let listed =
      pseudo_devices_of product_id_pf numa_map (keys (entries topo.devices))
      ++ pseudo_devices_of product_id_vf numa_map (keys (entries topo.spyre_vf_devices)) in
    if is_s390x then listed else listed ++ missing_vfs topo numa_map (keys (entries topo.devices))

-- defaultPseudoDevices
pub default_pseudo_devices : List HwDevice
default_pseudo_devices =
    generate_pseudo_device "0000:1a:00.0" product_id_pf (pos 0)
    ∷ generate_pseudo_device "0000:1c:00.0" product_id_pf (pos 0)
    ∷ generate_pseudo_device "0000:1d:00.0" product_id_pf (pos 0)
    ∷ generate_pseudo_device "0000:1e:00.0" product_id_pf (pos 0)
    ∷ generate_pseudo_device "0000:3d:00.0" product_id_pf (pos 0)
    ∷ generate_pseudo_device "0000:3f:00.0" product_id_pf (pos 0)
    ∷ generate_pseudo_device "0000:40:00.0" product_id_pf (pos 0)
    ∷ generate_pseudo_device "0000:41:00.0" product_id_pf (pos 0)
    ∷ []

-- discoverPseudoDevices
pub discover_pseudo_devices : Bool → Option Pcitopo → List HwDevice
discover_pseudo_devices is_s390x (some topo) = generate_pseudo_devices_from_topo is_s390x topo
discover_pseudo_devices is_s390x none = default_pseudo_devices

module _ (env : Env) where
  -- the body of discoverTargetDevices' loop for a supported device
  pub keep_resolved : HwDevice → Result String → List HwDevice → List HwDevice
  keep_resolved device (ok _) later = device ∷ later
  keep_resolved device (err _) later = later

  -- the loop of discoverTargetDevices
  pub discover_target_devices : List HwDevice → env.Disk → List HwDevice
  discover_target_devices [] d = []
  discover_target_devices (device ∷ rest) d =
      let later = discover_target_devices rest d in
      if is_supported_device device
      then keep_resolved device (get_vfio_device_file env device.address d) later
      else later

  -- GetAllocatableDevices, with the branch of listDevices' error
  pub get_allocatable_devices :
      String → String → String → Bool → Bool → Result (List HwDevice) → Io env AllocatableDevices
  get_allocatable_devices pseudo_topology node_name topology_file is_s390x disable_virtual_function
        listed =
      do
        (topo, topo_err) ← get_pci_topology env pseudo_topology node_name topology_file
        devices ←
            (if is_pseudo_device_mode env
              then pure (discover_pseudo_devices is_s390x topo)
              else wrapping "failed to discover target devices" (
                  attempt (λ d. elim listed [
                    | err e ↦ err e
                    | ok found ↦ ok (discover_target_devices found d)
                  ])))
        reading (new_allocatable_devices env devices topo disable_virtual_function)
