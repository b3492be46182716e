-- ===== src/Devices/Allocatable.antt =====
-- NewAllocatableDevices of pkg/types/allocatable_device.go.
use dra_driver_spyre.Prelude.{
  ℕ, suc, String, Bool, true, false, not, ◌&&◌, Option, none, some, List, [], ◌∷◌, Map, insert,
  ◌==◌, if◌then◌else◌,
}
use dra_driver_spyre.Env.{Env, Result, ok, err}
use dra_driver_spyre.Utils.{is_pseudo_device_mode}
use dra_driver_spyre.Utils.Pci.{pci_address_to_device_name}
use dra_driver_spyre.Topology.Defs.{Pcitopo}
use dra_driver_spyre.Topology.TierGroups.{TierGroups, generate_tier_groups_from_topo}
use dra_driver_spyre.Devices.{
  PciDevice, HwDevice, product_id_vf, get_pci_addr, get_product_id, new_pseudo_pci_device,
  new_pci_spyre_device,
}
use dra_driver_spyre.Devices.Attributes.{Attributes, get_attributes}

-- resourceapi.Device; its capacities are always empty.
pub record ResourceDevice : Type 0 where
  pub name : String
  pub attributes : Attributes

pub record SpyreDevice : Type 0 where
  pub product_id : String
  pub device : ResourceDevice
  pub pci_device : PciDevice

abbrev pub AllocatableDevices : Type 0
AllocatableDevices = Map SpyreDevice

-- hasVfDevice
pub has_vf_device : List PciDevice → Bool
has_vf_device [] = false
has_vf_device (device ∷ rest) =
    if get_product_id device == product_id_vf then true else has_vf_device rest

tier_groups_of : Option Pcitopo → Option TierGroups
tier_groups_of none = none
tier_groups_of (some topo) = generate_tier_groups_from_topo topo

keep_ok : Result PciDevice → List PciDevice → List PciDevice
keep_ok (ok device) rest = device ∷ rest
keep_ok (err _) rest = rest

module _ (env : Env) where
  -- convertToSpyrePCIDevices: a device that cannot be made is left out
  pub convert_to_spyre_pci_devices : List HwDevice → env.Disk → List PciDevice
  unfolding keep_ok
  convert_to_spyre_pci_devices [] d = []
  convert_to_spyre_pci_devices (device ∷ rest) d =
      let later = convert_to_spyre_pci_devices rest d in
      if is_pseudo_device_mode env
      then new_pseudo_pci_device device ∷ later
      else keep_ok (new_pci_spyre_device env device d) later

  -- what the loop stores for one device
  pub make_spyre_device :
      ℕ → PciDevice → Option Pcitopo → Option TierGroups → Bool → env.Disk → SpyreDevice
  make_spyre_device index device topo tier_groups vf_enabled d = record {
    product_id = get_product_id device;
    device = record {
      name = pci_address_to_device_name (get_pci_addr device);
      attributes = get_attributes env index device topo tier_groups vf_enabled d;
    };
    pci_device = device;
  }

  -- the loop, with `index` counting the devices
  pub add_devices :
      ℕ
      → AllocatableDevices
      → List PciDevice
      → Option Pcitopo
      → Option TierGroups
      → Bool
      → env.Disk
      → AllocatableDevices
  add_devices index all [] topo tier_groups vf_enabled d = all
  add_devices index all (device ∷ rest) topo tier_groups vf_enabled d =
      add_devices (suc index)
        (insert (pci_address_to_device_name (get_pci_addr device))
          (make_spyre_device index device topo tier_groups vf_enabled d) all)
        rest topo tier_groups vf_enabled d

  pub new_allocatable_devices :
      List HwDevice → Option Pcitopo → Bool → env.Disk → AllocatableDevices
  unfolding tier_groups_of
  new_allocatable_devices [] topo disable_virtual_function d = []
  new_allocatable_devices (hw ∷ rest) topo disable_virtual_function d =
      let spyre_devices = convert_to_spyre_pci_devices (hw ∷ rest) d in
      let vf_enabled = has_vf_device spyre_devices && not disable_virtual_function in
      add_devices 0 [] spyre_devices topo (tier_groups_of topo) vf_enabled d
