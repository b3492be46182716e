-- ===== src/Devices.antt =====
-- pkg/types: PCI devices, pseudo devices, and the devices that the driver offers. A method of the
-- interface PciDevice is a function by clauses on the two implementations.
pub mod Attributes
pub mod Allocatable
use dra_driver_spyre.Prelude.{
  ℕ, String, Bool, true, false, Option, none, some, List, [], ◌∷◌, ◌++◌, ◌==◌, if◌then◌else◌,
}
use dra_driver_spyre.Prelude.Int.{ℤ, pos, negsuc}
use dra_driver_spyre.Strings.{itoa}
use dra_driver_spyre.Env.{Env, Result, ok, err, DeviceNode}
use dra_driver_spyre.Utils.Pci.{
  get_vfio_device_file, is_sriov_pf, get_dev_node, get_driver_name, get_pf_addr, get_vfid,
}

-- types.go
abbrev pub product_id_pf : String
product_id_pf = "06a7"

abbrev pub product_id_vf : String
product_id_vf = "06a8"

-- The fields of ghw's PCIDevice that the driver reads.
pub record HwDevice : Type 0 where
  pub address : String
  pub vendor_id : String
  pub product_id : String
  pub class_id : String
  pub subclass_id : String
  pub driver : String
  pub node : Option ℤ

-- pciDevice, with the fields of its basePciDevice. Its apiDevice is never read.
pub record SpyrePciDevice : Type 0 where
  pub address : String
  pub vendor_id : String
  pub product_id : String
  pub subclass_id : String
  pub pf_addr : String
  pub driver : String
  pub vf_id : ℤ
  pub numa : String

pub record PseudoPciDevice : Type 0 where
  pub pci_address : String
  pub product_id : String
  pub numa : String

pub data PciDevice : Type 0 where
  spyre : SpyrePciDevice → PciDevice
  pseudo : PseudoPciDevice → PciDevice

unfoldable pub get_pci_addr : PciDevice → String
get_pci_addr (spyre d) = d.address
get_pci_addr (pseudo d) = if d.pci_address == "" then "0000:0000:00:00" else d.pci_address

pub get_vendor : PciDevice → String
get_vendor (spyre d) = d.vendor_id
get_vendor (pseudo d) = "1014"

pub get_driver : PciDevice → String
get_driver (spyre d) = d.driver
get_driver (pseudo d) = "vfio-pci"

pub get_product_id : PciDevice → String
get_product_id (spyre d) = d.product_id
get_product_id (pseudo d) = d.product_id

pub get_pf_pci_addr : PciDevice → String
get_pf_pci_addr (spyre d) = d.pf_addr
get_pf_pci_addr (pseudo d) = "0"

pub get_sub_class : PciDevice → String
get_sub_class (spyre d) = d.subclass_id
get_sub_class (pseudo d) = "0"

pub device_vfid : PciDevice → ℤ
device_vfid (spyre d) = d.vf_id
device_vfid (pseudo d) = pos 0

pub get_numa_info : PciDevice → String
get_numa_info (spyre d) = d.numa
get_numa_info (pseudo d) = if d.numa == "" then "0" else d.numa

-- nodeToStr
pub node_to_str : ℤ → String
node_to_str (pos n) = itoa (pos n)
node_to_str (negsuc n) = ""

-- NewPseudoPciDevice
pub new_pseudo_pci_device : HwDevice → PciDevice
new_pseudo_pci_device dev = pseudo (record {
  pci_address = dev.address;
  product_id = dev.product_id;
  numa = elim dev.node [ none ↦ "0" | some id ↦ itoa id ];
})

-- GeneratePseudoDevice
pub generate_pseudo_device : String → String → ℤ → HwDevice
generate_pseudo_device address product_id numa_node = record {
  address = address;
  vendor_id = "1014";
  product_id = if product_id == "" then product_id_pf else product_id;
  class_id = "00";
  subclass_id = "";
  driver = "pseudoDriver";
  node = elim numa_node [ pos n ↦ some (pos n) | negsuc _ ↦ none ];
}

module _ (env : Env) where
  pub is_pf_device : PciDevice → env.Disk → Bool
  is_pf_device (spyre x) d = is_sriov_pf env x.address d
  is_pf_device (pseudo x) d = x.product_id == product_id_pf

  abbrev vfio_node : DeviceNode
  vfio_node = record { path = "/dev/vfio/vfio"; host_path = "/dev/vfio/vfio"; permissions = "mrw" }

  -- the device's own vfio file, where it can be found
  vfio_file_nodes : Result String → List DeviceNode
  vfio_file_nodes (err _) = []
  vfio_file_nodes (ok file) = record { path = file; host_path = file; permissions = "mrw" } ∷ []

  pub get_cdi_device_spec : PciDevice → env.Disk → List DeviceNode
  unfolding vfio_file_nodes
  get_cdi_device_spec (spyre x) d =
      vfio_node ∷ vfio_file_nodes (get_vfio_device_file env x.address d)
  get_cdi_device_spec (pseudo x) d = vfio_node ∷ []

  -- NewPciSpyreDevice: the PF address, the driver and the VF number are read in this order, and the
  -- first that fails ends it
  pub new_pci_spyre_device : HwDevice → env.Disk → Result PciDevice
  new_pci_spyre_device dev d = elim (get_pf_addr env dev.address d) [
    | err e ↦ err e
    | ok pf_addr ↦ elim (get_driver_name env dev.address d) [
      | err e ↦ err e
      | ok driver_name ↦ elim (get_vfid env dev.address d) [
        | err e ↦ err e
        | ok vf_id ↦ ok (
            spyre (record {
              address = dev.address;
              vendor_id = dev.vendor_id;
              product_id = dev.product_id;
              subclass_id = dev.subclass_id;
              pf_addr = pf_addr;
              driver = driver_name;
              vf_id = vf_id;
              numa = node_to_str (get_dev_node env dev.address d);
            }))
      ]
    ]
  ]
