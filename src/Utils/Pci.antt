-- ===== src/Utils/Pci.antt =====
-- pkg/utils/device_utils.go: PCI addresses, and what sysfs says of a device.
use Prim.Native.Char.{code}
use dra_driver_spyre.Prelude.{
  ℕ, suc, String, Bool, true, false, ◌||◌, Option, none, some, List, [], ◌∷◌, eqb, ◌==◌,
  if◌then◌else◌,
}
use dra_driver_spyre.Prelude.Int.{ℤ, pos, negsuc}
use dra_driver_spyre.Strings.{
  split_last_dot, parse_int, trim_space, contains_text, itoa, str_append,
}
use dra_driver_spyre.Env.{Env, Result, ok, err, msg, wrap, Stat, found, missing, failed}

-- GetPCIFunctionIndex
index_after : Option (String × String) → ℤ
index_after none = negsuc 0
index_after (some (before, after)) =
    if after == "" then negsuc 0 else (elim (parse_int 10 after) [ none ↦ negsuc 0 | some n ↦ n ])

pub get_pci_function_index : String → ℤ
unfolding index_after
get_pci_function_index pci_addr = index_after (split_last_dot pci_addr)

-- PciAddressToDeviceName: `:` and `.` become `-`
pub pci_address_to_device_name : String → String
pci_address_to_device_name String.[] = String.[]
pci_address_to_device_name (String.◌∷◌ c s) =
    String.◌∷◌ (if eqb (code c) b':' || eqb (code c) b'.' then "-" else c)
      (pci_address_to_device_name s)

module _ (env : Env) where
  abbrev sys_bus_pci : String
  sys_bus_pci = "/sys/bus/pci/devices"

  abbrev at_device : String → String → String
  at_device pci_addr file = env.join (env.join sys_bus_pci pci_addr) file

  -- GetVFIODeviceFile. The host path and the container path of the source are one.
  reject_noiommu : Result String → String → Result String
  reject_noiommu (err e) dev_file = ok dev_file
  reject_noiommu (ok name) dev_file =
      if trim_space name == "vfio-noiommu"
      then err (msg "device is bound to a vfio-noiommu IOMMU group")
      else ok dev_file

  resolve_group : Result String → env.Disk → Result String
  resolve_group (err e) d = err (wrap "error reading symlink to iommu_group" e)
  resolve_group (ok link_name) d =
      reject_noiommu (env.read_file (env.join link_name "name") d)
        (env.join (env.join "/dev" "vfio") (env.base link_name))

  group_of : Stat → String → env.Disk → Result String
  group_of missing iommu_dir d = err (msg "unable to find iommu_group")
  group_of (failed e) iommu_dir d = err (wrap "unable to find iommu_group" e)
  group_of (found false) iommu_dir d = err (msg "invalid symlink to iommu_group")
  group_of (found true) iommu_dir d = resolve_group (env.eval_symlinks iommu_dir d) d

  pub get_vfio_device_file : String → env.Disk → Result String
  unfolding group_of resolve_group reject_noiommu
  get_vfio_device_file dev d = elim (env.lstat (env.join sys_bus_pci dev) d) [
    | found _ ↦
        group_of (env.lstat (env.join (env.join sys_bus_pci dev) "iommu_group") d)
          (env.join (env.join sys_bus_pci dev) "iommu_group") d
    | missing ↦ err (msg "Could not get directory information for device")
    | failed e ↦ err (wrap "Could not get directory information for device" e)
  ]

  -- IsSriovPF: the file sriov_totalvfs is there
  pub is_sriov_pf : String → env.Disk → Bool
  is_sriov_pf pci_addr d = elim (env.stat (at_device pci_addr "sriov_totalvfs") d) [
    | found _ ↦ true
    | missing ↦ false
    | failed _ ↦ false
  ]

  -- GetDevNode
  node_number : Option ℤ → ℤ
  node_number none = negsuc 0
  node_number (some n) = n

  pub get_dev_node : String → env.Disk → ℤ
  unfolding node_number
  get_dev_node pci_addr d = elim (env.read_file (at_device pci_addr "numa_node") d) [
    | err _ ↦ negsuc 0
    | ok text ↦ node_number (parse_int 10 (trim_space text))
  ]

  -- GetDriverName
  pub get_driver_name : String → env.Disk → Result String
  get_driver_name pci_addr d = elim (env.read_link (at_device pci_addr "driver") d) [
    | err e ↦ err (wrap "error getting driver info for device" e)
    | ok link ↦ ok (env.base link)
  ]

  -- GetPfAddr: "" for a device that is no VF
  pub get_pf_addr : String → env.Disk → Result String
  get_pf_addr pci_addr d = elim (env.read_link (at_device pci_addr "physfn") d) [
    | ok pci_info ↦ ok (env.base pci_info)
    | err e ↦ if env.is_not_exist e then ok "" else err (wrap "error getting PF for PCI device" e)
  ]

  -- the loop of GetVFID: the first index i for which virtfn<i> links to the device
  links_to : String → String → env.Disk → Bool
  links_to dir_n pci_addr d = elim (env.lstat dir_n d) [
    | found true ↦ elim (env.eval_symlinks dir_n d) [
      | ok link_name ↦ contains_text link_name pci_addr
      | err _ ↦ false
    ]
    | found false ↦ false
    | missing ↦ false
    | failed _ ↦ false
  ]

  scan_vfs : List String → ℕ → String → String → env.Disk → ℤ
  scan_vfs [] i pf_dir pci_addr d = negsuc 0
  scan_vfs (_ ∷ rest) i pf_dir pci_addr d =
      let later = scan_vfs rest (suc i) pf_dir pci_addr d in
      if links_to (str_append pf_dir (str_append "/virtfn" (itoa (pos i)))) pci_addr d
      then pos i
      else later

  -- GetVFID: -1 for a device that is no VF, or is not found among its PF's
  pub get_vfid : String → env.Disk → Result ℤ
  unfolding links_to scan_vfs
  get_vfid pci_addr d =
      let pf_dir = at_device pci_addr "physfn" in
      elim (env.lstat pf_dir d) [
        | missing ↦ ok (negsuc 0)
        | failed e ↦ err (wrap "could not get PF directory information for VF device" e)
        | found _ ↦ elim (env.glob (env.join pf_dir "virtfn*") d) [
          | err e ↦ err (wrap "error reading VF directories" e)
          | ok vf_dirs ↦ ok (scan_vfs vf_dirs 0 pf_dir pci_addr d)
        ]
      ]
