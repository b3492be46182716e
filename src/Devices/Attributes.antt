-- ===== src/Devices/Attributes.antt =====
-- The attributes of a device: getAttributes of pkg/types/allocatable_device.go and what it calls.
use dra_driver_spyre.Prelude.{
  ℕ, String, Bool, true, false, ◌&&◌, ◌||◌, Option, none, some, [], Map, lookup, insert, eqb, ◌==◌,
  if◌then◌else◌,
}
use dra_driver_spyre.Prelude.Int.{ℤ, pos, negsuc}
use dra_driver_spyre.Prelude.Any.{Any, Fields, bool, str, obj, str_map, get}
use dra_driver_spyre.Strings.{itoa}
use dra_driver_spyre.Env.{Env}
use dra_driver_spyre.Utils.{is_pseudo_device_mode, is_card_management_enabled}
use dra_driver_spyre.Utils.Pci.{get_pci_function_index}
use dra_driver_spyre.Topology.Defs.{Pcitopo, Device, entries}
use dra_driver_spyre.Topology.TierGroups.{TierGroups}
use dra_driver_spyre.Devices.{
  PciDevice, product_id_pf, product_id_vf, get_pci_addr, get_vendor, get_driver, get_product_id,
  get_pf_pci_addr, get_sub_class, device_vfid, get_numa_info, is_pf_device,
}

-- resourceapi.DeviceAttribute, by the three constructors of prepared_device.go
pub data Attribute : Type 0 where
  string_value : String → Attribute
  bool_value : Bool → Attribute
  int_value : ℤ → Attribute

abbrev pub Attributes : Type 0
Attributes = Map Attribute

is_one : ℤ → Bool
is_one (pos n) = eqb n 1
is_one (negsuc n) = false

-- setIfPresent, at a group looked up in one tier's map
pub set_if_present : Attributes → String → Option String → Attributes
set_if_present attributes key none = attributes
set_if_present attributes key (some value) =
    if value == "" then attributes else insert key (string_value value) attributes

-- addTierGroupAttributes
pub add_tier_group_attributes : Attributes → Option TierGroups → String → Attributes
unfolding set_if_present
add_tier_group_attributes attributes none key = attributes
add_tier_group_attributes attributes (some tg) key =
    let with0 = set_if_present attributes "tier0Group" (lookup key tg.tier0) in
    let with1 = set_if_present with0 "tier1Group" (lookup key tg.tier1) in
    set_if_present with1 "tier2Group" (lookup key tg.tier2)

-- an attribute for an entry of a map of strings, where there is one
set_string : String → Attributes → Option String → Attributes
set_string attr_key attributes none = attributes
set_string attr_key attributes (some value) = insert attr_key (string_value value) attributes

-- addTopologyMetadataClock
pub add_topology_metadata_clock : Attributes → Map String → Attributes
unfolding set_string
add_topology_metadata_clock attributes clock_map =
    let with_rpd = set_string "clockRPD" attributes (lookup "RPD" clock_map) in
    set_string "clockSOC" with_rpd (lookup "SOC" clock_map)

-- addTopologyMetadataMemoryStr
pub add_topology_metadata_memory_str : String → Attributes → Option Any → Attributes
add_topology_metadata_memory_str attr_key attributes (some (str value)) =
    insert attr_key (string_value value) attributes
add_topology_metadata_memory_str attr_key attributes _ = attributes

-- the Boostable entry, where it is a bool
add_boostable : Attributes → Option Any → Attributes
add_boostable attributes (some (bool b)) = insert "memoryBoostable" (bool_value b) attributes
add_boostable attributes _ = attributes

-- addTopologyMetadataMemory
pub add_topology_metadata_memory : Attributes → Fields → Attributes
unfolding add_topology_metadata_memory_str add_boostable
add_topology_metadata_memory attributes memory_map =
    let with_boost = add_boostable attributes (get "Boostable" memory_map) in
    let with_freq =
      add_topology_metadata_memory_str "memoryFrequency" with_boost (get "Freq" memory_map) in
    let with_make =
      add_topology_metadata_memory_str "memoryVendor" with_freq (get "Make" memory_map) in
    add_topology_metadata_memory_str "memorySpeed" with_make (get "Speed" memory_map)

-- the two type assertions of addTopologyMetadataFromMap
add_clocks : Attributes → Option Any → Attributes
add_clocks attributes (some (str_map clock_map)) = add_topology_metadata_clock attributes clock_map
add_clocks attributes _ = attributes

add_memory : Attributes → Option Any → Attributes
add_memory attributes (some (obj memory_map)) = add_topology_metadata_memory attributes memory_map
add_memory attributes _ = attributes

-- addTopologyMetadataFromMap
pub add_topology_metadata_from_map : Attributes → Option Fields → Attributes
unfolding add_clocks add_memory
add_topology_metadata_from_map attributes none = attributes
add_topology_metadata_from_map attributes (some metadata) =
    add_memory (add_clocks attributes (get "Clocks" metadata)) (get "Memory" metadata)

-- lookupTopoDevice
pub lookup_topo_device : Pcitopo → String → Option Device
lookup_topo_device topo key = elim (lookup key (entries topo.devices)) [
  | some dev ↦ some dev
  | none ↦ lookup key (entries topo.spyre_vf_devices)
]

is_present : Option (Map Device) → Bool
is_present none = false
is_present (some _) = true

module _ (env : Env) where
  -- addDeviceTopoAttributes
  pub add_device_topo_attributes : Attributes → Device → Attributes
  add_device_topo_attributes attributes device =
      let with_speed = insert "linkSpeed" (string_value device.linkspeed) attributes in
      let with_numa =
        if is_pseudo_device_mode env
        then with_speed
        else insert "numaInfo" (string_value (itoa device.numa_node)) with_speed in
      let with_metadata = add_topology_metadata_from_map with_numa device.metadata in
      insert "isPf" (bool_value device.is_pf) with_metadata

  -- addTopologyMetadata
  pub add_topology_metadata : Attributes → String → Pcitopo → Option TierGroups → Attributes
  add_topology_metadata attributes key topo tier_groups =
      let with_device : Attributes = (elim (lookup_topo_device topo key) [
        | none ↦ attributes
        | some device ↦ add_device_topo_attributes attributes device
      ]) in
      add_tier_group_attributes with_device tier_groups key

  -- the attribute `managed` of addSpyreBasicAttributes
  pub add_managed : Attributes → PciDevice → Attributes
  unfolding is_one
  add_managed attributes device =
      let product_id = get_product_id device in
      let pci_function_index = get_pci_function_index (get_pci_addr device) in
      if is_card_management_enabled env
        && (product_id == product_id_pf
            || (product_id == product_id_vf && is_one pci_function_index))
      then insert "managed" (bool_value true) attributes
      else attributes

  -- addSpyreBasicAttributes
  pub add_spyre_basic_attributes : Attributes → PciDevice → Bool → env.Disk → Attributes
  unfolding add_managed
  add_spyre_basic_attributes attributes device vf_enabled d =
      let a1 = insert "vendor" (string_value (get_vendor device)) attributes in
      let a2 = insert "driver" (string_value (get_driver device)) a1 in
      let a3 = insert "productId" (string_value (get_product_id device)) a2 in
      let a4 = insert "pciAddress" (string_value (get_pci_addr device)) a3 in
      let a5 = insert "pfPciAddress" (string_value (get_pf_pci_addr device)) a4 in
      let a6 = insert "isPf" (bool_value (is_pf_device env device d)) a5 in
      let a7 = insert "subClass" (string_value (get_sub_class device)) a6 in
      let a8 = insert "vfId" (int_value (device_vfid device)) a7 in
      let a9 = insert "numaInfo" (string_value (get_numa_info device)) a8 in
      let a10 =
        insert "pciFunctionIndex" (int_value (get_pci_function_index (get_pci_addr device))) a9 in
      let a11 = insert "vfEnabled" (bool_value vf_enabled) a10 in add_managed a11 device

  -- the test `topo != nil && (topo.Devices != nil || topo.SpyreVfDevices != nil)` and its branch
  add_topology : Attributes → String → Option Pcitopo → Option TierGroups → Attributes
  unfolding is_present
  add_topology attributes key none tier_groups = attributes
  add_topology attributes key (some topo) tier_groups =
      if is_present topo.devices || is_present topo.spyre_vf_devices
      then add_topology_metadata attributes key topo tier_groups
      else attributes

  -- getAttributes
  pub get_attributes :
      ℕ → PciDevice → Option Pcitopo → Option TierGroups → Bool → env.Disk → Attributes
  unfolding add_topology
  get_attributes index device topo tier_groups vf_enabled d =
      let a1 : Attributes = insert "index" (int_value (pos index)) [] in
      let a2 = insert "driverVersion" (string_value "0.0.1") a1 in
      let a3 = insert "deviceState" (string_value "ONLINE") a2 in
      let a4 = add_spyre_basic_attributes a3 device vf_enabled d in
      add_topology a4 (get_pci_addr device) topo tier_groups
