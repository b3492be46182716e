-- ===== src/Tests/Cards.antt =====
-- A card that the health service reports in error, and a PCI device of another kind.
use dra_driver_spyre.Prelude.{String, false, ◌≡◌, ◌↔◌, refl, none, some, [], ◌∷◌, Map, Memᴰ, lookup}
use dra_driver_spyre.Prelude.Int.{pos}
use dra_driver_spyre.Devices.{HwDevice, spyre, get_pci_addr}
use dra_driver_spyre.Devices.Attributes.{string_value}
use dra_driver_spyre.Devices.Allocatable.{AllocatableDevices, SpyreDevice}
use dra_driver_spyre.Discovery.{discover_target_devices}
use dra_driver_spyre.Discovery.Targets.{IsTarget, discover_target_devices_iff}
use dra_driver_spyre.State.Updates.{
  update_device, is_state, IsUpdated, update_device_states, update_device_states-IsUpdated,
}
use dra_driver_spyre.Tests.Node.{node}

abbrev pub card : String → SpyreDevice
card state = record {
  product_id = "06a7";
  device = record {
    name = "0000-1a-00-0";
    attributes = ("productId", string_value "06a7") ∷ ("deviceState", string_value state) ∷ [];
  };
  pci_device = spyre (record {
    address = "0000:1a:00.0";
    vendor_id = "1014";
    product_id = "06a7";
    subclass_id = "00";
    pf_addr = "";
    driver = "vfio-pci";
    vf_id = pos 0;
    numa = "0";
  });
}

abbrev pub offered : String → AllocatableDevices
offered state = ("0000-1a-00-0", card state) ∷ []

abbrev reported : Map String
reported = ("0000:1a:00.0", "IN_ERROR") ∷ []

there : lookup "0000-1a-00-0" (offered "ONLINE") ≡ some (card "ONLINE")
unfolding lookup
there = refl

update_device_states-IsUpdated_example :
    (after : SpyreDevice) × (lookup "0000-1a-00-0"
        (update_device_states reported (offered "ONLINE")).0
      ≡ some after)
    × IsUpdated reported (card "ONLINE") after
update_device_states-IsUpdated_example =
    update_device_states-IsUpdated reported (offered "ONLINE") "0000-1a-00-0" (card "ONLINE") there

abbrev hw : String → HwDevice
hw vendor = record {
  address = "0000:1a:00.0";
  vendor_id = vendor;
  product_id = "06a7";
  class_id = "12";
  subclass_id = "00";
  driver = "vfio-pci";
  node = some (pos 0);
}

discover_target_devices_iff_example :
    Memᴰ (hw "1014") (
      discover_target_devices node
        (hw "8086" ∷ hw "1014" ∷ [])
        (record { checkpoint = []; specs = []; folders = []; published = none }))
    ↔ (Memᴰ (hw "1014") (hw "8086" ∷ hw "1014" ∷ [])
        × IsTarget node
            (record { checkpoint = []; specs = []; folders = []; published = none })
            (hw "1014"))
discover_target_devices_iff_example =
    discover_target_devices_iff node
      (record { checkpoint = []; specs = []; folders = []; published = none }) (hw "1014")
      (hw "8086" ∷ hw "1014" ∷ [])

-- a report that changes nothing
silent : (update_device_states reported (offered "IN_ERROR")).1 ≡ false
unfolding update_device_states update_device is_state get_pci_addr lookup
silent = refl
