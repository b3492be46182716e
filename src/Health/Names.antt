-- ===== src/Health/Names.antt =====
-- internal/health/health_state.go: health states of devices, and the names under which they are published.
use dra_driver_spyre.Prelude.{
  String, ◌≡◌, refl, Bool-cases, inl, inr, none, some, List, [], ◌∷◌, Map, lookup, insert, ◌==◌,
  if◌then◌else◌,
}
use dra_driver_spyre.Strings.{trim_prefix}
use dra_driver_spyre.Env.{Env}
use dra_driver_spyre.Devices.{PciDevice, get_pci_addr, is_pf_device}
use dra_driver_spyre.Devices.Allocatable.{AllocatableDevices}
use dra_driver_spyre.Health.{Protocol, HealthState, Healths, Report}

-- DEVICE_STATE_ONLINE, DEVICE_TYPE_PF and DEVICE_TYPE_VF, and the String method of DEVICE_STATE
pub record Enums (protocol : Protocol) : Type 0 where
  pub online : protocol.State
  pub pf : protocol.Kind
  pub vf : protocol.Kind
  pub state_string : protocol.State → String

module _ {protocol : Protocol} (enums : Enums protocol) where
  -- NewDeviceHealthState
  pub new_device_health_state : protocol.Kind → HealthState protocol
  new_device_health_state device_type = record { state = enums.online; device_type = device_type }

  -- StateName
  pub state_name : HealthState protocol → String
  state_name health = trim_prefix (enums.state_string health.state) "DEVICE_STATE_"

  -- StateNames
  pub state_names : Healths protocol → Map String
  state_names [] = []
  state_names ((addr, hs) ∷ rest) = (addr, state_name hs) ∷ state_names rest

  -- Every device has the name of its state, and no other is there.
  pub lookup-state_names :
      (healths : Healths protocol) (addr : String)
      → lookup addr (state_names healths)
        ≡ (elim (lookup addr healths) [ none ↦ none | some hs ↦ some (state_name hs) ])
  unfolding state_names lookup
  lookup-state_names [] addr = refl
  lookup-state_names ((key, hs) ∷ rest) addr = elim (Bool-cases (key == addr)) [
    | inl e ↦ rw e refl
    | inr ne ↦ rw ne (lookup-state_names rest addr)
  ]

  module _ (env : Env) where
    -- deviceTypeOf
    pub device_type_of : PciDevice → env.Disk → protocol.Kind
    device_type_of device d = if is_pf_device env device d then enums.pf else enums.vf

    -- InitHealthInfo
    pub init_health_info : AllocatableDevices → env.Disk → Healths protocol
    init_health_info [] d = []
    init_health_info ((name, device) ∷ rest) d =
        insert (get_pci_addr device.pci_device)
          (new_device_health_state (device_type_of device.pci_device d)) (init_health_info rest d)

    -- InitialDevices
    pub initial_devices : AllocatableDevices → env.Disk → List (Report protocol)
    initial_devices [] d = []
    initial_devices ((name, device) ∷ rest) d =
        (
          get_pci_addr device.pci_device,
          record { state = enums.online; device_type = device_type_of device.pci_device d },
        )
        ∷ initial_devices rest d
