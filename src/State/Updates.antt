-- ===== src/State/Updates.antt =====
-- UpdateDeviceStates of internal/state/state.go: reported health states become an attribute of the
-- devices, and the caller learns whether any value changed.
pub mod Changed
use dra_driver_spyre.Prelude.{
  String, Bool, true, false, ◌||◌, ◌≡◌, ◌≢◌, refl, ap, subst, sym, ◌∙◌, ◌⊎◌, inl, inr, List, Option,
  none, some, [], ◌∷◌, Map, lookup, insert, lookup-insert_self, lookup-insert_ne, Option-cases,
  Bool-cases, ◌==◌, eq_iff, if◌then◌else◌,
}
use dra_driver_spyre.Devices.{get_pci_addr}
use dra_driver_spyre.Devices.Attributes.{Attribute, string_value, bool_value, int_value}
use dra_driver_spyre.Devices.Allocatable.{SpyreDevice, AllocatableDevices}

-- `current.StringValue != nil && *current.StringValue == newState`
unfoldable pub is_state : Option Attribute → String → Bool
is_state (some (string_value current)) new_state = current == new_state
is_state (some (bool_value _)) new_state = false
is_state (some (int_value _)) new_state = false
is_state none new_state = false

-- the device with the state as its attribute
pub with_state : SpyreDevice → String → SpyreDevice
with_state device new_state = record device {
  device = record (device.device) {
    attributes = insert "deviceState" (string_value new_state) device.device.attributes;
  };
}

-- the body of the loop, for the state that was reported for the device, if any
unfoldable pub update_device : Option String → SpyreDevice → SpyreDevice × Bool
update_device none device = (device, false)
update_device (some new_state) device =
    if is_state (lookup "deviceState" device.device.attributes) new_state
    then (device, false)
    else (with_state device new_state, true)

-- UpdateDeviceStates; the body writes only the entry that the loop is at
unfoldable pub update_device_states : Map String → AllocatableDevices → AllocatableDevices × Bool
update_device_states states [] = ([], false)
update_device_states states ((name, device) ∷ rest) =
    let (others, others_changed) = update_device_states states rest in
    let (updated, changed) =
      update_device (lookup (get_pci_addr device.pci_device) states) device in
    ((name, updated) ∷ others, changed || others_changed)

-- What one device looks like after the update.
pub record IsUpdated (states : Map String) (before after : SpyreDevice) : Type 0 where
  pub same_product : after.product_id ≡ before.product_id
  pub same_pci : after.pci_device ≡ before.pci_device
  pub same_name : after.device.name ≡ before.device.name
  pub others :
      (k : String)
      → "deviceState" ≢ k
      → lookup k after.device.attributes ≡ lookup k before.device.attributes
  pub state :
      lookup "deviceState" after.device.attributes
      ≡ (elim (lookup (get_pci_addr before.pci_device) states) [
        | none ↦ lookup "deviceState" before.device.attributes
        | some new_state ↦ some (string_value new_state)
      ])

-- The second list has the entries of the first, in their order and under their names, after the update.
abbrev pub AreUpdated : Map String → AllocatableDevices → AllocatableDevices → Type 0
AreUpdated states [] [] = Unit
AreUpdated states [] (_ ∷ _) = ⊥
AreUpdated states (_ ∷ _) [] = ⊥
AreUpdated states ((name, before) ∷ olds) ((new_name, after) ∷ news) =
    (new_name ≡ name) × IsUpdated states before after × AreUpdated states olds news

is_state-path :
    (o : Option Attribute) (s : String) → is_state o s ≡ true → o ≡ some (string_value s)
unfolding is_state
is_state-path (some (string_value c)) s h = ap (λ t. some (string_value t)) ((eq_iff c s).0 h)
is_state-path (some (bool_value b)) s h = cc
is_state-path (some (int_value n)) s h = cc
is_state-path none s h = cc

pub is_state_same : (s : String) → is_state (some (string_value s)) s ≡ true
unfolding is_state
is_state_same s = (eq_iff s s).1 refl

module _ (states : Map String) where
  update_device-IsUpdated :
      (device : SpyreDevice)
      → IsUpdated states device
          (update_device (lookup (get_pci_addr device.pci_device) states) device).0
  unfolding update_device with_state
  update_device-IsUpdated device =
      elim (Option-cases (lookup (get_pci_addr device.pci_device) states)) [
        | inl absent ↦
            rw (update_device, absent)
              (record {
                same_product = refl;
                same_pci = refl;
                same_name = refl;
                others = λ k ne. refl;
                state = rw absent refl;
              })
        | inr (new_state, found) ↦
            elim (Bool-cases (is_state (lookup "deviceState" device.device.attributes) new_state)) [
              | inl same ↦
                  rw (update_device, found, same)
                    (record {
                      same_product = refl;
                      same_pci = refl;
                      same_name = refl;
                      others = λ k ne. refl;
                      state = rw found (
                          is_state-path (lookup "deviceState" device.device.attributes) new_state
                            same);
                    })
              | inr differs ↦
                  rw (update_device, found, differs)
                    (record {
                      same_product = refl;
                      same_pci = refl;
                      same_name = refl;
                      others = λ k ne.
                          lookup-insert_ne "deviceState" k (string_value new_state)
                            device.device.attributes ne;
                      state = rw found (
                          lookup-insert_self "deviceState" (string_value new_state)
                            device.device.attributes);
                    })
            ]
      ]

  -- Each device that can be allocated stays under its name, with its product, its PCI device and its other
  -- attributes; its state attribute is the state that is reported for its PCI address, and as before
  -- where none is reported.
  pub update_device_states-IsUpdated :
      (allocatable : AllocatableDevices) (name : String) (device : SpyreDevice)
      → lookup name allocatable ≡ some device
      → (after : SpyreDevice) × (lookup name (update_device_states states allocatable).0
          ≡ some after)
        × IsUpdated states device after
  unfolding update_device_states lookup
  update_device_states-IsUpdated [] name device h = cc
  update_device_states-IsUpdated ((key, first) ∷ rest) name device h =
      elim (Bool-cases (key == name)) [
        | inl e ↦
            let path : first ≡ device = some-path (rw e at h) in
            subst
              (λ (before : SpyreDevice).
                (after : SpyreDevice) × (lookup name
                    (update_device_states states ((key, first) ∷ rest)).0
                  ≡ some after)
                × IsUpdated states before after)
              path
              (
                (update_device (lookup (get_pci_addr first.pci_device) states) first).0,
                rw e refl,
                update_device-IsUpdated first,
              )
        | inr ne ↦
            let (after, there, updated) =
              update_device_states-IsUpdated rest name device (rw ne at h) in
            (after, rw ne there, updated)
      ]
    where
      some-path : {a b : SpyreDevice} → some a ≡ some b → a ≡ b
      some-path h = cc

  update_device_again :
      (device : SpyreDevice) (o : Option String)
      → update_device o (update_device o device).0 ≡ ((update_device o device).0, false)
  unfolding update_device with_state
  update_device_again device none = refl
  update_device_again device (some s) =
      elim (Bool-cases (is_state (lookup "deviceState" device.device.attributes) s)) [
        | inl same ↦ rw (update_device, same) (rw (update_device, same) refl)
        | inr differs ↦
            rw
              (
                update_device,
                differs,
                lookup-insert_self "deviceState" (string_value s) device.device.attributes,
                is_state_same s,
              )
              refl
      ]

  -- The same states reported again change nothing, and UpdateDeviceStates says so.
  pub update_device_states_again :
      (allocatable : AllocatableDevices)
      → update_device_states states (update_device_states states allocatable).0
        ≡ ((update_device_states states allocatable).0, false)
  unfolding update_device_states
  update_device_states_again [] = refl
  update_device_states_again ((key, device) ∷ rest) =
      let o = lookup (get_pci_addr device.pci_device) states in
      let same : lookup (get_pci_addr (update_device o device).0.pci_device) states ≡ o =
        ap (λ x. lookup (get_pci_addr x) states) ((update_device-IsUpdated device).same_pci) in
      rw (update_device_states, same, update_device_again device o, update_device_states_again rest)
        refl

  -- every device, in its place
  pub update_device_states-AreUpdated :
      (allocatable : AllocatableDevices)
      → AreUpdated states allocatable (update_device_states states allocatable).0
  unfolding update_device_states
  update_device_states-AreUpdated [] = tt
  update_device_states-AreUpdated ((name, device) ∷ rest) =
      (refl, update_device-IsUpdated device, update_device_states-AreUpdated rest)
