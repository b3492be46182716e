-- ===== src/State/Updates/Changed.antt =====
-- What UpdateDeviceStates of internal/state/state.go says of its own work: whether any value changed.
use dra_driver_spyre.Prelude.{
  String, Bool, true, false, ◌||◌, ◌≡◌, ◌≢◌, refl, ap, sym, ◌∙◌, ◌⊎◌, inl, inr, Option, none, some,
  [], ◌∷◌, Map, lookup, lookup-insert_self, Bool-cases,
}
use dra_driver_spyre.Devices.{get_pci_addr}
use dra_driver_spyre.Devices.Attributes.{string_value}
use dra_driver_spyre.Devices.Allocatable.{SpyreDevice, AllocatableDevices}
use dra_driver_spyre.State.Updates.{
  is_state, with_state, update_device, update_device_states, is_state_same,
}

module _ (states : Map String) where
  update_device_unchanged :
      (device : SpyreDevice) (o : Option String)
      → (update_device o device).1 ≡ false
      → (update_device o device).0 ≡ device
  unfolding update_device
  update_device_unchanged device none h = refl
  update_device_unchanged device (some s) h =
      elim (Bool-cases (is_state (lookup "deviceState" device.device.attributes) s)) [
        | inl same ↦ rw (update_device, same) refl
        | inr differs ↦ absurd (true-false (rw (update_device, differs) at h))
      ]
    where
      true-false : true ≡ false → ⊥
      true-false h = cc

  -- Where UpdateDeviceStates says that nothing changed, nothing did.
  pub update_device_states_unchanged :
      (allocatable : AllocatableDevices)
      → (update_device_states states allocatable).1 ≡ false
      → (update_device_states states allocatable).0 ≡ allocatable
  unfolding update_device_states
  update_device_states_unchanged [] h = refl
  update_device_states_unchanged ((key, device) ∷ rest) h =
      let o = lookup (get_pci_addr device.pci_device) states in
      let (first, later) =
        neither (update_device o device).1 (update_device_states states rest).1 h in
      rw (update_device_unchanged device o first, update_device_states_unchanged rest later) refl
    where
      neither : (x y : Bool) → (x || y) ≡ false → (x ≡ false) × (y ≡ false)
      neither true y h = cc
      neither false y h = (refl, h)

  update_device_changed :
      (device : SpyreDevice) (o : Option String)
      → (update_device o device).1 ≡ true
      → (update_device o device).0 ≢ device
  unfolding update_device with_state
  update_device_changed device none h = cc
  update_device_changed device (some s) h =
      elim (Bool-cases (is_state (lookup "deviceState" device.device.attributes) s)) [
        | inl same ↦ absurd (false-true (rw (update_device, same) at h))
        | inr differs ↦
            rw (update_device, differs)
              λ e. false-true (
                sym differs
                ∙ ap (λ o. is_state o s)
                    (sym (ap (λ d. lookup "deviceState" d.device.attributes) e)
                      ∙ lookup-insert_self "deviceState" (string_value s) device.device.attributes)
                ∙ is_state_same s)
      ]
    where
      false-true : false ≡ true → ⊥
      false-true h = cc

  -- Where UpdateDeviceStates says that something changed, something did.
  pub update_device_states_changed :
      (allocatable : AllocatableDevices)
      → (update_device_states states allocatable).1 ≡ true
      → (update_device_states states allocatable).0 ≢ allocatable
  unfolding update_device_states
  update_device_states_changed [] h e = cc
  update_device_states_changed ((key, device) ∷ rest) h e =
      let o = lookup (get_pci_addr device.pci_device) states in
      let (first, later) = parts e in
      elim (either (update_device o device).1 (update_device_states states rest).1 h) [
        | inl x ↦ update_device_changed device o x first
        | inr y ↦ update_device_states_changed rest y later
      ]
    where
      parts :
          {k : String} {a b : SpyreDevice} {xs ys : AllocatableDevices}
          → Path AllocatableDevices ((k, a) ∷ xs) ((k, b) ∷ ys)
          → (a ≡ b) × (xs ≡ ys)
      parts e = (cc, cc)

      either : (x y : Bool) → (x || y) ≡ true → (x ≡ true) ⊎ (y ≡ true)
      either true y h = inl refl
      either false y h = inr h
