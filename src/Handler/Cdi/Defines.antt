-- ===== src/Handler/Cdi/Defines.antt =====
-- What a claim's CDI spec says of its devices.
use dra_driver_spyre.Prelude.{ℕ, suc, ◌≡◌, refl, List, [], ◌∷◌, map}
use dra_driver_spyre.Env.{Spec, CdiDevice, PreparedDevice}
use dra_driver_spyre.Handler.Cdi.{cdi_devices}

-- The spec has exactly the devices, in their order, each under its name and with its device nodes.
pub record Defines (devices : List PreparedDevice) (s : Spec) : Type 0 where
  pub names :
      map (λ (d : CdiDevice). d.name) s.devices
      ≡ map (λ (p : PreparedDevice). p.device.device_name) devices
  pub nodes :
      map (λ (d : CdiDevice). d.container_edits.device_nodes) s.devices
      ≡ map (λ (p : PreparedDevice). p.cdi_device_spec) devices

cdi_devices_names :
    (i : ℕ) (devices : List PreparedDevice)
    → map (λ (d : CdiDevice). d.name) (cdi_devices i devices)
      ≡ map (λ (p : PreparedDevice). p.device.device_name) devices
unfolding cdi_devices
cdi_devices_names i [] = refl
cdi_devices_names i (device ∷ rest) = rw (cdi_devices_names (suc i) rest) refl

cdi_devices_nodes :
    (i : ℕ) (devices : List PreparedDevice)
    → map (λ (d : CdiDevice). d.container_edits.device_nodes) (cdi_devices i devices)
      ≡ map (λ (p : PreparedDevice). p.cdi_device_spec) devices
unfolding cdi_devices
cdi_devices_nodes i [] = refl
cdi_devices_nodes i (device ∷ rest) = rw (cdi_devices_nodes (suc i) rest) refl

pub cdi_devices-Defines :
    (devices : List PreparedDevice) (s : Spec)
    → s.devices ≡ cdi_devices 0 devices
    → Defines devices s
cdi_devices-Defines devices s e = record {
  names = rw e (cdi_devices_names 0 devices);
  nodes = rw e (cdi_devices_nodes 0 devices);
}
