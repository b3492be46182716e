-- ===== src/Driver/Publish/Changes.antt =====
-- Reports of health, and what is published of them.
use dra_driver_spyre.Prelude.{
  List, String, Bool, true, false, ◌≡◌, ◌≢◌, refl, ap, ◌∙◌, sym, ◌⊎◌, inl, inr, Bool-cases,
}
use dra_driver_spyre.Env.{
  Env, World, returned, ◌>>=◌, pure, ignoring, effect, log_only, outcome_of, Result, ok, err,
  Outcome,
}
use dra_driver_spyre.Env.Keeps.{Keeps, Keeps-bind, Keeps-pure, Keeps-ignoring}
use dra_driver_spyre.Devices.Allocatable.{ResourceDevice, AllocatableDevices}
use dra_driver_spyre.State.Updates.{
  update_device_states, AreUpdated, update_device_states-AreUpdated, update_device_states_again,
}
use dra_driver_spyre.State.Updates.Changed.{
  update_device_states_unchanged, update_device_states_changed,
}
use dra_driver_spyre.State.Start.{DeviceState, devices}
use dra_driver_spyre.Health.{Protocol, Healths}
use dra_driver_spyre.Health.Names.{Enums, state_names}
use dra_driver_spyre.Driver.Publish.{
  Kubelet, publish_resources, republish, on_device_health_changed,
}

module _ {env : Env} (kubelet : Kubelet env) {protocol : Protocol} (enums : Enums protocol)
    (node_name : String) where
  logged : (r : Result (Unit {0})) → log_only (outcome_of r) ≡ returned tt
  logged (ok _) = refl
  logged (err e) = refl

  republished :
      (state : DeviceState) (w : World env)
      → (republish env kubelet node_name state true w).0 ≡ returned state
        × ((republish env kubelet node_name state true w).1.disk
            ≡ (kubelet.publish node_name (devices state) w.disk).1)
  unfolding republish publish_resources pure ◌>>=◌ ignoring effect
  republished state w =
      rw (logged (kubelet.publish node_name (devices state) w.disk).0) (refl, refl)

  republish-Keeps :
      {P : World env → Type 0} (new : DeviceState) (b : Bool)
      → Keeps P (effect (kubelet.publish node_name (devices new)))
      → Keeps P (republish env kubelet node_name new b)
  unfolding republish publish_resources
  republish-Keeps new false k = Keeps-pure new
  republish-Keeps new true k = Keeps-bind (Keeps-ignoring k) (λ _. Keeps-pure new)

  pub on_device_health_changed-Keeps :
      {P : World env → Type 0}
      → ((slice : List ResourceDevice) → Keeps P (effect (kubelet.publish node_name slice)))
      → (healths : Healths protocol) (state : DeviceState)
      → Keeps P (on_device_health_changed env kubelet enums node_name healths state)
  unfolding on_device_health_changed
  on_device_health_changed-Keeps {P} published healths state =
      either
        (record state {
          allocatable = (update_device_states (state_names enums healths) state.allocatable).0;
        })
        (update_device_states (state_names enums healths) state.allocatable).1
    where
      either : (new : DeviceState) (b : Bool) → Keeps P (republish env kubelet node_name new b)
      either new b = republish-Keeps new b (published (devices new))

  -- A report of healths never fails. The devices of the new state are those of the old one, in their order
  -- and under their names, each with its product, its PCI device and its other attributes, and with the
  -- name of the state that is reported for its PCI address, if any; nothing else of the state differs.
  -- Either the state is the old one, and nothing is done at all, or it is not, and the devices of the new
  -- state are published.
  pub on_device_health_changed_effect :
      (healths : Healths protocol) (state : DeviceState) (w : World env)
      → (new : DeviceState) × ((on_device_health_changed env kubelet enums node_name healths state
            w).0
          ≡ returned new)
        × (new.root ≡ state.root)
        × AreUpdated (state_names enums healths) state.allocatable new.allocatable
        × (((new ≡ state)
              × ((on_device_health_changed env kubelet enums node_name healths state w).1 ≡ w))
            ⊎ ((new ≢ state)
                × ((on_device_health_changed env kubelet enums node_name healths state w).1.disk
                    ≡ (kubelet.publish node_name (devices new) w.disk).1)))
  unfolding on_device_health_changed republish pure
  on_device_health_changed_effect healths state w =
      let states = state_names enums healths in
      let new = record state { allocatable = (update_device_states states state.allocatable).0 } in
      elim (Bool-cases (update_device_states states state.allocatable).1) [
        | inl changed ↦
            let (returns, published) = republished new w in
            (
              new,
              rw changed returns,
              refl,
              update_device_states-AreUpdated states state.allocatable,
              inr (
                λ e.
                    update_device_states_changed states state.allocatable changed
                      (ap (λ s. s.allocatable) e),
                rw changed published,
              ),
            )
        | inr same ↦ (
          new,
          rw (same, republish) refl,
          refl,
          update_device_states-AreUpdated states state.allocatable,
          inl (
            ap (λ a. record state { allocatable = a })
                (update_device_states_unchanged states state.allocatable same),
            rw (same, republish) refl,
          ),
        )
      ]

  -- The same healths reported again change nothing: the state stays, and nothing is published.
  pub on_device_health_changed_again :
      (healths : Healths protocol) (state new : DeviceState) (w v : World env)
      → (on_device_health_changed env kubelet enums node_name healths state w).0 ≡ returned new
      → on_device_health_changed env kubelet enums node_name healths new v ≡ (returned new, v)
  unfolding on_device_health_changed republish pure
  on_device_health_changed_again healths state new w v h =
      let states = state_names enums healths in
      let updated = record state {
        allocatable = (update_device_states states state.allocatable).0;
      } in
      let same : new ≡ updated =
        of_returned (sym h ∙ either (update_device_states states state.allocatable).1) in
      rw same (
        ap
          (λ (answer : AllocatableDevices × Bool).
            republish env kubelet node_name (record state { allocatable = answer.0 }) answer.1 v)
          (update_device_states_again states state.allocatable))
    where
      of_returned :
          {a b : DeviceState} → Path (Outcome DeviceState) (returned a) (returned b) → a ≡ b
      of_returned e = cc

      either :
          (b : Bool)
          → (republish env kubelet node_name
              (record state {
                allocatable =
                    (update_device_states (state_names enums healths) state.allocatable).0;
              })
              b
              w).0
            ≡ returned (record state {
              allocatable = (update_device_states (state_names enums healths) state.allocatable).0;
            })
      either true = (republished _ w).0
      either false = refl
