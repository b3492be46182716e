-- ===== src/Driver/Publish.antt =====
-- internal/driver/driver.go: what is published of the devices, when, and how the driver starts.
pub mod Started
pub mod Changes
use dra_driver_spyre.Prelude.{
  ℕ, String, Bool, true, false, not, ◌&&◌, Option, none, some, List, [], ◌∷◌, if◌then◌else◌,
}
use dra_driver_spyre.Prelude.Int.{ℤ, pos, negsuc}
use dra_driver_spyre.Env.{
  Env, World, Io, Result, ok, err, Outcome, returned, ◌>>=◌, ◌>>◌, pure, wrapping, ignoring,
  attempt, effect, reading,
}
use dra_driver_spyre.Devices.Allocatable.{ResourceDevice}
use dra_driver_spyre.State.Updates.{update_device_states}
use dra_driver_spyre.State.Start.{Host, StateFlags, DeviceState, devices, new_device_state}
use dra_driver_spyre.Health.{Protocol, Healths}
use dra_driver_spyre.Health.Names.{Enums, state_names}
use dra_driver_spyre.Health.Client.{Service, SpyreHealthClient, new_spyre_health_client, register}
use dra_driver_spyre.Health.Probe.{Endpoints, start_healthcheck}

-- kubeletplugin.Start, and PublishResources of its helper, for one pool with one slice
pub record Kubelet (env : Env) : Type 0 where
  pub start : env.Disk → Result (Unit {0}) × env.Disk
  pub publish : String → List ResourceDevice → env.Disk → Result (Unit {0}) × env.Disk

-- the flags that NewDriver reads
pub record Flags : Type 0 where
  pub state : StateFlags
  pub node_name : String
  pub registrar_directory_path : String
  pub driver_plugin_path : String
  pub health_check_port : ℤ

-- driver: its state, whether the liveness probe runs, and the client of its health monitor, if there is one
pub record Driver : Type 0 where
  pub state : DeviceState
  pub healthcheck : Bool
  pub device_healthy : Option SpyreHealthClient
  pub node_name : String

module _ (env : Env) (kubelet : Kubelet env) where
  -- publishResources
  pub publish_resources : String → DeviceState → Io env (Unit {0})
  publish_resources node_name state = effect (kubelet.publish node_name (devices state))

  -- onDeviceHealthChanged, with the state that it leaves; `changed` is UpdateDeviceStates' answer
  pub republish : String → DeviceState → Bool → Io env DeviceState
  republish node_name state false = pure state
  republish node_name state true = do ignoring (publish_resources node_name state); pure state

  pub on_device_health_changed :
      {protocol : Protocol}
      → Enums protocol
      → String
      → Healths protocol
      → DeviceState
      → Io env DeviceState
  on_device_health_changed enums node_name healths state =
      let (allocatable, changed) =
        update_device_states (state_names enums healths) state.allocatable in
      republish node_name (record state { allocatable = allocatable }) changed

-- what Shutdown stops
pub data Stopped : Type 0 where
  monitor : Stopped
  probe : Stopped
  helper : Stopped

-- Shutdown: what it stops, in order
stopped_probe : Bool → List Stopped
stopped_probe true = probe ∷ helper ∷ []
stopped_probe false = helper ∷ []

pub shutdown : Driver → List Stopped
unfolding stopped_probe
shutdown driver = elim driver.device_healthy [
  | none ↦ stopped_probe driver.healthcheck
  | some _ ↦ monitor ∷ stopped_probe driver.healthcheck
]

-- HandleError: whether the main context is cancelled
pub handle_error : Bool → Bool → Bool
handle_error is_recoverable has_cancel = not is_recoverable && has_cancel

module _ (env : Env) (host : Host env) (kubelet : Kubelet env) (endpoints : Endpoints env)
    (service : Service env) where
  -- the test of NewDriver for a port
  pub start_probe : Flags → ℤ → Io env Bool
  start_probe flags (negsuc n) = pure false
  start_probe flags (pos n) = do
    wrapping "start healthcheck" (
        start_healthcheck env endpoints flags.registrar_directory_path flags.driver_plugin_path
          (pos n))
    pure true

  -- NewDeviceHealthMonitor and its Start, which returns no error: where the first Register fails,
  -- attemptReconnect runs in the background
  pub start_monitor : Result SpyreHealthClient → env.Disk → Option SpyreHealthClient
  start_monitor (err _) d = none
  start_monitor (ok client) d = some (register env service client d).1

  -- NewDriver
  pub new_driver : Flags → Io env Driver
  new_driver flags = do
    state ← new_device_state env host flags.state
    effect kubelet.start
    healthcheck ← start_probe flags flags.health_check_port
    publish_resources env kubelet flags.node_name state
    device_healthy ← reading (λ d. start_monitor (new_spyre_health_client env service d) d)
    pure (record {
      state = state;
      healthcheck = healthcheck;
      device_healthy = device_healthy;
      node_name = flags.node_name;
    })
