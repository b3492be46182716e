-- ===== src/Plugin.antt =====
-- RunPlugin of cmd/spyre-dra-plugin/main.go: the life of the plugin's process. Until its context is done,
-- the kubelet and the health monitor call the driver; Prepare, Unprepare and UpdateDeviceStates each hold
-- the mutex of DeviceState, so that the calls are a sequence.
pub mod Life
use dra_driver_spyre.Prelude.{String, Bool, List, [], ◌∷◌, if◌then◌else◌}
use dra_driver_spyre.Env.{
  Env, Io, msg, Stat, found, missing, failed, ◌>>=◌, ◌>>◌, pure, raise, effect, reading,
}
use dra_driver_spyre.State.{ResourceClaim}
use dra_driver_spyre.State.Start.{Host, DeviceState}
use dra_driver_spyre.Health.{Protocol, Healths}
use dra_driver_spyre.Health.Names.{Enums}
use dra_driver_spyre.Health.Client.{Service}
use dra_driver_spyre.Health.Probe.{Endpoints}
use dra_driver_spyre.Driver.{prepare_resource_claim, unprepare_resource_claim}
use dra_driver_spyre.Driver.Publish.{
  Kubelet, Flags, Driver, Stopped, on_device_health_changed, new_driver, shutdown,
}

-- A call of the driver: one claim of a batch, or a report of healths.
pub data Call (protocol : Protocol) : Type 0 where
  prepare_claim : ResourceClaim → Call protocol
  unprepare_claim : String → Call protocol
  report : Healths protocol → Call protocol

module _ (env : Env) (host : Host env) (kubelet : Kubelet env) {protocol : Protocol}
    (enums : Enums protocol) where
  -- `<-ctx.Done()`: the calls until then
  pub serve : String → List (Call protocol) → DeviceState → Io env (Unit {0})
  serve node_name [] state = pure tt
  serve node_name (prepare_claim claim ∷ rest) state =
      prepare_resource_claim env host.node_name state.allocatable claim >>= λ _.
      serve node_name rest state
  serve node_name (unprepare_claim claim_uid ∷ rest) state =
      unprepare_resource_claim env state.root claim_uid >>= λ _. serve node_name rest state
  serve node_name (report healths ∷ rest) state =
      on_device_health_changed env kubelet enums node_name healths state >>= λ new.
      serve node_name rest new

-- `is_dir` is IsDir of what os.Stat found
module _ (env : Env) (host : Host env) (kubelet : Kubelet env) (endpoints : Endpoints env)
    (service : Service env) {protocol : Protocol} (enums : Enums protocol)
    (is_dir : String → env.Disk → Bool) where
  -- the switch on the directory of CDI specs
  check_dir : Bool → Io env (Unit {0})
  check_dir is_directory =
      if is_directory
      then pure tt
      else raise (msg "path for cdi file generation is not a directory")

  pub make_cdi_root : String → Stat → Io env (Unit {0})
  unfolding check_dir
  make_cdi_root cdi_root missing = effect (env.mkdir_all cdi_root)
  make_cdi_root cdi_root (failed e) = raise e
  make_cdi_root cdi_root (found _) = reading (is_dir cdi_root) >>= λ b. check_dir b

  -- RunPlugin
  pub run_plugin : Flags → List (Call protocol) → Io env (List Stopped)
  run_plugin flags calls = do
    effect (env.mkdir_all flags.driver_plugin_path)
    info ← reading (env.stat flags.state.cdi_root)
    make_cdi_root flags.state.cdi_root info
    driver ← new_driver env host kubelet endpoints service flags
    serve env host kubelet enums driver.node_name calls driver.state
    pure (shutdown driver)
