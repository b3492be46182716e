-- ===== src/State/Start/Returns.antt =====
-- NewDeviceState returns where the calls of the system do.
use dra_driver_spyre.Prelude.{String, List, ◌≡◌, contains}
use dra_driver_spyre.Env.{Env, Spec, ok, PreparedClaims}
use dra_driver_spyre.Env.Total.{
  Total, Total-bind, Total-pure, Total-if, Total-reading, Total-wrapping, Total-effect,
  Total-attempt, Total-ignoring,
}
use dra_driver_spyre.Devices.{HwDevice}
use dra_driver_spyre.Discovery.Returns.{get_allocatable_devices-Total}
use dra_driver_spyre.Handler.Config.Frame.{init_config_mount-Total}
use dra_driver_spyre.Handler.Cdi.Returns.{
  clean_zombie_config_folders-Calm, create_common_spec_file-Total,
}
use dra_driver_spyre.State.Start.{
  Host, StateFlags, driver_plugin_checkpoint_file, new_cdi_handler, set_new_checkpoint,
  keep_or_create, new_device_state,
}

-- Every call of the system that the start makes, and does not only log, succeeds.
pub record Works (env : Env) (host : Host env) : Type 0 where
  pub found : List HwDevice
  pub listed : host.listed ≡ ok found
  pub mkdir : (p : String) (d : env.Disk) → (env.mkdir_all p d).0 ≡ ok tt
  pub version : (s : Spec) → (v : String) × (env.minimum_required_version s ≡ ok v)
  pub write_spec : (s : Spec) (n : String) (d : env.Disk) → (env.write_spec s n d).0 ≡ ok tt
  pub create_checkpoint :
      (c : PreparedClaims) (d : env.Disk) → (env.create_checkpoint c d).0 ≡ ok tt
  pub cache : (p : String) (d : env.Disk) → (host.new_cache p d).0 ≡ ok tt
  pub manager : (p : String) (d : env.Disk) → (host.new_checkpoint_manager p d).0 ≡ ok tt
  pub checkpoints : (d : env.Disk) → (names : List String) × (host.list_checkpoints d ≡ ok names)

module _ (env : Env) (host : Host env) (works : Works env host) where
  new_cdi_handler-Total : (root : String) → Total (new_cdi_handler env host root)
  unfolding new_cdi_handler
  new_cdi_handler-Total root =
      Total-bind
        (Total-wrapping _ (Total-effect (host.new_cache root) (λ d. (tt, works.cache root d))))
        λ _. Total-wrapping _ (init_config_mount-Total env works.mkdir)

  keep_or_create-Total : (names : List String) → Total (keep_or_create env host names)
  unfolding keep_or_create set_new_checkpoint
  keep_or_create-Total names =
      Total-if (contains names driver_plugin_checkpoint_file) (Total-pure tt) (
        Total-wrapping _
          (Total-effect (env.create_checkpoint _) (λ d. (tt, works.create_checkpoint _ d))))

  pub new_device_state-Total : (flags : StateFlags) → Total (new_device_state env host flags)
  unfolding new_device_state
  new_device_state-Total flags = Total-bind (Total-reading _) λ topology_file.
      Total-bind
        (Total-wrapping _
          (get_allocatable_devices-Total env _ _ _ _ _ host.listed works.found works.listed))
        λ allocatable. Total-bind (Total-wrapping _ (new_cdi_handler-Total flags.cdi_root)) λ _.
          Total-bind
            (Total-wrapping _ (create_common_spec_file-Total env works.version works.write_spec))
            λ _.
              Total-bind (Total-ignoring (clean_zombie_config_folders-Calm env flags.cdi_root)) λ _.
                Total-bind
                  (Total-wrapping _
                    (Total-effect (host.new_checkpoint_manager _) (λ d. (tt, works.manager _ d))))
                  λ _.
                    Total-bind
                      (Total-wrapping _ (Total-attempt host.list_checkpoints works.checkpoints))
                      λ names. Total-bind (keep_or_create-Total names) λ _. Total-pure _
