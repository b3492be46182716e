-- ===== src/State/Start/Restart.antt =====
-- A start of the driver on a node that has claims, and on one that has none.
use dra_driver_spyre.Prelude.{String, true, ◌≡◌, List, contains, none}
use dra_driver_spyre.Env.{Env, World, ok, PreparedClaims, pure, wrapping, attempt, ◌>>=◌}
use dra_driver_spyre.Env.Keeps.{
  Keeps, Keeps-bind, Keeps-wrapping, Keeps-ignoring, Keeps-reading, bind_rule, wrapping-returned,
  attempt-returned,
}
use dra_driver_spyre.Env.Laws.{CheckpointLaws, SpecLaws}
use dra_driver_spyre.Discovery.Frame.{get_allocatable_devices-Keeps}
use dra_driver_spyre.Handler.Config.Frame.{init_config_mount-Keeps}
use dra_driver_spyre.Handler.Cdi.Frame.{
  create_common_spec_file-Keeps, clean_zombie_config_folders-Keeps,
}
use dra_driver_spyre.State.{prepared_of}
use dra_driver_spyre.State.Consistent.{Holds, Holds-IsFramed, write_spec-Holds, effect-Holds}
use dra_driver_spyre.State.Start.{
  Host, StateFlags, DeviceState, driver_plugin_path, driver_plugin_checkpoint_file, new_cdi_handler,
  keep_or_create, new_device_state,
}

-- What a start relies on: a checkpoint that can be read is listed, and neither the cache of specs nor the
-- checkpoint manager touches the checkpoint or a spec when it is made.
pub record HostLaws {env : Env} (laws : SpecLaws env) (host : Host env) : Type 0 where
  pub listed :
      (d : env.Disk) (claims : PreparedClaims) (names : List String)
      → env.get_checkpoint d ≡ ok claims
      → host.list_checkpoints d ≡ ok names
      → contains names driver_plugin_checkpoint_file ≡ true
  pub get-cache :
      (p : String) (d : env.Disk) → env.get_checkpoint (host.new_cache p d).1 ≡ env.get_checkpoint d
  pub at-cache :
      (m p : String) (d : env.Disk) → laws.spec_at m (host.new_cache p d).1 ≡ laws.spec_at m d
  pub get-manager :
      (p : String) (d : env.Disk)
      → env.get_checkpoint (host.new_checkpoint_manager p d).1 ≡ env.get_checkpoint d
  pub at-manager :
      (m p : String) (d : env.Disk)
      → laws.spec_at m (host.new_checkpoint_manager p d).1 ≡ laws.spec_at m d

module _ {env : Env} (checkpoint : CheckpointLaws env) (laws : SpecLaws env) (host : Host env)
    (host_laws : HostLaws laws host) (claims : PreparedClaims) where
  new_cdi_handler-Keeps :
      (root : String) → Keeps (Holds laws claims) (new_cdi_handler env host root)
  unfolding new_cdi_handler
  new_cdi_handler-Keeps root =
      Keeps-bind
        (Keeps-wrapping _ (
          effect-Holds laws claims (host.new_cache root) (host_laws.get-cache root)
            (λ m d. host_laws.at-cache m root d)))
        (λ _. Keeps-wrapping _ (init_config_mount-Keeps (Holds-IsFramed laws checkpoint claims)))

  kept :
      (names : List String) (s : DeviceState) (w : World env)
      → Holds laws claims w
      → host.list_checkpoints w.disk ≡ ok names
      → Holds laws claims ((keep_or_create env host names >>= λ _. pure s) w).1
  unfolding keep_or_create pure ◌>>=◌
  kept names s w h listed =
      rw (keep_or_create, host_laws.listed w.disk claims names h.reads listed) h

  finish_start :
      (s : DeviceState) (w : World env)
      → Holds laws claims w
      → Holds laws claims
          ((wrapping "unable to list checkpoints" (attempt host.list_checkpoints) >>= λ names.
              keep_or_create env host names >>= λ _. pure s)
            w).1
  unfolding wrapping attempt
  finish_start s w h =
      bind_rule _ _ w (Holds laws claims)
        (λ names v. Holds laws claims v × (host.list_checkpoints v.disk ≡ ok names)) h
        (λ names done. (
          h,
          attempt-returned host.list_checkpoints w
              (wrapping-returned _ (attempt host.list_checkpoints) w done),
        ))
        (λ names v (k, listed). kept names s v k listed)

  -- Let the checkpoint, the CDI directory and the libraries of the start behave as documented. From a safe
  -- state whose checkpoint reads as `claims`, none of which is prepared under the name "common",
  -- NewDeviceState ends in a safe state whose checkpoint still reads as `claims`, however it ends.
  pub new_device_state-Holds :
      prepared_of "common" claims ≡ none
      → (flags : StateFlags) (w : World env) → Holds laws claims w
      → Holds laws claims (new_device_state env host flags w).1
  unfolding new_device_state
  new_device_state-Holds free flags w h =
      let framed = Holds-IsFramed laws checkpoint claims in
      (Keeps-bind (Keeps-reading _) λ topology_file.
          Keeps-bind (Keeps-wrapping _ (get_allocatable_devices-Keeps framed _ _ _ _ _ _))
            λ allocatable. Keeps-bind (Keeps-wrapping _ (new_cdi_handler-Keeps flags.cdi_root)) λ _.
              Keeps-bind
                (Keeps-wrapping _ (
                  create_common_spec_file-Keeps framed
                    (write_spec-Holds laws checkpoint claims "common" free)))
                λ _.
                  Keeps-bind
                    (Keeps-ignoring (clean_zombie_config_folders-Keeps framed flags.cdi_root))
                    λ _.
                      Keeps-bind
                        (Keeps-wrapping _ (
                          effect-Holds laws claims (host.new_checkpoint_manager driver_plugin_path)
                            (host_laws.get-manager driver_plugin_path)
                            (λ m d. host_laws.at-manager m driver_plugin_path d)))
                        λ _. record { at = finish_start _ }).at
        w h
