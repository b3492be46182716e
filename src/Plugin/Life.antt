-- ===== src/Plugin/Life.antt =====
-- A whole run of the plugin.
use dra_driver_spyre.Prelude.{String, Bool, ◌≡◌, none, List, [], ◌∷◌}
use dra_driver_spyre.Env.{Env, World, Stat, found, missing, failed, PreparedClaims}
use dra_driver_spyre.Env.Keeps.{
  Keeps, Keeps-bind, Keeps-pure, Keeps-raise, Keeps-if, Keeps-reading, Leads-bind,
}
use dra_driver_spyre.Env.Laws.{CheckpointLaws, SpecLaws}
use dra_driver_spyre.State.{prepared_of}
use dra_driver_spyre.State.Consistent.{IsSafe, Holds, Holds-IsFramed, effect-IsSafe}
use dra_driver_spyre.State.Start.{Host, DeviceState}
use dra_driver_spyre.State.Start.Restart.{HostLaws}
use dra_driver_spyre.Health.{Protocol}
use dra_driver_spyre.Health.Names.{Enums}
use dra_driver_spyre.Health.Client.{Service}
use dra_driver_spyre.Health.Probe.{Endpoints}
use dra_driver_spyre.Driver.Batch.{prepare_resource_claim-Keeps, unprepare_resource_claim-Keeps}
use dra_driver_spyre.Driver.Publish.{Kubelet, Flags}
use dra_driver_spyre.Driver.Publish.Changes.{on_device_health_changed-Keeps}
use dra_driver_spyre.Driver.Publish.Started.{KubeletLaws, new_driver-Holds}
use dra_driver_spyre.Plugin.{
  Call, prepare_claim, unprepare_claim, report, serve, check_dir, make_cdi_root, run_plugin,
}

module _ {env : Env} (checkpoint : CheckpointLaws env) (laws : SpecLaws env) (host : Host env)
    (kubelet : Kubelet env) (endpoints : Endpoints env) (service : Service env)
    (host_laws : HostLaws laws host) (kubelet_laws : KubeletLaws laws kubelet endpoints)
    {protocol : Protocol} (enums : Enums protocol) where
  serve-Keeps :
      (node_name : String) (calls : List (Call protocol)) (state : DeviceState)
      → Keeps (IsSafe laws) (serve env host kubelet enums node_name calls state)
  unfolding serve
  serve-Keeps node_name [] state = Keeps-pure tt
  serve-Keeps node_name (prepare_claim claim ∷ rest) state =
      Keeps-bind
        (prepare_resource_claim-Keeps checkpoint laws host.node_name state.allocatable claim)
        (λ _. serve-Keeps node_name rest state)
  serve-Keeps node_name (unprepare_claim uid ∷ rest) state =
      Keeps-bind (unprepare_resource_claim-Keeps checkpoint laws state.root uid)
        (λ _. serve-Keeps node_name rest state)
  serve-Keeps node_name (report healths ∷ rest) state =
      Keeps-bind
        (on_device_health_changed-Keeps kubelet enums node_name
          (λ slice.
            effect-IsSafe laws (kubelet.publish node_name slice)
              (kubelet_laws.get-publish node_name slice)
              (λ m d. kubelet_laws.at-publish m node_name slice d))
          healths state)
        (λ new. serve-Keeps node_name rest new)

  module _ (is_dir : String → env.Disk → Bool) (claims : PreparedClaims) where
    make_cdi_root-Keeps :
        (root : String) (s : Stat)
        → Keeps
            (Holds laws claims)
            (make_cdi_root env host kubelet endpoints service enums is_dir root s)
    unfolding make_cdi_root check_dir
    make_cdi_root-Keeps root missing = (Holds-IsFramed laws checkpoint claims).mkdir root
    make_cdi_root-Keeps root (failed e) = Keeps-raise e
    make_cdi_root-Keeps root (found _) =
        Keeps-bind (Keeps-reading (is_dir root)) (λ b. Keeps-if b (Keeps-pure tt) (Keeps-raise _))

    -- Let the checkpoint, the CDI directory and the libraries behave as documented. From a safe state whose
    -- checkpoint reads as `claims`, none of which is prepared under the name "common", a run of the plugin,
    -- with any calls of the kubelet and any reports of health in any order, ends in a safe state, however
    -- it ends. On the final disk, and on the disk before each write, every claim that the checkpoint holds
    -- as prepared has a CDI spec of exactly its devices, with their names and device nodes.
    pub run_plugin-IsSafe :
        prepared_of "common" claims ≡ none
        → (flags : Flags) (calls : List (Call protocol)) (w : World env) → Holds laws claims w
        → IsSafe laws (run_plugin env host kubelet endpoints service enums is_dir flags calls w).1
    unfolding run_plugin
    run_plugin-IsSafe free flags calls w h =
        let held : (v : World env) → Holds laws claims v → IsSafe laws v = λ v k. k.safe in
        let framed = Holds-IsFramed laws checkpoint claims in
        (Leads-bind held (framed.mkdir flags.driver_plugin_path) λ _.
            Leads-bind held (Keeps-reading (env.stat flags.state.cdi_root)) λ info.
              Leads-bind held (make_cdi_root-Keeps flags.state.cdi_root info) λ _.
                Leads-bind held
                  (record {
                    at =
                        new_driver-Holds checkpoint laws host kubelet endpoints service host_laws
                          kubelet_laws claims free flags;
                  })
                  λ driver. record {
                    at = λ v k.
                        (Keeps-bind (serve-Keeps driver.node_name calls driver.state)
                            (λ _. Keeps-pure _)).at
                          v k.safe;
                  }).at
          w h
