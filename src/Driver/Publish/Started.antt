-- ===== src/Driver/Publish/Started.antt =====
-- A driver that has started.
use dra_driver_spyre.Prelude.{String, Bool, ◌≡◌, ap, ◌∙◌, Option, none, some, List}
use dra_driver_spyre.Prelude.Int.{ℤ, pos, negsuc}
use dra_driver_spyre.Env.{
  Env, World, ok, PreparedClaims, Outcome, returned, effect, pure, reading, ◌>>=◌,
}
use dra_driver_spyre.Env.Keeps.{
  Keeps, Keeps-bind, Keeps-pure, Keeps-wrapping, Keeps-reading, Yields, Yields-bind, bind-returned,
  effect-returned,
}
use dra_driver_spyre.Env.Total.{
  Total, Total-bind, Total-pure, Total-wrapping, Total-effect, Total-reading,
}
use dra_driver_spyre.Env.Laws.{CheckpointLaws, SpecLaws}
use dra_driver_spyre.Devices.Allocatable.{ResourceDevice}
use dra_driver_spyre.State.{prepared_of}
use dra_driver_spyre.State.Consistent.{Holds, effect-Holds}
use dra_driver_spyre.State.Start.{Host, DeviceState, devices}
use dra_driver_spyre.State.Start.Returns.{Works, new_device_state-Total}
use dra_driver_spyre.State.Start.Restart.{HostLaws, new_device_state-Holds}
use dra_driver_spyre.Health.Client.{Service, SpyreHealthClient}
use dra_driver_spyre.Health.Probe.{Endpoints}
use dra_driver_spyre.Health.Probe.Frame.{start_healthcheck-Keeps, start_healthcheck-Total}
use dra_driver_spyre.Driver.Publish.{
  Kubelet, Flags, Driver, publish_resources, start_probe, new_driver,
}

-- What is relied on of the kubelet's plugin helper and the network: they touch neither the checkpoint nor
-- the specs.
pub record KubeletLaws {env : Env} (laws : SpecLaws env) (kubelet : Kubelet env)
    (endpoints : Endpoints env) : Type 0 where
  pub get-start : (d : env.Disk) → env.get_checkpoint (kubelet.start d).1 ≡ env.get_checkpoint d
  pub at-start : (m : String) (d : env.Disk) → laws.spec_at m (kubelet.start d).1 ≡ laws.spec_at m d
  pub get-publish :
      (n : String) (s : List ResourceDevice) (d : env.Disk)
      → env.get_checkpoint (kubelet.publish n s d).1 ≡ env.get_checkpoint d
  pub at-publish :
      (m n : String) (s : List ResourceDevice) (d : env.Disk)
      → laws.spec_at m (kubelet.publish n s d).1 ≡ laws.spec_at m d
  pub get-listen :
      (a : String) (d : env.Disk)
      → env.get_checkpoint (endpoints.listen a d).1 ≡ env.get_checkpoint d
  pub at-listen :
      (m a : String) (d : env.Disk) → laws.spec_at m (endpoints.listen a d).1 ≡ laws.spec_at m d

module _ {env : Env} (checkpoint : CheckpointLaws env) (laws : SpecLaws env) (host : Host env)
    (kubelet : Kubelet env) (endpoints : Endpoints env) (service : Service env)
    (host_laws : HostLaws laws host) (kubelet_laws : KubeletLaws laws kubelet endpoints)
    (claims : PreparedClaims) where
  start_probe-Keeps :
      (flags : Flags) (port : ℤ)
      → Keeps (Holds laws claims) (start_probe env host kubelet endpoints service flags port)
  unfolding start_probe
  start_probe-Keeps flags (negsuc n) = Keeps-pure _
  start_probe-Keeps flags (pos n) =
      Keeps-bind
        (Keeps-wrapping _ (
          start_healthcheck-Keeps endpoints
            (λ a.
              effect-Holds laws claims (endpoints.listen a) (kubelet_laws.get-listen a)
                (λ m d. kubelet_laws.at-listen m a d))
            _ _ (pos n)))
        (λ _. Keeps-pure _)

  -- Let the checkpoint, the CDI directory and the libraries behave as documented. From a safe state whose
  -- checkpoint reads as `claims`, none of which is prepared under the name "common", NewDriver ends in a
  -- safe state whose checkpoint still reads as `claims`, however it ends: a restart loses no claim.
  pub new_driver-Holds :
      prepared_of "common" claims ≡ none
      → (flags : Flags) (w : World env) → Holds laws claims w
      → Holds laws claims (new_driver env host kubelet endpoints service flags w).1
  unfolding new_driver publish_resources
  new_driver-Holds free flags w h =
      (Keeps-bind
          (record {
            at = new_device_state-Holds checkpoint laws host host_laws claims free flags.state;
          })
          λ state.
            Keeps-bind
              (effect-Holds laws claims kubelet.start kubelet_laws.get-start kubelet_laws.at-start)
              λ _. Keeps-bind (start_probe-Keeps flags flags.health_check_port) λ _.
                Keeps-bind
                  (effect-Holds laws claims (kubelet.publish flags.node_name (devices state))
                    (kubelet_laws.get-publish flags.node_name (devices state))
                    (λ m d. kubelet_laws.at-publish m flags.node_name (devices state) d))
                  λ _. Keeps-bind (Keeps-reading _) λ _. Keeps-pure _).at
        w h

-- The kubelet's plugin helper and the network answer.
pub record Answers {env : Env} (kubelet : Kubelet env) (endpoints : Endpoints env) : Type 0 where
  pub start : (d : env.Disk) → (kubelet.start d).0 ≡ ok tt
  pub publish :
      (n : String) (s : List ResourceDevice) (d : env.Disk) → (kubelet.publish n s d).0 ≡ ok tt
  pub listen : (a : String) (d : env.Disk) → (endpoints.listen a d).0 ≡ ok tt
  pub new_client : (a : String) (d : env.Disk) → endpoints.new_client a d ≡ ok tt

module _ {env : Env} (host : Host env) (kubelet : Kubelet env) (endpoints : Endpoints env)
    (service : Service env) (works : Works env host) (answers : Answers kubelet endpoints) where
  start_probe-Total :
      (flags : Flags) (port : ℤ) → Total (start_probe env host kubelet endpoints service flags port)
  unfolding start_probe
  start_probe-Total flags (negsuc n) = Total-pure _
  start_probe-Total flags (pos n) =
      Total-bind
        (Total-wrapping _
          (start_healthcheck-Total env endpoints answers.listen answers.new_client _ _ n))
        (λ _. Total-pure _)

  new_driver-Total : (flags : Flags) → Total (new_driver env host kubelet endpoints service flags)
  unfolding new_driver publish_resources
  new_driver-Total flags = Total-bind (new_device_state-Total env host works flags.state) λ state.
      Total-bind (Total-effect kubelet.start (λ d. (tt, answers.start d))) λ _.
        Total-bind (start_probe-Total flags flags.health_check_port) λ _.
          Total-bind
            (Total-effect (kubelet.publish flags.node_name (devices state))
              (λ d. (tt, answers.publish flags.node_name (devices state) d)))
            λ _. Total-bind (Total-reading _) λ _. Total-pure _

module _ {env : Env} (host : Host env) (kubelet : Kubelet env) (endpoints : Endpoints env)
    (service : Service env) (published : env.Disk → Option (String × List ResourceDevice))
    (publishes : (n : String) (s : List ResourceDevice) (d : env.Disk)
      → (kubelet.publish n s d).0 ≡ ok tt
      → published (kubelet.publish n s d).1 ≡ some (n, s)) where
  shown :
      (node_name : String) (state : DeviceState) (healthcheck : Bool)
      (monitor : env.Disk → Option SpyreHealthClient)
      → Yields
          (λ (driver : Driver) v. published v.disk ≡ some (driver.node_name, devices driver.state))
          (publish_resources env kubelet node_name state >>= λ _.
            reading monitor >>= λ device_healthy. pure (record {
              state = state;
              healthcheck = healthcheck;
              device_healthy = device_healthy;
              node_name = node_name;
            }))
  unfolding publish_resources effect reading pure ◌>>=◌
  shown node_name state healthcheck monitor = record {
    at = λ w driver h.
        let (_, made, ended, same) =
          bind-returned (publish_resources env kubelet node_name state)
            (λ _. reading monitor >>= λ device_healthy. pure (record {
              state = state;
              healthcheck = healthcheck;
              device_healthy = device_healthy;
              node_name = node_name;
            }))
            w h in
        ap (λ v. published v.disk) same
        ∙ publishes node_name (devices state) w.disk
            (effect-returned (kubelet.publish node_name (devices state)) w made)
        ∙ ap (λ (driver : Driver). some (driver.node_name, devices driver.state))
            (of_returned ended);
  }
    where
      of_returned : {a b : Driver} → Path (Outcome Driver) (returned a) (returned b) → a ≡ b
      of_returned e = cc

  yields_shown :
      (flags : Flags)
      → Yields
          (λ (driver : Driver) v. published v.disk ≡ some (driver.node_name, devices driver.state))
          (new_driver env host kubelet endpoints service flags)
  unfolding new_driver
  yields_shown flags =
      Yields-bind _ λ state. Yields-bind _ λ _. Yields-bind _ λ healthcheck. shown _ _ _ _

  -- Let `published` be the slice of the last PublishResources that returned no error, and let every call of
  -- the system that the start makes, and does not only log, succeed. Then NewDriver returns a driver, and
  -- the slice of its node shows exactly the devices of its state.
  pub new_driver-publishes :
      Works env host
      → Answers kubelet endpoints
      → (flags : Flags) (w : World env)
      → (driver : Driver) × ((new_driver env host kubelet endpoints service flags w).0
          ≡ returned driver)
        × (published (new_driver env host kubelet endpoints service flags w).1.disk
            ≡ some (driver.node_name, devices driver.state))
  new_driver-publishes works answers flags w =
      let (driver, returns) =
        (new_driver-Total host kubelet endpoints service works answers flags).at w in
      (driver, returns, (yields_shown flags).at w driver returns)
