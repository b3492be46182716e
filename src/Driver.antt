-- ===== src/Driver.antt =====
-- internal/driver/driver.go: the batches of claims that the kubelet sends. What is published, and the
-- start, are in Publish.
pub mod Batch
pub mod Recorded
pub mod Freed
pub mod Publish
use dra_driver_spyre.Prelude.{
  String, Bool, true, false, Option, none, some, List, [], ◌∷◌, Map, insert, map, if◌then◌else◌,
}
use dra_driver_spyre.Strings.{str_append}
use dra_driver_spyre.Env.{
  Env, World, Io, Result, ok, err, Error, wrap, Outcome, returned, raised, panicked, DraDevice,
  ◌>>=◌, ◌>>◌, pure, give, wrapping, ignoring, attempt, effect,
}
use dra_driver_spyre.Devices.Allocatable.{AllocatableDevices, ResourceDevice}
use dra_driver_spyre.State.{ResourceClaim, prepare, unprepare}
use dra_driver_spyre.State.Updates.{update_device_states}
use dra_driver_spyre.State.Start.{Host, StateFlags, DeviceState, devices, new_device_state}

-- kubeletplugin.Device
pub record KubeletDevice : Type 0 where
  pub requests : List String
  pub pool_name : String
  pub device_name : String
  pub cdi_device_ids : List String

-- the body of the loop of prepareResourceClaim
unfoldable pub kubelet_device : DraDevice → KubeletDevice
kubelet_device prepared = record {
  requests = prepared.request_names;
  pool_name = prepared.pool_name;
  device_name = prepared.device_name;
  cdi_device_ids = prepared.cdi_device_ids;
}

-- kubeletplugin.PrepareResult: the devices, or the error
abbrev pub PrepareResult : Type 0
PrepareResult = Result (List KubeletDevice)

-- an error becomes part of the answer, and the batch goes on
unfoldable pub answered :
    {A B : Type 0} → (A → B) → (Error → Error) → Outcome A → Outcome (Result B)
answered f g (returned a) = returned (ok (f a))
answered f g (raised e) = returned (err (g e))
answered f g panicked = panicked

unfoldable pub answering :
    {env : Env} {A B : Type 0} → (A → B) → (Error → Error) → Io env A → Io env (Result B)
answering f g m w = (answered f g (m w).0, (m w).1)

-- `for _, claim := range claims { result[claim.UID] = one(claim) }`
pub for_each :
    {env : Env} {X R : Type 0} → (X → String) → (X → Io env R) → Map R → List X → Io env (Map R)
for_each uid one result [] = pure result
for_each uid one result (claim ∷ rest) = do
  answer ← one claim
  for_each uid one (insert (uid claim) answer result) rest

module _ (env : Env) where
  -- prepareResourceClaim
  pub prepare_resource_claim : String → AllocatableDevices → ResourceClaim → Io env PrepareResult
  prepare_resource_claim node_name allocatable claim =
      answering (map kubelet_device)
        (wrap (str_append "error preparing devices for claim " claim.uid))
        (prepare env node_name allocatable claim)

  -- PrepareResourceClaims
  pub prepare_resource_claims :
      String → AllocatableDevices → List ResourceClaim → Io env (Map PrepareResult)
  prepare_resource_claims node_name allocatable claims =
      for_each (λ claim. claim.uid) (prepare_resource_claim node_name allocatable) [] claims

  -- unprepareResourceClaim
  pub unprepare_resource_claim : String → String → Io env (Result (Unit {0}))
  unprepare_resource_claim root claim_uid =
      answering (λ _. tt) (wrap (str_append "error unpreparing devices for claim " claim_uid))
        (unprepare env root claim_uid)

  -- UnprepareResourceClaims
  pub unprepare_resource_claims : String → List String → Io env (Map (Result (Unit {0})))
  unprepare_resource_claims root claim_uids =
      for_each (λ uid. uid) (unprepare_resource_claim root) [] claim_uids
