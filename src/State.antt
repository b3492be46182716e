-- ===== src/State.antt =====
-- internal/state/state.go and checkpoint.go: preparing and unpreparing claims. Both methods hold the
-- mutex of DeviceState from their first line to their last, so calls do not interleave.
pub mod Consistent
pub mod Writes
pub mod Crash
pub mod Results
pub mod Returns
pub mod Claims
pub mod Released
pub mod Updates
pub mod Configs
pub mod Start
use dra_driver_spyre.Prelude.{
  String, true, false, Option, none, some, List, [], ◌∷◌, ◌++◌, Map, lookup, insert, delete, ◌==◌,
  if◌then◌else◌,
}
use dra_driver_spyre.Env.{
  Env, World, Io, Result, ok, err, Error, msg, wrap, Outcome, returned, raised, panicked, Spec,
  PreparedDevice, PreparedDevices, PreparedClaims, DraDevice, ◌>>=◌, ◌>>◌, pure, attempt, effect,
  give, reading, wrapping, outcome_of,
}
use dra_driver_spyre.Utils.{driver_name}
use dra_driver_spyre.Devices.{get_pci_addr, get_cdi_device_spec}
use dra_driver_spyre.Devices.Allocatable.{AllocatableDevices, SpyreDevice}
use dra_driver_spyre.Handler.Cdi.{
  create_claim_spec_file, delete_claim_spec, read_spec, delete_config_file, get_claim_devices,
  slice,
}

-- One result of a claim's allocation, and what the driver reads of a ResourceClaim.
pub record AllocationResult : Type 0 where
  pub request : String
  pub driver : String
  pub pool : String
  pub device : String

pub record ResourceClaim : Type 0 where
  pub uid : String
  pub allocation : Option (List AllocationResult)

-- GetDevices of pkg/types/prepared_device.go
unfoldable pub get_devices : PreparedDevices → List DraDevice
get_devices none = []
get_devices (some []) = []
get_devices (some (pd ∷ rest)) = pd.device ∷ get_devices (some rest)

-- preparedClaims[claimUID], which is a nil slice where there is no entry
abbrev pub entry_or_nil : Option PreparedDevices → PreparedDevices
entry_or_nil none = none
entry_or_nil (some ds) = ds

unfoldable pub prepared_of : String → PreparedClaims → PreparedDevices
prepared_of claim_uid claims = entry_or_nil (lookup claim_uid claims)

-- append to a slice, nil or not
abbrev pub append : PreparedDevices → PreparedDevice → PreparedDevices
append none device = some (device ∷ [])
append (some ds) device = some (ds ++ device ∷ [])

module _ (env : Env) where
  unfoldable pub prepared_device : AllocationResult → SpyreDevice → env.Disk → PreparedDevice
  prepared_device result device d = record {
    product_id = device.product_id;
    device = record {
      request_names = result.request ∷ [];
      pool_name = result.pool;
      device_name = result.device;
      cdi_device_ids = get_claim_devices env (result.device ∷ []);
    };
    pci_address = get_pci_addr device.pci_device;
    cdi_device_spec = get_cdi_device_spec env device.pci_device d;
  }

  -- the loop of prepareDevices; ApplyConfig does nothing and never fails
  unfoldable pub prepare_results :
      AllocatableDevices
      → PreparedDevices
      → List AllocationResult
      → env.Disk
      → Result PreparedDevices
  prepare_results allocatable prepared [] d = ok prepared
  prepare_results allocatable prepared (result ∷ rest) d =
      let skip = prepare_results allocatable prepared rest d in
      elim (result.driver == driver_name) [
        | false ↦ skip
        | true ↦ elim (lookup result.device allocatable) [
          | none ↦ err (msg "requested device is not allocatable")
          | some device ↦
              prepare_results allocatable (append prepared (prepared_device result device d)) rest d
        ]
      ]

  -- prepareDevices
  unfoldable pub prepare_devices :
      AllocatableDevices → ResourceClaim → env.Disk → Result PreparedDevices
  prepare_devices allocatable claim d = elim claim.allocation [
    | none ↦ err (msg "claim not yet allocated")
    | some results ↦ prepare_results allocatable none results d
  ]

  -- Prepare for a claim that the checkpoint does not hold
  pub prepare_new :
      String → AllocatableDevices → ResourceClaim → PreparedClaims → Io env (List DraDevice)
  prepare_new node_name allocatable claim prepared_claims = do
    prepared_devices ← wrapping "prepare failed" (attempt (prepare_devices allocatable claim))
    wrapping "unable to create CDI spec file for claim"
        (create_claim_spec_file env node_name claim.uid prepared_devices)
    wrapping "unable to sync current checkpoint"
        (effect (env.create_checkpoint (insert claim.uid prepared_devices prepared_claims)))
    pure (get_devices prepared_devices)

  -- the test of Prepare for a claim that is prepared already
  pub prepare_found :
      String
      → AllocatableDevices
      → ResourceClaim
      → PreparedClaims
      → PreparedDevices
      → Io env (List DraDevice)
  prepare_found node_name allocatable claim prepared_claims (some ds) = pure (get_devices (some ds))
  prepare_found node_name allocatable claim prepared_claims none =
      prepare_new node_name allocatable claim prepared_claims

  -- Prepare
  pub prepare : String → AllocatableDevices → ResourceClaim → Io env (List DraDevice)
  prepare node_name allocatable claim = do
    prepared_claims ← wrapping "unable to get checkpoint on prepare" (attempt env.get_checkpoint)
    prepare_found node_name allocatable claim prepared_claims
        (prepared_of claim.uid prepared_claims)

  -- DeleteConfigFile, where the spec could be read
  delete_spec_files : Option Spec → Io env (Unit {0})
  delete_spec_files none = pure tt
  delete_spec_files (some spec) = delete_config_file env spec.container_edits.mounts

  -- unprepareDevices; `root` is the directory of the CDI specs
  pub unprepare_devices : String → String → Io env (Unit {0})
  unfolding delete_spec_files
  unprepare_devices root claim_uid = do
    spec ← reading (read_spec env root claim_uid)
    delete_spec_files spec

  -- Unprepare for a claim that the checkpoint holds: the checkpoint is written before the spec goes
  pub unprepare_held : String → String → PreparedClaims → Io env (Unit {0})
  unprepare_held root claim_uid prepared_claims = do
    unprepare_devices root claim_uid
    wrapping "unable to sync to checkpoint"
        (effect (env.create_checkpoint (delete claim_uid prepared_claims)))
    wrapping "unable to delete CDI spec file for claim" (delete_claim_spec env claim_uid)

  -- the test of Unprepare for a claim that is not prepared
  pub unprepare_found : String → String → PreparedClaims → PreparedDevices → Io env (Unit {0})
  unprepare_found root claim_uid prepared_claims none = pure tt
  unprepare_found root claim_uid prepared_claims (some _) =
      unprepare_held root claim_uid prepared_claims

  -- Unprepare
  pub unprepare : String → String → Io env (Unit {0})
  unprepare root claim_uid = do
    prepared_claims ← wrapping "unable to get checkpoint on unprepare" (attempt env.get_checkpoint)
    unprepare_found root claim_uid prepared_claims (prepared_of claim_uid prepared_claims)
