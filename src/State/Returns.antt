-- ===== src/State/Returns.antt =====
-- Prepare returns where the calls of the system do.
use dra_driver_spyre.Prelude.{String, ◌≡◌, refl, none, some, List, insert}
use dra_driver_spyre.Env.{
  Env, World, Spec, ok, returned, wrapping, attempt, pure, ◌>>=◌, ◌>>◌, effect, DraDevice,
  PreparedDevices, PreparedClaims,
}
use dra_driver_spyre.Env.Total.{Total, Total-bind, Total-pure, Total-wrapping, Total-effect}
use dra_driver_spyre.Devices.Allocatable.{AllocatableDevices}
use dra_driver_spyre.Handler.Senlib.Frame.{Fills}
use dra_driver_spyre.Handler.Cdi.{
  slice, config_product_id, split_device_ids_by_product_id, get_device_ids, create_claim_spec_file,
}
use dra_driver_spyre.Handler.Cdi.Returns.{create_claim_spec_file-Total}
use dra_driver_spyre.State.{
  ResourceClaim, get_devices, prepare_devices, prepare_new, prepare_found, prepare, prepared_of,
}
use dra_driver_spyre.State.Claims.{Reads}

-- Every call of the system that Prepare makes, and does not only log, succeeds.
pub record Works (env : Env) : Type 0 where
  pub mkdir : (p : String) (d : env.Disk) → (env.mkdir_all p d).0 ≡ ok tt
  pub write_file : (p s : String) (d : env.Disk) → (env.write_file p s d).0 ≡ ok tt
  pub version : (s : Spec) → (v : String) × (env.minimum_required_version s ≡ ok v)
  pub write_spec : (s : Spec) (n : String) (d : env.Disk) → (env.write_spec s n d).0 ≡ ok tt
  pub create_checkpoint :
      (c : PreparedClaims) (d : env.Disk) → (env.create_checkpoint c d).0 ≡ ok tt

-- The senlib template can be filled for the prepared devices.
abbrev pub FillsFor : Env → PreparedDevices → Type 0
FillsFor env ds =
    Fills env (config_product_id env (split_device_ids_by_product_id (slice ds)).0)
      (get_device_ids (slice ds))

module _ {env : Env} (works : Works env) (node_name : String) (allocatable : AllocatableDevices)
    (claim : ResourceClaim) where
  written :
      (ds : PreparedDevices) (claims : PreparedClaims)
      → FillsFor env ds
      → Total (
          wrapping "unable to create CDI spec file for claim"
            (create_claim_spec_file env node_name claim.uid ds)
          >> (wrapping "unable to sync current checkpoint"
                (effect (env.create_checkpoint (insert claim.uid ds claims)))
              >> pure (get_devices ds)))
  written ds claims fills =
      Total-bind
        (Total-wrapping _ (
          create_claim_spec_file-Total env works.mkdir works.write_file works.version
            works.write_spec node_name claim.uid ds fills))
        λ _.
          Total-bind
            (Total-wrapping _
              (Total-effect (env.create_checkpoint _) (λ d. (tt, works.create_checkpoint _ d))))
            λ _. Total-pure _

  new_returns :
      (ds : PreparedDevices) (claims : PreparedClaims) (w : World env)
      → prepare_devices env allocatable claim w.disk ≡ ok ds
      → FillsFor env ds
      → (devices : List DraDevice) × ((prepare_new env node_name allocatable claim claims w).0
          ≡ returned devices)
  unfolding prepare_new wrapping attempt ◌>>=◌
  new_returns ds claims w made fills = rw made ((written ds claims fills).at w)

  found_returns :
      (held ds : PreparedDevices) (claims : PreparedClaims) (w : World env)
      → prepare_devices env allocatable claim w.disk ≡ ok ds
      → FillsFor env ds
      → (devices : List DraDevice) × ((prepare_found env node_name allocatable claim claims held
            w).0
          ≡ returned devices)
  unfolding prepare_found pure
  found_returns (some held) ds claims w made fills = (_, refl)
  found_returns none ds claims w made fills = new_returns ds claims w made fills

  -- Let every call of the system that Prepare makes, and does not only log, succeed, and let the checkpoint
  -- be readable. If prepareDevices gives devices for the claim, and the senlib template can be filled for
  -- them, then Prepare returns devices.
  pub prepare_returns :
      (claims : PreparedClaims) (ds : PreparedDevices) (w : World env)
      → Reads env claims w
      → prepare_devices env allocatable claim w.disk ≡ ok ds
      → FillsFor env ds
      → (devices : List DraDevice) × ((prepare env node_name allocatable claim w).0
          ≡ returned devices)
  unfolding prepare wrapping attempt ◌>>=◌
  prepare_returns claims ds w h made fills =
      rw h.reads (found_returns (prepared_of claim.uid claims) ds claims w made fills)
