-- ===== src/State/Crash.antt =====
-- Prepare and Unprepare over every disk that a crash may leave behind: in each, a claim that the
-- checkpoint holds as prepared has its CDI spec.
use dra_driver_spyre.Prelude.{String, ◌≡◌, refl, some, none, Option, delete}
use dra_driver_spyre.Env.{
  Env, World, PreparedDevices, PreparedClaims, effect, wrapping, attempt, pure, Spec,
}
use dra_driver_spyre.Env.Keeps.{
  Keeps, keeps_rules, bind_rule, wrapping-returned, attempt-returned, effect-returned, Keeps-pure,
}
use dra_driver_spyre.Env.Laws.{CheckpointLaws, SpecLaws}
use dra_driver_spyre.Devices.Allocatable.{AllocatableDevices}
use dra_driver_spyre.Handler.Cdi.{create_claim_spec_file, delete_claim_spec, slice}
use dra_driver_spyre.Handler.Cdi.Frame.{
  create_claim_spec_file-Keeps, create_claim_spec_file-Yields, delete_config_file-Keeps,
}
use dra_driver_spyre.State.{
  ResourceClaim, prepared_of, prepare_new, prepare_found, prepare, delete_spec_files,
  unprepare_devices, unprepare_held, unprepare_found, unprepare,
}
use dra_driver_spyre.State.Consistent.{
  HasSpec, IsSafe, Holds, Holds-IsFramed, write_spec-Holds, prepared_of-delete_self,
}
use dra_driver_spyre.State.Writes.{insert-IsSafe, delete-IsSafe, create-reads, remove-Holds}

module _ {env : Env} (checkpoint : CheckpointLaws env) (laws : SpecLaws env) where
  prepare_new-IsSafe :
      (node_name : String) (allocatable : AllocatableDevices) (claim : ResourceClaim)
      (claims : PreparedClaims) (w : World env)
      → prepared_of claim.uid claims ≡ none
      → Holds laws claims w
      → IsSafe laws (prepare_new env node_name allocatable claim claims w).1
  unfolding prepare_new wrapping attempt pure
  prepare_new-IsSafe node_name allocatable claim claims w absent h =
      bind_rule _ _ w (IsSafe laws) (λ _ v. Holds laws claims v) h.safe (λ _ _. h)
        (λ ds v h1.
          let h2 =
            (create_claim_spec_file-Keeps (Holds-IsFramed laws checkpoint claims) node_name
                claim.uid ds (write_spec-Holds laws checkpoint claims claim.uid absent)).at
              v h1 in
          bind_rule _ _ v (IsSafe laws)
            (λ _ u. Holds laws claims u × HasSpec laws claim.uid (slice ds) u.disk) h2.safe
            (λ a done. (
              h2,
              (create_claim_spec_file-Yields laws node_name claim.uid ds).at v a
                  (wrapping-returned _ (create_claim_spec_file env node_name claim.uid ds) v done),
            ))
            (λ _ u (h3, there).
              let h4 = insert-IsSafe checkpoint laws claims claim.uid ds u h3 there in
              bind_rule _ _ u (IsSafe laws) (λ _ t. IsSafe laws t) h4 (λ _ _. h4) (λ _ t h5. h5)))

  prepare_found-IsSafe :
      (node_name : String) (allocatable : AllocatableDevices) (claim : ResourceClaim)
      (claims : PreparedClaims) (ds : PreparedDevices) (w : World env)
      → prepared_of claim.uid claims ≡ ds
      → Holds laws claims w
      → IsSafe laws (prepare_found env node_name allocatable claim claims ds w).1
  unfolding prepare_found pure
  prepare_found-IsSafe node_name allocatable claim claims none w p h =
      prepare_new-IsSafe node_name allocatable claim claims w p h
  prepare_found-IsSafe node_name allocatable claim claims (some ds) w p h = h.safe

  -- Let the checkpoint and the CDI directory behave as documented. From a safe state, Prepare ends in a
  -- safe state, however it ends: on the final disk, and on the disk before each of its writes, every
  -- claim that the checkpoint holds as prepared has a CDI spec, which has exactly its devices, with their
  -- names and device nodes.
  pub prepare-IsSafe :
      (node_name : String) (allocatable : AllocatableDevices) (claim : ResourceClaim)
      (w : World env)
      → IsSafe laws w
      → IsSafe laws (prepare env node_name allocatable claim w).1
  unfolding prepare wrapping attempt
  prepare-IsSafe node_name allocatable claim w h =
      bind_rule _ _ w (IsSafe laws) (Holds laws) h
        (λ claims done. record {
          safe = h;
          reads =
              attempt-returned env.get_checkpoint w
                (wrapping-returned _ (attempt env.get_checkpoint) w done);
        })
        (λ claims v k.
          prepare_found-IsSafe node_name allocatable claim claims (prepared_of claim.uid claims) v
            refl k)

  delete_spec_files-Keeps :
      (claims : PreparedClaims) (s : Option Spec)
      → Keeps (Holds laws claims) (delete_spec_files env s)
  unfolding delete_spec_files
  delete_spec_files-Keeps claims none = Keeps-pure tt
  delete_spec_files-Keeps claims (some spec) =
      delete_config_file-Keeps (Holds-IsFramed laws checkpoint claims) spec.container_edits.mounts

  unprepare_devices-Keeps :
      (claims : PreparedClaims) (root uid : String)
      → Keeps (Holds laws claims) (unprepare_devices env root uid)
  unfolding unprepare_devices
  unprepare_devices-Keeps claims root uid = search (keeps_rules, delete_spec_files-Keeps)

  unprepare_held-IsSafe :
      (root uid : String) (claims : PreparedClaims) (w : World env)
      → Holds laws claims w
      → IsSafe laws (unprepare_held env root uid claims w).1
  unfolding unprepare_held wrapping delete_claim_spec
  unprepare_held-IsSafe root uid claims w h =
      let h1 = (unprepare_devices-Keeps claims root uid).at w h in
      bind_rule _ _ w (IsSafe laws) (λ _ v. Holds laws claims v) h1.safe (λ _ _. h1)
        (λ _ v h2.
          let h3 = delete-IsSafe checkpoint laws claims uid v h2 in
          bind_rule _ _ v (IsSafe laws) (λ _ u. Holds laws (delete uid claims) u) h3
            (λ a done. record {
              safe = h3;
              reads = create-reads checkpoint laws (delete uid claims) v (
                  effect-returned (env.create_checkpoint (delete uid claims)) v (
                    wrapping-returned _ (effect (env.create_checkpoint (delete uid claims))) v
                      done));
            })
            (λ _ u h4.
              ((remove-Holds checkpoint laws (delete uid claims) uid
                  (prepared_of-delete_self uid claims)).at
                u h4).safe))

  unprepare_found-IsSafe :
      (root uid : String) (claims : PreparedClaims) (ds : PreparedDevices) (w : World env)
      → Holds laws claims w
      → IsSafe laws (unprepare_found env root uid claims ds w).1
  unfolding unprepare_found pure
  unprepare_found-IsSafe root uid claims none w h = h.safe
  unprepare_found-IsSafe root uid claims (some ds) w h = unprepare_held-IsSafe root uid claims w h

  -- Let the checkpoint and the CDI directory behave as documented. From a safe state, Unprepare ends in
  -- a safe state, however it ends: on the final disk, and on the disk before each of its writes, every
  -- claim that the checkpoint holds as prepared has a CDI spec, which has exactly its devices, with their
  -- names and device nodes.
  pub unprepare-IsSafe :
      (root uid : String) (w : World env) → IsSafe laws w → IsSafe laws (unprepare env root uid w).1
  unfolding unprepare wrapping attempt
  unprepare-IsSafe root uid w h =
      bind_rule _ _ w (IsSafe laws) (Holds laws) h
        (λ claims done. record {
          safe = h;
          reads =
              attempt-returned env.get_checkpoint w
                (wrapping-returned _ (attempt env.get_checkpoint) w done);
        })
        (λ claims v k. unprepare_found-IsSafe root uid claims (prepared_of uid claims) v k)
