-- ===== src/State/Released.antt =====
-- What Unprepare does to the checkpoint.
use dra_driver_spyre.Prelude.{String, ◌≡◌, refl, subst, ◌⊎◌, inl, inr, Option, some, none, delete}
use dra_driver_spyre.Env.{Env, World, ok, PreparedDevices, PreparedClaims, Spec}
use dra_driver_spyre.Env.Keeps.{Keeps, keeps_rules, Keeps-pure}
use dra_driver_spyre.Env.Ensures.{
  After, Ensures, Ensures-Keeps, Ensures-pure, Ensures-wrapping, Ensures-attempt, Ensures-bind,
  Ensures-weaken,
}
use dra_driver_spyre.Env.Laws.{CheckpointLaws}
use dra_driver_spyre.Handler.Cdi.{delete_claim_spec}
use dra_driver_spyre.Handler.Cdi.Frame.{delete_config_file-Keeps}
use dra_driver_spyre.State.{
  prepared_of, delete_spec_files, unprepare_devices, unprepare_held, unprepare_found, unprepare,
}
use dra_driver_spyre.State.Consistent.{prepared_of-delete_self, prepared_of-delete_ne}
use dra_driver_spyre.State.Claims.{Reads, IsSameBut, Reads-IsFramed, create-Ensures, effect-Reads}

-- After an Unprepare that returns: the checkpoint has no devices of the claim, and all other claims'.
pub record IsReleased (env : Env) (uid : String) (old : PreparedClaims) (w : World env)
    : Type 0 where
  pub new : PreparedClaims
  pub reads : Reads env new w
  pub absent : prepared_of uid new ≡ none
  pub others : IsSameBut uid old new

-- After one that fails: the checkpoint is the old one, or has lost the claim alone.
pub record IsHalfReleased (env : Env) (uid : String) (old : PreparedClaims) (w : World env)
    : Type 0 where
  pub new : PreparedClaims
  pub reads : Reads env new w
  pub either : (new ≡ old) ⊎ (new ≡ delete uid old)

module _ {env : Env} (checkpoint : CheckpointLaws env) (root uid : String)
    (claims : PreparedClaims) where
  unchanged : (w : World env) → Reads env claims w → IsHalfReleased env uid claims w
  unchanged w h = record { new = claims; reads = h; either = inl refl }

  deleted : (w : World env) → Reads env (delete uid claims) w → IsHalfReleased env uid claims w
  deleted w h = record { new = delete uid claims; reads = h; either = inr refl }

  released : (w : World env) → Reads env (delete uid claims) w → IsReleased env uid claims w
  released w h = record {
    new = delete uid claims;
    reads = h;
    absent = prepared_of-delete_self uid claims;
    others = record { same = λ other ne. prepared_of-delete_ne uid other claims ne };
  }

  delete_spec_files-Keeps : (s : Option Spec) → Keeps (Reads env claims) (delete_spec_files env s)
  unfolding delete_spec_files
  delete_spec_files-Keeps none = Keeps-pure tt
  delete_spec_files-Keeps (some spec) =
      delete_config_file-Keeps (Reads-IsFramed checkpoint claims) spec.container_edits.mounts

  unprepare_devices-Keeps : Keeps (Reads env claims) (unprepare_devices env root uid)
  unfolding unprepare_devices
  unprepare_devices-Keeps = search (keeps_rules, delete_spec_files-Keeps)

  unprepare_held-Ensures :
      Ensures
        (Reads env claims)
        (λ _. IsReleased env uid claims)
        (IsHalfReleased env uid claims)
        (unprepare_held env root uid claims)
  unfolding unprepare_held delete_claim_spec
  unprepare_held-Ensures =
      Ensures-bind (λ _. Reads env claims)
        (Ensures-weaken (Ensures-Keeps unprepare_devices-Keeps) (λ _ _ h. h) unchanged)
        (λ _.
          Ensures-bind (λ _. Reads env (delete uid claims))
            (Ensures-wrapping _ (
              Ensures-weaken (create-Ensures checkpoint claims (delete uid claims)) (λ _ _ h. h)
                unchanged))
            (λ _. Ensures-wrapping _ (
              Ensures-weaken
                (Ensures-Keeps (
                  effect-Reads checkpoint (delete uid claims) (env.remove_spec (env.spec_name uid))
                    (checkpoint.get-remove_spec (env.spec_name uid))))
                (λ _. released) deleted)))

  unprepare_found-Ensures :
      (ds : PreparedDevices)
      → prepared_of uid claims ≡ ds
      → Ensures
          (Reads env claims)
          (λ _. IsReleased env uid claims)
          (IsHalfReleased env uid claims)
          (unprepare_found env root uid claims ds)
  unfolding unprepare_found
  unprepare_found-Ensures none p =
      Ensures-pure tt λ w h. record {
        new = claims;
        reads = h;
        absent = p;
        others = record { same = λ _ _. refl };
      }
  unprepare_found-Ensures (some ds) p = unprepare_held-Ensures

  read-Ensures :
      Ensures
        (Reads env claims)
        (λ _. IsReleased env uid claims)
        (IsHalfReleased env uid claims)
        (unprepare env root uid)
  unfolding unprepare
  read-Ensures =
      Ensures-bind (λ found w. Reads env claims w × (claims ≡ found))
        (Ensures-wrapping _ (
          Ensures-attempt env.get_checkpoint (λ w found h at. (h, same_read w found h at))
            unchanged))
        (λ found. record {
          at = λ w (h, e).
              subst
                (λ c.
                  After (λ _. IsReleased env uid claims) (IsHalfReleased env uid claims)
                    (unprepare_found env root uid c (prepared_of uid c) w).0
                    (unprepare_found env root uid c (prepared_of uid c) w).1)
                e ((unprepare_found-Ensures (prepared_of uid claims) refl).at w h);
        })
    where
      same_read :
          (w : World env) (found : PreparedClaims)
          → Reads env claims w
          → env.get_checkpoint w.disk ≡ ok found
          → claims ≡ found
      same_read w found h at = cc h.reads

  -- Let the checkpoint behave as documented, and read as `claims`. Where Unprepare returns, the
  -- checkpoint has no devices for the claim, and the entries of all other claims are as before. Where it
  -- fails, the checkpoint reads as before, or as before without the claim.
  pub unprepare-After :
      (w : World env)
      → Reads env claims w
      → After
          (λ _. IsReleased env uid claims)
          (IsHalfReleased env uid claims)
          (unprepare env root uid w).0
          (unprepare env root uid w).1
  unprepare-After w h = read-Ensures.at w h
