-- ===== src/Handler/Cdi/Returns.antt =====
-- The calls of a start return where each write does, and the cleaning of folders never panics.
use dra_driver_spyre.Prelude.{String, List, [], ◌∷◌, contains, ◌≡◌}
use dra_driver_spyre.Env.{Env, Spec, PreparedDevices, ok}
use dra_driver_spyre.Env.Total.{
  Total, Calm, Calm-bind, Calm-pure, Calm-if, Calm-effect, Calm-attempt, Calm-reading,
  Calm-ignoring, Total-bind, Total-wrapping, Total-attempt, Total-effect,
}
use dra_driver_spyre.Utils.{get_config_host_path}
use dra_driver_spyre.Handler.Senlib.Frame.{Fills}
use dra_driver_spyre.Handler.Config.Frame.{get_config_metrics_mount-Total}
use dra_driver_spyre.Handler.Cdi.{
  slice, config_product_id, split_device_ids_by_product_id, get_device_ids, create_claim_spec_file,
  delete_mounted_path, clean_entries, clean_zombie_config_folders, create_common_spec_file,
}

module _ (env : Env) where
  delete_mounted_path-Calm : (path : String) → Calm (delete_mounted_path env path)
  unfolding delete_mounted_path
  delete_mounted_path-Calm path = Calm-ignoring (Calm-effect _)

  clean_entries-Calm : (mounts entries : List String) → Calm (clean_entries env mounts entries)
  unfolding clean_entries
  clean_entries-Calm mounts [] = Calm-pure tt
  clean_entries-Calm mounts (entry ∷ rest) =
      Calm-bind
        (Calm-if (contains mounts (env.join (get_config_host_path env) entry)) (Calm-pure tt)
          (Calm-bind (delete_mounted_path-Calm _) (λ _. delete_mounted_path-Calm _)))
        (λ _. clean_entries-Calm mounts rest)

  pub clean_zombie_config_folders-Calm :
      (root : String) → Calm (clean_zombie_config_folders env root)
  unfolding clean_zombie_config_folders
  clean_zombie_config_folders-Calm root =
      Calm-bind (Calm-attempt _)
        λ _. Calm-bind (Calm-reading _) λ _. Calm-bind (Calm-attempt _) λ _. clean_entries-Calm _ _

  pub create_common_spec_file-Total :
      ((s : Spec) → (v : String) × (env.minimum_required_version s ≡ ok v))
      → ((s : Spec) (n : String) (d : env.Disk) → (env.write_spec s n d).0 ≡ ok tt)
      → Total (create_common_spec_file env)
  unfolding create_common_spec_file
  create_common_spec_file-Total version written =
      Total-bind (Total-wrapping _ (Total-attempt _ (λ d. version _)))
        λ v. Total-effect _ (λ d. (tt, written _ _ d))

  -- It returns, where the system makes folders and files and the template can be filled.
  pub create_claim_spec_file-Total :
      ((p : String) (d : env.Disk) → (env.mkdir_all p d).0 ≡ ok tt)
      → ((p s : String) (d : env.Disk) → (env.write_file p s d).0 ≡ ok tt)
      → ((s : Spec) → (v : String) × (env.minimum_required_version s ≡ ok v))
      → ((s : Spec) (n : String) (d : env.Disk) → (env.write_spec s n d).0 ≡ ok tt)
      → (node_name uid : String) (prepared : PreparedDevices)
      → Fills env
          (config_product_id env (split_device_ids_by_product_id (slice prepared)).0)
          (get_device_ids (slice prepared))
      → Total (create_claim_spec_file env node_name uid prepared)
  unfolding create_claim_spec_file
  create_claim_spec_file-Total made written version spec_written node_name uid prepared fills =
      Total-bind
        (Total-wrapping _ (get_config_metrics_mount-Total env made written node_name _ _ fills))
        λ mounts.
          Total-bind (Total-wrapping _ (Total-attempt _ (λ d. version _)))
            λ v. Total-effect _ (λ d. (tt, spec_written _ _ d))
