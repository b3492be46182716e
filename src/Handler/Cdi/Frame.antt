-- ===== src/Handler/Cdi/Frame.antt =====
-- What writing the spec of a claim and removing its files leave alone; and that a spec was written.
use dra_driver_spyre.Prelude.{String, ◌≡◌, refl, some, List, [], ◌∷◌, contains}
use dra_driver_spyre.Utils.{get_config_host_path, get_metrics_host_path}
use dra_driver_spyre.Env.{Env, World, Spec, Mount, PreparedDevice, PreparedDevices, effect}
use dra_driver_spyre.Env.Keeps.{
  Keeps, Keeps-bind, Keeps-if, Keeps-pure, IsFramed, keeps_rules, Yields, Yields-bind,
  outcome-returned,
}
use dra_driver_spyre.Env.Laws.{SpecLaws}
use dra_driver_spyre.Handler.Config.Frame.{get_config_metrics_mount-Keeps}
use dra_driver_spyre.Handler.Cdi.Defines.{Defines, cdi_devices-Defines}
use dra_driver_spyre.Handler.Cdi.{
  slice, claim_spec, cdi_devices, create_claim_spec_file, create_common_spec_file, clean_entries,
  clean_zombie_config_folders, delete_mounted_path, delete_config_file, is_host_mounted_file,
}

module _ {env : Env} {P : World env → Type 0} (f : IsFramed P) where
  delete_mounted_path-Keeps : (path : String) → Keeps P (delete_mounted_path env path)
  unfolding delete_mounted_path
  delete_mounted_path-Keeps path = search (keeps_rules, f.remove_all)

  pub delete_config_file-Keeps : (mnts : List Mount) → Keeps P (delete_config_file env mnts)
  unfolding delete_config_file
  delete_config_file-Keeps [] = search keeps_rules
  delete_config_file-Keeps (mnt ∷ rest) =
      Keeps-bind
        (Keeps-if (is_host_mounted_file env mnt.container_path)
          (delete_mounted_path-Keeps mnt.host_path) (Keeps-pure tt))
        (λ _. delete_config_file-Keeps rest)

  pub create_claim_spec_file-Keeps :
      (node_name uid : String) (prepared : PreparedDevices)
      → ((s : Spec) → Keeps P (effect (env.write_spec s (env.spec_name uid))))
      → Keeps P (create_claim_spec_file env node_name uid prepared)
  unfolding create_claim_spec_file
  create_claim_spec_file-Keeps node_name uid prepared written =
      search (keeps_rules, get_config_metrics_mount-Keeps f, written) depth 9

  pub create_common_spec_file-Keeps :
      ((s : Spec) → Keeps P (effect (env.write_spec s (env.spec_name "common"))))
      → Keeps P (create_common_spec_file env)
  unfolding create_common_spec_file
  create_common_spec_file-Keeps written = search (keeps_rules, written)

  clean_entries-Keeps : (mounts entries : List String) → Keeps P (clean_entries env mounts entries)
  unfolding clean_entries
  clean_entries-Keeps mounts [] = Keeps-pure tt
  clean_entries-Keeps mounts (entry ∷ rest) =
      let config = env.join (get_config_host_path env) entry in
      let metrics = env.join (get_metrics_host_path env) entry in
      Keeps-bind
        (Keeps-if (contains mounts config) (Keeps-pure tt)
          (Keeps-bind (delete_mounted_path-Keeps config) (λ _. delete_mounted_path-Keeps metrics)))
        (λ _. clean_entries-Keeps mounts rest)

  pub clean_zombie_config_folders-Keeps :
      (root : String) → Keeps P (clean_zombie_config_folders env root)
  unfolding clean_zombie_config_folders
  clean_zombie_config_folders-Keeps root = search (keeps_rules, clean_entries-Keeps) depth 9

module _ {env : Env} (laws : SpecLaws env) where
  write_spec-Yields :
      (s : Spec) (name : String) (devices : List PreparedDevice)
      → s.devices ≡ cdi_devices 0 devices
      → Yields {env = env}
          (λ _ v. (t : Spec) × (laws.spec_at name v.disk ≡ some t) × Defines devices t)
          (effect (env.write_spec s name))
  unfolding effect
  write_spec-Yields s name devices e = record {
    at = λ w a h. (
      s,
      laws.at-write s name w.disk (outcome-returned (env.write_spec s name w.disk).0 h),
      cdi_devices-Defines devices s e,
    );
  }

  -- A call that returns has left a spec of the devices under the claim's name.
  pub create_claim_spec_file-Yields :
      (node_name uid : String) (prepared : PreparedDevices)
      → Yields {env = env}
          (λ _ v.
            (t : Spec) × (laws.spec_at (env.spec_name uid) v.disk ≡ some t)
            × Defines (slice prepared) t)
          (create_claim_spec_file env node_name uid prepared)
  unfolding create_claim_spec_file claim_spec
  create_claim_spec_file-Yields node_name uid prepared = Yields-bind _ λ mounts.
      Yields-bind _ λ version. write_spec-Yields _ (env.spec_name uid) (slice prepared) refl
