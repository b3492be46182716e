-- ===== src/Handler/Config/Frame.antt =====
-- What making the mounts of a claim leaves alone.
use dra_driver_spyre.Prelude.{◌≡◌, refl, String, List}
use dra_driver_spyre.Env.{Env, World, ok}
use dra_driver_spyre.Env.Keeps.{Keeps, IsFramed, keeps_rules}
use dra_driver_spyre.Env.Total.{
  Calm, Calm-bind, Calm-reading, Total, Total-bind, Total-pure, Total-ignoring,
}
use dra_driver_spyre.Utils.Folders.{
  create_folder-Total, create_writable_folder-Total, create_new_config_folder-Total, copy_file-Calm,
  create_folder-Keeps, create_writable_folder-Keeps, create_new_config_folder-Keeps,
  copy_file-Keeps,
}
use dra_driver_spyre.Handler.Senlib.Frame.{
  Fills, generate_config_file-Keeps, generate_config_file-Total,
}
use dra_driver_spyre.Handler.Config.{
  copy_topology_file, get_senlib_config_mount, create_new_metrics_folder, get_metrics_mount,
  init_config_mount, remember, get_config_metrics_mount,
}

module _ {env : Env} {P : World env → Type 0} (f : IsFramed P) where
  copy_topology_file-Keeps :
      (node_name path : String) → Keeps P (copy_topology_file env node_name path)
  unfolding copy_topology_file
  copy_topology_file-Keeps node_name path = search (keeps_rules, copy_file-Keeps f)

  get_senlib_config_mount-Keeps :
      (product_id : String) (ids : List String) (path : String)
      → Keeps P (get_senlib_config_mount env product_id ids path)
  unfolding get_senlib_config_mount
  get_senlib_config_mount-Keeps product_id ids path =
      search (keeps_rules, generate_config_file-Keeps f)

  create_new_metrics_folder-Keeps :
      (metrics config : String) → Keeps P (create_new_metrics_folder env metrics config)
  unfolding create_new_metrics_folder
  create_new_metrics_folder-Keeps metrics config =
      search (keeps_rules, create_writable_folder-Keeps f)

  get_metrics_mount-Keeps : (path : String) → Keeps P (get_metrics_mount env path)
  unfolding get_metrics_mount
  get_metrics_mount-Keeps path = search (keeps_rules, create_new_metrics_folder-Keeps)

  remember-Keeps : (key path : String) → Keeps P (remember env key path)
  unfolding remember
  remember-Keeps key path = record { at = λ w h. f.memory w _ h }

  pub get_config_metrics_mount-Keeps :
      (node_name product_id : String) (ids : List String)
      → Keeps P (get_config_metrics_mount env node_name product_id ids)
  unfolding get_config_metrics_mount
  get_config_metrics_mount-Keeps node_name product_id ids =
      search
        (
          keeps_rules,
          create_new_config_folder-Keeps f,
          copy_topology_file-Keeps,
          get_senlib_config_mount-Keeps,
          get_metrics_mount-Keeps,
          remember-Keeps,
        )
        depth 12

  pub init_config_mount-Keeps : Keeps P (init_config_mount env)
  unfolding init_config_mount
  init_config_mount-Keeps = search (keeps_rules, create_folder-Keeps f)

-- It returns, where the system makes folders.
pub init_config_mount-Total :
    (env : Env)
    → ((p : String) (d : env.Disk) → (env.mkdir_all p d).0 ≡ ok tt)
    → Total (init_config_mount env)
unfolding init_config_mount
init_config_mount-Total env made =
    Total-bind (create_folder-Total env made _) (λ _. create_folder-Total env made _)

module _ (env : Env) (made : (p : String) (d : env.Disk) → (env.mkdir_all p d).0 ≡ ok tt)
    (written : (p s : String) (d : env.Disk) → (env.write_file p s d).0 ≡ ok tt) where
  copy_topology_file-Calm : (node_name path : String) → Calm (copy_topology_file env node_name path)
  unfolding copy_topology_file
  copy_topology_file-Calm node_name path = Calm-bind (Calm-reading _) (λ _. copy_file-Calm env _ _)

  remember-Total : (key path : String) → Total (remember env key path)
  unfolding remember
  remember-Total key path = record { at = λ w. (tt, refl) }

  -- It returns, where the system makes folders and files and the template can be filled.
  pub get_config_metrics_mount-Total :
      (node_name product_id : String) (ids : List String)
      → Fills env product_id ids
      → Total (get_config_metrics_mount env node_name product_id ids)
  unfolding get_config_metrics_mount get_senlib_config_mount get_metrics_mount
      create_new_metrics_folder
  get_config_metrics_mount-Total node_name product_id ids fills =
      Total-bind (create_new_config_folder-Total env made _) λ output_path.
        Total-bind (Total-ignoring (copy_topology_file-Calm node_name output_path)) λ _.
          Total-bind
            (Total-bind (generate_config_file-Total env product_id ids fills written output_path)
              (λ _. Total-pure _))
            λ config_mnt.
              Total-bind
                (Total-bind
                  (Total-bind (create_writable_folder-Total env made _) (λ _. Total-pure _))
                  (λ _. Total-pure _))
                λ metrics_mnt. Total-bind (remember-Total _ _) λ _. Total-pure _
