-- ===== src/Utils/Folders.antt =====
-- The folders of pkg/utils/utils.go: what making them leaves alone.
use dra_driver_spyre.Prelude.{ℕ, zero, suc, String, Option, some, none, ◌≡◌, refl}
use dra_driver_spyre.Env.{
  Env, World, Io, Error, ok, Outcome, returned, raised, panicked, Stat, found, missing, failed,
}
use dra_driver_spyre.Env.Keeps.{Keeps, IsFramed, keeps_rules}
use dra_driver_spyre.Env.Total.{
  Calm, Calm-bind, Calm-attempt, Calm-effect, Total, Total-bind, Total-pure, Total-reading,
  Total-effect,
}
use dra_driver_spyre.Utils.{
  make_missing, create_folder_if_not_exists, create_writable_folder_if_not_exists, retry_folder,
  after_attempt, create_new_config_folder, copy_file, uuid_generate_max_retry,
}

module _ {env : Env} {P : World env → Type 0} (f : IsFramed P) where
  make_missing-Keeps : (path : String) (s : Stat) → Keeps P (make_missing env path s)
  unfolding make_missing
  make_missing-Keeps path missing = f.mkdir path
  make_missing-Keeps path (found b) = search keeps_rules
  make_missing-Keeps path (failed e) = search keeps_rules

  pub create_folder-Keeps : (path : String) → Keeps P (create_folder_if_not_exists env path)
  unfolding create_folder_if_not_exists
  create_folder-Keeps path = search (keeps_rules, make_missing-Keeps)

  pub create_writable_folder-Keeps :
      (path : String) → Keeps P (create_writable_folder_if_not_exists env path)
  unfolding create_writable_folder_if_not_exists
  create_writable_folder-Keeps path = search (keeps_rules, make_missing-Keeps)

  after_attempt-keeps :
      (o : Outcome Unit) (folder : String) (again : Error → Io env String)
      → ((e : Error) (w : World env) → P w → P (again e w).1)
      → (w : World env) → P w
      → P (after_attempt env o folder again w).1
  unfolding after_attempt
  after_attempt-keeps (returned _) folder again k w h = h
  after_attempt-keeps (raised e) folder again k w h = k e w h
  after_attempt-keeps panicked folder again k w h = h

  retry_folder-keeps :
      (n : ℕ) (path : String) (last : Option Error) (w : World env)
      → P w
      → P (retry_folder env n path last w).1
  unfolding retry_folder
  retry_folder-keeps zero path last w h = h
  retry_folder-keeps (suc n) path last w h =
      let w' = record w { disk = (env.new_uuid w.disk).1 } in
      let folder = env.join path (env.new_uuid w.disk).0 in
      after_attempt-keeps (create_folder_if_not_exists env folder w').0 folder
        (λ e. retry_folder env n path (some e)) (λ e. retry_folder-keeps n path (some e))
        (create_folder_if_not_exists env folder w').1
        ((create_folder-Keeps folder).at w' (f.uuid w h))

  pub create_new_config_folder-Keeps : (path : String) → Keeps P (create_new_config_folder env path)
  unfolding create_new_config_folder
  create_new_config_folder-Keeps path = record {
    at = λ w h. retry_folder-keeps uuid_generate_max_retry path none w h;
  }

  pub copy_file-Keeps : (src dest : String) → Keeps P (copy_file env src dest)
  unfolding copy_file
  copy_file-Keeps src dest = search (keeps_rules, f.write_file)

module _ (env : Env) (made : (p : String) (d : env.Disk) → (env.mkdir_all p d).0 ≡ ok tt) where
  make_missing-Total : (path : String) (s : Stat) → Total (make_missing env path s)
  unfolding make_missing
  make_missing-Total path missing = Total-effect (env.mkdir_all path) (λ d. (tt, made path d))
  make_missing-Total path (found b) = Total-pure tt
  make_missing-Total path (failed e) = Total-pure tt

  -- It returns, where the system makes folders.
  pub create_folder-Total : (path : String) → Total (create_folder_if_not_exists env path)
  unfolding create_folder_if_not_exists
  create_folder-Total path = Total-bind (Total-reading (env.stat path)) (make_missing-Total path)

  pub create_writable_folder-Total :
      (path : String) → Total (create_writable_folder_if_not_exists env path)
  unfolding create_writable_folder_if_not_exists
  create_writable_folder-Total path =
      Total-bind (Total-reading (env.stat path)) (make_missing-Total path)

  first_attempt :
      (o : Outcome Unit) (folder : String) (again : Error → Io env String) (w : World env)
      → o ≡ returned tt
      → (after_attempt env o folder again w).0 ≡ returned folder
  unfolding after_attempt
  first_attempt (returned _) folder again w h = refl
  first_attempt (raised e) folder again w h = cc
  first_attempt panicked folder again w h = cc

  -- The first name will do, where the system makes folders.
  pub create_new_config_folder-Total : (path : String) → Total (create_new_config_folder env path)
  unfolding create_new_config_folder retry_folder
  create_new_config_folder-Total path = record {
    at = λ w.
        let w' = record w { disk = (env.new_uuid w.disk).1 } in
        (
          env.join path (env.new_uuid w.disk).0,
          first_attempt _ _ _ _
              ((create_folder-Total (env.join path (env.new_uuid w.disk).0)).at w').1,
        );
  }

pub copy_file-Calm : (env : Env) (src dest : String) → Calm (copy_file env src dest)
unfolding copy_file
copy_file-Calm env src dest = Calm-bind (Calm-attempt _) (λ _. Calm-effect _)
