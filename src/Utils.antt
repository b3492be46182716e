-- ===== src/Utils.antt =====
-- pkg/utils/utils.go, pkg/utils/config_utils.go and the constants of pkg/const/const.go: environment
-- variables, host and container paths, and the folders that the driver makes.
pub mod Pci
pub mod Folders
use dra_driver_spyre.Prelude.{
  ℕ, zero, suc, String, Bool, true, false, Option, none, some, List, ◌==◌, if◌then◌else◌,
}
use dra_driver_spyre.Env.{
  Env, World, Io, Outcome, returned, raised, panicked, Result, ok, err, Error, msg, wrap, Stat,
  found, missing, failed, ◌>>=◌, ◌>>◌, pure, raise, reading, attempt, effect, wrapping,
}

abbrev pub driver_name : String
driver_name = "spyre.ibm.com"

-- uuidGenerateMaxRetry
abbrev pub uuid_generate_max_retry : ℕ
uuid_generate_max_retry = 10

module _ (env : Env) where
  unfoldable pub get_env_or_default : String → String → String
  get_env_or_default key default_value =
      let value = env.getenv key in if value == "" then default_value else value

  pub is_pseudo_device_mode : Bool
  is_pseudo_device_mode = env.getenv "PSEUDO_DEVICE_MODE" == "1"

  pub is_card_management_enabled : Bool
  is_card_management_enabled = env.getenv "CARD_MANAGEMENT_ENABLED" == "1"

  abbrev device_driver_path : String
  device_driver_path = "/usr/local/etc/dra-driver-spyre"

  pub get_config_container_path : String
  get_config_container_path = get_env_or_default "CONFIG_FILEPATH" "/etc/aiu"

  pub get_config_host_path : String
  get_config_host_path =
      get_env_or_default "CONFIG_HOSTPATH" (env.join device_driver_path "container-config")

  pub get_config_file_name : String
  get_config_file_name = get_env_or_default "CONFIG_FILENAME" "senlib_config.json"

  unfoldable pub get_metrics_host_path : String
  get_metrics_host_path =
      get_env_or_default "SENTIENT_MAP_HOSTPATH" (env.join device_driver_path "container-metrics")

  pub get_metrics_container_path : String
  get_metrics_container_path = get_env_or_default "SENTIENT_MAP_FILEPATH" "/data"

  -- CreateFolderIfNotExists: a Stat error other than "not there" counts as there. The writable variant
  -- differs in the mode bits alone, which are not modelled.
  make_missing : String → Stat → Io env (Unit {0})
  make_missing path missing = effect (env.mkdir_all path)
  make_missing path (found _) = pure tt
  make_missing path (failed _) = pure tt

  pub create_folder_if_not_exists : String → Io env (Unit {0})
  unfolding make_missing
  create_folder_if_not_exists path = do s ← reading (env.stat path); make_missing path s

  pub create_writable_folder_if_not_exists : String → Io env (Unit {0})
  unfolding make_missing
  create_writable_folder_if_not_exists path = do s ← reading (env.stat path); make_missing path s

  after_attempt : Outcome (Unit {0}) → String → (Error → Io env String) → Io env String
  after_attempt (returned _) new_folder again w = (returned new_folder, w)
  after_attempt (raised e) new_folder again w = again e w
  after_attempt panicked new_folder again w = (panicked, w)

  -- the loop of CreateNewConfigFolder; the last error is kept for the message
  retry_folder : ℕ → String → Option Error → Io env String
  retry_folder zero config_path last w = (
    raised (elim last [
      | none ↦ msg "cannot create new config folder"
      | some e ↦ wrap "cannot create new config folder" e
    ]),
    w,
  )
  retry_folder (suc attempts) config_path last w =
      let new_uuid = (env.new_uuid w.disk).0 in
      let w' = record w { disk = (env.new_uuid w.disk).1 } in
      let new_folder = env.join config_path new_uuid in
      let made = create_folder_if_not_exists new_folder w' in
      after_attempt made.0 new_folder (λ e. retry_folder attempts config_path (some e)) made.1

  pub create_new_config_folder : String → Io env String
  unfolding retry_folder after_attempt
  create_new_config_folder config_path = retry_folder uuid_generate_max_retry config_path none

  pub path_exists : String → env.Disk → Bool
  path_exists path d = elim (env.stat path d) [
    | found _ ↦ true
    | missing ↦ false
    | failed _ ↦ false
  ]

  -- CopyFile: open, create, copy
  pub copy_file : String → String → Io env (Unit {0})
  copy_file src dest = do
    content ← attempt (env.read_file src)
    effect (env.write_file dest content)
