-- ===== src/Handler/Config/Mounts.antt =====
-- internal/handler/config: what other tools ask of the mounted folders (config.go), the files with a
-- pod's name in them (metrics.go and pod_info_writer.go), and how a configuration is read back
-- (senlib_config_generator.go).
use dra_driver_spyre.Prelude.{String, Bool, true, false, List, [], ◌∷◌, if◌then◌else◌}
use dra_driver_spyre.Strings.{str_append, contains_text}
use dra_driver_spyre.Env.{
  Env, Io, msg, wrap, Result, ok, err, Stat, found, missing, failed, ◌>>◌, wrapping, raise, effect,
}
use dra_driver_spyre.Utils.{get_config_host_path, get_config_file_name}

-- what the code reads of a Pod
pub record Pod : Type 0 where
  pub name : String
  pub namespace : String

module _ (env : Env) where
  -- the loop of ListAllMounts; `is_dir` is IsDir of an entry of the folder
  pub list_folders : (String → Bool) → String → List String → List String
  list_folders is_dir host_path [] = []
  list_folders is_dir host_path (file ∷ rest) =
      let others = list_folders is_dir host_path rest in
      if is_dir file then env.join host_path file ∷ others else others

  -- ListAllMounts
  list_read : (String → Bool) → String → Result (List String) → Result (List String)
  list_read is_dir host_path (ok files) = ok (list_folders is_dir host_path files)
  list_read is_dir host_path (err e) = err (wrap (str_append "failed to read " host_path) e)

  pub list_all_mounts : (String → Bool) → String → env.Disk → Result (List String)
  unfolding list_read
  list_all_mounts is_dir host_path d = list_read is_dir host_path (env.read_dir host_path d)

  -- IsConfigHostPathExist
  is_found : Stat → Bool
  is_found (found _) = true
  is_found missing = false
  is_found (failed e) = false

  pub is_config_host_path_exist : env.Disk → Bool
  unfolding is_found
  is_config_host_path_exist d = is_found (env.stat (get_config_host_path env) d)

  -- IsSomeContainerMounted
  has_entry : Result (List String) → Bool
  has_entry (ok []) = false
  has_entry (ok (_ ∷ _)) = true
  has_entry (err e) = false

  pub is_some_container_mounted : env.Disk → Bool
  unfolding has_entry
  is_some_container_mounted d = has_entry (env.read_dir (get_config_host_path env) d)

  -- WriteFile: the file is made empty, and then written
  pub write_file : String → String → String → Io env (Unit {0})
  write_file folder filename value =
      effect (env.write_file (env.join folder filename) "")
      >> effect (env.write_file (env.join folder filename) value)

  -- writeInfoFiles
  pub write_info_files : String → Pod → Io env (Unit {0})
  write_info_files metrics_folder pod =
      write_file metrics_folder "POD_NAME" pod.name
      >> write_file metrics_folder "POD_NAMESPACE" pod.namespace

  -- WritePodInfo: the first metrics folder among the mounts
  pub write_pod_info : List String → Pod → Io env (Unit {0})
  write_pod_info [] pod = raise (msg "container-metrics not found")
  write_pod_info (host_mnt_path ∷ rest) pod =
      if contains_text host_mnt_path "container-metrics"
      then wrapping (str_append "error writing pod info to " host_mnt_path)
          (write_info_files host_mnt_path pod)
      else write_pod_info rest pod

  -- ReadSenlibConfig; `decode` is json's Decode into a SenlibConfig, of which GENERAL.sen_bus_id is read
  bus_ids_of : (String → Result (List String)) → Result String → Result (List String)
  bus_ids_of decode (err e) = err (wrap "failed to open file" e)
  bus_ids_of decode (ok text) = elim (decode text) [
    | ok bus_ids ↦ ok bus_ids
    | err e ↦ err (wrap "failed to decode JSON" e)
  ]

  pub read_senlib_config :
      (String → Result (List String)) → String → env.Disk → Result (List String)
  unfolding bus_ids_of
  read_senlib_config decode mnt_path d =
      bus_ids_of decode (env.read_file (env.join mnt_path (get_config_file_name env)) d)

  -- ReadResourcePool
  pub read_resource_pool : String → env.Disk → Result String
  read_resource_pool mnt_path d = elim (env.read_file (env.join mnt_path "resource_pool") d) [
    | ok content ↦ ok content
    | err e ↦ err (wrap "failed to open file" e)
  ]
