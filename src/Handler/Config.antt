-- ===== src/Handler/Config.antt =====
-- internal/handler/config/config.go and metrics.go: the folders that are mounted into a claim's
-- containers. The package variables configHostPath, metricsHostPath and so on are set once, from the
-- environment, and stand here as the calls that set them.
pub mod Frame
pub mod Mounts
use dra_driver_spyre.Prelude.{
  String, Bool, ◌&&◌, List, [], ◌∷◌, ◌==◌, Map, insert, lookup, Option, if◌then◌else◌,
}
use dra_driver_spyre.Strings.{join_with, str_append, contains_text}
use dra_driver_spyre.Topology.Files.{get_topology_file}
use dra_driver_spyre.Env.{Env, Io, Mount, returned, ◌>>=◌, ◌>>◌, reading, pure, ignoring}
use dra_driver_spyre.Utils.{
  get_config_container_path, get_config_host_path, get_metrics_host_path,
  get_metrics_container_path, create_folder_if_not_exists, create_writable_folder_if_not_exists,
  create_new_config_folder, copy_file,
}
use dra_driver_spyre.Handler.Senlib.{generate_config_file}

-- uniqueStringFromDeviceIDs
pub unique_string_from_device_ids : List String → String
unique_string_from_device_ids device_ids = join_with "-" device_ids

module _ (env : Env) where
  -- GetUuidFromPath
  pub get_uuid_from_path : String → String
  get_uuid_from_path host_config_path =
      let folder_name = env.base host_config_path in if folder_name == "." then "" else folder_name

  -- InitConfigMount, with InitMetricsMountPath: the uuidMap starts empty
  pub init_config_mount : Io env (Unit {0})
  init_config_mount = do
    create_folder_if_not_exists env (get_metrics_host_path env)
    create_folder_if_not_exists env (get_config_host_path env)

  -- CopyTopologyFile
  pub copy_topology_file : String → String → Io env (Unit {0})
  copy_topology_file node_name output_path = do
    topology_filepath ← reading (get_topology_file env node_name)
    copy_file env topology_filepath (str_append output_path "/topo.json")

  -- getSenlibConfigMount
  pub get_senlib_config_mount : String → List String → String → Io env Mount
  get_senlib_config_mount product_id device_ids output_path = do
    generate_config_file env product_id device_ids output_path
    pure (record {
      container_path = get_config_container_path env;
      host_path = output_path;
      options = "nosuid" ∷ "nodev" ∷ "bind" ∷ "ro" ∷ [];
    })

  -- CreateNewMetricsFolder
  pub create_new_metrics_folder : String → String → Io env String
  create_new_metrics_folder metrics_host_path config_host_path = do
    let new_folder = env.join metrics_host_path (get_uuid_from_path config_host_path)
    create_writable_folder_if_not_exists env new_folder
    pure new_folder

  -- getMetricsMount
  pub get_metrics_mount : String → Io env Mount
  get_metrics_mount config_host_mnt_path = do
    output_path ← create_new_metrics_folder (get_metrics_host_path env) config_host_mnt_path
    pure (record {
      container_path = get_metrics_container_path env;
      host_path = output_path;
      options = "nosuid" ∷ "nodev" ∷ "bind" ∷ "rw" ∷ [];
    })

  -- h.uuidMap[key] = path
  remember : String → String → Io env (Unit {0})
  remember key path w = (returned tt, record w { uuid_map = insert key path w.uuid_map })

  -- GetConfigMetricsMount. The mounts that the source returns beside an error are dropped by its caller.
  pub get_config_metrics_mount : String → String → List String → Io env (List Mount)
  unfolding remember
  get_config_metrics_mount node_name product_id device_ids = do
    output_path ← create_new_config_folder env (get_config_host_path env)
    ignoring (copy_topology_file node_name output_path)
    config_mnt ← get_senlib_config_mount product_id device_ids output_path
    metrics_mnt ← get_metrics_mount config_mnt.host_path
    remember (unique_string_from_device_ids device_ids) output_path
    pure (config_mnt ∷ metrics_mnt ∷ [])

  -- GetMountedPath
  pub get_mounted_path : Map String → List String → Option String
  get_mounted_path uuid_map device_ids = lookup (unique_string_from_device_ids device_ids) uuid_map

  -- IsConfigMnt and IsMetricsMnt
  pub is_config_mnt : String → String → Bool
  is_config_mnt container_mnt_path host_mnt_path =
      container_mnt_path == get_config_container_path env
      && contains_text host_mnt_path "container-config"

  pub is_metrics_mnt : String → String → Bool
  is_metrics_mnt container_mnt_path host_mnt_path =
      container_mnt_path == get_metrics_container_path env
      && contains_text host_mnt_path "container-metrics"
