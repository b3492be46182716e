-- ===== src/Handler/Cdi.antt =====
-- internal/handler/cdi.go: the CDI spec of a claim, and the removal of what a claim leaves behind.
pub mod Defines
pub mod Frame
pub mod Returns
pub mod Clean
use dra_driver_spyre.Prelude.{
  ℕ, suc, ◌-◌, String, Bool, true, false, ◌||◌, Option, none, some, List, [], ◌∷◌, ◌++◌, map,
  length, contains, eqb, ◌==◌, if◌then◌else◌,
}
use dra_driver_spyre.Prelude.Int.{pos}
use dra_driver_spyre.Strings.{str_append, itoa}
use dra_driver_spyre.Env.{
  Env, Io, ok, err, Stat, found, missing, failed, DeviceNode, Mount, CdiDevice, Spec,
  PreparedDevice, PreparedDevices, ◌>>=◌, ◌>>◌, pure, attempt, effect, ignoring, wrapping, reading,
}
use dra_driver_spyre.Devices.{product_id_pf, product_id_vf}
use dra_driver_spyre.Utils.{
  driver_name, is_pseudo_device_mode, get_config_container_path, get_config_host_path,
  get_metrics_host_path, get_metrics_container_path,
}
use dra_driver_spyre.Handler.Config.{get_config_metrics_mount}

abbrev cdi_kind : String
cdi_kind = "k8s.spyre.ibm.com/spyre"

abbrev pub cdi_common_device_name : String
cdi_common_device_name = "common"

-- GetDeviceIDs
unfoldable pub get_device_ids : List PreparedDevice → List String
get_device_ids [] = []
get_device_ids (device ∷ rest) = device.pci_address ∷ get_device_ids rest

-- splitDeviceIDsByProductID: the PF addresses and the VF addresses
unfoldable pub split_device_ids_by_product_id : List PreparedDevice → List String × List String
split_device_ids_by_product_id [] = ([], [])
split_device_ids_by_product_id (device ∷ rest) =
    let (pf_ids, vf_ids) = split_device_ids_by_product_id rest in
    if device.product_id == product_id_vf
    then (pf_ids, device.pci_address ∷ vf_ids)
    else (device.pci_address ∷ pf_ids, vf_ids)

-- the loop of GetDeviceEnvs, which leaves after the last index without a comma
pub join_values : ℕ → ℕ → String → List String → String
join_values i last_index values [] = values
join_values i last_index values (s ∷ rest) =
    let more = join_values (suc i) last_index (str_append (str_append values s) ",") rest in
    if eqb i last_index then str_append values s else more

-- GetDeviceEnvs
pub get_device_envs : String → List String → String
get_device_envs product_id device_ids =
    let key =
      if product_id == product_id_vf
      then "PCIDEVICE_IBM_COM_AIU_VF"
      else "PCIDEVICE_IBM_COM_AIU_PF" in
    str_append key (str_append "=" (join_values 0 (length device_ids - 1) "" device_ids))

-- the loop over the devices of CreateClaimSpecFile
pub cdi_devices : ℕ → List PreparedDevice → List CdiDevice
cdi_devices i [] = []
cdi_devices i (device ∷ rest) =
    record {
      name = device.device.device_name;
      container_edits = record {
        env =
            str_append (str_append "AIU_DEVICE_" (itoa (pos i))) (str_append "=" device.pci_address)
            ∷ [];
        device_nodes = device.cdi_device_spec;
        mounts = [];
      };
    }
    ∷ cdi_devices (suc i) rest

abbrev is_empty : List String → Bool
is_empty [] = true
is_empty (_ ∷ _) = false

pub common_envs : List String → List String → List String
common_envs pf_ids vf_ids =
    (if is_empty pf_ids then [] else get_device_envs product_id_pf pf_ids ∷ [])
    ++ (if is_empty vf_ids then [] else get_device_envs product_id_vf vf_ids ∷ [])

-- a nil slice is ranged over as an empty one
abbrev pub slice {ℓ} : {A : Type ℓ} → Option (List A) → List A
slice none = []
slice (some xs) = xs

module _ (env : Env) where
  abbrev vfio_mount : DeviceNode
  vfio_mount = record { path = "/dev/vfio/vfio"; host_path = "/dev/vfio/vfio"; permissions = "mrw" }

  -- the product ID by which the configuration is made: PF takes precedence
  unfoldable pub config_product_id : List String → String
  config_product_id pf_ids = if is_empty pf_ids then product_id_vf else product_id_pf

  -- the spec of CreateClaimSpecFile, but for its version
  pub claim_spec : List PreparedDevice → List Mount → Spec
  claim_spec devices config_mounts =
      let (pf_ids, vf_ids) = split_device_ids_by_product_id devices in
      record {
        version = "";
        kind = cdi_kind;
        devices = cdi_devices 0 devices;
        container_edits = record {
          env = common_envs pf_ids vf_ids;
          device_nodes = if is_pseudo_device_mode env then [] else vfio_mount ∷ [];
          mounts = config_mounts;
        };
      }

  -- CreateClaimSpecFile
  pub create_claim_spec_file : String → String → PreparedDevices → Io env (Unit {0})
  create_claim_spec_file node_name claim_uid prepared = do
    let devices = slice prepared
    let (pf_ids, vf_ids) = split_device_ids_by_product_id devices
    config_mounts ←
        wrapping "failed to get config mounts" (
          get_config_metrics_mount env node_name (config_product_id pf_ids)
            (get_device_ids devices))
    let spec = claim_spec devices config_mounts
    min_version ←
        wrapping "failed to get minimum required CDI spec version"
          (attempt (λ _. env.minimum_required_version spec))
    effect (env.write_spec (record spec { version = min_version }) (env.spec_name claim_uid))

  -- DeleteClaimSpec
  unfoldable pub delete_claim_spec : String → Io env (Unit {0})
  delete_claim_spec claim_uid = effect (env.remove_spec (env.spec_name claim_uid))

  -- getSpecFilePath: the first of .yaml and .json that is there, or whose Stat fails otherwise
  is_there : Stat → Bool
  is_there missing = false
  is_there (found _) = true
  is_there (failed _) = true

  pub get_spec_file_path : String → String → env.Disk → Option String
  unfolding is_there
  get_spec_file_path root spec_name d =
      let path = env.join root spec_name in
      if is_there (env.stat (str_append path ".yaml") d)
      then some (str_append path ".yaml")
      else if is_there (env.stat (str_append path ".json") d)
      then some (str_append path ".json")
      else none

  -- ReadSpec; `none` for any error, which its one caller only logs
  read_spec_at : Option String → env.Disk → Option Spec
  read_spec_at none d = none
  read_spec_at (some path) d = elim (env.read_spec path d) [ ok spec ↦ some spec | err _ ↦ none ]

  pub read_spec : String → String → env.Disk → Option Spec
  unfolding read_spec_at
  read_spec root claim_uid d = read_spec_at (get_spec_file_path root (env.spec_name claim_uid) d) d

  -- GetClaimDevices
  pub get_claim_devices : List String → List String
  get_claim_devices devices =
      env.qualified_name cdi_common_device_name ∷ map env.qualified_name devices

  -- IsHostMountedFile
  pub is_host_mounted_file : String → Bool
  is_host_mounted_file container_path =
      container_path == get_config_container_path env
      || container_path == get_metrics_container_path env

  -- deleteMountedPath
  pub delete_mounted_path : String → Io env (Unit {0})
  delete_mounted_path path = ignoring (effect (env.remove_all path))

  -- DeleteConfigFile, as the loop over the mounts of the spec
  pub delete_config_file : List Mount → Io env (Unit {0})
  delete_config_file [] = pure tt
  delete_config_file (mnt ∷ rest) =
      (if is_host_mounted_file mnt.container_path
        then delete_mounted_path mnt.host_path
        else pure tt)
      >> delete_config_file rest

  -- the mounts of every readable spec under the root: the walk of CleanZombieConfigFolders
  unfoldable pub host_paths : List Mount → List String
  host_paths [] = []
  host_paths (mnt ∷ rest) = mnt.host_path ∷ host_paths rest

  unfoldable pub existing_mounts : String → List String → env.Disk → List String
  unfolding host_paths
  existing_mounts root [] d = []
  existing_mounts root (path ∷ rest) d =
      let later = existing_mounts root rest d in
      if path == root then later else (elim (env.read_spec path d) [
        | err _ ↦ later
        | ok spec ↦ host_paths spec.container_edits.mounts ++ later
      ])

  -- the loop of CleanZombieConfigFolders over the entries of the config folder
  pub clean_entries : List String → List String → Io env (Unit {0})
  clean_entries mounts [] = pure tt
  clean_entries mounts (entry ∷ rest) =
      (if contains mounts (env.join (get_config_host_path env) entry)
        then pure tt
        else delete_mounted_path (env.join (get_config_host_path env) entry)
          >> delete_mounted_path (env.join (get_metrics_host_path env) entry))
      >> clean_entries mounts rest

  -- CleanZombieConfigFolders
  pub clean_zombie_config_folders : String → Io env (Unit {0})
  clean_zombie_config_folders root = do
    paths ← attempt (env.walk root)
    mounts ← reading (existing_mounts root paths)
    entries ← attempt (env.read_dir (get_config_host_path env))
    clean_entries mounts entries

  -- CreateCommonSpecFile
  pub create_common_spec_file : Io env (Unit {0})
  create_common_spec_file = do
    let spec : Spec = record {
      version = "";
      kind = cdi_kind;
      devices =
          record {
            name = cdi_common_device_name;
            container_edits = record {
              env =
                  str_append "KUBERNETES_NODE_NAME=" (env.getenv "NODE_NAME")
                  ∷ str_append "DRA_RESOURCE_DRIVER_NAME=" driver_name
                  ∷ [];
              device_nodes = [];
              mounts = [];
            };
          }
          ∷ [];
      container_edits = record { env = []; device_nodes = []; mounts = [] };
    }
    min_version ←
        wrapping "failed to get minimum required CDI spec version"
          (attempt (λ _. env.minimum_required_version spec))
    effect (
        env.write_spec (record spec { version = min_version })
          (env.spec_name cdi_common_device_name))
