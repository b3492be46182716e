-- ===== src/Env.antt =====
-- What the driver calls outside this repository: the operating system, the JSON package, uuid, the
-- kubelet's checkpoint manager, and the CDI library. An `Env` is a parameter of the model. A value
-- `Disk` stands for the node's files; an operation that may change them gives the new ones, also
-- beside an error.
use dra_driver_spyre.Prelude.{String, Bool, Option, List, Map, ◌∷◌}
use dra_driver_spyre.Prelude.Any.{Fields}
pub mod Keeps
pub mod Laws
pub mod Ensures
pub mod Total
use dra_driver_spyre.Topology.Defs.{Pcitopo}

-- fmt.Errorf("text") is `msg`, fmt.Errorf("text: %v", err) is `wrap`, an error made elsewhere `ext`.
pub data Error : Type 0 where
  msg : String → Error
  wrap : String → Error → Error
  ext : String → Error

pub data Result {ℓ} (A : Type ℓ) : Type ℓ where
  ok : A → Result A
  err : Error → Result A

-- The three answers of os.Stat and os.Lstat that the code tells apart.
pub data Stat : Type 0 where
  found : Bool → Stat
  missing : Stat
  failed : Error → Stat

-- cdispec: the parts of a CDI spec that the driver writes and reads.
pub record DeviceNode : Type 0 where
  pub path : String
  pub host_path : String
  pub permissions : String

pub record Mount : Type 0 where
  pub container_path : String
  pub host_path : String
  pub options : List String

pub record ContainerEdits : Type 0 where
  pub env : List String
  pub device_nodes : List DeviceNode
  pub mounts : List Mount

pub record CdiDevice : Type 0 where
  pub name : String
  pub container_edits : ContainerEdits

pub record Spec : Type 0 where
  pub version : String
  pub kind : String
  pub devices : List CdiDevice
  pub container_edits : ContainerEdits

-- drapbv1.Device
pub record DraDevice : Type 0 where
  pub request_names : List String
  pub pool_name : String
  pub device_name : String
  pub cdi_device_ids : List String

-- PreparedDevice of pkg/types/prepared_device.go. Its Config is always the empty SpyreConfig of
-- DefaultParams, which no code reads, and is left out.
pub record PreparedDevice : Type 0 where
  pub product_id : String
  pub device : DraDevice
  pub pci_address : String
  pub cdi_device_spec : List DeviceNode

-- A nil slice is `none`.
abbrev pub PreparedDevices : Type 0
PreparedDevices = Option (List PreparedDevice)

abbrev pub PreparedClaims : Type 0
PreparedClaims = Map PreparedDevices

pub record Env : Type 1 where
  pub Disk : Type 0
  -- os, path/filepath, uuid. `walk` lists a tree, its root first, or gives the error that the walk met.
  -- `stat` and `lstat` say of what is there whether it is a symbolic link.
  pub getenv : String → String
  pub is_not_exist : Error → Bool
  pub stat : String → Disk → Stat
  pub lstat : String → Disk → Stat
  pub eval_symlinks : String → Disk → Result String
  pub read_link : String → Disk → Result String
  pub glob : String → Disk → Result (List String)
  pub walk : String → Disk → Result (List String)
  pub read_dir : String → Disk → Result (List String)
  pub read_file : String → Disk → Result String
  pub write_file : String → String → Disk → Result (Unit {0}) × Disk
  pub mkdir_all : String → Disk → Result (Unit {0}) × Disk
  pub remove_all : String → Disk → Result (Unit {0}) × Disk
  pub join : String → String → String
  pub base : String → String
  pub new_uuid : Disk → String × Disk
  -- encoding/json, at a map[string]any
  pub unmarshal : String → Result Fields
  pub marshal : Fields → Result String
  -- json.Unmarshal into a Pcitopo: what was read so far stands beside an error
  pub unmarshal_topo : String → Pcitopo × Option Error
  pub marshal_topo : Pcitopo → Result String
  -- kubelet/checkpointmanager, at the one checkpoint file
  pub get_checkpoint : Disk → Result PreparedClaims
  pub create_checkpoint : PreparedClaims → Disk → Result (Unit {0}) × Disk
  -- container-device-interface
  pub spec_name : String → String
  pub qualified_name : String → String
  pub minimum_required_version : Spec → Result String
  pub write_spec : Spec → String → Disk → Result (Unit {0}) × Disk
  pub remove_spec : String → Disk → Result (Unit {0}) × Disk
  pub read_spec : String → Disk → Result Spec

-- The state that the driver's code works on: the disk, every earlier disk (the latest first), which a
-- crash could leave behind, and the uuidMap of the ConfigHandler.
pub record World (env : Env) : Type 0 where
  pub disk : env.Disk
  pub history : List env.Disk
  pub uuid_map : Map String

-- How a function of the driver ends: it returns, with or without an error, or it panics.
pub data Outcome (A : Type 0) : Type 0 where
  returned : A → Outcome A
  raised : Error → Outcome A
  panicked : Outcome A

-- What it has written before an error stays written.
abbrev pub Io : Env → Type 0 → Type 0
Io env A = World env → Outcome A × World env

abbrev pub outcome_of : {A : Type 0} → Result A → Outcome A
outcome_of (ok a) = returned a
outcome_of (err e) = raised e

-- `if err != nil { return …, fmt.Errorf("text: %v", err) }`
abbrev pub rewrap : {A : Type 0} → String → Outcome A → Outcome A
rewrap text (returned a) = returned a
rewrap text (raised e) = raised (wrap text e)
rewrap text panicked = panicked

-- `if err != nil { klog.Warningf(…) }`
abbrev pub log_only : Outcome (Unit {0}) → Outcome (Unit {0})
log_only (returned _) = returned tt
log_only (raised _) = returned tt
log_only panicked = panicked

module _ {env : Env} where
  unfoldable pub pure : {A : Type 0} → A → Io env A
  pure a w = (returned a, w)

  unfoldable pub raise : {A : Type 0} → Error → Io env A
  raise e w = (raised e, w)

  unfoldable pub give : {A : Type 0} → Outcome A → Io env A
  give o w = (o, w)

  unfoldable pub wrapping : {A : Type 0} → String → Io env A → Io env A
  wrapping text m w = (rewrap text (m w).0, (m w).1)

  unfoldable pub ignoring : Io env (Unit {0}) → Io env (Unit {0})
  ignoring m w = (log_only (m w).0, (m w).1)

  -- a read of the disk, which cannot fail, or may
  unfoldable pub reading : {A : Type 0} → (env.Disk → A) → Io env A
  reading f w = (returned (f w.disk), w)

  unfoldable pub attempt : {A : Type 0} → (env.Disk → Result A) → Io env A
  attempt f w = (outcome_of (f w.disk), w)

  -- a write
  unfoldable pub effect : {A : Type 0} → (env.Disk → Result A × env.Disk) → Io env A
  effect f w =
      (outcome_of (f w.disk).0, record w { disk = (f w.disk).1; history = w.disk ∷ w.history })

  abbrev pub continue : {A B : Type 0} → Outcome A → (A → Io env B) → Io env B
  continue (returned a) f w = f a w
  continue (raised e) f w = (raised e, w)
  continue panicked f w = (panicked, w)

  infixl 5 ◌>>=◌ ◌>>◌
  -- opening this opens the other ways to build an action too
  unfoldable pub ◌>>=◌ : {A B : Type 0} → Io env A → (A → Io env B) → Io env B
  unfolding pure raise give wrapping ignoring reading attempt effect
  ◌>>=◌ m f w = continue (m w).0 f (m w).1

  abbrev pub ◌>>◌ : {B : Type 0} → Io env (Unit {0}) → Io env B → Io env B
  m >> n = m >>= λ _. n
