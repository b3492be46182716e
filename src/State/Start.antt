-- ===== src/State/Start.antt =====
-- NewDeviceState, SetNewCheckPoint and Devices of internal/state/state.go, and NewCDIHandler of
-- internal/handler/cdi.go.
pub mod Restart
pub mod Kept
pub mod Returns
use dra_driver_spyre.Prelude.{String, Bool, List, [], ◌∷◌, map, contains, ◌==◌, if◌then◌else◌}
use dra_driver_spyre.Env.{
  Env, Io, Result, ◌>>=◌, ◌>>◌, wrapping, ignoring, attempt, effect, reading, pure,
}
use dra_driver_spyre.Devices.{HwDevice}
use dra_driver_spyre.Devices.Allocatable.{AllocatableDevices, ResourceDevice}
use dra_driver_spyre.Topology.Files.{get_topology_file}
use dra_driver_spyre.Discovery.{get_allocatable_devices}
use dra_driver_spyre.Handler.Config.{init_config_mount}
use dra_driver_spyre.Handler.Cdi.{create_common_spec_file, clean_zombie_config_folders}

-- What the start of the driver uses besides an `Env`: the devices that ghw.PCI() lists, GOARCH, the name
-- of the node, the document of pseudo.go, cdiapi.NewCache, and the kubelet's checkpoint manager.
pub record Host (env : Env) : Type 0 where
  pub listed : Result (List HwDevice)
  pub is_s390x : Bool
  pub node_name : String
  pub pseudo_topology : String
  pub new_cache : String → env.Disk → Result (Unit {0}) × env.Disk
  pub new_checkpoint_manager : String → env.Disk → Result (Unit {0}) × env.Disk
  pub list_checkpoints : env.Disk → Result (List String)

-- the flags that NewDeviceState reads
pub record StateFlags : Type 0 where
  pub topology_filepath : String
  pub disable_virtual_function : Bool
  pub cdi_root : String

-- DeviceState: the root of its CDIHandler, and Allocatable
pub record DeviceState : Type 0 where
  pub root : String
  pub allocatable : AllocatableDevices

abbrev pub driver_plugin_path : String
driver_plugin_path = "/var/lib/kubelet/plugins/spyre.ibm.com"

abbrev pub driver_plugin_checkpoint_file : String
driver_plugin_checkpoint_file = "checkpoint.json"

-- Devices, but for the order, which is that of a Go map
pub devices : DeviceState → List ResourceDevice
devices s = map (λ (_, device). device.device) s.allocatable

module _ (env : Env) (host : Host env) where
  -- NewCDIHandler
  pub new_cdi_handler : String → Io env (Unit {0})
  new_cdi_handler cdi_root = do
    wrapping "unable to create a new CDI cache" (effect (host.new_cache cdi_root))
    wrapping "unable to init a config handler" (init_config_mount env)

  -- SetNewCheckPoint
  pub set_new_checkpoint : Io env (Unit {0})
  set_new_checkpoint =
      wrapping "unable to create new checkpoint" (effect (env.create_checkpoint []))

  -- the end of NewDeviceState: a checkpoint that is there is kept
  pub keep_or_create : List String → Io env (Unit {0})
  keep_or_create checkpoints =
      if contains checkpoints driver_plugin_checkpoint_file then pure tt else set_new_checkpoint

  -- NewDeviceState
  pub new_device_state : StateFlags → Io env DeviceState
  new_device_state flags = do
    topology_file ← reading (λ d.
        if flags.topology_filepath == ""
        then get_topology_file env host.node_name d
        else flags.topology_filepath)
    allocatable ← wrapping "error get allocatable devices" (
        get_allocatable_devices env host.pseudo_topology host.node_name topology_file host.is_s390x
          flags.disable_virtual_function host.listed)
    wrapping "unable to create CDI handler" (new_cdi_handler flags.cdi_root)
    wrapping "unable to create CDI spec file for common edits" (create_common_spec_file env)
    ignoring (clean_zombie_config_folders env flags.cdi_root)
    wrapping "unable to create checkpoint manager"
        (effect (host.new_checkpoint_manager driver_plugin_path))
    checkpoints ← wrapping "unable to list checkpoints" (attempt host.list_checkpoints)
    keep_or_create checkpoints
    pure (record { root = flags.cdi_root; allocatable = allocatable })
