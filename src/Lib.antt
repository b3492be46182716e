-- ===== src/Lib.antt =====
-- dra-driver-spyre is a Kubernetes DRA kubelet plugin for IBM Spyre cards. On a node it finds the
-- cards, offers them with attributes, and prepares the cards that a claim was given: it makes
-- configuration folders, writes a CDI spec for the claim, and records the claim in a checkpoint.
--
-- Parts of the program, and the modules that model them:
--   Topology    pkg/topology: the topology document of a node (Defs), where it is read from (Files),
--               its NUMA map (Numa), and tier groups (TierGroups): the connected components of the
--               peer graph at three distances, by union-find.
--   Devices     pkg/types: PCI devices and pseudo devices, the attributes that describe them
--               (Attributes), the map of allocatable devices (Allocatable).
--   Handler     internal/handler: the senlib configuration file of a claim (Senlib), its mounts
--               (Config), and CDI specs (Cdi).
--   Discovery   internal/discovery: which PCI devices are offered, and pseudo devices.
--   State       internal/state/state.go: Prepare and Unprepare of claims; the device state attribute
--               (Updates); the configurations of a request (Configs); the start (Start).
--   Checkpoint  internal/state/checkpoint.go: the checkpoint's text and checksum.
--   Driver      internal/driver: batches of claims, what is published (Publish), and the start.
--   Plugin      cmd/spyre-dra-plugin: a run of the plugin, from its start to its shutdown.
--   Health      internal/health: the reports of the Spyre health service and the monitor that merges them;
--               the client's registration (Client), its goroutines (Race), the names of health states
--               (Names), and the liveness probe (Probe).
--   Utils       pkg/utils: folders, environment variables, and sysfs (Pci).
--   Env         what the program calls outside the repository, as a parameter, and the actions on it.
-- Prelude and Strings are shared helpers: maps, lists, Go's `any`, strings. Tests is a small node on
-- which the theorems are applied.
--
-- How code becomes definitions. A function of the source keeps its name in snake case. A function
-- that reads or writes files, or that may fail, is an action `Io env A`: it takes a `World` and gives
-- an outcome (a result, an error, or a panic) and the new `World`. A `World` is the disk, every earlier
-- disk, and the uuidMap of the config handler. The operating system, encoding/json, the CDI library and
-- kubelet's checkpoint manager are the fields of `Env`. A theorem that relies on them has their documented
-- behaviour as a hypothesis: `CheckpointLaws` and `SpecLaws` of Env.Laws, `HostLaws` of State.Start.Restart, `ListingLaws` of State.Start.Kept,
-- `KubeletLaws` of Driver.Publish.Started, `CodecLaws` of Checkpoint.Roundtrip; that calls succeed is
-- `Works`. A Go map is an association
-- list, and the order of that list stands for the order in which a `range` goes.
--
-- The health monitor's two goroutines are a list of events in any order; a step of processUpdate that
-- is not due changes nothing. The goroutines of the health client are a step relation: a state is the
-- two shared flags and the places at which goroutines are, and a step moves one of them.
--
-- Fuel. `find` of Topology.TierGroups recurs on fuel. The fuel is the number of keys plus one, and
-- the theorems show that a result is always given. `print_digits` of Strings has the number itself, plus
-- one, as fuel, which is more than its digits. The loop of attemptReconnect recurs on the attempts that are
-- left, as the source counts them.
--
-- Not modelled: gRPC and kubelet plumbing, the closing of connections by the health client, the plugin's
-- command line and signals, flags, logging, the registration of API types, and code that no other code
-- calls.
pub mod Prelude
pub mod Topology
pub mod Strings
pub mod Env
pub mod Utils
pub mod Devices
pub mod Discovery
pub mod Handler
pub mod Health
pub mod Checkpoint
pub mod Driver
pub mod Plugin
pub mod State
mod Tests
