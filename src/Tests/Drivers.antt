-- ===== src/Tests/Drivers.antt =====
-- A driver on the node with one prepared claim: its start, two batches, and a report of health.
use dra_driver_spyre.Prelude.{
  String, false, true, ◌≡◌, ◌≢◌, ◌⊎◌, refl, some, List, [], ◌∷◌, Map, contains, Memᴰ, if◌then◌else◌,
}
use dra_driver_spyre.Prelude.Int.{pos}
use dra_driver_spyre.Env.{ok, returned, panicked, Result, PreparedClaims}
use dra_driver_spyre.State.{ResourceClaim}
use dra_driver_spyre.State.Consistent.{Holds, IsSafe}
use dra_driver_spyre.State.Updates.{AreUpdated}
use dra_driver_spyre.State.Start.{Host, StateFlags, DeviceState, devices, new_device_state}
use dra_driver_spyre.State.Start.Returns.{Works}
use dra_driver_spyre.State.Start.Restart.{HostLaws, new_device_state-Holds}
use dra_driver_spyre.State.Start.Kept.{ListingLaws, get_checkpoint-new_device_state}
use dra_driver_spyre.Health.{Healths}
use dra_driver_spyre.Health.Names.{Enums, state_names}
use dra_driver_spyre.Health.Client.{Service}
use dra_driver_spyre.Health.Probe.{Endpoints}
use dra_driver_spyre.Driver.{PrepareResult, prepare_resource_claims, unprepare_resource_claims}
use dra_driver_spyre.Driver.Batch.{
  IsAnswered, prepare_resource_claims-IsSafe, unprepare_resource_claims-IsSafe,
}
use dra_driver_spyre.Driver.Recorded.{IsRecorded, prepare_resource_claims-IsRecorded}
use dra_driver_spyre.Driver.Freed.{IsFreed, unprepare_resource_claims-IsFreed}
use dra_driver_spyre.Driver.Publish.{Kubelet, Flags, Driver, new_driver, on_device_health_changed}
use dra_driver_spyre.Driver.Publish.Changes.{
  on_device_health_changed_effect, on_device_health_changed_again,
}
use dra_driver_spyre.Driver.Publish.Started.{
  Answers, KubeletLaws, new_driver-Holds, new_driver-publishes,
}
use dra_driver_spyre.Tests.Node.{node, node_checkpoint, node_specs}
use dra_driver_spyre.Tests.Claims.{
  cards, claim, held_claims, start, start-IsSafe, start-Reads, absent,
}
use dra_driver_spyre.Tests.Reports.{service, health}

-- The checkpoint is always listed.
abbrev pub host : Host node
host = record {
  listed = ok [];
  is_s390x = false;
  node_name = "node-1";
  pseudo_topology = "{}";
  new_cache = λ _ d. (ok tt, d);
  new_checkpoint_manager = λ _ d. (ok tt, d);
  list_checkpoints = λ _. ok ("checkpoint.json" ∷ []);
}

pub host_laws : HostLaws node_specs host
unfolding contains
host_laws = record {
  listed = λ d claims names g e. listed_there names e;
  get-cache = λ p d. refl;
  at-cache = λ m p d. refl;
  get-manager = λ p d. refl;
  at-manager = λ m p d. refl;
}
  where
    listed_there :
        (names : List String)
        → Path (Result (List String)) (ok ("checkpoint.json" ∷ [])) (ok names)
        → contains names "checkpoint.json" ≡ true
    listed_there [] e = cc
    listed_there (x ∷ []) e = cc
    listed_there (x ∷ y ∷ rest) e = cc

abbrev pub kubelet : Kubelet node
kubelet = record {
  start = λ d. (ok tt, d);
  publish = λ n s d. (ok tt, record d { published = some (n, s) });
}

abbrev pub endpoints : Endpoints node
endpoints = record {
  listen = λ _ d. (ok tt, d);
  new_client = λ _ _. ok tt;
  get_info = λ _. ok tt;
  node_prepare_resources = λ _. ok tt;
}

pub kubelet_laws : KubeletLaws node_specs kubelet endpoints
kubelet_laws = record {
  get-start = λ d. refl;
  at-start = λ m d. refl;
  get-publish = λ n s d. refl;
  at-publish = λ m n s d. refl;
  get-listen = λ a d. refl;
  at-listen = λ m a d. refl;
}

abbrev pub health_service : Service node
health_service = record {
  KeyPair = Unit {0};
  socket_mode = λ _ _. ok true;
  load_key_pair = λ _ _ _. ok tt;
  has_certs = λ _. true;
  dial = λ _ _ _. ok tt;
  stream = λ _. ok tt;
  scale = λ t. t;
}

abbrev state_flags : StateFlags
state_flags = record {
  topology_filepath = "";
  disable_virtual_function = false;
  cdi_root = "/var/run/cdi";
}

abbrev pub flags : Flags
flags = record {
  state = state_flags;
  node_name = "node-1";
  registrar_directory_path = "/var/lib/kubelet/plugins_registry";
  driver_plugin_path = "/var/lib/kubelet/plugins/spyre.ibm.com";
  health_check_port = pos 51515;
}

pub start-Holds : Holds node_specs held_claims start
start-Holds = record { safe = start-IsSafe; reads = refl }

pub other_name : Path String "claim-1" "common" → ⊥
other_name e = cc

new_device_state-Holds_example :
    Holds node_specs held_claims (new_device_state node host state_flags start).1
new_device_state-Holds_example =
    new_device_state-Holds node_checkpoint node_specs host host_laws held_claims
      (absent "common" other_name) state_flags start start-Holds

-- a host without a checkpoint
abbrev fresh_host : Host node
fresh_host = record host { list_checkpoints = λ _. ok [] }

works : Works node fresh_host
works = record {
  found = [];
  listed = refl;
  mkdir = λ p d. refl;
  version = λ s. ("0.5.0", refl);
  write_spec = λ s n d. refl;
  create_checkpoint = λ c d. refl;
  cache = λ p d. refl;
  manager = λ p d. refl;
  checkpoints = λ d. ([], refl);
}

answers : Answers kubelet endpoints
answers = record {
  start = λ d. refl;
  publish = λ n s d. refl;
  listen = λ a d. refl;
  new_client = λ a d. refl;
}

-- a host whose checkpoint is listed where it holds claims
abbrev used_host : Host node
used_host = record host {
  list_checkpoints = λ d. elim d.checkpoint [ [] ↦ ok [] | ◌∷◌ _ _ ↦ ok ("checkpoint.json" ∷ []) ];
}

used_works : Works node used_host
used_works = record {
  found = [];
  listed = refl;
  mkdir = λ p d. refl;
  version = λ s. ("0.5.0", refl);
  write_spec = λ s n d. refl;
  create_checkpoint = λ c d. refl;
  cache = λ p d. refl;
  manager = λ p d. refl;
  checkpoints = λ d. lists d.checkpoint;
}
  where
    lists :
        (claims : PreparedClaims)
        → (names : List String) × ((elim claims [
          | [] ↦ ok []
          | ◌∷◌ _ _ ↦ ok ("checkpoint.json" ∷ [])
        ])
            ≡ ok names)
    lists [] = ([], refl)
    lists (_ ∷ _) = ("checkpoint.json" ∷ [], refl)

used_listing : ListingLaws used_host
used_listing = record {
  list-mkdir = λ p d. refl;
  list-write = λ p s d. refl;
  list-remove = λ p d. refl;
  list-uuid = λ d. refl;
  list-write_spec = λ s n d. refl;
  list-cache = λ p d. refl;
  list-manager = λ p d. refl;
  get-cache = λ p d. refl;
  get-manager = λ p d. refl;
}

get_checkpoint-new_device_state_example :
    (s : DeviceState) × ((new_device_state node used_host state_flags start).0 ≡ returned s)
    × (node.get_checkpoint (new_device_state node used_host state_flags start).1.disk
        ≡ (if contains ("checkpoint.json" ∷ []) "checkpoint.json" then ok held_claims else ok []))
get_checkpoint-new_device_state_example =
    get_checkpoint-new_device_state node_checkpoint used_listing used_works state_flags start
      ("checkpoint.json" ∷ []) refl

new_driver-Holds_example :
    Holds node_specs held_claims
      (new_driver node host kubelet endpoints health_service flags start).1
new_driver-Holds_example =
    new_driver-Holds node_checkpoint node_specs host kubelet endpoints health_service host_laws
      kubelet_laws held_claims (absent "common" other_name) flags start start-Holds

new_driver-publishes_example :
    (driver : Driver) × ((new_driver node fresh_host kubelet endpoints health_service flags start).0
      ≡ returned driver)
    × ((new_driver node fresh_host kubelet endpoints health_service flags start).1.disk.published
        ≡ some (driver.node_name, devices driver.state))
new_driver-publishes_example =
    new_driver-publishes fresh_host kubelet endpoints health_service (λ d. d.published)
      (λ n s d h. refl) works answers flags start

abbrev batch : List ResourceClaim
batch = claim "claim-1" ∷ claim "claim-2" ∷ []

prepare_resource_claims-IsSafe_example :
    IsSafe node_specs (prepare_resource_claims node "node-1" cards batch start).1
prepare_resource_claims-IsSafe_example =
    prepare_resource_claims-IsSafe node_checkpoint node_specs "node-1" cards batch start
      start-IsSafe

unprepare_resource_claims-IsSafe_example :
    IsSafe node_specs
      (unprepare_resource_claims node "/var/run/cdi" ("claim-1" ∷ "claim-2" ∷ []) start).1
unprepare_resource_claims-IsSafe_example =
    unprepare_resource_claims-IsSafe node_checkpoint node_specs "/var/run/cdi"
      ("claim-1" ∷ "claim-2" ∷ []) start start-IsSafe

prepare_resource_claims-IsRecorded_example :
    ((result : Map PrepareResult) × ((prepare_resource_claims node "node-1" cards batch start).0
        ≡ returned result)
      × IsRecorded node held_claims result
          (prepare_resource_claims node "node-1" cards batch start).1
      × ((claim : ResourceClaim) → Memᴰ claim batch → IsAnswered result claim.uid))
    ⊎ ((prepare_resource_claims node "node-1" cards batch start).0 ≡ panicked)
prepare_resource_claims-IsRecorded_example =
    prepare_resource_claims-IsRecorded node_checkpoint "node-1" cards held_claims batch start
      start-Reads

abbrev uids : List String
uids = "claim-1" ∷ "claim-2" ∷ []

unprepare_resource_claims-IsFreed_example :
    ((result : Map (Result (Unit {0}))) × ((unprepare_resource_claims node "/var/run/cdi" uids
          start).0
        ≡ returned result)
      × IsFreed node held_claims result (unprepare_resource_claims node "/var/run/cdi" uids start).1
      × ((uid : String) → Memᴰ uid uids → IsAnswered result uid))
    ⊎ ((unprepare_resource_claims node "/var/run/cdi" uids start).0 ≡ panicked)
unprepare_resource_claims-IsFreed_example =
    unprepare_resource_claims-IsFreed node_checkpoint "/var/run/cdi" held_claims uids start
      start-Reads

abbrev pub enums : Enums service
enums = record { online = "ONLINE"; pf = "PF"; vf = "VF"; state_string = λ s. s }

abbrev pub reported : Healths service
reported = ("0000:01:00.0", health "IN_ERROR") ∷ []

abbrev state : DeviceState
state = record { root = "/var/run/cdi"; allocatable = cards }

on_device_health_changed_effect_example :
    (new : DeviceState) × ((on_device_health_changed node kubelet enums "node-1" reported state
        start).0
      ≡ returned new)
    × (new.root ≡ state.root)
    × AreUpdated (state_names enums reported) state.allocatable new.allocatable
    × (((new ≡ state)
          × ((on_device_health_changed node kubelet enums "node-1" reported state start).1 ≡ start))
        ⊎ ((new ≢ state)
            × ((on_device_health_changed node kubelet enums "node-1" reported state start).1.disk
                ≡ record (start.disk) { published = some ("node-1", devices new) })))
on_device_health_changed_effect_example =
    on_device_health_changed_effect kubelet enums "node-1" reported state start

abbrev after_report : DeviceState
after_report = (on_device_health_changed_effect kubelet enums "node-1" reported state start).0

on_device_health_changed_again_example :
    on_device_health_changed node kubelet enums "node-1" reported after_report start
    ≡ (returned after_report, start)
on_device_health_changed_again_example =
    on_device_health_changed_again kubelet enums "node-1" reported state after_report start start
      (on_device_health_changed_effect kubelet enums "node-1" reported state start).1
