-- ===== src/Tests/Claims.antt =====
-- A claim that is prepared, and one that is not.
use dra_driver_spyre.Prelude.{
  String, ◌≡◌, refl, ap, ◌∙◌, subst, inl, inr, ◌↔◌, none, some, List, [], ◌∷◌, lookup, map,
  str_cases, eq_iff, arith, ◌≢◌,
}
use mathlib.Core.List.Memᴰ
use dra_driver_spyre.Prelude.Int.{pos}
use dra_driver_spyre.Env.{
  World, Spec, DraDevice, PreparedDevice, PreparedDevices, PreparedClaims, ok,
}
use dra_driver_spyre.Env.Ensures.{After}
use dra_driver_spyre.Devices.{spyre}
use dra_driver_spyre.Devices.Allocatable.{AllocatableDevices, SpyreDevice}
use dra_driver_spyre.State.{
  AllocationResult, ResourceClaim, prepared_of, get_devices, prepare, unprepare, prepare_devices,
}
use dra_driver_spyre.Handler.Cdi.Defines.{Defines}
use dra_driver_spyre.State.Consistent.{Consistent, IsSafe, HasSpec}
use dra_driver_spyre.State.Crash.{prepare-IsSafe, unprepare-IsSafe}
use dra_driver_spyre.State.Claims.{Reads, IsPrepared, prepare-After}
use dra_driver_spyre.State.Released.{IsReleased, IsHalfReleased, unprepare-After}
use dra_driver_spyre.State.Results.{
  IsAllocatable, own_results, dra_device, prepare_devices-lists, prepare_devices-ok_iff,
}
use dra_driver_spyre.Tests.Node.{node, node_checkpoint, node_specs}

abbrev card : SpyreDevice
card = record {
  product_id = "06a7";
  device = record { name = "0000-01-00-0"; attributes = [] };
  pci_device = spyre (record {
    address = "0000:01:00.0";
    vendor_id = "1014";
    product_id = "06a7";
    subclass_id = "00";
    pf_addr = "";
    driver = "vfio-pci";
    vf_id = pos 0;
    numa = "0";
  });
}

abbrev pub cards : AllocatableDevices
cards = ("0000-01-00-0", card) ∷ []

abbrev pub result_of : String → String → AllocationResult
result_of driver device = record {
  request = "spyre";
  driver = driver;
  pool = "node-1";
  device = device;
}

abbrev results : List AllocationResult
results = result_of "gpu.example.com" "gpu-0" ∷ result_of "spyre.ibm.com" "0000-01-00-0" ∷ []

abbrev pub claim : String → ResourceClaim
claim uid = record { uid = uid; allocation = some results }

abbrev answer : DraDevice
answer = record {
  request_names = "spyre" ∷ [];
  pool_name = "node-1";
  device_name = "0000-01-00-0";
  cdi_device_ids = "ibm.com/spyre=0000-01-00-0" ∷ [];
}

abbrev held : List PreparedDevice
held =
    record {
      product_id = "06a7";
      device = answer;
      pci_address = "0000:01:00.0";
      cdi_device_spec = [];
    }
    ∷ []

abbrev held_spec : Spec
held_spec = record {
  version = "0.5.0";
  kind = "k8s.spyre.ibm.com/spyre";
  devices =
      record {
        name = "0000-01-00-0";
        container_edits = record { env = []; device_nodes = []; mounts = [] };
      }
      ∷ [];
  container_edits = record { env = []; device_nodes = []; mounts = [] };
}

abbrev pub held_claims : PreparedClaims
held_claims = ("claim-1", some held) ∷ []

abbrev pub start : World node
start = record {
  disk = record {
    checkpoint = held_claims;
    specs = ("claim-1", held_spec) ∷ [];
    folders = [];
    published = none;
  };
  history = [];
  uuid_map = [];
}

pub absent : (uid : String) → "claim-1" ≢ uid → prepared_of uid held_claims ≡ none
unfolding prepared_of lookup
absent uid ne = ground (arith, eq_iff "claim-1" uid)

others_absent :
    (uid : String) (claims : PreparedClaims) (ds : List PreparedDevice)
    → "claim-1" ≢ uid
    → node.get_checkpoint start.disk ≡ ok claims
    → prepared_of uid claims ≡ some ds
    → ⊥
others_absent uid claims ds ne g p = cc (absent uid ne)

held_only :
    (claims : PreparedClaims) (ds : List PreparedDevice)
    → node.get_checkpoint start.disk ≡ ok claims
    → prepared_of "claim-1" claims ≡ some ds
    → held ≡ ds
unfolding prepared_of lookup
held_only claims ds g p =
    let same : held_claims ≡ claims = cc in
    let there : prepared_of "claim-1" held_claims ≡ some held = refl in cc

held-Defines : (ds : List PreparedDevice) → held ≡ ds → Defines ds held_spec
held-Defines ds e = subst (λ l. Defines l held_spec) e (record { names = refl; nodes = refl })

start-Consistent : Consistent node_specs start.disk
unfolding lookup
start-Consistent = record {
  spec_of = λ claims uid ds g p. elim (str_cases "claim-1" uid) [
    | inl e ↦
        subst (λ u. HasSpec node_specs u ds start.disk) e
          (
            held_spec,
            refl,
            held-Defines ds (held_only claims ds g (ap (λ u. prepared_of u claims) e ∙ p)),
          )
    | inr ne ↦ absurd (others_absent uid claims ds ne g p)
  ];
}

pub start-IsSafe : IsSafe node_specs start
start-IsSafe = record { now = start-Consistent; past = tt }

pub start-Reads : Reads node held_claims start
start-Reads = record { reads = refl }

prepare-IsSafe_example : IsSafe node_specs (prepare node "node-1" cards (claim "claim-2") start).1
prepare-IsSafe_example =
    prepare-IsSafe node_checkpoint node_specs "node-1" cards (claim "claim-2") start start-IsSafe

unprepare-IsSafe_example : IsSafe node_specs (unprepare node "/var/run/cdi" "claim-1" start).1
unprepare-IsSafe_example =
    unprepare-IsSafe node_checkpoint node_specs "/var/run/cdi" "claim-1" start start-IsSafe

prepare-After_example :
    After
      (IsPrepared node cards (claim "claim-2") held_claims start.disk)
      (Reads node held_claims)
      (prepare node "node-1" cards (claim "claim-2") start).0
      (prepare node "node-1" cards (claim "claim-2") start).1
prepare-After_example =
    prepare-After node_checkpoint "node-1" cards (claim "claim-2") held_claims start start-Reads

unprepare-After_example :
    After
      (λ _. IsReleased node "claim-1" held_claims)
      (IsHalfReleased node "claim-1" held_claims)
      (unprepare node "/var/run/cdi" "claim-1" start).0
      (unprepare node "/var/run/cdi" "claim-1" start).1
unprepare-After_example =
    unprepare-After node_checkpoint "/var/run/cdi" "claim-1" held_claims start start-Reads

prepare_devices-ok_iff_example :
    ((out : PreparedDevices) × (prepare_devices node cards (claim "claim-2") start.disk ≡ ok out))
    ↔ ((rs : List AllocationResult) × (some results ≡ some rs)
        × IsAllocatable node cards start.disk rs)
prepare_devices-ok_iff_example = prepare_devices-ok_iff node cards start.disk (claim "claim-2")

results-IsAllocatable : IsAllocatable node cards start.disk results
unfolding lookup
results-IsAllocatable = record {
  known = λ r m. elim (Memᴰ.cases_cons m) [
    | inl e ↦ (card, rw e refl)
    | inr later ↦ absurd (Memᴰ.not-nil later)
  ];
}

abbrev prepared_cards : PreparedDevices
prepared_cards =
    ((prepare_devices-ok_iff node cards start.disk (claim "claim-2")).1
      (results, refl, results-IsAllocatable)).0

prepare_devices-lists_example :
    get_devices prepared_cards ≡ map (dra_device node) (own_results results)
prepare_devices-lists_example =
    prepare_devices-lists node cards start.disk (claim "claim-2") results prepared_cards refl
      ((prepare_devices-ok_iff node cards start.disk (claim "claim-2")).1
        (results, refl, results-IsAllocatable)).1
