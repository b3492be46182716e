-- ===== src/Health.antt =====
-- internal/health: the health states that the Spyre health service reports, and the monitor that hands
-- them to the driver. The enums of the service's protocol are not in this repository: a `Protocol` is a
-- parameter, with what the code uses of them.
pub mod Maps
pub mod Latest
pub mod Client
pub mod Race
pub mod Names
pub mod Probe
use dra_driver_spyre.Prelude.{
  ℕ, String, Bool, true, false, ◌&&◌, Option, none, some, List, [], ◌∷◌, Map, lookup, insert, has,
  length, eqb, if◌then◌else◌,
}

-- DEVICE_STATE and DEVICE_TYPE: the values of both, and `==` on them.
pub record Protocol : Type 1 where
  pub State : Type 0
  pub Kind : Type 0
  pub same_state : State → State → Bool
  pub same_kind : Kind → Kind → Bool

-- DeviceHealthState
pub record HealthState (protocol : Protocol) : Type 0 where
  pub state : protocol.State
  pub device_type : protocol.Kind

-- a pb.Device of a report: its PCI address and its health
abbrev pub Report : Protocol → Type 0
Report protocol = String × HealthState protocol

abbrev pub Healths : Protocol → Type 0
Healths protocol = Map (HealthState protocol)

-- Where processUpdate is: it waits in its select, has taken a notification, or has the new healths
-- and has not stored them.
pub data Stage (protocol : Protocol) : Type 0 where
  waiting : Stage protocol
  woken : Stage protocol
  merged : Healths protocol → Stage protocol

-- SpyreHealthClient's healthInfoMap, the one place of updateChan, the place in processUpdate, and
-- DeviceHealthMonitor's healths; and what onChange was given last.
pub record Monitor (protocol : Protocol) : Type 0 where
  pub info : Healths protocol
  pub pending : Bool
  pub stage : Stage protocol
  pub healths : Healths protocol
  pub delivered : Option (Healths protocol)

-- What the two goroutines do, in an order that the scheduler chooses: the listener applies a report;
-- processUpdate takes a notification, merges, or stores and calls onChange.
pub data Event (protocol : Protocol) : Type 0 where
  receive : List (Report protocol) → Event protocol
  take : Event protocol
  merge : Event protocol
  store : Event protocol

module _ (protocol : Protocol) where
  -- `aVal != bVal` of two DeviceHealthState
  pub same_health : HealthState protocol → HealthState protocol → Bool
  same_health a b =
      protocol.same_state a.state b.state && protocol.same_kind a.device_type b.device_type

  -- the loop of MapsEqual
  pub all_in : Healths protocol → Healths protocol → Bool
  all_in [] b = true
  all_in ((k, a_val) ∷ rest) b =
      let others = all_in rest b in
      elim (lookup k b) [ none ↦ false | some b_val ↦ same_health a_val b_val && others ]

  -- MapsEqual
  pub maps_equal : Healths protocol → Healths protocol → Bool
  maps_equal a b = eqb (length a) (length b) && all_in a b

  -- the loop of setAndNotify that makes currentDeviceMap
  add_reports : Healths protocol → List (Report protocol) → Healths protocol
  add_reports current [] = current
  add_reports current ((device_id, health) ∷ rest) =
      add_reports (insert device_id health current) rest

  pub current_device_map : List (Report protocol) → Healths protocol
  current_device_map devices = add_reports [] devices

  -- UpdateHealths: the entries of `info` that `healths` has
  pub update_healths : Healths protocol → Healths protocol → Healths protocol
  update_healths [] healths = healths
  update_healths ((device_id, health) ∷ rest) healths =
      if has device_id healths
      then update_healths rest (insert device_id health healths)
      else update_healths rest healths

  -- setAndNotify, with SafeTriggerUpdate: a notification that is there already is not doubled
  pub set_and_notify : List (Report protocol) → Monitor protocol → Monitor protocol
  set_and_notify devices m =
      if maps_equal m.info (current_device_map devices)
      then m
      else record m { info = current_device_map devices; pending = true }

  -- the body of processUpdate's loop, in its three steps; a step that is not due changes nothing
  pub take_update : Monitor protocol → Stage protocol → Bool → Monitor protocol
  take_update m waiting true = record m { pending = false; stage = woken }
  take_update m _ _ = m

  pub merge_update : Healths protocol → Monitor protocol → Stage protocol → Monitor protocol
  merge_update base m woken = record m { stage = merged (update_healths m.info base) }
  merge_update base m _ = m

  pub store_update : Monitor protocol → Stage protocol → Monitor protocol
  store_update m (merged healths) = record m {
    stage = waiting;
    healths = healths;
    delivered = some healths;
  }
  store_update m _ = m

  pub step : Healths protocol → Event protocol → Monitor protocol → Monitor protocol
  step base (receive devices) m = set_and_notify devices m
  step base take m = take_update m m.stage m.pending
  step base merge m = merge_update base m m.stage
  step base store m = store_update m m.stage

  pub run : Healths protocol → List (Event protocol) → Monitor protocol → Monitor protocol
  run base [] m = m
  run base (event ∷ rest) m = run base rest (step base event m)

  -- NewDeviceHealthMonitor and NewSpyreHealthClient
  pub new_monitor : Healths protocol → Monitor protocol
  new_monitor base = record {
    info = [];
    pending = false;
    stage = waiting;
    healths = base;
    delivered = none;
  }
