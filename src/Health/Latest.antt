-- ===== src/Health/Latest.antt =====
-- The driver gets the latest report: in every interleaving of the listener with processUpdate, no
-- change is lost.
use dra_driver_spyre.Prelude.{
  String, Bool, true, false, ◌≡◌, refl, ap, subst, ◌∙◌, inl, inr, Option, none, some, List, [], ◌∷◌,
  lookup, IsUnique, Bool-cases,
}
use dra_driver_spyre.Health.{
  Protocol, HealthState, Report, Healths, Stage, waiting, woken, merged, Monitor, Event, receive,
  take, merge, store, maps_equal, current_device_map, update_healths, set_and_notify, take_update,
  merge_update, store_update, step, run, new_monitor, add_reports,
}
use dra_driver_spyre.Health.Maps.{
  IsExact, current_device_map-IsUnique, lookup-update_healths, maps_equal_lem,
}

-- the devices of the last report, or none before the first
abbrev pub last_report :
    (protocol : Protocol) → List (Report protocol) → List (Event protocol) → List (Report protocol)
last_report protocol last [] = last
last_report protocol last (receive devices ∷ rest) = last_report protocol devices rest
last_report protocol last (take ∷ rest) = last_report protocol last rest
last_report protocol last (merge ∷ rest) = last_report protocol last rest
last_report protocol last (store ∷ rest) = last_report protocol last rest

module _ (protocol : Protocol) (exact : IsExact protocol) (base : Healths protocol) where
  -- what the monitor should show
  abbrev shown : Healths protocol → Healths protocol
  shown info = update_healths protocol info base

  -- The two maps have the same entries.
  pub record IsSame (a b : Healths protocol) : Type 0 where
    pub at : (addr : String) → lookup addr a ≡ lookup addr b

  -- Nothing is on its way: what is stored is what the client knows, merged.
  abbrev Settled : Monitor protocol → Stage protocol → Bool → Type 0
  Settled m waiting true = Unit
  Settled m waiting false = m.healths ≡ shown m.info
  Settled m woken pending = Unit
  Settled m (merged h) true = Unit
  Settled m (merged h) false = h ≡ shown m.info

  -- what holds after every event; `last` is the last report
  record IsTracking (last : List (Report protocol)) (m : Monitor protocol) : Type 0 where
    unique : IsUnique m.info
    latest : IsSame m.info (current_device_map protocol last)
    settled : Settled m m.stage m.pending

  Settled-pending : (m : Monitor protocol) (s : Stage protocol) → Settled m s true
  Settled-pending m waiting = tt
  Settled-pending m woken = tt
  Settled-pending m (merged h) = tt

  receive-IsTracking :
      (last devices : List (Report protocol)) (m : Monitor protocol)
      → IsTracking last m
      → IsTracking devices (set_and_notify protocol devices m)
  unfolding set_and_notify
  receive-IsTracking last devices m t =
      elim (Bool-cases (maps_equal protocol m.info (current_device_map protocol devices))) [
        | inl same ↦ rw same (record {
          unique = t.unique;
          latest = record {
            at = λ addr.
                maps_equal_lem protocol exact m.info (current_device_map protocol devices) addr
                  t.unique same;
          };
          settled = t.settled;
        })
        | inr differ ↦ rw differ (record {
          unique = current_device_map-IsUnique protocol devices;
          latest = record { at = λ addr. refl };
          settled =
              Settled-pending
                (record m { info = current_device_map protocol devices; pending = true }) m.stage;
        })
      ]

  take-IsTracking :
      (last : List (Report protocol)) (m : Monitor protocol) (s : Stage protocol) (p : Bool)
      → m.stage ≡ s
      → m.pending ≡ p
      → IsTracking last m
      → IsTracking last (take_update protocol m s p)
  unfolding take_update
  take-IsTracking last m waiting true e q t = record {
    unique = t.unique;
    latest = t.latest;
    settled = tt;
  }
  take-IsTracking last m waiting false e q t = t
  take-IsTracking last m woken p e q t = t
  take-IsTracking last m (merged h) p e q t = t

  Settled-merged :
      (m : Monitor protocol) (p : Bool)
      → Settled (record m { stage = merged (shown m.info) }) (merged (shown m.info)) p
  Settled-merged m true = tt
  Settled-merged m false = refl

  merge-IsTracking :
      (last : List (Report protocol)) (m : Monitor protocol) (s : Stage protocol)
      → IsTracking last m
      → IsTracking last (merge_update protocol base m s)
  unfolding merge_update
  merge-IsTracking last m waiting t = t
  merge-IsTracking last m woken t = record {
    unique = t.unique;
    latest = t.latest;
    settled = Settled-merged m m.pending;
  }
  merge-IsTracking last m (merged h) t = t

  Settled-stored :
      (m : Monitor protocol) (h : Healths protocol) (p : Bool)
      → Settled m (merged h) p
      → Settled (record m { stage = waiting; healths = h; delivered = some h }) waiting p
  Settled-stored m h true s = tt
  Settled-stored m h false s = s

  store-IsTracking :
      (last : List (Report protocol)) (m : Monitor protocol) (s : Stage protocol)
      → m.stage ≡ s
      → IsTracking last m
      → IsTracking last (store_update protocol m s)
  unfolding store_update
  store-IsTracking last m waiting e t = t
  store-IsTracking last m woken e t = t
  store-IsTracking last m (merged h) e t = record {
    unique = t.unique;
    latest = t.latest;
    settled = Settled-stored m h m.pending (subst (λ s. Settled m s m.pending) e t.settled);
  }

  run-IsTracking :
      (last : List (Report protocol)) (events : List (Event protocol)) (m : Monitor protocol)
      → IsTracking last m
      → IsTracking (last_report protocol last events) (run protocol base events m)
  unfolding run step
  run-IsTracking last [] m t = t
  run-IsTracking last (receive devices ∷ rest) m t =
      run-IsTracking devices rest (set_and_notify protocol devices m)
        (receive-IsTracking last devices m t)
  run-IsTracking last (take ∷ rest) m t =
      run-IsTracking last rest (take_update protocol m m.stage m.pending)
        (take-IsTracking last m m.stage m.pending refl refl t)
  run-IsTracking last (merge ∷ rest) m t =
      run-IsTracking last rest (merge_update protocol base m m.stage)
        (merge-IsTracking last m m.stage t)
  run-IsTracking last (store ∷ rest) m t =
      run-IsTracking last rest (store_update protocol m m.stage)
        (store-IsTracking last m m.stage refl t)

  start-IsTracking : IsTracking [] (new_monitor protocol base)
  unfolding new_monitor current_device_map add_reports update_healths
  start-IsTracking = record { unique = tt; latest = record { at = λ addr. refl }; settled = refl }

  -- The listener is silent, and processUpdate goes on.
  abbrev pub quiet : List (Event protocol)
  quiet = merge ∷ store ∷ take ∷ merge ∷ store ∷ []

  comes_to_rest :
      (info healths : Healths protocol) (pending : Bool) (stage : Stage protocol)
      (delivered : Option (Healths protocol))
      → let m : Monitor protocol = record {
        info = info;
        pending = pending;
        stage = stage;
        healths = healths;
        delivered = delivered;
      } in
        ((run protocol base quiet m).pending ≡ false)
        × ((run protocol base quiet m).stage ≡ waiting)
  unfolding run step take_update merge_update store_update
  comes_to_rest info healths true waiting delivered = (refl, refl)
  comes_to_rest info healths false waiting delivered = (refl, refl)
  comes_to_rest info healths true woken delivered = (refl, refl)
  comes_to_rest info healths false woken delivered = (refl, refl)
  comes_to_rest info healths true (merged h) delivered = (refl, refl)
  comes_to_rest info healths false (merged h) delivered = (refl, refl)

  -- The health that an address should have after a report: for a device of the monitor, the reported
  -- one, and the initial one where the report leaves it out; none for any other address.
  abbrev pub health_after : List (Report protocol) → String → Option (HealthState protocol)
  health_after devices addr = elim (lookup addr base) [
    | none ↦ none
    | some old ↦ elim (lookup addr (current_device_map protocol devices)) [
      | none ↦ some old
      | some new ↦ some new
    ]
  ]

  rest_healths :
      (last : List (Report protocol)) (m : Monitor protocol)
      → IsTracking last m
      → m.pending ≡ false
      → m.stage ≡ waiting
      → (addr : String) → lookup addr m.healths ≡ health_after last addr
  rest_healths last m t quiet_channel at_rest addr =
      let settled : m.healths ≡ shown m.info =
        subst (λ p. Settled m waiting p) quiet_channel
          (subst (λ s. Settled m s m.pending) at_rest t.settled) in
      ap (λ h. lookup addr h) settled
      ∙ lookup-update_healths protocol m.info base addr t.unique
      ∙ ap
          (λ (reported : Option (HealthState protocol)).
            elim (lookup addr base) as (λ _. Option (HealthState protocol)) [
              | none ↦ none
              | some old ↦ elim reported as (λ _. Option (HealthState protocol)) [
                | none ↦ some old
                | some new ↦ some new
              ]
            ])
          (t.latest.at addr)

  -- Let `==` on the protocol's enums hold of equal values alone. In every interleaving of reports with
  -- the steps of processUpdate, once the reports stop and processUpdate goes on, the monitor's healths
  -- are those of the last report: under each address of an allocatable device the reported health, or
  -- the initial one where the report leaves it out, and nothing under any other address.
  pub latest_report_shown :
      (events : List (Event protocol)) (addr : String)
      → lookup addr
          (run protocol base quiet (run protocol base events (new_monitor protocol base))).healths
        ≡ health_after (last_report protocol [] events) addr
  latest_report_shown events addr =
      let m = run protocol base events (new_monitor protocol base) in
      let (quiet_channel, at_rest) = comes_to_rest m.info m.healths m.pending m.stage m.delivered in
      rest_healths (last_report protocol [] events) (run protocol base quiet m)
        (run-IsTracking (last_report protocol [] events) quiet m
          (run-IsTracking [] events (new_monitor protocol base) start-IsTracking))
        quiet_channel at_rest addr
