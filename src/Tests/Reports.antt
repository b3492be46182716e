-- ===== src/Tests/Reports.antt =====
-- Two devices, of which one is reported to be in error and later back online.
use dra_driver_spyre.Prelude.{String, ◌≡◌, List, [], ◌∷◌, lookup, ◌==◌, eq_iff}
use dra_driver_spyre.Health.{
  Protocol, HealthState, Healths, Event, receive, take, merge, store, run, new_monitor,
}
use dra_driver_spyre.Health.Maps.{IsExact}
use dra_driver_spyre.Health.Latest.{quiet, health_after, last_report, latest_report_shown}

abbrev pub service : Protocol
service = record {
  State = String;
  Kind = String;
  same_state = λ s t. s == t;
  same_kind = λ s t. s == t;
}

service-IsExact : IsExact service
service-IsExact = record { state = λ s t. (eq_iff s t).0; kind = λ s t. (eq_iff s t).0 }

abbrev pub health : String → HealthState service
health state = record { state = state; device_type = "PF" }

abbrev devices : Healths service
devices = ("0000:1a:00.0", health "ONLINE") ∷ ("0000:1c:00.0", health "ONLINE") ∷ []

abbrev events : List (Event service)
events =
    receive (("0000:1a:00.0", health "IN_ERROR") ∷ [])
    ∷ take
    ∷ merge
    ∷ receive (("0000:1a:00.0", health "ONLINE") ∷ ("0000:1c:00.0", health "IN_ERROR") ∷ [])
    ∷ store
    ∷ []

latest_report_shown_example :
    lookup "0000:1a:00.0"
      (run service devices
        (quiet service service-IsExact devices)
        (run service devices events (new_monitor service devices))).healths
    ≡ health_after service service-IsExact devices (last_report service [] events) "0000:1a:00.0"
latest_report_shown_example =
    latest_report_shown service service-IsExact devices events "0000:1a:00.0"
