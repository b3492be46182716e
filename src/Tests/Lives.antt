-- ===== src/Tests/Lives.antt =====
-- A run of the plugin on the node with one prepared claim: a claim comes, a card fails, a claim goes.
use dra_driver_spyre.Prelude.{true, List, [], ◌∷◌}
use dra_driver_spyre.State.Consistent.{IsSafe}
use dra_driver_spyre.Plugin.{Call, prepare_claim, unprepare_claim, report, run_plugin}
use dra_driver_spyre.Plugin.Life.{run_plugin-IsSafe}
use dra_driver_spyre.Tests.Node.{node, node_checkpoint, node_specs}
use dra_driver_spyre.Tests.Claims.{claim, held_claims, start, absent}
use dra_driver_spyre.Tests.Reports.{service}
use dra_driver_spyre.Tests.Drivers.{
  host, host_laws, kubelet, kubelet_laws, endpoints, health_service, enums, reported, flags,
  start-Holds, other_name,
}

abbrev calls : List (Call service)
calls = prepare_claim (claim "claim-2") ∷ report reported ∷ unprepare_claim "claim-1" ∷ []

run_plugin-IsSafe_example :
    IsSafe node_specs
      (run_plugin node host kubelet endpoints health_service enums
        (λ _ _. true)
        flags
        calls
        start).1
run_plugin-IsSafe_example =
    run_plugin-IsSafe node_checkpoint node_specs host kubelet endpoints health_service host_laws
      kubelet_laws enums (λ _ _. true) held_claims (absent "common" other_name) flags calls start
      start-Holds
