-- ===== src/Tests/Monitors.antt =====
-- A health service that is there at the third attempt, and runs of the client's goroutines.
use dra_driver_spyre.Prelude.{
  String, true, false, ◌≡◌, ◌≤◌, ◌*◌, refl, none, List, [], ◌∷◌, eqb, if◌then◌else◌, arith,
}
use dra_driver_spyre.Env.{ok, err, ext}
use dra_driver_spyre.Health.Client.{
  Service, SpyreHealthClient, reconnected, Course, load_tls_credentials, attempt_reconnect,
}
use dra_driver_spyre.Health.Client.Backoff.{calls, WaitsAtMost, attempt_reconnect_bounds}
use dra_driver_spyre.Health.Client.Reconnects.{
  IsConnected, IsReady, load_tls_credentials_lem, attempt_reconnect_succeeds,
}
use dra_driver_spyre.Health.Race.{
  Client, unwinding, spawned, start_registered, stream_ended, moves, Moves, AnyMove, Step, goes,
  Steps, done, after, started,
}
use dra_driver_spyre.Health.Race.Holder.{IsHeld, Steps-IsHeld}
use dra_driver_spyre.Health.Race.Lost.{
  IsServed, lost, Undisturbed, listening, Steps-IsServed, stream_ended-lost,
}
use dra_driver_spyre.Tests.Node.{Disk, node}

abbrev disk_with : List String → Disk
disk_with folders = record { checkpoint = []; specs = []; folders = folders; published = none }

-- The service answers where the disk has a folder.
abbrev service : Service node
service = record {
  KeyPair = Unit {0};
  socket_mode = λ _ _. ok true;
  load_key_pair = λ _ _ _. ok tt;
  has_certs = λ _. true;
  dial = λ _ _ _. ok tt;
  stream = λ d. elim d.folders [ [] ↦ err (ext "unavailable") | ◌∷◌ _ _ ↦ ok tt ];
  scale = λ t. t * 2;
}

abbrev client : SpyreHealthClient
client = record {
  socket_name = "unix:///run/spyre.sock";
  conn = none;
  running = false;
  max_reconnect_attempts = 10;
  initial_backoff = 1000000000;
  max_backoff = 60000000000;
}

abbrev course : Course node
course = record {
  is_stopped = λ _. false;
  is_interrupted = λ _. false;
  disk = λ i. if eqb i 3 then disk_with ("spyre" ∷ []) else disk_with [];
}

attempt_reconnect_bounds_example :
    (calls (attempt_reconnect node service course client).1 ≤ 10)
    × WaitsAtMost 60000000000 (attempt_reconnect node service course client).1
attempt_reconnect_bounds_example = attempt_reconnect_bounds service course client

attempt_reconnect_succeeds_example :
    ((attempt_reconnect node service course client).0 ≡ reconnected)
    × IsConnected (attempt_reconnect node service course client).2
attempt_reconnect_succeeds_example =
    attempt_reconnect_succeeds service course (λ _. refl) (λ _. refl) client 3 refl (omega arith)
      (omega arith) ready
  where
    ready : IsReady service "unix:///run/spyre.sock" (disk_with ("spyre" ∷ []))
    ready = record { creds = tt; loaded = load; dialled = refl; streams = refl }
      where
        load : load_tls_credentials node service (disk_with ("spyre" ∷ [])) ≡ ok tt
        load =
            load_tls_credentials_lem service (disk_with ("spyre" ∷ [])) tt (λ _ _. refl)
              (λ _. ("{}", refl, refl))

-- the client after the end of its stream
abbrev ended : Client
ended = record { running = true; reconnecting = false; places = unwinding ∷ spawned ∷ [] }

run_of : Steps Moves started ended
run_of = after (after done (goes [] [] start_registered)) (goes [] [] stream_ended)

any_run_of : Steps AnyMove started ended
any_run_of =
    after (after done (goes [] [] (moves start_registered))) (goes [] [] (moves stream_ended))

Steps-IsHeld_example : IsHeld ended
Steps-IsHeld_example = Steps-IsHeld ended any_run_of

Steps-IsServed_example : IsServed ended
Steps-IsServed_example = Steps-IsServed ended run_of

stream_ended-lost_example :
    Steps Undisturbed listening lost
    × (Steps Moves listening lost → ⊥)
    × ((t : Client) → Step AnyMove lost t → ⊥)
stream_ended-lost_example = stream_ended-lost listening refl refl refl
