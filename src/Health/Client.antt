-- ===== src/Health/Client.antt =====
-- internal/health/health_client.go: how the client finds the socket of the Spyre health service, registers
-- with it, and registers again. Time, TLS and gRPC are parameters, a `Service`.
pub mod Backoff
pub mod Reconnects
use dra_driver_spyre.Prelude.{
  ℕ, zero, suc, ◌+◌, String, Bool, true, false, not, Option, none, some, List, [], ◌∷◌, ltb, ◌==◌,
  if◌then◌else◌,
}
use dra_driver_spyre.Strings.{str_append, contains_text}
use dra_driver_spyre.Env.{Env, Error, msg, wrap, Result, ok, err}

-- `socket_mode` is os.Stat, with whether it finds a socket. `load_key_pair` is tls.LoadX509KeyPair,
-- `has_certs` AppendCertsFromPEM, `dial` grpc.NewClient, `stream` the call of the service, and `scale`
-- the product of a duration and the multiplier, by way of float64.
pub record Service (env : Env) : Type 1 where
  pub KeyPair : Type 0
  pub socket_mode : String → env.Disk → Result Bool
  pub load_key_pair : String → String → env.Disk → Result KeyPair
  pub has_certs : String → Bool
  pub dial : String → KeyPair → env.Disk → Result (Unit {0})
  pub stream : env.Disk → Result (Unit {0})
  pub scale : ℕ → ℕ

-- SpyreHealthClient, but for its map of healths. A duration is in nanoseconds. The connection is there or
-- not, and open or closed.
pub record SpyreHealthClient : Type 0 where
  pub socket_name : String
  pub conn : Option Bool
  pub running : Bool
  pub max_reconnect_attempts : ℕ
  pub initial_backoff : ℕ
  pub max_backoff : ℕ

-- what attemptReconnect does that takes time
pub data Action : Type 0 where
  waited : ℕ → Action
  registered : Action

-- how attemptReconnect ends
pub data End : Type 0 where
  stopped : End
  reconnected : End
  exhausted : End

pub set_max_reconnect_attempts : ℕ → SpyreHealthClient → SpyreHealthClient
set_max_reconnect_attempts attempts client = record client { max_reconnect_attempts = attempts }

pub set_initial_backoff : ℕ → SpyreHealthClient → SpyreHealthClient
set_initial_backoff duration client = record client { initial_backoff = duration }

pub set_max_backoff : ℕ → SpyreHealthClient → SpyreHealthClient
set_max_backoff duration client = record client { max_backoff = duration }

module _ (env : Env) (service : Service env) where
  -- the end of spyreHealthSocket
  socket_url : String → Result Bool → Result String
  socket_url socket_name (err e) = err (wrap "unix socket is unavailable" e)
  socket_url socket_name (ok false) = err (msg (str_append socket_name " is not a unix socket"))
  socket_url socket_name (ok true) =
      if contains_text socket_name "/"
      then ok (str_append "unix://" socket_name)
      else ok (str_append "unix:" socket_name)

  -- spyreHealthSocket; the name that it returns beside an error is dropped by its caller
  pub spyre_health_socket : env.Disk → Result String
  unfolding socket_url
  spyre_health_socket d =
      let socket_name = env.getenv "SPYRE_HEALTH_SOCK" in
      if socket_name == ""
      then err (msg "SPYRE_HEALTH_SOCK is unset")
      else socket_url socket_name (service.socket_mode socket_name d)

  -- NewSpyreHealthClient
  new_client_at : Result String → Result SpyreHealthClient
  new_client_at (err e) = err (wrap "failed to get spyrehealth socket" e)
  new_client_at (ok socket_name) = ok (record {
    socket_name = socket_name;
    conn = none;
    running = false;
    max_reconnect_attempts = 10;
    initial_backoff = 1000000000;
    max_backoff = 60000000000;
  })

  pub new_spyre_health_client : env.Disk → Result SpyreHealthClient
  unfolding new_client_at
  new_spyre_health_client d = new_client_at (spyre_health_socket d)

  path_or_default : String → String → String
  path_or_default key default = if env.getenv key == "" then default else env.getenv key

  -- loadTLSCredentials
  checked_certs : service.KeyPair → String → Result String → Result service.KeyPair
  checked_certs client_cert ca_path (err e) = err (wrap "failed to read CA certificate" e)
  checked_certs client_cert ca_path (ok ca_cert) =
      if service.has_certs ca_cert
      then ok client_cert
      else err (msg (str_append "failed to parse CA certificate from " ca_path))

  with_key_pair : Result service.KeyPair → String → env.Disk → Result service.KeyPair
  unfolding checked_certs
  with_key_pair (err e) ca_path d = err (wrap "failed to load client certificate and key" e)
  with_key_pair (ok client_cert) ca_path d =
      checked_certs client_cert ca_path (env.read_file ca_path d)

  pub load_tls_credentials : env.Disk → Result service.KeyPair
  unfolding with_key_pair path_or_default
  load_tls_credentials d =
      let cert_path =
        path_or_default "SPYRE_HEALTH_TLS_CERT_PATH" "/etc/dra-driver/certs/tls.crt" in
      let key_path = path_or_default "SPYRE_HEALTH_TLS_KEY_PATH" "/etc/dra-driver/certs/tls.key" in
      let ca_path = path_or_default "SPYRE_HEALTH_TLS_CA_PATH" "/etc/dra-driver/certs/ca.crt" in
      with_key_pair (service.load_key_pair cert_path key_path d) ca_path d

  -- Register for a client that is not running, from the stream back to the credentials
  pub open_stream : SpyreHealthClient → Result (Unit {0}) → Result (Unit {0}) × SpyreHealthClient
  open_stream client (err e) =
      (err (wrap "error calling stream" e), record client { conn = some false })
  open_stream client (ok _) = (ok tt, record client { conn = some true; running = true })

  pub connect :
      SpyreHealthClient → Result (Unit {0}) → env.Disk → Result (Unit {0}) × SpyreHealthClient
  connect client (err e) d = (
    err (wrap "unable to establish connection with SpyreHealth gRPC server" e),
    record client { conn = none },
  )
  connect client (ok _) d = open_stream client (service.stream d)

  pub use_credentials :
      SpyreHealthClient → Result service.KeyPair → env.Disk → Result (Unit {0}) × SpyreHealthClient
  use_credentials client (err e) d = (err (wrap "failed to load TLS credentials" e), client)
  use_credentials client (ok creds) d = connect client (service.dial client.socket_name creds d) d

  -- Register
  pub register : SpyreHealthClient → env.Disk → Result (Unit {0}) × SpyreHealthClient
  register client d =
      if client.running then (ok tt, client) else use_credentials client (load_tls_credentials d) d

  -- the last lines of attemptReconnect's loop
  pub next_backoff : SpyreHealthClient → ℕ → ℕ
  next_backoff client backoff =
      if ltb client.max_backoff (service.scale backoff)
      then client.max_backoff
      else service.scale backoff

-- What attemptReconnect meets at each attempt: whether it is told to stop before it, whether the wait
-- before it is broken off, and the world that Register finds.
pub record Course (env : Env) : Type 0 where
  pub is_stopped : ℕ → Bool
  pub is_interrupted : ℕ → Bool
  pub disk : ℕ → env.Disk

-- how a run of attemptReconnect ends, the waits that were not broken off and the calls of Register that it
-- made, in order, and the client that it leaves
abbrev pub Run : Type 0
Run = End × List Action × SpyreHealthClient

-- the end of a round, where `rest` is what the further rounds do
pub end_round : Run → Result (Unit {0}) → SpyreHealthClient → Run
end_round rest (ok _) client = (reconnected, registered ∷ [], client)
end_round (end, actions, last) (err e) client = (end, registered ∷ actions, last)

module _ (env : Env) (service : Service env) (course : Course env) where
  -- the wait of every attempt but the first
  pub after_wait : ℕ → ℕ → SpyreHealthClient → Run → Run
  after_wait attempt backoff client (end, actions, last) =
      if ltb 1 attempt
      then (if course.is_interrupted attempt
          then (stopped, [], client)
          else (end, waited backoff ∷ actions, last))
      else (end, actions, last)

  -- attemptReconnect's loop from `attempt` on, where it has `left` attempts
  pub reconnect_loop : ℕ → ℕ → ℕ → SpyreHealthClient → Run
  reconnect_loop zero attempt backoff client = (exhausted, [], client)
  reconnect_loop (suc left) attempt backoff client =
      let (r, tried) = register env service client (course.disk attempt) in
      let rest = reconnect_loop left (suc attempt) (next_backoff env service tried backoff) tried in
      if course.is_stopped attempt
      then (stopped, [], client)
      else after_wait attempt backoff client (end_round rest r tried)

  -- attemptReconnect, for the goroutine that has set `reconnecting`
  pub attempt_reconnect : SpyreHealthClient → Run
  attempt_reconnect client =
      reconnect_loop client.max_reconnect_attempts 1 client.initial_backoff client
