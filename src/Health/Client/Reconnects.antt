-- ===== src/Health/Client/Reconnects.antt =====
-- attemptReconnect finds a service that comes back in time.
use dra_driver_spyre.Prelude.{
  ℕ, zero, suc, ◌+◌, ◌≤◌, ◌<◌, String, Bool, true, false, ◌≡◌, refl, ◌⊎◌, inl, inr, some, ltb,
  arith, Bool-cases, if◌then◌else◌,
}
use dra_driver_spyre.Env.{Env, Error, Result, ok, err}
use dra_driver_spyre.Health.Client.{
  Service, SpyreHealthClient, reconnected, Course, Run, end_round, open_stream, connect,
  use_credentials, checked_certs, with_key_pair, load_tls_credentials, register, next_backoff,
  after_wait, reconnect_loop, attempt_reconnect,
}
use dra_driver_spyre.Health.Client.Backoff.{register-IsSameSetup}

-- The client has a stream on an open connection.
pub record IsConnected (client : SpyreHealthClient) : Type 0 where
  pub running : client.running ≡ true
  pub is_open : client.conn ≡ some true

-- The credentials can be read, and the service behind the socket answers.
pub record IsReady {env : Env} (service : Service env) (socket_name : String) (d : env.Disk)
    : Type 0 where
  pub creds : service.KeyPair
  pub loaded : load_tls_credentials env service d ≡ ok creds
  pub dialled : service.dial socket_name creds d ≡ ok tt
  pub streams : service.stream d ≡ ok tt

with_key_pair_lem :
    {env : Env} (service : Service env) (d : env.Disk) (creds : service.KeyPair)
    (path text : String)
    → env.read_file path d ≡ ok text
    → service.has_certs text ≡ true
    → with_key_pair env service (ok creds) path d ≡ ok creds
unfolding with_key_pair checked_certs
with_key_pair_lem service d creds path text there certs = rw (there, checked_certs, certs) refl

-- Credentials that can be read wherever they lie are loaded.
pub load_tls_credentials_lem :
    {env : Env} (service : Service env) (d : env.Disk) (creds : service.KeyPair)
    → ((cert key : String) → service.load_key_pair cert key d ≡ ok creds)
    → ((path : String)
        → (text : String) × (env.read_file path d ≡ ok text) × (service.has_certs text ≡ true))
    → load_tls_credentials env service d ≡ ok creds
unfolding load_tls_credentials
load_tls_credentials_lem service d creds pair read =
    rw pair (with_key_pair_lem service d creds _ (read _).0 (read _).1 (read _).2)

-- How Register ends for a client that is not running.
abbrev pub Registers : Result (Unit {0}) × SpyreHealthClient → Type 0
Registers (r, client) =
    ((r ≡ ok tt) × IsConnected client) ⊎ ((e : Error) × (r ≡ err e) × (client.running ≡ false))

module _ {env : Env} (service : Service env) where
  open_stream-Registers :
      (client : SpyreHealthClient) (r : Result (Unit {0}))
      → client.running ≡ false
      → Registers (open_stream env service client r)
  unfolding open_stream
  open_stream-Registers client (ok _) h = inl (refl, record { running = refl; is_open = refl })
  open_stream-Registers client (err e) h = inr (_, refl, h)

  connect-Registers :
      (client : SpyreHealthClient) (r : Result (Unit {0})) (d : env.Disk)
      → client.running ≡ false
      → Registers (connect env service client r d)
  unfolding connect
  connect-Registers client (ok _) d h = open_stream-Registers client (service.stream d) h
  connect-Registers client (err e) d h = inr (_, refl, h)

  credentials-Registers :
      (client : SpyreHealthClient) (r : Result service.KeyPair) (d : env.Disk)
      → client.running ≡ false
      → Registers (use_credentials env service client r d)
  unfolding use_credentials
  credentials-Registers client (ok k) d h =
      connect-Registers client (service.dial client.socket_name k d) d h
  credentials-Registers client (err e) d h = inr (_, refl, h)

  -- Register for a client that is not running: it returns no error and the client is connected, or it
  -- returns an error and the client is still not running.
  pub register-Registers :
      (client : SpyreHealthClient) (d : env.Disk)
      → client.running ≡ false
      → Registers (register env service client d)
  unfolding register
  register-Registers client d h = either client.running h
    where
      either :
          (b : Bool)
          → b ≡ false
          → Registers (
              if b
              then (ok tt, client)
              else use_credentials env service client (load_tls_credentials env service d) d)
      either true q = cc
      either false q = credentials-Registers client (load_tls_credentials env service d) d h

  register_ready :
      (client : SpyreHealthClient) (d : env.Disk)
      → client.running ≡ false
      → IsReady service client.socket_name d
      → (register env service client d).0 ≡ ok tt
  unfolding register use_credentials connect open_stream
  register_ready client d h ready = either client.running h
    where
      either :
          (b : Bool)
          → b ≡ false
          → (if b
              then (ok tt, client)
              else use_credentials env service client (load_tls_credentials env service d) d).0
            ≡ ok tt
      either true q = cc
      either false q =
          rw (ready.loaded, use_credentials, ready.dialled, connect, ready.streams, open_stream)
            refl

  module _ (course : Course env) (going_on : (i : ℕ) → course.is_stopped i ≡ false)
      (unbroken : (i : ℕ) → course.is_interrupted i ≡ false) where
    -- the run has ended with a connection
    abbrev Succeeds : Run → Type 0
    Succeeds (end, actions, last) = (end ≡ reconnected) × IsConnected last

    after_wait-Succeeds :
        (attempt backoff : ℕ) (client : SpyreHealthClient) (run : Run)
        → Succeeds run
        → Succeeds (after_wait env service course attempt backoff client run)
    unfolding after_wait
    after_wait-Succeeds attempt backoff client (end, actions, last) h =
        elim (Bool-cases (ltb 1 attempt)) [
          | inr first ↦ rw (after_wait, first) h
          | inl later ↦ rw (after_wait, later, unbroken attempt) h
        ]

    end_round-Succeeds :
        (rest : Run) (r : Result (Unit {0})) (tried : SpyreHealthClient)
        → ((r ≡ ok tt) × IsConnected tried) ⊎ ((e : Error) × (r ≡ err e) × Succeeds rest)
        → Succeeds (end_round rest r tried)
    unfolding end_round
    end_round-Succeeds rest (ok _) tried (inl (_, c)) = (refl, c)
    end_round-Succeeds rest (ok _) tried (inr (e, q, s)) = cc
    end_round-Succeeds rest (err e) tried (inl (q, c)) = cc
    end_round-Succeeds (end, actions, last) (err e) tried (inr (_, _, s)) = s

    loop-Succeeds :
        (left attempt backoff i : ℕ) (client : SpyreHealthClient)
        → client.running ≡ false
        → attempt ≤ i
        → i < attempt + left
        → IsReady service client.socket_name (course.disk i)
        → Succeeds (reconnect_loop env service course left attempt backoff client)
    unfolding reconnect_loop
    loop-Succeeds zero attempt backoff i client down low high ready = absurd (omega arith)
    loop-Succeeds (suc left) attempt backoff i client down low high ready =
        let d = course.disk attempt in
        let tried = (register env service client d).1 in
        let rest =
          reconnect_loop env service course left (suc attempt)
            (next_backoff env service tried backoff) tried in
        rw (going_on attempt) (
          after_wait-Succeeds attempt backoff client _ (
            end_round-Succeeds rest (register env service client d).0 tried
              (elim (register-Registers client d down) [
                | inl done ↦ inl done
                | inr (e, failed, still) ↦ inr (
                  e,
                  failed,
                  loop-Succeeds left (suc attempt) (next_backoff env service tried backoff) i tried
                      still (later e failed) (omega arith)
                      (rw ((register-IsSameSetup service client d).same_socket) ready),
                )
              ])))
      where
        later :
            (e : Error)
            → (register env service client (course.disk attempt)).0 ≡ err e
            → suc attempt ≤ i
        later e failed = elim (differ e failed) [
          | inl less ↦ less
          | inr same ↦ absurd (clash e failed same)
        ]
          where
            differ :
                (e : Error)
                → (register env service client (course.disk attempt)).0 ≡ err e
                → (suc attempt ≤ i) ⊎ (attempt ≡ i)
            differ e failed = ground arith

            clash :
                (e : Error)
                → (register env service client (course.disk attempt)).0 ≡ err e
                → attempt ≡ i
                → ⊥
            clash e failed same =
                let fine = register_ready client (course.disk attempt) down (rw same ready) in cc

    -- Let attemptReconnect not be told to stop, for a client that is not running. If at one of its
    -- maxReconnectAttempts attempts the credentials can be read and the service answers, it reconnects: it
    -- ends with the client running on an open connection.
    pub attempt_reconnect_succeeds :
        (client : SpyreHealthClient) (i : ℕ)
        → client.running ≡ false
        → 1 ≤ i
        → i ≤ client.max_reconnect_attempts
        → IsReady service client.socket_name (course.disk i)
        → ((attempt_reconnect env service course client).0 ≡ reconnected)
          × IsConnected (attempt_reconnect env service course client).2
    unfolding attempt_reconnect
    attempt_reconnect_succeeds client i down low high ready =
        loop-Succeeds client.max_reconnect_attempts 1 client.initial_backoff i client down low
          (omega arith) ready
