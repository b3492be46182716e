-- ===== src/Health/Client/Backoff.antt =====
-- attemptReconnect: how often it calls Register, how long it waits, and when it finds the service.
use dra_driver_spyre.Prelude.{
  ℕ, zero, suc, ◌≤◌, ◌<◌, Bool, true, false, ◌≡◌, refl, subst, inl, inr, Bool-cases, List, [], ◌∷◌,
  ltb, arith, if◌then◌else◌,
}
use dra_driver_spyre.Env.{Env, Result, ok, err}
use dra_driver_spyre.Health.Client.{
  Service, SpyreHealthClient, Action, waited, registered, Course, Run, end_round, open_stream,
  connect, use_credentials, load_tls_credentials, register, next_backoff, after_wait,
  reconnect_loop, attempt_reconnect,
}

-- how often Register was called
abbrev pub calls : List Action → ℕ
calls [] = 0
calls (registered ∷ rest) = suc (calls rest)
calls (waited t ∷ rest) = calls rest

-- Every wait is at most `t`.
abbrev pub WaitsAtMost : ℕ → List Action → Type 0
WaitsAtMost t [] = Unit
WaitsAtMost t (registered ∷ rest) = WaitsAtMost t rest
WaitsAtMost t (waited u ∷ rest) = (u ≤ t) × WaitsAtMost t rest

-- The two clients are set up alike.
pub record IsSameSetup (a b : SpyreHealthClient) : Type 0 where
  pub same_backoff : a.max_backoff ≡ b.max_backoff
  pub same_attempts : a.max_reconnect_attempts ≡ b.max_reconnect_attempts
  pub same_socket : a.socket_name ≡ b.socket_name

module _ {env : Env} (service : Service env) where
  open_stream-IsSameSetup :
      (client : SpyreHealthClient) (r : Result (Unit {0}))
      → IsSameSetup (open_stream env service client r).1 client
  unfolding open_stream
  open_stream-IsSameSetup client (ok _) = record {
    same_backoff = refl;
    same_attempts = refl;
    same_socket = refl;
  }
  open_stream-IsSameSetup client (err e) = record {
    same_backoff = refl;
    same_attempts = refl;
    same_socket = refl;
  }

  connect-IsSameSetup :
      (client : SpyreHealthClient) (r : Result (Unit {0})) (d : env.Disk)
      → IsSameSetup (connect env service client r d).1 client
  unfolding connect
  connect-IsSameSetup client (ok _) d = open_stream-IsSameSetup client (service.stream d)
  connect-IsSameSetup client (err e) d = record {
    same_backoff = refl;
    same_attempts = refl;
    same_socket = refl;
  }

  credentials-IsSameSetup :
      (client : SpyreHealthClient) (r : Result service.KeyPair) (d : env.Disk)
      → IsSameSetup (use_credentials env service client r d).1 client
  unfolding use_credentials
  credentials-IsSameSetup client (ok k) d =
      connect-IsSameSetup client (service.dial client.socket_name k d) d
  credentials-IsSameSetup client (err e) d = record {
    same_backoff = refl;
    same_attempts = refl;
    same_socket = refl;
  }

  pub register-IsSameSetup :
      (client : SpyreHealthClient) (d : env.Disk)
      → IsSameSetup (register env service client d).1 client
  unfolding register
  register-IsSameSetup client d = either client.running
    where
      either :
          (b : Bool)
          → IsSameSetup
              (if b
                then (ok tt, client)
                else use_credentials env service client (load_tls_credentials env service d) d).1
              client
      either true = record { same_backoff = refl; same_attempts = refl; same_socket = refl }
      either false = credentials-IsSameSetup client (load_tls_credentials env service d) d

  next_backoff-le :
      (client : SpyreHealthClient) (t : ℕ) → next_backoff env service client t ≤ client.max_backoff
  unfolding next_backoff
  next_backoff-le client t = ground arith

  module _ (course : Course env) where
    end_round_bounds :
        (rest : Run) (r : Result (Unit {0})) (client : SpyreHealthClient) (left t : ℕ)
        → calls rest.1 ≤ left
        → WaitsAtMost t rest.1
        → (calls (end_round rest r client).1 ≤ suc left) × WaitsAtMost t (end_round rest r client).1
    unfolding end_round
    end_round_bounds (end, actions, last) (ok _) client left t h waits = (omega arith, tt)
    end_round_bounds (end, actions, last) (err e) client left t h waits = (omega arith, waits)

    after_wait_bounds :
        (attempt backoff : ℕ) (client : SpyreHealthClient) (run : Run) (left t : ℕ)
        → (1 < attempt → backoff ≤ t)
        → (calls run.1 ≤ left) × WaitsAtMost t run.1
        → (calls (after_wait env service course attempt backoff client run).1 ≤ left)
          × WaitsAtMost t (after_wait env service course attempt backoff client run).1
    unfolding after_wait
    after_wait_bounds attempt backoff client (end, actions, last) left t small (h, waits) =
        elim (Bool-cases (ltb 1 attempt)) [
          | inr first ↦ rw (after_wait, first) (h, waits)
          | inl later ↦ elim (Bool-cases (course.is_interrupted attempt)) [
            | inl broken ↦ rw (after_wait, later, broken) (omega arith, tt)
            | inr free ↦ rw (after_wait, later, free) (h, (small (ground arith), waits))
          ]
        ]

    loop_bounds :
        (left attempt backoff : ℕ) (client : SpyreHealthClient)
        → (1 < attempt → backoff ≤ client.max_backoff)
        → (calls (reconnect_loop env service course left attempt backoff client).1 ≤ left)
          × WaitsAtMost client.max_backoff
              (reconnect_loop env service course left attempt backoff client).1
    unfolding reconnect_loop
    loop_bounds zero attempt backoff client small = (omega arith, tt)
    loop_bounds (suc left) attempt backoff client small =
        elim (Bool-cases (course.is_stopped attempt)) [
          | inl broken ↦ rw (reconnect_loop, broken) (omega arith, tt)
          | inr free ↦
              let tried = (register env service client (course.disk attempt)).1 in
              let setup = register-IsSameSetup client (course.disk attempt) in
              let rest =
                reconnect_loop env service course left (suc attempt)
                  (next_backoff env service tried backoff) tried in
              let (few, waits) =
                loop_bounds left (suc attempt) (next_backoff env service tried backoff) tried
                  (λ _. next_backoff-le tried backoff) in
              rw (reconnect_loop, free)
                (after_wait_bounds attempt backoff client _ (suc left) client.max_backoff small (
                  end_round_bounds _ _ tried left client.max_backoff few
                    (subst (λ t. WaitsAtMost t rest.1) setup.same_backoff waits)))
        ]

    -- attemptReconnect calls Register at most maxReconnectAttempts times, and no wait is longer than
    -- maxBackoff, whatever the multiplier and the course of the attempts.
    pub attempt_reconnect_bounds :
        (client : SpyreHealthClient)
        → (calls (attempt_reconnect env service course client).1 ≤ client.max_reconnect_attempts)
          × WaitsAtMost client.max_backoff (attempt_reconnect env service course client).1
    unfolding attempt_reconnect
    attempt_reconnect_bounds client =
        loop_bounds client.max_reconnect_attempts 1 client.initial_backoff client (λ h. omega arith)
