-- ===== src/Health/Probe.antt =====
-- internal/health/health.go: the liveness probe of the driver, by which its two sockets are called. The
-- network and the two services are a parameter, the `Endpoints`.
pub mod Frame
use dra_driver_spyre.Prelude.{
  ℕ, String, Bool, true, false, not, ◌||◌, ◌≡◌, ◌≢◌, ◌↔◌, refl, ap, inl, inr, Bool-cases, Option,
  none, some, ◌==◌, if◌then◌else◌,
}
use dra_driver_spyre.Prelude.Int.{ℤ, pos, negsuc}
use dra_driver_spyre.Strings.{str_append, itoa}
use dra_driver_spyre.Env.{
  Env, World, Io, Result, ok, err, Error, msg, ext, Outcome, returned, raised, ◌>>=◌, ◌>>◌,
  wrapping, pure, raise, effect, attempt,
}

-- net.Listen, grpc.NewClient, and GetInfo and NodePrepareResources of the kubelet's plugin
pub record Endpoints (env : Env) : Type 0 where
  pub listen : String → env.Disk → Result (Unit {0}) × env.Disk
  pub new_client : String → env.Disk → Result (Unit {0})
  pub get_info : env.Disk → Result (Unit {0})
  pub node_prepare_resources : env.Disk → Result (Unit {0})

module _ (env : Env) (endpoints : Endpoints env) where
  -- StartHealthcheck
  listen_at : ℤ → Io env (Unit {0})
  listen_at (negsuc n) = raise (msg "invalid port number")
  listen_at (pos n) =
      wrapping "failed to listen for healthcheck service"
        (effect (endpoints.listen (str_append ":" (itoa (pos n)))))

  pub start_healthcheck : String → String → ℤ → Io env (Unit {0})
  unfolding listen_at
  start_healthcheck registrar_directory_path plugin_path port = do
    listen_at port
    wrapping "connect to registration socket" (
        attempt (
          endpoints.new_client
            (str_append "unix://" (env.join registrar_directory_path "spyre.ibm.com-reg.sock"))))
    wrapping "connect to DRA socket"
        (attempt (endpoints.new_client (str_append "unix://" (env.join plugin_path "dra.sock"))))

  -- Check: an error, or whether the status is SERVING
  second_call : Result (Unit {0}) → Bool
  second_call (err _) = false
  second_call (ok _) = true

  both_calls : Result (Unit {0}) → env.Disk → Bool
  unfolding second_call
  both_calls (err _) d = false
  both_calls (ok _) d = second_call (endpoints.node_prepare_resources d)

  pub check : String → env.Disk → Result Bool
  unfolding both_calls
  check service d =
      if service == "" || service == "liveness"
      then ok (both_calls (endpoints.get_info d) d)
      else err (ext "unknown service")

  second_call_iff :
      (r : Result (Unit {0})) (first : Result (Unit {0}))
      → first ≡ ok tt
      → (second_call r ≡ true) ↔ ((first ≡ ok tt) × (r ≡ ok tt))
  unfolding second_call
  second_call_iff (err e) first f = (λ h. cc, λ (_, h). cc)
  second_call_iff (ok _) first f = (λ h. (f, refl), λ _. refl)

  both_calls_iff :
      (d : env.Disk) (r : Result (Unit {0}))
      → (both_calls r d ≡ true) ↔ ((r ≡ ok tt) × (endpoints.node_prepare_resources d ≡ ok tt))
  unfolding both_calls
  both_calls_iff d (err e) = (λ h. cc, λ (h, _). cc)
  both_calls_iff d (ok _) = second_call_iff (endpoints.node_prepare_resources d) (ok tt) refl

  -- Check answers SERVING exactly if the service that is asked for is "" or "liveness" and both GetInfo and
  -- NodePrepareResources succeed.
  pub check_iff :
      (service : String) (d : env.Disk)
      → (check service d ≡ ok true) ↔ (
          ((service == "" || service == "liveness") ≡ true)
          × (endpoints.get_info d ≡ ok tt)
          × (endpoints.node_prepare_resources d ≡ ok tt))
  unfolding check
  check_iff service d = elim (Bool-cases (service == "" || service == "liveness")) [
    | inr unknown ↦ rw (check, unknown) (λ h. cc, λ (h, _, _). cc)
    | inl known ↦
        rw (check, known)
          (
            λ h. let (a, b) = (both_calls_iff d (endpoints.get_info d)).0 (of_ok h) in (refl, a, b),
            λ (_, a, b). ap ok ((both_calls_iff d (endpoints.get_info d)).1 (a, b)),
          )
  ]
    where
      of_ok : {a b : Bool} → Path (Result Bool) (ok a) (ok b) → a ≡ b
      of_ok e = cc
