-- ===== src/Health/Probe/Frame.antt =====
-- What starting the liveness probe leaves alone.
use dra_driver_spyre.Prelude.{ℕ, String, ◌≡◌}
use dra_driver_spyre.Prelude.Int.{ℤ, pos, negsuc}
use dra_driver_spyre.Env.{Env, World, ok, effect}
use dra_driver_spyre.Env.Keeps.{Keeps, Keeps-bind, Keeps-wrapping, Keeps-raise, Keeps-attempt}
use dra_driver_spyre.Env.Total.{Total, Total-bind, Total-wrapping, Total-effect, Total-attempt}
use dra_driver_spyre.Health.Probe.{Endpoints, listen_at, start_healthcheck}

module _ {env : Env} {P : World env → Type 0} (endpoints : Endpoints env)
    (listening : (addr : String) → Keeps P (effect (endpoints.listen addr))) where
  listen_at-Keeps : (port : ℤ) → Keeps P (listen_at env endpoints port)
  unfolding listen_at
  listen_at-Keeps (pos n) = Keeps-wrapping _ (listening _)
  listen_at-Keeps (negsuc n) = Keeps-raise _

  pub start_healthcheck-Keeps :
      (registrar plugin : String) (port : ℤ)
      → Keeps P (start_healthcheck env endpoints registrar plugin port)
  unfolding start_healthcheck
  start_healthcheck-Keeps registrar plugin port =
      Keeps-bind (listen_at-Keeps port)
        λ _. Keeps-bind (Keeps-wrapping _ (Keeps-attempt _)) λ _. Keeps-wrapping _ (Keeps-attempt _)

-- It returns for a port, where the network answers.
pub start_healthcheck-Total :
    (env : Env) (endpoints : Endpoints env)
    → ((a : String) (d : env.Disk) → (endpoints.listen a d).0 ≡ ok tt)
    → ((a : String) (d : env.Disk) → endpoints.new_client a d ≡ ok tt)
    → (registrar plugin : String) (port : ℕ)
    → Total (start_healthcheck env endpoints registrar plugin (pos port))
unfolding start_healthcheck listen_at
start_healthcheck-Total env endpoints listening connected registrar plugin port =
    Total-bind (Total-wrapping _ (Total-effect (endpoints.listen _) (λ d. (tt, listening _ d))))
      λ _.
        Total-bind
          (Total-wrapping _ (Total-attempt (endpoints.new_client _) (λ d. (tt, connected _ d))))
          λ _. Total-wrapping _ (Total-attempt (endpoints.new_client _) (λ d. (tt, connected _ d)))
