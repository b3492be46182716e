-- ===== src/Topology/Files/Returns.antt =====
-- Reading a topology always returns.
use dra_driver_spyre.Prelude.{
  String, Bool, true, false, Option-cases, inl, inr, Option, ◌≡◌, refl, if◌then◌else◌,
}
use dra_driver_spyre.Topology.Defs.{Pcitopo}
use dra_driver_spyre.Env.{
  Env, World, Result, ok, err, Error, Outcome, returned, raised, ◌>>=◌, give, ignoring,
}
use dra_driver_spyre.Env.Total.{
  Total, Calm, Calm-bind, Calm-effect, Calm-give, IsEnd, Total-bind, Total-ignoring,
}
use dra_driver_spyre.Topology.Files.{write_topology, unmarshal_text, get_pci_topology}

module _ (env : Env) where
  marshalled :
      (r : Result String)
      → IsEnd (elim r as (λ _. Outcome String) [ ok text ↦ returned text | err e ↦ raised e ])
  marshalled (ok text) = tt
  marshalled (err e) = tt

  write_topology-Calm : (topo : Pcitopo) (path : String) → Calm (write_topology env topo path)
  unfolding write_topology
  write_topology-Calm topo path =
      Calm-bind (Calm-effect _)
        λ _. Calm-bind (Calm-give _ (marshalled (env.marshal_topo topo))) λ _. Calm-effect _

  given : {A : Type 0} (a : A) → Total {env = env} (give (returned a))
  unfolding give
  given a = record { at = λ w. (a, refl) }

  finished :
      (static : Bool) (topo : Pcitopo) (path : String) (answer : Option Pcitopo × Option Error)
      → Total (
          (if static then ignoring (write_topology env topo path) else give (returned tt)) >>= λ _.
          give (returned answer))
  finished true topo path answer =
      Total-bind (Total-ignoring (write_topology-Calm topo path)) (λ _. given answer)
  finished false topo path answer = Total-bind (given tt) (λ _. given answer)

  unmarshalled :
      (path : String) (r : Result (String × Bool)) (w : World env)
      → (a : Option Pcitopo × Option Error) × ((unmarshal_text env path r w).0 ≡ returned a)
  unfolding unmarshal_text
  unmarshalled path (err e) w = (_, refl)
  unmarshalled path (ok (text, static)) w = elim (Option-cases (env.unmarshal_topo text).1) [
    | inl none_left ↦
        rw (unmarshal_text, none_left) ((finished static (env.unmarshal_topo text).0 path _).at w)
    | inr (e, failed) ↦ rw (unmarshal_text, failed) (_, refl)
  ]

  pub get_pci_topology-Total :
      (pseudo_topology node_name path : String)
      → Total (get_pci_topology env pseudo_topology node_name path)
  unfolding get_pci_topology
  get_pci_topology-Total pseudo_topology node_name path = record { at = λ w. unmarshalled _ _ w }
