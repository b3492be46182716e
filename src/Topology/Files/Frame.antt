-- ===== src/Topology/Files/Frame.antt =====
-- What reading a topology, and writing the one of the pseudo mode, leaves alone.
use dra_driver_spyre.Prelude.{
  String, Bool, true, false, Option-cases, inl, inr, Option, if◌then◌else◌,
}
use dra_driver_spyre.Topology.Defs.{Pcitopo}
use dra_driver_spyre.Env.{Env, World, Result, ok, err, Error, returned, ◌>>=◌, give, ignoring}
use dra_driver_spyre.Env.Keeps.{
  Keeps, Keeps-bind, Keeps-give, Keeps-ignoring, IsFramed, keeps_rules,
}
use dra_driver_spyre.Topology.Files.{write_topology, unmarshal_text, get_pci_topology}

module _ {env : Env} {P : World env → Type 0} (f : IsFramed P) where
  write_topology-Keeps : (topo : Pcitopo) (path : String) → Keeps P (write_topology env topo path)
  unfolding write_topology
  write_topology-Keeps topo path = search (keeps_rules, f.write_file)

  finish-Keeps :
      (static : Bool) (topo : Pcitopo) (path : String) (answer : Option Pcitopo × Option Error)
      → Keeps P (
          (if static then ignoring (write_topology env topo path) else give (returned tt)) >>= λ _.
          give (returned answer))
  finish-Keeps true topo path answer =
      Keeps-bind (Keeps-ignoring (write_topology-Keeps topo path)) (λ _. Keeps-give _)
  finish-Keeps false topo path answer = Keeps-bind (Keeps-give _) (λ _. Keeps-give _)

  unmarshal_text-keeps :
      (path : String) (r : Result (String × Bool)) (w : World env)
      → P w
      → P (unmarshal_text env path r w).1
  unfolding unmarshal_text
  unmarshal_text-keeps path (err e) w h = h
  unmarshal_text-keeps path (ok (text, static)) w h =
      elim (Option-cases (env.unmarshal_topo text).1) [
        | inl none_left ↦
            rw (unmarshal_text, none_left)
              ((finish-Keeps static (env.unmarshal_topo text).0 path _).at w h)
        | inr (e, failed) ↦ rw (unmarshal_text, failed) h
      ]

  pub get_pci_topology-Keeps :
      (pseudo_topology node_name path : String)
      → Keeps P (get_pci_topology env pseudo_topology node_name path)
  unfolding get_pci_topology
  get_pci_topology-Keeps pseudo_topology node_name path = record {
    at = λ w h. unmarshal_text-keeps _ _ w h;
  }
