-- ===== src/Topology/Files.antt =====
-- pkg/topology/topology.go: which topology file is read, and what is made of it.
pub mod Frame
pub mod Returns
use dra_driver_spyre.Prelude.{
  String, Bool, true, false, not, ◌&&◌, Option, none, some, ◌==◌, if◌then◌else◌,
}
use dra_driver_spyre.Topology.Defs.{Pcitopo}
use dra_driver_spyre.Env.{
  Env, Io, Result, ok, err, Error, returned, raised, ◌>>=◌, ◌>>◌, effect, give, ignoring,
}
use dra_driver_spyre.Utils.{is_pseudo_device_mode, path_exists}

module _ (env : Env) where
  abbrev metadata_topology_filepath : String
  metadata_topology_filepath = "/usr/local/etc/dra-driver-spyre/metadata/topo.json"

  -- GetTopologyFile; `node_name` is utils.GetNodeName, the NODE_NAME variable or the host's name
  pub get_topology_file : String → env.Disk → String
  get_topology_file node_name d =
      let topology_filepath = env.join "/etc/aiu/topology" node_name in
      if not (env.getenv "IGNORE_EXTERNAL_METADATA" == "true")
        && path_exists env metadata_topology_filepath d
      then metadata_topology_filepath
      else if path_exists env topology_filepath d
      then topology_filepath
      else if is_pseudo_device_mode env
      then "/tmp/generated-topo.json"
      else topology_filepath

  -- Pcitopo.Write: nothing is written if the document cannot be marshalled, but the file is created
  pub write_topology : Pcitopo → String → Io env (Unit {0})
  write_topology topo filepath = do
    effect (env.write_file filepath "")
    json ← give (elim (env.marshal_topo topo) [ ok text ↦ returned text | err e ↦ raised e ])
    effect (env.write_file filepath json)

  -- the text to read: the file's, and in pseudo mode the built-in document for want of one
  topology_text : String → Result String → Result (String × Bool)
  topology_text pseudo_topology (ok text) = ok (text, false)
  topology_text pseudo_topology (err e) =
      if is_pseudo_device_mode env then ok (pseudo_topology, true) else err e

  -- The pointer that GetPciTopology returns, and its error. The pointer is nil only where no text is
  -- found: a text that cannot be unmarshalled leaves what was read of it, beside the error.
  unmarshal_text : String → Result (String × Bool) → Io env (Option Pcitopo × Option Error)
  unmarshal_text filepath (err e) w = (returned (none, some e), w)
  unmarshal_text filepath (ok (text, static)) w = elim (env.unmarshal_topo text).1 [
    | some e ↦ (returned (some (env.unmarshal_topo text).0, some e), w)
    | none ↦
        (do
          (if static
              then ignoring (write_topology (env.unmarshal_topo text).0 filepath)
              else give (returned tt))
          give (returned (some (env.unmarshal_topo text).0, none)))
          w
  ]

  -- GetPciTopology; `pseudo_topology` is the document of pseudo.go
  pub get_pci_topology : String → String → String → Io env (Option Pcitopo × Option Error)
  unfolding unmarshal_text topology_text
  get_pci_topology pseudo_topology node_name topology_filepath w =
      let filepath =
        if topology_filepath == "" then get_topology_file node_name w.disk else topology_filepath in
      unmarshal_text filepath (topology_text pseudo_topology (env.read_file filepath w.disk)) w
