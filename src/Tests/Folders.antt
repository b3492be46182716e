-- ===== src/Tests/Folders.antt =====
-- Two configuration folders, of which a claim mounts one.
use dra_driver_spyre.Prelude.{String, none, ◌≡◌, ◌≢◌, refl, ap, true, false, [], ◌∷◌, Memᴰ, lookup}
use dra_driver_spyre.Strings.{str_append, begins_with}
use dra_driver_spyre.Env.{World, Spec, effect}
use dra_driver_spyre.Env.Keeps.{Keeps}
use dra_driver_spyre.Utils.{get_metrics_host_path, get_env_or_default}
use dra_driver_spyre.Handler.Cdi.{existing_mounts, host_paths, clean_zombie_config_folders}
use dra_driver_spyre.Handler.Cdi.Clean.{clean_zombie_config_folders-spares}
use dra_driver_spyre.Tests.Node.{node, without_other}

abbrev spec : Spec
spec = record {
  version = "0.5.0";
  kind = "ibm.com/spyre";
  devices = [];
  container_edits = record {
    env = [];
    device_nodes = [];
    mounts = record { container_path = "/etc/spyre"; host_path = "config/4f1c"; options = [] } ∷ [];
  };
}

abbrev start : World node
start = record {
  disk = record {
    checkpoint = [];
    specs = ("cdi/claim-1.json", spec) ∷ [];
    folders = "config/4f1c" ∷ "config/77aa" ∷ [];
    published = none;
  };
  history = [];
  uuid_map = [];
}

-- the folder is there
record IsThere (w : World node) : Type 0 where
  there : Memᴰ "config/4f1c" w.disk.folders

removal : (path : String) → path ≢ "config/4f1c" → Keeps IsThere (effect (node.remove_all path))
unfolding effect
removal path ne = record {
  at = λ w h. record { there = without_other path "config/4f1c" w.disk.folders ne h.there };
}

not_metrics : (entry : String) → node.join (get_metrics_host_path node) entry ≢ "config/4f1c"
unfolding get_metrics_host_path get_env_or_default str_append begins_with
not_metrics entry e = false-true (ap (λ s. begins_with s "config") e)
  where
    false-true : false ≡ true → ⊥
    false-true h = cc

mounted :
    Memᴰ "config/4f1c" (existing_mounts node "cdi" ("cdi" ∷ "cdi/claim-1.json" ∷ []) start.disk)
unfolding existing_mounts host_paths lookup
mounted = Memᴰ.head refl

clean_zombie_config_folders-spares_example :
    IsThere (clean_zombie_config_folders node "cdi" start).1
clean_zombie_config_folders-spares_example =
    clean_zombie_config_folders-spares "config/4f1c" removal not_metrics "cdi"
      ("cdi" ∷ "cdi/claim-1.json" ∷ []) start refl mounted (record { there = Memᴰ.head refl })
