-- ===== src/Tests/Node.antt =====
-- A node whose disk is a checkpoint, a CDI directory, the folders of configurations and the slice that is
-- published, and on which every
-- other read finds nothing and every other write succeeds and changes nothing.
use mathlib.Core.List.Memᴰ
use dra_driver_spyre.Strings.{str_append}
use dra_driver_spyre.Prelude.{
  String, List, [], ◌∷◌, true, Option, none, some, Map, lookup, insert, delete, refl,
  lookup-insert_self, lookup-insert_ne, lookup-delete_ne, keys, ◌==◌, eq_iff, sym, ◌∙◌, ◌≢◌,
  Bool-cases, inl, inr, Memᴰ, if◌then◌else◌,
}
use dra_driver_spyre.Prelude.Int.{pos}
use dra_driver_spyre.Prelude.Any.{empty}
use dra_driver_spyre.Topology.Defs.{Pcitopo}
use dra_driver_spyre.Env.{Env, ok, err, ext, Spec, PreparedClaims, missing}
use dra_driver_spyre.Devices.Allocatable.{ResourceDevice}
use dra_driver_spyre.Env.Laws.{CheckpointLaws, SpecLaws}

pub record Disk : Type 0 where
  pub checkpoint : PreparedClaims
  pub specs : Map Spec
  pub folders : List String
  pub published : Option (String × List ResourceDevice)

abbrev no_topo : Pcitopo
no_topo = record {
  timestamp = "";
  version = "";
  server = "";
  num_devices = pos 0;
  devices = none;
  spyre_vf_num_devices = pos 0;
  spyre_vf_devices = none;
}

-- The folders of configurations and metrics are "config" and "metrics".
abbrev setting : String → String
setting key =
    if key == "CONFIG_HOSTPATH"
    then "config"
    else if key == "SENTIENT_MAP_HOSTPATH"
    then "metrics"
    else ""

unfoldable pub without : String → List String → List String
without path [] = []
without path (folder ∷ rest) =
    let others = without path rest in if folder == path then others else folder ∷ others

pub without_other :
    (path folder : String) (folders : List String)
    → path ≢ folder
    → Memᴰ folder folders
    → Memᴰ folder (without path folders)
unfolding without
without_other path folder [] ne m = absurd (Memᴰ.not-nil m)
without_other path folder (first ∷ rest) ne m = elim (Bool-cases (first == path)) [
  | inl e ↦ elim (Memᴰ.cases_cons m) [
    | inl q ↦ absurd (ne (sym ((eq_iff first path).0 e) ∙ sym q))
    | inr later ↦ rw (without, e) (without_other path folder rest ne later)
  ]
  | inr n ↦ elim (Memᴰ.cases_cons m) [
    | inl q ↦ rw (without, n) (Memᴰ.head q)
    | inr later ↦ rw (without, n) (Memᴰ.tail (without_other path folder rest ne later))
  ]
]

abbrev pub node : Env
node = record {
  Disk = Disk;
  getenv = setting;
  is_not_exist = λ _. true;
  stat = λ _ _. missing;
  lstat = λ _ _. missing;
  eval_symlinks = λ p _. ok p;
  read_link = λ p _. ok p;
  glob = λ _ _. ok [];
  walk = λ p d. ok (p ∷ keys d.specs);
  read_dir = λ _ _. ok ("4f1c" ∷ "77aa" ∷ []);
  read_file = λ _ _. ok "{}";
  write_file = λ _ _ d. (ok tt, d);
  mkdir_all = λ _ d. (ok tt, d);
  remove_all = λ p d. (ok tt, record d { folders = without p d.folders });
  join = λ a b. str_append a (str_append "/" b);
  base = λ p. p;
  new_uuid = λ d. ("4f1c", d);
  unmarshal = λ _. ok empty;
  marshal = λ _. ok "{}";
  unmarshal_topo = λ _. (no_topo, none);
  marshal_topo = λ _. ok "{}";
  get_checkpoint = λ d. ok d.checkpoint;
  create_checkpoint = λ c d. (ok tt, record d { checkpoint = c });
  spec_name = λ uid. uid;
  qualified_name = λ name. name;
  minimum_required_version = λ _. ok "0.5.0";
  write_spec = λ s n d. (ok tt, record d { specs = insert n s d.specs });
  remove_spec = λ n d. (ok tt, record d { specs = delete n d.specs });
  read_spec = λ n d. elim (lookup n d.specs) [ none ↦ err (ext "no spec") | some s ↦ ok s ];
}

abbrev pub node_checkpoint : CheckpointLaws node
node_checkpoint = record {
  get-create = λ c d h. refl;
  get-create_failed = λ c d e h. cc;
  get-mkdir = λ p d. refl;
  get-remove = λ p d. refl;
  get-write = λ p s d. refl;
  get-uuid = λ d. refl;
  get-write_spec = λ s n d. refl;
  get-remove_spec = λ n d. refl;
}

abbrev pub node_specs : SpecLaws node
node_specs = record {
  spec_at = λ n d. lookup n d.specs;
  at-write = λ s n d h. lookup-insert_self n s d.specs;
  at-write_other = λ s n m d ne. lookup-insert_ne n m s d.specs ne;
  at-remove_other = λ n m d ne. lookup-delete_ne n m d.specs ne;
  at-create = λ m c d. refl;
  at-mkdir = λ m p d. refl;
  at-remove_all = λ m p d. refl;
  at-write_file = λ m p s d. refl;
  at-uuid = λ m d. refl;
  name_injective = λ u v h. h;
}
