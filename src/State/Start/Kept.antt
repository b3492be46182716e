-- ===== src/State/Start/Kept.antt =====
-- The checkpoint that a start of the driver ends with: the one that was there, or a new one without claims.
use dra_driver_spyre.Prelude.{
  String, Bool, Bool-cases, inl, inr, ◌≡◌, refl, ap, sym, subst, ◌∙◌, List, [], contains,
  if◌then◌else◌,
}
use dra_driver_spyre.Env.{
  Env, World, Io, Result, ok, Spec, PreparedClaims, pure, wrapping, attempt, effect, returned,
  ◌>>=◌,
}
use dra_driver_spyre.Env.Keeps.{
  Keeps, Keeps-wrapping, Keeps-ignoring, Keeps-reading, Keeps-bind, IsFramed,
}
use dra_driver_spyre.Env.Ensures.{
  After, Ensures, Ensures-Keeps, Ensures-weaken, Ensures-bind, Ensures-pure, Ensures-wrapping,
  Ensures-attempt, Ensures-effect,
}
use dra_driver_spyre.Env.Laws.{CheckpointLaws}
use dra_driver_spyre.Discovery.Frame.{get_allocatable_devices-Keeps}
use dra_driver_spyre.Handler.Config.Frame.{init_config_mount-Keeps}
use dra_driver_spyre.Handler.Cdi.Frame.{
  create_common_spec_file-Keeps, clean_zombie_config_folders-Keeps,
}
use dra_driver_spyre.State.Start.Returns.{Works, new_device_state-Total}
use dra_driver_spyre.State.Start.{
  Host, StateFlags, DeviceState, driver_plugin_path, driver_plugin_checkpoint_file, new_cdi_handler,
  set_new_checkpoint, keep_or_create, new_device_state,
}

-- The checkpoint files that are listed do not depend on the folders, the files and the specs that a start
-- writes and removes, nor on the cache and the manager that it makes; and neither of these two touches
-- the checkpoint.
pub record ListingLaws {env : Env} (host : Host env) : Type 0 where
  pub list-mkdir :
      (p : String) (d : env.Disk)
      → host.list_checkpoints (env.mkdir_all p d).1 ≡ host.list_checkpoints d
  pub list-write :
      (p s : String) (d : env.Disk)
      → host.list_checkpoints (env.write_file p s d).1 ≡ host.list_checkpoints d
  pub list-remove :
      (p : String) (d : env.Disk)
      → host.list_checkpoints (env.remove_all p d).1 ≡ host.list_checkpoints d
  pub list-uuid :
      (d : env.Disk) → host.list_checkpoints (env.new_uuid d).1 ≡ host.list_checkpoints d
  pub list-write_spec :
      (s : Spec) (n : String) (d : env.Disk)
      → host.list_checkpoints (env.write_spec s n d).1 ≡ host.list_checkpoints d
  pub list-cache :
      (p : String) (d : env.Disk)
      → host.list_checkpoints (host.new_cache p d).1 ≡ host.list_checkpoints d
  pub list-manager :
      (p : String) (d : env.Disk)
      → host.list_checkpoints (host.new_checkpoint_manager p d).1 ≡ host.list_checkpoints d
  pub get-cache :
      (p : String) (d : env.Disk) → env.get_checkpoint (host.new_cache p d).1 ≡ env.get_checkpoint d
  pub get-manager :
      (p : String) (d : env.Disk)
      → env.get_checkpoint (host.new_checkpoint_manager p d).1 ≡ env.get_checkpoint d

module _ {env : Env} (checkpoint : CheckpointLaws env) (host : Host env)
    (listing : ListingLaws host) (names : List String) (found : Result PreparedClaims) where
  -- The files `names` are listed, and the checkpoint reads as `found`.
  record Finds (w : World env) : Type 0 where
    lists : host.list_checkpoints w.disk ≡ ok names
    reads : env.get_checkpoint w.disk ≡ found

  -- what the checkpoint reads as after the start
  abbrev kept_or_new : Result PreparedClaims
  kept_or_new = if contains names driver_plugin_checkpoint_file then found else ok []

  abbrev Ends : {A : Type 0} → A → World env → Type 0
  Ends _ w = env.get_checkpoint w.disk ≡ kept_or_new

  abbrev Any : World env → Type 0
  Any _ = Unit

  effect-Finds :
      {A : Type 0} (f : env.Disk → Result A × env.Disk)
      → ((d : env.Disk) → host.list_checkpoints (f d).1 ≡ host.list_checkpoints d)
      → ((d : env.Disk) → env.get_checkpoint (f d).1 ≡ env.get_checkpoint d)
      → Keeps Finds (effect f)
  unfolding effect
  effect-Finds f list get = record {
    at = λ w h. record { lists = list w.disk ∙ h.lists; reads = get w.disk ∙ h.reads };
  }

  Finds-IsFramed : IsFramed Finds
  Finds-IsFramed = record {
    mkdir = λ p. effect-Finds (env.mkdir_all p) (listing.list-mkdir p) (checkpoint.get-mkdir p);
    write_file = λ p s.
        effect-Finds (env.write_file p s) (listing.list-write p s) (checkpoint.get-write p s);
    remove_all =
        λ p. effect-Finds (env.remove_all p) (listing.list-remove p) (checkpoint.get-remove p);
    uuid = λ w h. record {
      lists = listing.list-uuid w.disk ∙ h.lists;
      reads = checkpoint.get-uuid w.disk ∙ h.reads;
    };
    memory = λ w m h. record { lists = h.lists; reads = h.reads };
  }

  -- a part that keeps both, and then the rest
  first :
      {A B : Type 0} {m : Io env A} {f : A → Io env B}
      → Keeps Finds m
      → ((a : A) → Ensures Finds Ends Any (f a))
      → Ensures Finds Ends Any (m >>= f)
  first k l =
      Ensures-bind (λ _. Finds) (Ensures-weaken (Ensures-Keeps k) (λ _ _ h. h) (λ _ _. tt)) l

  same_test :
      {listed : List String} {b : Bool}
      → listed ≡ names
      → contains listed driver_plugin_checkpoint_file ≡ b
      → (if b then found else ok []) ≡ kept_or_new
  same_test same e =
      ap (λ b. if b then found else ok [])
        (sym e ∙ ap (λ l. contains l driver_plugin_checkpoint_file) same)

  keep_or_create-Ensures :
      (listed : List String)
      → Ensures (λ w. Finds w × (listed ≡ names)) Ends Any (keep_or_create env host listed)
  unfolding keep_or_create set_new_checkpoint effect
  keep_or_create-Ensures listed =
      elim (Bool-cases (contains listed driver_plugin_checkpoint_file)) [
        | inl old ↦
            rw (keep_or_create, old) (Ensures-pure tt λ w (h, same). h.reads ∙ same_test same old)
        | inr new ↦
            rw (keep_or_create, new)
              (Ensures-wrapping _ (
                Ensures-effect (env.create_checkpoint [])
                  (λ w a (h, same) made. created w made ∙ same_test same new) (λ _ _ _ _. tt)))
      ]
    where
      created :
          (w : World env)
          → (env.create_checkpoint [] w.disk).0 ≡ ok tt
          → env.get_checkpoint (effect (env.create_checkpoint []) w).1.disk ≡ ok []
      created w made = checkpoint.get-create [] w.disk made

  new_cdi_handler-Finds : (root : String) → Keeps Finds (new_cdi_handler env host root)
  unfolding new_cdi_handler
  new_cdi_handler-Finds root =
      Keeps-bind
        (Keeps-wrapping _
          (effect-Finds (host.new_cache root) (listing.list-cache root) (listing.get-cache root)))
        (λ _. Keeps-wrapping _ (init_config_mount-Keeps Finds-IsFramed))

  last_part :
      (s : DeviceState)
      → Ensures Finds Ends Any (
          wrapping "unable to list checkpoints" (attempt host.list_checkpoints) >>= λ listed.
          keep_or_create env host listed >>= λ _. pure s)
  last_part s =
      Ensures-bind (λ listed w. Finds w × (listed ≡ names))
        (Ensures-wrapping _
          (Ensures-attempt host.list_checkpoints (λ w a h e. (h, same a e h.lists)) (λ _ _. tt)))
        (λ listed.
          Ensures-bind Ends (keep_or_create-Ensures listed) (λ _. Ensures-pure s (λ _ h. h)))
    where
      same : {r : Result (List String)} (a : List String) → r ≡ ok a → r ≡ ok names → a ≡ names
      same a e f = cc

  new_device_state-Ensures :
      (flags : StateFlags) → Ensures Finds Ends Any (new_device_state env host flags)
  unfolding new_device_state
  new_device_state-Ensures flags =
      let framed = Finds-IsFramed in
      first (Keeps-reading _) λ topology_file.
        first (Keeps-wrapping _ (get_allocatable_devices-Keeps framed _ _ _ _ _ _)) λ allocatable.
          first (Keeps-wrapping _ (new_cdi_handler-Finds flags.cdi_root)) λ _.
            first
              (Keeps-wrapping _ (
                create_common_spec_file-Keeps framed λ s.
                  effect-Finds (env.write_spec s (env.spec_name "common"))
                    (listing.list-write_spec s (env.spec_name "common"))
                    (checkpoint.get-write_spec s (env.spec_name "common"))))
              λ _.
                first (Keeps-ignoring (clean_zombie_config_folders-Keeps framed flags.cdi_root))
                  λ _.
                    first
                      (Keeps-wrapping _ (
                        effect-Finds (host.new_checkpoint_manager driver_plugin_path)
                          (listing.list-manager driver_plugin_path)
                          (listing.get-manager driver_plugin_path)))
                      λ _. last_part _

-- Let the checkpoint and the list of checkpoint files behave as documented, and let every call of the
-- system that the start makes, and does not only log, succeed. Then NewDeviceState returns a state. If
-- checkpoint.json is among the files that are listed before, the checkpoint reads afterwards as it did
-- before, be that claims or an error; else it reads as holding no claim.
pub get_checkpoint-new_device_state :
    {env : Env} {host : Host env}
    → CheckpointLaws env
    → ListingLaws host
    → Works env host
    → (flags : StateFlags) (w : World env) (names : List String)
    → host.list_checkpoints w.disk ≡ ok names
    → (s : DeviceState) × ((new_device_state env host flags w).0 ≡ returned s)
      × (env.get_checkpoint (new_device_state env host flags w).1.disk ≡ (
          if contains names driver_plugin_checkpoint_file
          then env.get_checkpoint w.disk
          else ok []))
get_checkpoint-new_device_state {env} {host} checkpoint listing works flags w names lists =
    let found = env.get_checkpoint w.disk in
    let (s, returns) = (new_device_state-Total env host works flags).at w in
    (
      s,
      returns,
      subst
          (λ o.
            After (Ends checkpoint host listing names found)
              (Any checkpoint host listing names found) o (new_device_state env host flags w).1)
          returns
          ((new_device_state-Ensures checkpoint host listing names found flags).at w
            (record { lists = lists; reads = refl })),
    )
