-- ===== src/State/Claims.antt =====
-- What Prepare and Unprepare do to the checkpoint.
use dra_driver_spyre.Prelude.{
  String, ◌≡◌, ◌≢◌, refl, sym, ap, subst, ◌∙◌, ◌⊎◌, inl, inr, some, none, List, ◌∷◌, insert,
}
use dra_driver_spyre.Env.{
  Env, World, Result, ok, DraDevice, PreparedDevice, PreparedDevices, PreparedClaims, effect,
  returned, wrapping, attempt, pure, ◌>>=◌,
}
use dra_driver_spyre.Env.Keeps.{Keeps, IsFramed}
use dra_driver_spyre.Env.Ensures.{
  After, Ensures, Ensures-Keeps, Ensures-pure, Ensures-wrapping, Ensures-attempt, Ensures-effect,
  Ensures-bind,
}
use dra_driver_spyre.Env.Laws.{CheckpointLaws}
use dra_driver_spyre.Devices.Allocatable.{AllocatableDevices}
use dra_driver_spyre.Handler.Cdi.Frame.{create_claim_spec_file-Keeps}
use dra_driver_spyre.State.{
  ResourceClaim, prepared_of, prepare_devices, prepare_new, prepare_found, prepare, get_devices,
}
use dra_driver_spyre.State.Consistent.{prepared_of-insert_self, prepared_of-insert_ne}

-- The checkpoint reads as `claims`.
pub record Reads (env : Env) (claims : PreparedClaims) (w : World env) : Type 0 where
  pub reads : env.get_checkpoint w.disk ≡ ok claims

-- Only the entry of one claim differs.
pub record IsSameBut (uid : String) (old new : PreparedClaims) : Type 0 where
  pub same : (other : String) → uid ≢ other → prepared_of other new ≡ prepared_of other old

module _ {env : Env} (checkpoint : CheckpointLaws env) where
  pub effect-Reads :
      {A : Type 0} (claims : PreparedClaims) (f : env.Disk → Result A × env.Disk)
      → ((d : env.Disk) → env.get_checkpoint (f d).1 ≡ env.get_checkpoint d)
      → Keeps (Reads env claims) (effect f)
  unfolding effect
  effect-Reads claims f same = record { at = λ w h. record { reads = same w.disk ∙ h.reads } }

  pub Reads-IsFramed : (claims : PreparedClaims) → IsFramed (Reads env claims)
  Reads-IsFramed claims = record {
    mkdir = λ p. effect-Reads claims (env.mkdir_all p) (checkpoint.get-mkdir p);
    write_file = λ p s. effect-Reads claims (env.write_file p s) (checkpoint.get-write p s);
    remove_all = λ p. effect-Reads claims (env.remove_all p) (checkpoint.get-remove p);
    uuid = λ w h. record { reads = checkpoint.get-uuid w.disk ∙ h.reads };
    memory = λ w m h. record { reads = h.reads };
  }

  -- Writing the checkpoint: it reads as the new claims, or as before where the write fails.
  pub create-Ensures :
      (old new : PreparedClaims)
      → Ensures
          (Reads env old)
          (λ _ w. Reads env new w)
          (Reads env old)
          (effect (env.create_checkpoint new))
  unfolding effect
  create-Ensures old new =
      Ensures-effect (env.create_checkpoint new)
        (λ w a h done. record { reads = checkpoint.get-create new w.disk done })
        (λ w e h failed. record {
          reads = checkpoint.get-create_failed new w.disk e failed ∙ h.reads;
        })

-- After a Prepare that returns `devices`: the checkpoint holds them for the claim, and they are those it
-- held before, or else those that prepareDevices gives on the disk `d`; no other claim's entry differs.
pub record IsPrepared (env : Env) (allocatable : AllocatableDevices) (claim : ResourceClaim)
    (old : PreparedClaims) (d : env.Disk) (devices : List DraDevice) (w : World env) : Type 0 where
  pub new : PreparedClaims
  pub reads : Reads env new w
  pub held : get_devices (prepared_of claim.uid new) ≡ devices
  pub source :
      ((ds : List PreparedDevice) × (prepared_of claim.uid old ≡ some ds) × (new ≡ old))
      ⊎ (prepare_devices env allocatable claim d ≡ ok (prepared_of claim.uid new))
  pub others : IsSameBut claim.uid old new

module _ {env : Env} (checkpoint : CheckpointLaws env) (node_name : String)
    (allocatable : AllocatableDevices) (claim : ResourceClaim) (claims : PreparedClaims) where
  inserted :
      (d : env.Disk) (ds : PreparedDevices) (w : World env)
      → prepare_devices env allocatable claim d ≡ ok ds
      → Reads env (insert claim.uid ds claims) w
      → IsPrepared env allocatable claim claims d (get_devices ds) w
  inserted d ds w made r = record {
    new = insert claim.uid ds claims;
    reads = r;
    held = ap get_devices (prepared_of-insert_self claim.uid ds claims);
    source = inr (made ∙ ap ok (sym (prepared_of-insert_self claim.uid ds claims)));
    others = record { same = λ other ne. prepared_of-insert_ne claim.uid other ds claims ne };
  }

  prepare_new-Ensures :
      (d : env.Disk)
      → Ensures
          (λ w. Reads env claims w × (w.disk ≡ d))
          (IsPrepared env allocatable claim claims d)
          (Reads env claims)
          (prepare_new env node_name allocatable claim claims)
  unfolding prepare_new
  prepare_new-Ensures d =
      Ensures-bind (λ ds w. Reads env claims w × (prepare_devices env allocatable claim d ≡ ok ds))
        (Ensures-wrapping _ (
          Ensures-attempt (prepare_devices env allocatable claim)
            (λ w ds (h, at) made. (h, ap (prepare_devices env allocatable claim) (sym at) ∙ made))
            (λ w (h, at). h)))
        (λ ds. record {
          at = λ w (h, made).
              (Ensures-bind (λ _ v. Reads env claims v)
                  (Ensures-wrapping _ (
                    Ensures-Keeps (
                      create_claim_spec_file-Keeps (Reads-IsFramed checkpoint claims) node_name
                        claim.uid ds
                        (λ s.
                          effect-Reads checkpoint claims
                            (env.write_spec s (env.spec_name claim.uid))
                            (checkpoint.get-write_spec s (env.spec_name claim.uid))))))
                  (λ _.
                    Ensures-bind (λ _ v. Reads env (insert claim.uid ds claims) v)
                      (Ensures-wrapping _
                        (create-Ensures checkpoint claims (insert claim.uid ds claims)))
                      (λ _. Ensures-pure (get_devices ds) (λ v r. inserted d ds v made r)))).at
                w h;
        })

  prepare_found-Ensures :
      (d : env.Disk) (ds : PreparedDevices)
      → prepared_of claim.uid claims ≡ ds
      → Ensures
          (λ w. Reads env claims w × (w.disk ≡ d))
          (IsPrepared env allocatable claim claims d)
          (Reads env claims)
          (prepare_found env node_name allocatable claim claims ds)
  unfolding prepare_found
  prepare_found-Ensures d none p = prepare_new-Ensures d
  prepare_found-Ensures d (some ds) p = Ensures-pure (get_devices (some ds)) λ w (h, at). record {
    new = claims;
    reads = h;
    held = ap get_devices p;
    source = inl (ds, p, refl);
    others = record { same = λ _ _. refl };
  }

  read-Ensures :
      (d : env.Disk)
      → Ensures
          (λ w. Reads env claims w × (w.disk ≡ d))
          (IsPrepared env allocatable claim claims d)
          (Reads env claims)
          (prepare env node_name allocatable claim)
  unfolding prepare
  read-Ensures d =
      Ensures-bind (λ found w. (Reads env claims w × (w.disk ≡ d)) × (claims ≡ found))
        (Ensures-wrapping _ (
          Ensures-attempt env.get_checkpoint (λ w found h at. (h, same_read w found h.0 at))
            (λ w h. h.0)))
        (λ found. record {
          at = λ w (h, e).
              subst
                (λ c.
                  After (IsPrepared env allocatable claim claims d) (Reads env claims)
                    (prepare_found env node_name allocatable claim c (prepared_of claim.uid c) w).0
                    (prepare_found env node_name allocatable claim c (prepared_of claim.uid c) w).1)
                e ((prepare_found-Ensures d (prepared_of claim.uid claims) refl).at w h);
        })
    where
      same_read :
          (w : World env) (found : PreparedClaims)
          → Reads env claims w
          → env.get_checkpoint w.disk ≡ ok found
          → claims ≡ found
      same_read w found h at = cc h.reads

  -- Let the checkpoint behave as documented, and read as `claims`. Where Prepare returns devices, the
  -- checkpoint holds them for the claim: as before, if the claim was prepared, and as prepareDevices
  -- gives them otherwise; the entries of all other claims are as before. Where it fails, the checkpoint
  -- reads as before.
  pub prepare-After :
      (w : World env)
      → Reads env claims w
      → After
          (IsPrepared env allocatable claim claims w.disk)
          (Reads env claims)
          (prepare env node_name allocatable claim w).0
          (prepare env node_name allocatable claim w).1
  prepare-After w h = (read-Ensures w.disk).at w (h, refl)

found_again :
    {env : Env} (node_name : String) (allocatable : AllocatableDevices) (claim : ResourceClaim)
    (claims : PreparedClaims) (w : World env) (d : DraDevice) (devices : List DraDevice)
    (held : PreparedDevices)
    → get_devices held ≡ d ∷ devices
    → prepare_found env node_name allocatable claim claims held w ≡ (returned (d ∷ devices), w)
unfolding prepare_found pure get_devices
found_again node_name allocatable claim claims w d devices none p = cc
found_again node_name allocatable claim claims w d devices (some ds) p = ap (λ l. (returned l, w)) p

held_again :
    {env : Env} (node_name : String) (allocatable : AllocatableDevices) (claim : ResourceClaim)
    (claims : PreparedClaims) (w : World env) (d : DraDevice) (devices : List DraDevice)
    → Reads env claims w
    → get_devices (prepared_of claim.uid claims) ≡ d ∷ devices
    → prepare env node_name allocatable claim w ≡ (returned (d ∷ devices), w)
unfolding prepare wrapping attempt ◌>>=◌
held_again node_name allocatable claim claims w d devices h p =
    rw h.reads
      (found_again node_name allocatable claim claims w d devices (prepared_of claim.uid claims) p)

-- Let the checkpoint behave as documented, and read as `claims`. Where Prepare returns at least one
-- device, a second Prepare of the claim, in the world that the first left, returns the same devices, and
-- changes nothing. The answer stays the same on any node and with any devices that can be allocated.
pub prepare_again :
    {env : Env} (checkpoint : CheckpointLaws env) (node_name : String)
    (allocatable : AllocatableDevices) (claim : ResourceClaim) (claims : PreparedClaims)
    (w : World env) (d : DraDevice) (devices : List DraDevice)
    → Reads env claims w
    → (prepare env node_name allocatable claim w).0 ≡ returned (d ∷ devices)
    → (other_name : String) (others : AllocatableDevices)
    → prepare env other_name others claim (prepare env node_name allocatable claim w).1
      ≡ (returned (d ∷ devices), (prepare env node_name allocatable claim w).1)
prepare_again {env} checkpoint node_name allocatable claim claims w d devices h first other_name
      others =
    let done : IsPrepared env allocatable claim claims w.disk (d ∷ devices)
        (prepare env node_name allocatable claim w).1 =
      subst
        (λ o.
          After (IsPrepared env allocatable claim claims w.disk) (Reads env claims) o
            (prepare env node_name allocatable claim w).1)
        first (prepare-After checkpoint node_name allocatable claim claims w h) in
    held_again other_name others claim done.new (prepare env node_name allocatable claim w).1 d
      devices done.reads done.held
