-- ===== src/State/Writes.antt =====
-- The two writes of a call that change what the checkpoint says: a new checkpoint, and the removal of
-- the spec of a claim that it no longer holds.
use dra_driver_spyre.Prelude.{
  String, ◌≡◌, ◌≢◌, subst, refl, sym, ap, ◌∙◌, ◌⊎◌, inl, inr, some, none, List, insert, delete,
  str_cases,
}
use mathlib.Core.Logic.{⊎_elim}
use dra_driver_spyre.Env.{
  Env, World, Result, ok, err, Error, PreparedDevice, PreparedDevices, PreparedClaims, effect,
}
use dra_driver_spyre.Env.Keeps.{Keeps}
use dra_driver_spyre.Env.Laws.{CheckpointLaws, SpecLaws}
use dra_driver_spyre.Handler.Cdi.{slice}
use dra_driver_spyre.State.{prepared_of}
use dra_driver_spyre.State.Consistent.{
  HasSpec, Consistent, IsSafe, Holds, same-Consistent, prepared_of-insert_self,
  prepared_of-insert_ne, prepared_of-delete_self, prepared_of-delete_ne,
}

pub result_cases : (r : Result (Unit {0})) → (r ≡ ok tt) ⊎ ((e : Error) × (r ≡ err e))
result_cases (ok tt) = inl refl
result_cases (err e) = inr (e, refl)

ok_path : {a b : PreparedClaims} → ok a ≡ ok b → a ≡ b
ok_path h = cc

module _ {env : Env} (checkpoint : CheckpointLaws env) (laws : SpecLaws env) where
  create_spec :
      (new : PreparedClaims) (uid : String) (ds : List PreparedDevice) (d : env.Disk)
      → HasSpec laws uid ds d
      → HasSpec laws uid ds (env.create_checkpoint new d).1
  create_spec new uid ds d (s, at, defines) =
      (s, laws.at-create (env.spec_name uid) new d ∙ at, defines)

  -- A checkpoint, written or not, that holds only claims with a spec.
  create-Consistent :
      (old new : PreparedClaims) (d : env.Disk)
      → Consistent laws d
      → env.get_checkpoint d ≡ ok old
      → ((uid : String) (ds : List PreparedDevice)
          → prepared_of uid new ≡ some ds
          → HasSpec laws uid ds d ⊎ (prepared_of uid old ≡ some ds))
      → Consistent laws (env.create_checkpoint new d).1
  create-Consistent old new d c g covered = elim (result_cases (env.create_checkpoint new d).0) [
    | inl done ↦ record {
      spec_of = λ claims uid ds g' p.
          let p' = ok_path (sym (checkpoint.get-create new d done) ∙ g') in
          create_spec new uid ds d (
            ⊎_elim (λ there. there) (c.spec_of old uid ds g)
              (covered uid ds (ap (prepared_of uid) p' ∙ p)));
    }
    | inr (e, failed) ↦
        same-Consistent laws d (env.create_checkpoint new d).1
          (checkpoint.get-create_failed new d e failed) (λ m. laws.at-create m new d) c
  ]

  insert-covered :
      (claims : PreparedClaims) (uid : String) (new : PreparedDevices) (d : env.Disk)
      → HasSpec laws uid (slice new) d
      → (other : String) (ds : List PreparedDevice)
      → prepared_of other (insert uid new claims) ≡ some ds
      → HasSpec laws other ds d ⊎ (prepared_of other claims ≡ some ds)
  insert-covered claims uid new d there other ds p = elim (str_cases uid other) [
    | inl e ↦
        let whole : new ≡ some ds =
          sym (prepared_of-insert_self uid new claims)
          ∙ ap (λ u. prepared_of u (insert uid new claims)) e
          ∙ p in
        inl (
          subst (λ u. HasSpec laws u ds d) e
            (subst (λ devices. HasSpec laws uid devices d) (ap slice whole) there))
    | inr ne ↦ inr (sym (prepared_of-insert_ne uid other new claims ne) ∙ p)
  ]

  delete-covered :
      (claims : PreparedClaims) (uid : String) (d : env.Disk) (other : String)
      (ds : List PreparedDevice)
      → prepared_of other (delete uid claims) ≡ some ds
      → HasSpec laws other ds d ⊎ (prepared_of other claims ≡ some ds)
  delete-covered claims uid d other ds p = elim (str_cases uid other) [
    | inl e ↦ absurd (cc (prepared_of-delete_self uid claims))
    | inr ne ↦ inr (sym (prepared_of-delete_ne uid other claims ne) ∙ p)
  ]

  create-IsSafe :
      (old new : PreparedClaims) (w : World env)
      → Holds laws old w
      → ((uid : String) (ds : List PreparedDevice)
          → prepared_of uid new ≡ some ds
          → HasSpec laws uid ds w.disk ⊎ (prepared_of uid old ≡ some ds))
      → IsSafe laws (effect (env.create_checkpoint new) w).1
  unfolding effect
  create-IsSafe old new w h covered = record {
    now = create-Consistent old new w.disk h.safe.now h.reads covered;
    past = (h.safe.now, h.safe.past);
  }

  pub insert-IsSafe :
      (claims : PreparedClaims) (uid : String) (new : PreparedDevices) (w : World env)
      → Holds laws claims w
      → HasSpec laws uid (slice new) w.disk
      → IsSafe laws (effect (env.create_checkpoint (insert uid new claims)) w).1
  insert-IsSafe claims uid new w h there =
      create-IsSafe claims (insert uid new claims) w h (insert-covered claims uid new w.disk there)

  pub delete-IsSafe :
      (claims : PreparedClaims) (uid : String) (w : World env)
      → Holds laws claims w
      → IsSafe laws (effect (env.create_checkpoint (delete uid claims)) w).1
  delete-IsSafe claims uid w h =
      create-IsSafe claims (delete uid claims) w h (delete-covered claims uid w.disk)

  pub create-reads :
      (new : PreparedClaims) (w : World env)
      → (env.create_checkpoint new w.disk).0 ≡ ok tt
      → env.get_checkpoint (effect (env.create_checkpoint new) w).1.disk ≡ ok new
  unfolding effect
  create-reads new w done = checkpoint.get-create new w.disk done

  absent_ne :
      (claims claims' : PreparedClaims) (d : env.Disk) (uid other : String)
      (ds : List PreparedDevice)
      → prepared_of uid claims ≡ none
      → env.get_checkpoint d ≡ ok claims
      → env.get_checkpoint d ≡ ok claims'
      → prepared_of other claims' ≡ some ds
      → uid ≢ other
  absent_ne claims claims' d uid other ds absent g h p e = cc

  -- Removing the spec of a claim that the checkpoint does not hold.
  pub remove-Holds :
      (claims : PreparedClaims) (uid : String)
      → prepared_of uid claims ≡ none
      → Keeps (Holds laws claims) (effect (env.remove_spec (env.spec_name uid)))
  unfolding effect
  remove-Holds claims uid absent = record {
    at = λ w h.
        let same = checkpoint.get-remove_spec (env.spec_name uid) w.disk in
        record {
          safe = record {
            now = record {
              spec_of = λ claims' other ds g p.
                  let ne =
                    absent_ne claims claims' w.disk uid other ds absent h.reads (sym same ∙ g) p in
                  let (t, at, defines) = h.safe.now.spec_of claims' other ds (sym same ∙ g) p in
                  (
                    t,
                    laws.at-remove_other (env.spec_name uid) (env.spec_name other) w.disk
                          (λ q. ne (laws.name_injective uid other q))
                        ∙ at,
                    defines,
                  );
            };
            past = (h.safe.now, h.safe.past);
          };
          reads = same ∙ h.reads;
        };
  }
