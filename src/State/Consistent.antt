-- ===== src/State/Consistent.antt =====
-- The disks that a crash of the driver may leave behind: what is asked of them, and which writes keep it.
use dra_driver_spyre.Prelude.{
  String, ◌≡◌, sym, ◌∙◌, ap, ◌≢◌, inl, inr, some, none, List, [], ◌∷◌, insert, delete,
  lookup-insert_self, lookup-insert_ne, lookup-delete_self, lookup-delete_ne, str_cases,
}
use dra_driver_spyre.Env.{
  Env, World, Result, ok, Spec, PreparedDevice, PreparedDevices, PreparedClaims, effect,
}
use dra_driver_spyre.Env.Keeps.{Keeps, IsFramed}
use dra_driver_spyre.Env.Laws.{CheckpointLaws, SpecLaws}
use dra_driver_spyre.Handler.Cdi.Defines.{Defines}
use dra_driver_spyre.State.{prepared_of, entry_or_nil}

pub prepared_of-insert_self :
    (uid : String) (ds : PreparedDevices) (claims : PreparedClaims)
    → prepared_of uid (insert uid ds claims) ≡ ds
unfolding prepared_of
prepared_of-insert_self uid ds claims = ap entry_or_nil (lookup-insert_self uid ds claims)

pub prepared_of-insert_ne :
    (uid other : String) (ds : PreparedDevices) (claims : PreparedClaims)
    → uid ≢ other
    → prepared_of other (insert uid ds claims) ≡ prepared_of other claims
unfolding prepared_of
prepared_of-insert_ne uid other ds claims ne =
    ap entry_or_nil (lookup-insert_ne uid other ds claims ne)

pub prepared_of-delete_self :
    (uid : String) (claims : PreparedClaims) → prepared_of uid (delete uid claims) ≡ none
unfolding prepared_of
prepared_of-delete_self uid claims = ap entry_or_nil (lookup-delete_self uid claims)

pub prepared_of-delete_ne :
    (uid other : String) (claims : PreparedClaims)
    → uid ≢ other
    → prepared_of other (delete uid claims) ≡ prepared_of other claims
unfolding prepared_of
prepared_of-delete_ne uid other claims ne = ap entry_or_nil (lookup-delete_ne uid other claims ne)

-- `P` of every disk in a history
abbrev pub Always : {D : Type 0} → (D → Type 0) → List D → Type 0
Always P [] = Unit
Always P (d ∷ ds) = P d × Always P ds

module _ {env : Env} (laws : SpecLaws env) where
  abbrev pub HasSpec : String → List PreparedDevice → env.Disk → Type 0
  HasSpec uid ds d = (s : Spec) × (laws.spec_at (env.spec_name uid) d ≡ some s) × Defines ds s

  -- Every claim that the checkpoint holds as prepared has a CDI spec, which defines its devices.
  pub record Consistent (d : env.Disk) : Type 0 where
    pub spec_of :
        (claims : PreparedClaims) (uid : String) (ds : List PreparedDevice)
        → env.get_checkpoint d ≡ ok claims
        → prepared_of uid claims ≡ some ds
        → HasSpec uid ds d

  -- It holds of the disk, and of each disk that there was since.
  pub record IsSafe (w : World env) : Type 0 where
    pub now : Consistent w.disk
    pub past : Always Consistent w.history

  -- While the checkpoint reads as `claims`.
  pub record Holds (claims : PreparedClaims) (w : World env) : Type 0 where
    pub safe : IsSafe w
    pub reads : env.get_checkpoint w.disk ≡ ok claims

  pub same-Consistent :
      (d e : env.Disk)
      → env.get_checkpoint e ≡ env.get_checkpoint d
      → ((m : String) → laws.spec_at m e ≡ laws.spec_at m d)
      → Consistent d
      → Consistent e
  same-Consistent d e same_claims same_specs c = record {
    spec_of = λ claims uid ds g p.
        let (s, at, defines) = c.spec_of claims uid ds (cc) p in
        (s, same_specs (env.spec_name uid) ∙ at, defines);
  }

  write_clash :
      (claims claims' : PreparedClaims) (d : env.Disk) (uid other : String)
      (ds : List PreparedDevice)
      → prepared_of uid claims ≡ none
      → env.get_checkpoint d ≡ ok claims
      → env.get_checkpoint d ≡ ok claims'
      → uid ≡ other
      → prepared_of other claims' ≡ some ds
      → ⊥
  write_clash claims claims' d uid other ds absent g h e p = cc

  -- Writing the files of the driver, which are neither the checkpoint nor specs.
  pub effect-Holds :
      {A : Type 0} (claims : PreparedClaims) (f : env.Disk → Result A × env.Disk)
      → ((d : env.Disk) → env.get_checkpoint (f d).1 ≡ env.get_checkpoint d)
      → ((m : String) (d : env.Disk) → laws.spec_at m (f d).1 ≡ laws.spec_at m d)
      → Keeps (Holds claims) (effect f)
  unfolding effect
  effect-Holds claims f same_claims same_specs = record {
    at = λ w h. record {
      safe = record {
        now =
            same-Consistent w.disk (f w.disk).1 (same_claims w.disk) (λ m. same_specs m w.disk)
              h.safe.now;
        past = (h.safe.now, h.safe.past);
      };
      reads = same_claims w.disk ∙ h.reads;
    };
  }

  -- A write beside the checkpoint and the specs, whatever the checkpoint holds.
  pub effect-IsSafe :
      {A : Type 0} (f : env.Disk → Result A × env.Disk)
      → ((d : env.Disk) → env.get_checkpoint (f d).1 ≡ env.get_checkpoint d)
      → ((m : String) (d : env.Disk) → laws.spec_at m (f d).1 ≡ laws.spec_at m d)
      → Keeps IsSafe (effect f)
  unfolding effect
  effect-IsSafe f same_claims same_specs = record {
    at = λ w h. record {
      now =
          same-Consistent w.disk (f w.disk).1 (same_claims w.disk) (λ m. same_specs m w.disk) h.now;
      past = (h.now, h.past);
    };
  }

  pub Holds-IsFramed : CheckpointLaws env → (claims : PreparedClaims) → IsFramed (Holds claims)
  Holds-IsFramed checkpoint claims = record {
    mkdir = λ p.
        effect-Holds claims (env.mkdir_all p) (checkpoint.get-mkdir p) (λ m d. laws.at-mkdir m p d);
    write_file = λ p s.
        effect-Holds claims (env.write_file p s) (checkpoint.get-write p s)
          (λ m d. laws.at-write_file m p s d);
    remove_all = λ p.
        effect-Holds claims (env.remove_all p) (checkpoint.get-remove p)
          (λ m d. laws.at-remove_all m p d);
    uuid = λ w h. record {
      safe = record {
        now =
            same-Consistent w.disk (env.new_uuid w.disk).1 (checkpoint.get-uuid w.disk)
              (λ m. laws.at-uuid m w.disk) h.safe.now;
        past = h.safe.past;
      };
      reads = checkpoint.get-uuid w.disk ∙ h.reads;
    };
    memory =
        λ w m h. record { safe = record { now = h.safe.now; past = h.safe.past }; reads = h.reads };
  }

  -- Writing the spec of a claim that the checkpoint does not hold.
  pub write_spec-Holds :
      CheckpointLaws env
      → (claims : PreparedClaims) (uid : String) → prepared_of uid claims ≡ none
      → (s : Spec) → Keeps (Holds claims) (effect (env.write_spec s (env.spec_name uid)))
  unfolding effect
  write_spec-Holds checkpoint claims uid absent s = record {
    at = λ w h.
        let same = checkpoint.get-write_spec s (env.spec_name uid) w.disk in
        record {
          safe = record {
            now = record {
              spec_of = λ claims' other ds g p. elim (str_cases uid other) [
                | inl e ↦ absurd (
                    write_clash claims claims' w.disk uid other ds absent h.reads (sym same ∙ g) e
                      p)
                | inr ne ↦
                    let (t, at, defines) = h.safe.now.spec_of claims' other ds (sym same ∙ g) p in
                    (
                      t,
                      laws.at-write_other s (env.spec_name uid) (env.spec_name other) w.disk
                            (λ q. ne (laws.name_injective uid other q))
                          ∙ at,
                      defines,
                    )
              ];
            };
            past = (h.safe.now, h.safe.past);
          };
          reads = same ∙ h.reads;
        };
  }
