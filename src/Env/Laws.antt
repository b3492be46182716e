-- ===== src/Env/Laws.antt =====
-- What the driver relies on of the code that it calls.
use dra_driver_spyre.Prelude.{String, ◌≡◌, ◌≢◌, Option, some}
use dra_driver_spyre.Env.{Env, ok, err, Error, Spec, PreparedClaims}

-- The checkpoint: what was written is read back, a write that fails leaves the old one, and it lies
-- outside the folders and the specs that the driver writes and removes.
pub record CheckpointLaws (env : Env) : Type 0 where
  pub get-create :
      (c : PreparedClaims) (d : env.Disk)
      → (env.create_checkpoint c d).0 ≡ ok tt
      → env.get_checkpoint (env.create_checkpoint c d).1 ≡ ok c
  pub get-create_failed :
      (c : PreparedClaims) (d : env.Disk) (e : Error)
      → (env.create_checkpoint c d).0 ≡ err e
      → env.get_checkpoint (env.create_checkpoint c d).1 ≡ env.get_checkpoint d
  pub get-mkdir :
      (p : String) (d : env.Disk) → env.get_checkpoint (env.mkdir_all p d).1 ≡ env.get_checkpoint d
  pub get-remove :
      (p : String) (d : env.Disk) → env.get_checkpoint (env.remove_all p d).1 ≡ env.get_checkpoint d
  pub get-write :
      (p s : String) (d : env.Disk)
      → env.get_checkpoint (env.write_file p s d).1 ≡ env.get_checkpoint d
  pub get-uuid : (d : env.Disk) → env.get_checkpoint (env.new_uuid d).1 ≡ env.get_checkpoint d
  pub get-write_spec :
      (s : Spec) (n : String) (d : env.Disk)
      → env.get_checkpoint (env.write_spec s n d).1 ≡ env.get_checkpoint d
  pub get-remove_spec :
      (n : String) (d : env.Disk)
      → env.get_checkpoint (env.remove_spec n d).1 ≡ env.get_checkpoint d

-- The CDI directory, as the CDI library sees it: the spec under a name. A write that succeeds stores
-- the spec, neither a write nor a removal touches another name, and specs lie outside the folders and
-- the checkpoint. Claims have specs of different names.
pub record SpecLaws (env : Env) : Type 0 where
  pub spec_at : String → env.Disk → Option Spec
  pub at-write :
      (s : Spec) (n : String) (d : env.Disk)
      → (env.write_spec s n d).0 ≡ ok tt
      → spec_at n (env.write_spec s n d).1 ≡ some s
  pub at-write_other :
      (s : Spec) (n m : String) (d : env.Disk)
      → n ≢ m
      → spec_at m (env.write_spec s n d).1 ≡ spec_at m d
  pub at-remove_other :
      (n m : String) (d : env.Disk) → n ≢ m → spec_at m (env.remove_spec n d).1 ≡ spec_at m d
  pub at-create :
      (m : String) (c : PreparedClaims) (d : env.Disk)
      → spec_at m (env.create_checkpoint c d).1 ≡ spec_at m d
  pub at-mkdir : (m p : String) (d : env.Disk) → spec_at m (env.mkdir_all p d).1 ≡ spec_at m d
  pub at-remove_all : (m p : String) (d : env.Disk) → spec_at m (env.remove_all p d).1 ≡ spec_at m d
  pub at-write_file :
      (m p s : String) (d : env.Disk) → spec_at m (env.write_file p s d).1 ≡ spec_at m d
  pub at-uuid : (m : String) (d : env.Disk) → spec_at m (env.new_uuid d).1 ≡ spec_at m d
  pub name_injective : (u v : String) → env.spec_name u ≡ env.spec_name v → u ≡ v
