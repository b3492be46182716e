-- ===== src/Topology/Defs.antt =====
-- pkg/topology/types/pcitopo/pcitopo.go: the topology document.
use dra_driver_spyre.Prelude.{String, Bool, Option, none, some, [], Map}
use dra_driver_spyre.Prelude.Int.{ℤ}
use dra_driver_spyre.Prelude.Any.{Fields}

-- A nil map has no entries.
abbrev pub entries {ℓ} : {V : Type ℓ} → Option (Map V) → Map V
entries none = []
entries (some m) = m

pub record Peers : Type 0 where
  pub peer0 : Option (Map ℤ)
  pub peer1 : Option (Map ℤ)
  pub peer2 : Option (Map ℤ)

pub record Device : Type 0 where
  pub name : String
  pub numa_node : ℤ
  pub linkspeed : String
  pub peers : Peers
  pub spyre_vf_peers : Peers
  pub device_id : String
  pub is_pf : Bool
  pub metadata : Option Fields

-- `version` is a float in the source; no code reads it, and it stands as its text.
pub record Pcitopo : Type 0 where
  pub timestamp : String
  pub version : String
  pub server : String
  pub num_devices : ℤ
  pub devices : Option (Map Device)
  pub spyre_vf_num_devices : ℤ
  pub spyre_vf_devices : Option (Map Device)
