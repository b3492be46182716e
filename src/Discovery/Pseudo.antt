-- ===== src/Discovery/Pseudo.antt =====
-- generatePseudoDevicesFromTopo: both virtual functions of every PF are there.
use dra_driver_spyre.Prelude.{
  String, Bool, true, false, ◌≡◌, ◌⊎◌, refl, sym, inl, inr, ap, ◌∙◌, Bool-cases, some, List, [],
  ◌∷◌, ◌++◌, Map, Memᴰ, lookup, has, keys, mem-keys, mem_left, mem_right, Option-cases,
}
use mathlib.Core.List.Memᴰ
use dra_driver_spyre.Prelude.Int.{ℤ}
use dra_driver_spyre.Strings.{split_last_dot, str_append}
use dra_driver_spyre.Topology.Defs.{Pcitopo, entries}
use dra_driver_spyre.Topology.Numa.{generate_numa_info_map_from_topo}
use dra_driver_spyre.Devices.{HwDevice, product_id_vf, generate_pseudo_device}
use dra_driver_spyre.Discovery.{
  lookup_numa, pseudo_devices_of, missing_vf, missing_vfs, generate_pseudo_devices_from_topo,
}

-- A virtual function with the address is among the devices.
pub record HasVf (address : String) (devices : List HwDevice) : Type 0 where
  pub numa : ℤ
  pub there : Memᴰ (generate_pseudo_device address product_id_vf numa) devices

left-HasVf :
    (address : String) (xs ys : List HwDevice) → HasVf address xs → HasVf address (xs ++ ys)
left-HasVf address xs ys h = record { numa = h.numa; there = mem_left _ xs ys h.there }

right-HasVf :
    (address : String) (xs ys : List HwDevice) → HasVf address ys → HasVf address (xs ++ ys)
right-HasVf address xs ys h = record { numa = h.numa; there = mem_right _ xs ys h.there }

listed-HasVf :
    (numa_map : Map String) (addresses : List String) (address : String)
    → Memᴰ address addresses
    → HasVf address (pseudo_devices_of product_id_vf numa_map addresses)
unfolding pseudo_devices_of
listed-HasVf numa_map [] address m = absurd (Memᴰ.not-nil m)
listed-HasVf numa_map (first ∷ rest) address m = elim (Memᴰ.cases_cons m) [
  | inl e ↦ record {
    numa = lookup_numa numa_map first;
    there =
        Memᴰ.head (ap (λ a. generate_pseudo_device a product_id_vf (lookup_numa numa_map first)) e);
  }
  | inr later ↦
      let h = listed-HasVf numa_map rest address later in
      record { numa = h.numa; there = Memᴰ.tail h.there }
]

has-keys : {V : Type 0} (key : String) (m : Map V) → has key m ≡ true → Memᴰ key (keys m)
unfolding has
has-keys key m h = elim (Option-cases (lookup key m)) [
  | inl nothing ↦ absurd (none_there (rw (has, nothing) at h))
  | inr (v, there) ↦ mem-keys key v m there
]
  where
    none_there : Path Bool false true → ⊥
    none_there e = cc

module _ (topo : Pcitopo) (numa_map : Map String) where
  -- the address of a virtual function
  abbrev vf_of : String → String → String
  vf_of base func_idx = str_append base (str_append "." func_idx)

  missing_vf_lem :
      (pf_addr base func_idx : String)
      → Memᴰ (vf_of base func_idx) (keys (entries topo.spyre_vf_devices))
        ⊎ HasVf (vf_of base func_idx) (missing_vf topo numa_map pf_addr base func_idx)
  unfolding missing_vf
  missing_vf_lem pf_addr base func_idx =
      elim (Bool-cases (has (vf_of base func_idx) (entries topo.spyre_vf_devices))) [
        | inl listed ↦ inl (has-keys _ (entries topo.spyre_vf_devices) listed)
        | inr absent ↦
            inr (rw absent (record { numa = lookup_numa numa_map pf_addr; there = Memᴰ.head refl }))
      ]

  missing_vfs_lem :
      (pfs : List String) (pf_addr base last : String)
      → Memᴰ pf_addr pfs
      → split_last_dot pf_addr ≡ some (base, last)
      → (func_idx : String) → (func_idx ≡ "1") ⊎ (func_idx ≡ "2")
      → Memᴰ (vf_of base func_idx) (keys (entries topo.spyre_vf_devices))
        ⊎ HasVf (vf_of base func_idx) (missing_vfs topo numa_map pfs)
  unfolding missing_vfs
  missing_vfs_lem [] pf_addr base last m split func_idx which = absurd (Memᴰ.not-nil m)
  missing_vfs_lem (first ∷ rest) pf_addr base last m split func_idx which =
      elim (Memᴰ.cases_cons m) [
        | inl e ↦
            let here : split_last_dot first ≡ some (base, last) =
              ap split_last_dot (sym e) ∙ split in
            rw (missing_vfs, here)
              (elim which [
                | inl one ↦ elim (missing_vf_lem first base "1") [
                  | inl there ↦ inl (rw one there)
                  | inr made ↦ inr (rw one (left-HasVf _ _ _ made))
                ]
                | inr two ↦ elim (missing_vf_lem first base "2") [
                  | inl there ↦ inl (rw two there)
                  | inr made ↦ inr (rw two (right-HasVf _ _ _ (left-HasVf _ _ _ made)))
                ]
              ])
        | inr later ↦ elim (missing_vfs_lem rest pf_addr base last later split func_idx which) [
          | inl there ↦ inl there
          | inr made ↦ inr (past first made)
        ]
      ]
    where
      past :
          (first : String)
          → HasVf (vf_of base func_idx) (missing_vfs topo numa_map rest)
          → HasVf (vf_of base func_idx) (missing_vfs topo numa_map (first ∷ rest))
      past first made = elim (Option-cases (split_last_dot first)) [
        | inl nothing ↦ rw (missing_vfs, nothing) made
        | inr (parts, there) ↦ rw (missing_vfs, there) (right-HasVf _ _ _ (right-HasVf _ _ _ made))
      ]

-- On every architecture but s390x: for a PF of the topology document whose address has a dot, the pseudo
-- devices have virtual functions at function indexes 1 and 2 of its address, listed in the document or not.
pub generate_pseudo_devices_from_topo-HasVf :
    (topo : Pcitopo) (pf_addr base last func_idx : String)
    → Memᴰ pf_addr (keys (entries topo.devices))
    → split_last_dot pf_addr ≡ some (base, last)
    → (func_idx ≡ "1") ⊎ (func_idx ≡ "2")
    → HasVf
        (str_append base (str_append "." func_idx))
        (generate_pseudo_devices_from_topo false topo)
unfolding generate_pseudo_devices_from_topo
generate_pseudo_devices_from_topo-HasVf topo pf_addr base last func_idx m split which =
    let numa_map = generate_numa_info_map_from_topo topo in
    elim (missing_vfs_lem topo numa_map (keys (entries topo.devices)) pf_addr base last m split
      func_idx which) [
        | inl listed ↦ left-HasVf _ _ _ (right-HasVf _ _ _ (listed-HasVf numa_map _ _ listed))
        | inr made ↦ right-HasVf _ _ _ made
      ]
