-- ===== src/Discovery/Targets.antt =====
-- Which devices discoverTargetDevices offers.
use dra_driver_spyre.Prelude.{
  ℕ, String, Bool, true, false, ◌≡◌, ◌↔◌, refl, sym, subst, ◌⊎◌, inl, inr, Option, none, some, List,
  [], ◌∷◌, Memᴰ, contains, contains_iff, Bool-cases, eqb, arith, if◌then◌else◌,
}
use mathlib.Core.List.Memᴰ
use dra_driver_spyre.Prelude.Int.{ℤ, pos, negsuc}
use dra_driver_spyre.Strings.{parse_int}
use dra_driver_spyre.Devices.{HwDevice}
use dra_driver_spyre.Utils.Pci.{get_vfio_device_file}
use dra_driver_spyre.Env.{Env, Error, Result, ok, err}
use dra_driver_spyre.Discovery.{
  is_supported_class, is_supported_device, keep_resolved, discover_target_devices,
}

-- A Spyre card of a supported class that is bound to vfio-pci, and whose vfio file can be found.
pub record IsTarget (env : Env) (d : env.Disk) (device : HwDevice) : Type 0 where
  pub class :
      (parse_int 16 device.class_id ≡ some (pos 0)) ⊎ (parse_int 16 device.class_id ≡ some (pos 18))
  pub product : Memᴰ device.product_id ("06a7" ∷ "06a8" ∷ [])
  pub driver : Memᴰ device.driver ("vfio-pci" ∷ [])
  pub vendor : Memᴰ device.vendor_id ("1014" ∷ [])
  pub file : (path : String) × (get_vfio_device_file env device.address d ≡ ok path)

class_codes : (n : ℕ) → (if eqb n 0 then true else eqb n 18) ≡ true → (n ≡ 0) ⊎ (n ≡ 18)
class_codes n h = ground arith

class_lem : (o : Option ℤ) → is_supported_class o ≡ true → (o ≡ some (pos 0)) ⊎ (o ≡ some (pos 18))
unfolding is_supported_class
class_lem (some (pos n)) h = elim (class_codes n h) [
  | inl e ↦ inl (rw e refl)
  | inr e ↦ inr (rw e refl)
]
class_lem (some (negsuc n)) h = cc
class_lem none h = cc

class_back : (o : Option ℤ) → (o ≡ some (pos 0)) ⊎ (o ≡ some (pos 18)) → is_supported_class o ≡ true
unfolding is_supported_class
class_back o (inl e) = rw e refl
class_back o (inr e) = rw e refl

all_four :
    (a b c d : Bool)
    → (if a then (if b then (if c then d else false) else false) else false) ≡ true
    → (a ≡ true) × (b ≡ true) × (c ≡ true) × (d ≡ true)
all_four a b c d h = ground arith

module _ (env : Env) (d : env.Disk) where
  supported_lem :
      (device : HwDevice) (path : String)
      → is_supported_device device ≡ true
      → get_vfio_device_file env device.address d ≡ ok path
      → IsTarget env d device
  unfolding is_supported_device
  supported_lem device path h e =
      let (a, b, c, v) =
        all_four (is_supported_class (parse_int 16 device.class_id))
          (contains ("06a7" ∷ "06a8" ∷ []) device.product_id)
          (contains ("vfio-pci" ∷ []) device.driver) (contains ("1014" ∷ []) device.vendor_id) h in
      record {
        class = class_lem (parse_int 16 device.class_id) a;
        product = (contains_iff ("06a7" ∷ "06a8" ∷ []) device.product_id).0 b;
        driver = (contains_iff ("vfio-pci" ∷ []) device.driver).0 c;
        vendor = (contains_iff ("1014" ∷ []) device.vendor_id).0 v;
        file = (path, e);
      }

  target_lem : (device : HwDevice) → IsTarget env d device → is_supported_device device ≡ true
  unfolding is_supported_device
  target_lem device t =
      rw
        (
          is_supported_device,
          class_back (parse_int 16 device.class_id) t.class,
          (contains_iff ("06a7" ∷ "06a8" ∷ []) device.product_id).1 t.product,
          (contains_iff ("vfio-pci" ∷ []) device.driver).1 t.driver,
          (contains_iff ("1014" ∷ []) device.vendor_id).1 t.vendor,
        )
        refl

  result_lem : (r : Result String) → ((path : String) × (r ≡ ok path)) ⊎ ((e : Error) × (r ≡ err e))
  result_lem (ok p) = inl (p, refl)
  result_lem (err e) = inr (e, refl)

  offered :
      (device : HwDevice) (listed : List HwDevice)
      → Memᴰ device (discover_target_devices env listed d)
      → Memᴰ device listed × IsTarget env d device
  unfolding discover_target_devices keep_resolved
  offered device [] m = absurd (Memᴰ.not-nil m)
  offered device (first ∷ rest) m = elim (Bool-cases (is_supported_device first)) [
    | inr unsupported ↦
        let (there, t) = offered device rest (rw (discover_target_devices, unsupported) at m) in
        (Memᴰ.tail there, t)
    | inl supported ↦ elim (result_lem (get_vfio_device_file env first.address d)) [
      | inr (e, failed) ↦
          let (there, t) =
            offered device rest (rw (discover_target_devices, supported, failed) at m) in
          (Memᴰ.tail there, t)
      | inl (path, found) ↦
          elim (Memᴰ.cases_cons (rw (discover_target_devices, supported, found) at m)) [
            | inl e ↦ (
              Memᴰ.head e,
              subst (IsTarget env d) (sym e) (supported_lem first path supported found),
            )
            | inr later ↦ let (there, t) = offered device rest later in (Memᴰ.tail there, t)
          ]
    ]
  ]

  kept :
      (first device : HwDevice) (later : List HwDevice) (r : Result String)
      → Memᴰ device later
      → Memᴰ device (keep_resolved env first r later)
  unfolding keep_resolved
  kept first device later (ok p) m = Memᴰ.tail m
  kept first device later (err e) m = m

  found_lem :
      (device : HwDevice) (listed : List HwDevice)
      → Memᴰ device listed
      → IsTarget env d device
      → Memᴰ device (discover_target_devices env listed d)
  unfolding discover_target_devices keep_resolved
  found_lem device [] m t = absurd (Memᴰ.not-nil m)
  found_lem device (first ∷ rest) m t = elim (Memᴰ.cases_cons m) [
    | inl e ↦
        let same : IsTarget env d first = subst (IsTarget env d) e t in
        let (path, found) = same.file in
        rw (discover_target_devices, target_lem first same, found) (Memᴰ.head e)
    | inr later ↦
        let there = found_lem device rest later t in
        elim (Bool-cases (is_supported_device first)) [
          | inr unsupported ↦ rw (discover_target_devices, unsupported) there
          | inl supported ↦
              rw (discover_target_devices, supported)
                (kept first device (discover_target_devices env rest d)
                  (get_vfio_device_file env first.address d) there)
        ]
  ]

  -- A device is offered exactly where it is one of the PCI devices of the node, its class code is 0 or
  -- 0x12, its product, its driver and its vendor are supported, and its vfio device file can be found.
  pub discover_target_devices_iff :
      (device : HwDevice) (listed : List HwDevice)
      → Memᴰ device (discover_target_devices env listed d)
        ↔ (Memᴰ device listed × IsTarget env d device)
  discover_target_devices_iff device listed =
      (offered device listed, λ (m, t). found_lem device listed m t)
