-- ===== src/State/Results.antt =====
-- Which devices prepareDevices prepares, and when it fails.
use dra_driver_spyre.Prelude.{
  Bool-cases, ◌≡◌, refl, sym, ap, ◌∙◌, inl, inr, ◌↔◌, some, none, List, [], ◌∷◌, ◌++◌, map, Memᴰ,
  lookup, ◌==◌, if◌then◌else◌, Option-cases,
}
use mathlib.Core.List.Memᴰ
use dra_driver_spyre.Env.{Env, ok, err, Error, DraDevice, PreparedDevice, PreparedDevices}
use dra_driver_spyre.Utils.{driver_name}
use dra_driver_spyre.Devices.Allocatable.{AllocatableDevices, SpyreDevice}
use dra_driver_spyre.Handler.Cdi.{get_claim_devices}
use dra_driver_spyre.State.{
  AllocationResult, ResourceClaim, append, get_devices, prepared_device, prepare_results,
  prepare_devices,
}

-- the results that are this driver's, in order
abbrev pub own_results : List AllocationResult → List AllocationResult
own_results [] = []
own_results (result ∷ rest) =
    let others = own_results rest in
    if result.driver == driver_name then result ∷ others else others

-- the answer to the kubelet for one result
abbrev pub dra_device : Env → AllocationResult → DraDevice
dra_device env result = record {
  request_names = result.request ∷ [];
  pool_name = result.pool;
  device_name = result.device;
  cdi_device_ids = get_claim_devices env (result.device ∷ []);
}

get_devices-append :
    (ds : PreparedDevices) (pd : PreparedDevice)
    → get_devices (append ds pd) ≡ get_devices ds ++ pd.device ∷ []
unfolding get_devices
get_devices-append none pd = refl
get_devices-append (some []) pd = refl
get_devices-append (some (e ∷ ds)) pd = ap (λ l. e.device ∷ l) (get_devices-append (some ds) pd)

append_assoc : {A : Type 0} (xs ys zs : List A) → (xs ++ ys) ++ zs ≡ xs ++ (ys ++ zs)
append_assoc [] ys zs = refl
append_assoc (x ∷ xs) ys zs = ap (λ l. x ∷ l) (append_assoc xs ys zs)

append_nil : {A : Type 0} (xs : List A) → xs ++ [] ≡ xs
append_nil [] = refl
append_nil (x ∷ xs) = ap (λ l. x ∷ l) (append_nil xs)

refused : {e : Error} {a : PreparedDevices} → err e ≡ ok a → ⊥
refused h = cc

module _ (env : Env) (allocatable : AllocatableDevices) (d : env.Disk) where
  -- Every one of this driver's results names a device that can be allocated.
  pub record IsAllocatable (results : List AllocationResult) : Type 0 where
    pub known :
        (result : AllocationResult)
        → Memᴰ result (own_results results)
        → (device : SpyreDevice) × (lookup result.device allocatable ≡ some device)

  prepare_results-lists :
      (results : List AllocationResult) (prepared out : PreparedDevices)
      → prepare_results env allocatable prepared results d ≡ ok out
      → get_devices out ≡ get_devices prepared ++ map (dra_device env) (own_results results)
  unfolding prepare_results prepared_device
  prepare_results-lists [] prepared out h =
      ap get_devices (ok_path (sym h)) ∙ sym (append_nil (get_devices prepared))
    where
      ok_path : {a b : PreparedDevices} → ok a ≡ ok b → a ≡ b
      ok_path h = cc
  prepare_results-lists (result ∷ rest) prepared out h =
      elim (Bool-cases (result.driver == driver_name)) [
        | inl own ↦ rw own (elim (Option-cases (lookup result.device allocatable)) [
          | inl missing ↦ absurd (refused (rw (prepare_results, own, missing) at h))
          | inr (device, there) ↦
              let pd = prepared_device env result device d in
              prepare_results-lists rest (append prepared pd) out
                (rw (prepare_results, own, there) at h)
              ∙ ap (λ l. l ++ map (dra_device env) (own_results rest))
                  (get_devices-append prepared pd)
              ∙ append_assoc (get_devices prepared) (pd.device ∷ [])
                  (map (dra_device env) (own_results rest))
        ])
        | inr other ↦
            rw other (prepare_results-lists rest prepared out (rw (prepare_results, other) at h))
      ]

  -- Where the claim is allocated and prepareDevices gives devices, the answer to the kubelet has one entry
  -- for each of this driver's results, in order, with its request, pool, device name and CDI names.
  pub prepare_devices-lists :
      (claim : ResourceClaim) (results : List AllocationResult) (out : PreparedDevices)
      → claim.allocation ≡ some results
      → prepare_devices env allocatable claim d ≡ ok out
      → get_devices out ≡ map (dra_device env) (own_results results)
  unfolding prepare_devices get_devices
  prepare_devices-lists claim results out a h = prepare_results-lists results none out (rw a at h)

  succeeds :
      (results : List AllocationResult) (prepared : PreparedDevices)
      → IsAllocatable results
      → (out : PreparedDevices) × (prepare_results env allocatable prepared results d ≡ ok out)
  unfolding prepare_results
  succeeds [] prepared k = (prepared, refl)
  succeeds (result ∷ rest) prepared k = elim (Bool-cases (result.driver == driver_name)) [
    | inl own ↦
        let (device, there) = k.known result (rw own (Memᴰ.head refl)) in
        let (out, h) =
          succeeds rest (append prepared (prepared_device env result device d))
            (record { known = λ r m. k.known r (rw own (Memᴰ.tail m)) }) in
        (out, rw (prepare_results, own, there) h)
    | inr other ↦
        let (out, h) = succeeds rest prepared (record { known = λ r m. k.known r (rw other m) }) in
        (out, rw (prepare_results, other) h)
  ]

  covers :
      (results : List AllocationResult) (prepared out : PreparedDevices)
      → prepare_results env allocatable prepared results d ≡ ok out
      → IsAllocatable results
  unfolding prepare_results
  covers [] prepared out h = record { known = λ r m. absurd (Memᴰ.not-nil m) }
  covers (result ∷ rest) prepared out h = elim (Bool-cases (result.driver == driver_name)) [
    | inl own ↦ elim (Option-cases (lookup result.device allocatable)) [
      | inl missing ↦ absurd (refused (rw (prepare_results, own, missing) at h))
      | inr (device, there) ↦
          let k =
            covers rest (append prepared (prepared_device env result device d)) out
              (rw (prepare_results, own, there) at h) in
          record {
            known = λ r m. elim (Memᴰ.cases_cons (rw own at m)) [
              | inl e ↦ (device, rw e there)
              | inr later ↦ k.known r later
            ];
          }
    ]
    | inr other ↦
        let k = covers rest prepared out (rw (prepare_results, other) at h) in
        record { known = λ r m. k.known r (rw other at m) }
  ]

  -- prepareDevices gives devices exactly where the claim is allocated and every one of this driver's
  -- results names a device that can be allocated; in every other case it fails.
  pub prepare_devices-ok_iff :
      (claim : ResourceClaim)
      → ((out : PreparedDevices) × (prepare_devices env allocatable claim d ≡ ok out)) ↔ (
          (results : List AllocationResult) × (claim.allocation ≡ some results)
          × IsAllocatable results)
  unfolding prepare_devices
  prepare_devices-ok_iff claim = (
    λ (out, h). elim (Option-cases claim.allocation) [
      | inl nothing ↦ absurd (refused (rw nothing at h))
      | inr (results, a) ↦ (results, a, covers results none out (rw a at h))
    ],
    λ (results, a, k). let (out, h) = succeeds results none k in (out, rw a h),
  )
