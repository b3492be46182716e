-- ===== src/State/Configs/Precedence.antt =====
-- GetOpaqueDeviceConfigs against its comment: the relevant configurations of the device class, then those
-- of the claim, each in the order of the list.
use dra_driver_spyre.Prelude.{
  String, Bool, true, false, ◌≡◌, refl, sym, ap, ◌∙◌, subst, Bool-cases, Option-cases, ◌⊎◌, inl,
  inr, some, List, [], ◌∷◌, ◌++◌, ◌==◌, if◌then◌else◌,
}
use dra_driver_spyre.Env.{Error, Result, ok, err}
use dra_driver_spyre.State.Configs.{
  Source, from_class, from_claim, from_other, Opaque, AllocationConfig, is_ignored, add_by_source,
  by_source, add_decoded, decode_own, decode_sources, get_opaque_device_configs,
}

-- the relevant configurations of one source, in their order
abbrev pub select : (Source → Bool) → String → List AllocationConfig → List AllocationConfig
select pick request [] = []
select pick request (config ∷ rest) =
    let later = select pick request rest in
    if is_ignored request config.requests
    then later
    else if pick config.source
    then config ∷ later
    else later

abbrev pub is_class : Source → Bool
is_class from_class = true
is_class from_claim = false
is_class (from_other s) = false

abbrev pub is_claim : Source → Bool
is_claim from_class = false
is_claim from_claim = true
is_claim (from_other s) = false

module _ {Object : Type 0} (decode : String → Result Object) (driver_name : String) where
  -- The objects are those of this driver's configurations, decoded in order.
  pub data Decodes : List AllocationConfig → List Object → Type 0 where
    nothing : Decodes [] []
    foreign :
        {config : AllocationConfig} {rest : List AllocationConfig} {objects : List Object}
        → (opaque : Opaque) → config.opaque ≡ some opaque
        → (opaque.driver == driver_name) ≡ false
        → Decodes rest objects
        → Decodes (config ∷ rest) objects
    own :
        {config : AllocationConfig} {rest : List AllocationConfig} {objects : List Object}
        {object : Object}
        → (opaque : Opaque) → config.opaque ≡ some opaque
        → (opaque.driver == driver_name) ≡ true
        → decode opaque.parameters ≡ ok object
        → Decodes rest objects
        → Decodes (config ∷ rest) (object ∷ objects)

result_cases {ℓ} :
    {A : Type ℓ} (r : Result A) → ((a : A) × (r ≡ ok a)) ⊎ ((e : Error) × (r ≡ err e))
result_cases (ok a) = inl (a, refl)
result_cases (err e) = inr (e, refl)

-- what one configuration adds to the two lists
add_lem :
    (config : AllocationConfig) (s : Source)
    (later : Result (List AllocationConfig × List AllocationConfig))
    (class claim : List AllocationConfig)
    → add_by_source config s later ≡ ok (class, claim)
    → (class' : List AllocationConfig) × (claim' : List AllocationConfig) × (later
        ≡ ok (class', claim'))
      × (class ≡ (if is_class s then config ∷ class' else class'))
      × (claim ≡ (if is_claim s then config ∷ claim' else claim'))
unfolding add_by_source
add_lem config from_class (ok (x, y)) class claim h = (x, y, refl, cc, cc)
add_lem config from_class (err e) class claim h = cc
add_lem config from_claim (ok (x, y)) class claim h = (x, y, refl, cc, cc)
add_lem config from_claim (err e) class claim h = cc
add_lem config (from_other t) later class claim h = cc

by_source_lem :
    (request : String) (configs class claim : List AllocationConfig)
    → by_source request configs ≡ ok (class, claim)
    → (class ≡ select is_class request configs) × (claim ≡ select is_claim request configs)
unfolding by_source
by_source_lem request [] class claim h = (cc, cc)
by_source_lem request (config ∷ rest) class claim h =
    elim (Bool-cases (is_ignored request config.requests)) [
      | inl ignored ↦
          rw ignored (by_source_lem request rest class claim (rw (by_source, ignored) at h))
      | inr relevant ↦
          let (class', claim', later, e, f) =
            add_lem config config.source (by_source request rest) class claim
              (rw (by_source, relevant) at h) in
          let (g, k) = by_source_lem request rest class' claim' later in
          rw relevant (
            e ∙ ap (λ l. if is_class config.source then config ∷ l else l) g,
            f ∙ ap (λ l. if is_claim config.source then config ∷ l else l) k,
          )
    ]

module _ {Object : Type 0} (decode : String → Result Object) (driver_name : String) where
  decoded_lem :
      (r : Result Object) (later : Result (List Object)) (objects : List Object)
      → add_decoded decode driver_name r later ≡ ok objects
      → (c : Object) × (rest : List Object) × (r ≡ ok c) × (later ≡ ok rest) × (objects ≡ c ∷ rest)
  unfolding add_decoded
  decoded_lem (ok c) (ok rest) objects h = (c, rest, refl, refl, cc)
  decoded_lem (ok c) (err e) objects h = cc
  decoded_lem (err e) later objects h = cc

  decode_own-Decodes :
      (configs : List AllocationConfig) (objects : List Object)
      → decode_own decode driver_name configs ≡ ok objects
      → Decodes decode driver_name configs objects
  unfolding decode_own
  decode_own-Decodes [] objects h = subst (Decodes decode driver_name []) (ok_path h) nothing
    where
      ok_path : {a b : List Object} → ok a ≡ ok b → a ≡ b
      ok_path e = cc
  decode_own-Decodes (config ∷ rest) objects h = elim (Option-cases config.opaque) [
    | inl missing ↦ absurd (refused (rw (decode_own, missing) at h))
    | inr (opaque, there) ↦ elim (Bool-cases (opaque.driver == driver_name)) [
      | inr other ↦
          foreign opaque there other
            (decode_own-Decodes rest objects (rw (decode_own, there, other) at h))
      | inl mine ↦
          let (c, later, decoded, recursion, whole) =
            decoded_lem (decode opaque.parameters) (decode_own decode driver_name rest) objects
              (rw (decode_own, there, mine) at h) in
          subst (Decodes decode driver_name (config ∷ rest)) (sym whole)
            (own opaque there mine decoded (decode_own-Decodes rest later recursion))
    ]
  ]
    where
      refused : {e : Error} {l : List Object} → err e ≡ ok l → ⊥
      refused q = cc

  -- Where GetOpaqueDeviceConfigs returns objects, they are the decoded parameters of exactly this driver's
  -- configurations that are relevant for the request: those of the device class first, then those of the
  -- claim, both in the order of the list.
  pub get_opaque_device_configs-Decodes :
      (request : String) (configs : List AllocationConfig) (objects : List Object)
      → get_opaque_device_configs decode driver_name request configs ≡ ok objects
      → Decodes decode driver_name
          (select is_class request configs ++ select is_claim request configs)
          objects
  unfolding get_opaque_device_configs decode_sources
  get_opaque_device_configs-Decodes request configs objects h =
      elim (result_cases (by_source request configs)) [
        | inr (e, failed) ↦ absurd (refused (rw (get_opaque_device_configs, failed) at h))
        | inl ((class, claim), sources) ↦
            let (c, l) = by_source_lem request configs class claim sources in
            let owned : decode_own decode driver_name (class ++ claim) ≡ ok objects =
              rw (get_opaque_device_configs, sources) at h in
            subst (λ x. Decodes decode driver_name (x ++ select is_claim request configs) objects) c
              (subst (λ y. Decodes decode driver_name (class ++ y) objects) l
                (decode_own-Decodes (class ++ claim) objects owned))
      ]
    where
      refused : {e : Error} {l : List Object} → err e ≡ ok l → ⊥
      refused q = cc
