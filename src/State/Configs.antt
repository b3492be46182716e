-- ===== src/State/Configs.antt =====
-- GetOpaqueDeviceConfigs of internal/state/state.go: the configurations of one request of a claim, in
-- order of precedence. The decoder is an argument.
pub mod Precedence
use dra_driver_spyre.Prelude.{
  String, Bool, true, false, not, ◌&&◌, ◌≡◌, refl, ap, ◌↔◌, Bool-cases, ◌⊎◌, inl, inr, Option, none,
  some, List, [], ◌∷◌, ◌++◌, Memᴰ, contains, ◌==◌, if◌then◌else◌,
}
use mathlib.Core.List.Memᴰ
use dra_driver_spyre.Env.{Error, msg, wrap, Result, ok, err}

-- resourceapi.AllocationConfigSource: the two that the code knows, and any other text
pub data Source : Type 0 where
  from_class : Source
  from_claim : Source
  from_other : String → Source

-- the opaque part of a DeviceConfiguration, if it has one
pub record Opaque : Type 0 where
  pub driver : String
  pub parameters : String

-- DeviceAllocationConfiguration
pub record AllocationConfig : Type 0 where
  pub requests : List String
  pub source : Source
  pub opaque : Option Opaque

-- len(config.Requests) != 0 && !slices.Contains(config.Requests, request)
unfoldable pub is_ignored : String → List String → Bool
is_ignored request [] = false
is_ignored request (r ∷ rs) = not (contains (r ∷ rs) request)

-- the first loop: the configurations of the class and those of the claim
unfoldable pub add_by_source :
    AllocationConfig
    → Source
    → Result (List AllocationConfig × List AllocationConfig)
    → Result (List AllocationConfig × List AllocationConfig)
add_by_source config from_class (ok (class, claim)) = ok (config ∷ class, claim)
add_by_source config from_class (err e) = err e
add_by_source config from_claim (ok (class, claim)) = ok (class, config ∷ claim)
add_by_source config from_claim (err e) = err e
add_by_source config (from_other s) later = err (msg "invalid config source")

unfoldable pub by_source :
    String → List AllocationConfig → Result (List AllocationConfig × List AllocationConfig)
by_source request [] = ok ([], [])
by_source request (config ∷ rest) =
    let later = by_source request rest in
    if is_ignored request config.requests then later else add_by_source config config.source later

module _ {Object : Type 0} (decode : String → Result Object) (driver_name : String) where
  -- the second loop
  unfoldable pub add_decoded : Result Object → Result (List Object) → Result (List Object)
  add_decoded (ok c) (ok later) = ok (c ∷ later)
  add_decoded (ok c) (err e) = err e
  add_decoded (err e) later = err (wrap "error decoding config parameters" e)

  unfoldable pub decode_own : List AllocationConfig → Result (List Object)
  decode_own [] = ok []
  decode_own (config ∷ rest) =
      let later = decode_own rest in
      elim config.opaque [
        | none ↦ err (msg "only opaque parameters are supported by this driver")
        | some opaque ↦
            if opaque.driver == driver_name
            then add_decoded (decode opaque.parameters) later
            else later
      ]

  unfoldable pub decode_sources :
      Result (List AllocationConfig × List AllocationConfig) → Result (List Object)
  decode_sources (ok (class, claim)) = decode_own (class ++ claim)
  decode_sources (err e) = err e

  -- GetOpaqueDeviceConfigs
  unfoldable pub get_opaque_device_configs : String → List AllocationConfig → Result (List Object)
  get_opaque_device_configs request configs = decode_sources (by_source request configs)
