-- ===== src/Handler/Senlib/Sections.antt =====
-- What GenerateConfigContent has put into the sections of a configuration that it returns.
use dra_driver_spyre.Prelude.{
  String, Bool, true, false, Bool-cases, inl, inr, eq_iff, ◌≡◌, ◌≢◌, refl, ◌∙◌, Option, none, some,
  List, ltb, length, leb, ◌==◌,
}
use dra_driver_spyre.Prelude.Any.{
  Any, Fields, null, bool, num, str, arr, obj, strs, str_map, get, put, get-put_self, get-put_ne,
}
use dra_driver_spyre.Devices.{product_id_vf}
use dra_driver_spyre.Env.{Result, ok, err}
use dra_driver_spyre.Handler.Senlib.{
  update_section, set_multi_path, set_metric_path, set_metrics_enabled, is_enabled,
  set_metric_general, set_metrics, set_general,
}

pub apart : (a b : String) → (a == b) ≡ false → a ≢ b
apart a b n e = cc ((eq_iff a b).1 e)

-- GENERAL holds the bus ids, and `doom` for a VF alone.
pub record HasGeneral (product_id : String) (bus_ids : List String) (config : Fields) : Type 0 where
  pub general : Fields
  pub found : get "GENERAL" config ≡ some (obj general)
  pub ids : get "sen_bus_id" general ≡ some (strs bus_ids)
  pub doom : get "doom" general ≡ some (bool (product_id == product_id_vf))

module _ (product_id : String) (bus_ids : List String) where
  pub put-HasGeneral :
      (k : String) (v : Any) (c : Fields)
      → k ≢ "GENERAL"
      → HasGeneral product_id bus_ids c
      → HasGeneral product_id bus_ids (put k v c)
  put-HasGeneral k v c ne h = record {
    general = h.general;
    found = get-put_ne k "GENERAL" v c ne ∙ h.found;
    ids = h.ids;
    doom = h.doom;
  }

  pub set_general-HasGeneral :
      (general c : Fields)
      → HasGeneral product_id bus_ids (set_general product_id bus_ids general c)
  unfolding set_general
  set_general-HasGeneral general c =
      let g = put "sen_bus_id" (strs bus_ids) general in
      record {
        general = put "doom" (bool (product_id == product_id_vf)) g;
        found = get-put_self "GENERAL" (obj (put "doom" (bool (product_id == product_id_vf)) g)) c;
        ids =
            get-put_ne "doom" "sen_bus_id" (bool (product_id == product_id_vf)) g
              (apart "doom" "sen_bus_id" refl)
            ∙ get-put_self "sen_bus_id" (strs bus_ids) general;
        doom = get-put_self "doom" (bool (product_id == product_id_vf)) g;
      }

  update_section-HasGeneral :
      (key : String) (v : Any) (c : Fields)
      → key ≢ "sen_bus_id"
      → key ≢ "doom"
      → HasGeneral product_id bus_ids c
      → HasGeneral product_id bus_ids (update_section "GENERAL" key v c)
  unfolding update_section
  update_section-HasGeneral key v c ne1 ne2 h =
      rw (update_section, h.found)
        (record {
          general = put key v h.general;
          found = get-put_self "GENERAL" (obj (put key v h.general)) c;
          ids = get-put_ne key "sen_bus_id" v h.general ne1 ∙ h.ids;
          doom = get-put_ne key "doom" v h.general ne2 ∙ h.doom;
        })

  set_multi_path-HasGeneral :
      (path : String) (c : Fields)
      → HasGeneral product_id bus_ids c
      → HasGeneral product_id bus_ids (set_multi_path bus_ids path c)
  unfolding set_multi_path
  set_multi_path-HasGeneral path c h = elim (Bool-cases (ltb 1 (length bus_ids))) [
    | inl many ↦ rw many (
        update_section-HasGeneral "multi_aiu_config_path" (str path) c
          (apart "multi_aiu_config_path" "sen_bus_id" refl)
          (apart "multi_aiu_config_path" "doom" refl) h)
    | inr few ↦ rw few h
  ]

  metrics-HasGeneral :
      (v : Any) (c : Fields)
      → HasGeneral product_id bus_ids c
      → HasGeneral product_id bus_ids (put "METRICS" v c)
  metrics-HasGeneral v c h = put-HasGeneral "METRICS" v c (apart "METRICS" "GENERAL" refl) h

  enabled-HasGeneral :
      (b : Bool) (metrics general c : Fields)
      → HasGeneral product_id bus_ids c
      → HasGeneral product_id bus_ids (set_metrics_enabled b bus_ids metrics general c)
  unfolding set_metrics_enabled set_metric_path
  enabled-HasGeneral true metrics general c h = elim (Bool-cases (leb (length bus_ids) 1)) [
    | inl one ↦ rw one (metrics-HasGeneral _ c h)
    | inr many ↦
        rw many (set_multi_path-HasGeneral "/data/multi-aiu-config" _ (metrics-HasGeneral _ c h))
  ]
  enabled-HasGeneral false metrics general c h =
      set_multi_path-HasGeneral "/tmp/testing" _ (metrics-HasGeneral _ c h)

  -- every branch of METRICS that is no error
  abbrev pub Kept : Result Fields → Type 0
  Kept (ok c) = HasGeneral product_id bus_ids c
  Kept (err e) = Unit

  general_branch :
      (metrics : Fields) (o : Option Any) (c : Fields)
      → HasGeneral product_id bus_ids c
      → Kept (set_metric_general bus_ids metrics o c)
  unfolding set_metric_general
  general_branch metrics none c h =
      set_multi_path-HasGeneral "/tmp/testing" _ (metrics-HasGeneral _ c h)
  general_branch metrics (some (obj general)) c h = enable_branch (get "enable" general)
    where
      enable_branch :
          (o : Option Any)
          → Kept (elim o [
            | none ↦ ok c
            | some enable ↦ ok (set_metrics_enabled (is_enabled enable) bus_ids metrics general c)
          ])
      enable_branch none = h
      enable_branch (some enable) = enabled-HasGeneral (is_enabled enable) metrics general c h
  general_branch metrics (some null) c h = tt
  general_branch metrics (some (bool b)) c h = tt
  general_branch metrics (some (num n)) c h = tt
  general_branch metrics (some (str t)) c h = tt
  general_branch metrics (some (arr a)) c h = tt
  general_branch metrics (some (strs t)) c h = tt
  general_branch metrics (some (str_map t)) c h = tt

  pub metrics_branch :
      (o : Option Any) (c : Fields)
      → HasGeneral product_id bus_ids c
      → Kept (set_metrics bus_ids o c)
  unfolding set_metrics
  metrics_branch none c h = set_multi_path-HasGeneral "/tmp/testing" _ (metrics-HasGeneral _ c h)
  metrics_branch (some (obj metrics)) c h = general_branch metrics (get "general" metrics) c h
  metrics_branch (some null) c h = tt
  metrics_branch (some (bool b)) c h = tt
  metrics_branch (some (num n)) c h = tt
  metrics_branch (some (str t)) c h = tt
  metrics_branch (some (arr a)) c h = tt
  metrics_branch (some (strs t)) c h = tt
  metrics_branch (some (str_map t)) c h = tt
