-- ===== src/Handler/Senlib.antt =====
-- internal/handler/config/senlib_config_generator.go: the senlib configuration of a claim, made from a
-- template. The map of the template is changed in place in the source; here each step gives the new
-- map. A type assertion without `ok` that fails is a panic.
pub mod Frame
pub mod Sections
pub mod Generated
pub mod Runs
use dra_driver_spyre.Prelude.{
  String, Bool, true, false, Option, none, some, List, [], ◌∷◌, length, ltb, leb, ◌==◌,
  if◌then◌else◌,
}
use dra_driver_spyre.Prelude.Any.{Any, Fields, bool, str, obj, strs, empty, get, put}
use dra_driver_spyre.Strings.{str_append}
use dra_driver_spyre.Devices.{product_id_vf}
use dra_driver_spyre.Env.{
  Env, Io, Result, ok, err, msg, Outcome, returned, raised, panicked, ◌>>=◌, attempt, effect, give,
  wrapping,
}
use dra_driver_spyre.Utils.{get_config_file_name, get_env_or_default}

-- m[key] = value for the map under a key of the configuration, `configMap[section].(map[string]any)`
pub update_section : String → String → Any → Fields → Fields
update_section section key value config = elim (get section config) [
  | some (obj m) ↦ put section (obj (put key value m)) config
  | _ ↦ config
]

-- what is written for METRICS.general where the template has none
abbrev pub default_metric_general : Any
default_metric_general = obj (put "enable" (bool false) (put "path" (str "./sentientmap") empty))

-- the bus id that names the metrics of a single device
pub first_bus_id : List String → String
first_bus_id [] = "unknown"
first_bus_id (b ∷ _) = if b == "" then "unknown" else b

-- GENERAL.multi_aiu_config_path, for more than one device only
pub set_multi_path : List String → String → Fields → Fields
set_multi_path bus_ids path config =
    if ltb 1 (length bus_ids)
    then update_section "GENERAL" "multi_aiu_config_path" (str path) config
    else config

-- METRICS.general.path
pub set_metric_path : String → Fields → Fields → Fields → Fields
set_metric_path path metrics general config =
    put "METRICS" (obj (put "general" (obj (put "path" (str path) general)) metrics)) config

-- METRICS.general.enable, where a value that is no bool counts as false
is_enabled : Any → Bool
is_enabled (bool b) = b
is_enabled _ = false

-- the branch of METRICS.general with its `enable`
pub set_metrics_enabled : Bool → List String → Fields → Fields → Fields → Fields
set_metrics_enabled true bus_ids metrics general config =
    if leb (length bus_ids) 1
    then set_metric_path (str_append "/data/sentientmap_" (first_bus_id bus_ids)) metrics general
        config
    else set_multi_path bus_ids "/data/multi-aiu-config"
        (set_metric_path "/data/multi-aiu-sentientmap" metrics general config)
set_metrics_enabled false bus_ids metrics general config =
    set_multi_path bus_ids "/tmp/testing" (set_metric_path "./sentientmap" metrics general config)

-- the branches of METRICS.general; where it has no `enable` nothing is written
set_metric_general : List String → Fields → Option Any → Fields → Result Fields
set_metric_general bus_ids metrics none config = ok (
    set_multi_path bus_ids "/tmp/testing"
      (put "METRICS" (obj (put "general" default_metric_general metrics)) config))
set_metric_general bus_ids metrics (some (obj general)) config = elim (get "enable" general) [
  | none ↦ ok config
  | some enable ↦ ok (set_metrics_enabled (is_enabled enable) bus_ids metrics general config)
]
set_metric_general bus_ids metrics (some _) config = err (msg "failed to parse METRICS.general")

-- the branches of METRICS
pub set_metrics : List String → Option Any → Fields → Result Fields
unfolding set_metric_general is_enabled
set_metrics bus_ids none config = ok (
    set_multi_path bus_ids "/tmp/testing"
      (put "METRICS" (obj (put "general" default_metric_general empty)) config))
set_metrics bus_ids (some (obj metrics)) config =
    set_metric_general bus_ids metrics (get "general" metrics) config
set_metrics bus_ids (some _) config = err (msg "failed to parse METRICS")

-- `m[key]` made an empty map where it is missing, and taken as a map: none is a panic
child_map : String → Fields → Option Fields
child_map key m = elim (get key m) [
  | none ↦ some empty
  | some (obj child) ↦ some child
  | some _ ↦ none
]

-- modifyRISCVContent; `none` is a panic of a type assertion
pub modify_riscv_content : String → Fields → Option Fields
unfolding child_map
modify_riscv_content product_id config =
    if product_id == product_id_vf then some config else (elim (child_map "SNT_MCI" config) [
      | none ↦ none
      | some snt_mci ↦ elim (child_map "DCR" snt_mci) [
        | none ↦ none
        | some dcr ↦ elim (child_map "MCI_CTRL" dcr) [
          | none ↦ none
          | some mci_ctrl ↦
              let ctrl = put "ENABLE_RISCV" (str "0x0") mci_ctrl in
              let dcr' = put "MCI_CTRL" (obj ctrl) dcr in
              some (put "SNT_MCI" (obj (put "DCR" (obj dcr') snt_mci)) config)
        ]
      ]
    ])

-- GENERAL.sen_bus_id and GENERAL.doom
pub set_general : String → List String → Fields → Fields → Fields
set_general product_id bus_ids general config =
    put "GENERAL"
      (obj
        (put "doom" (bool (product_id == product_id_vf)) (put "sen_bus_id" (strs bus_ids) general)))
      config

-- after METRICS: modifyRISCVContent runs whether METRICS could be read or not, and its map is the
-- result if METRICS could be read
finish : String → Fields → Result Fields → Outcome Fields
finish product_id config (ok config') = elim (modify_riscv_content product_id config') [
  | none ↦ panicked
  | some config'' ↦ returned config''
]
finish product_id config (err e) = elim (modify_riscv_content product_id config) [
  | none ↦ panicked
  | some _ ↦ raised e
]

-- the body of GenerateConfigContent between Unmarshal and Marshal
pub update_config : String → List String → Fields → Outcome Fields
unfolding finish
update_config product_id bus_ids config = elim (get "GENERAL" config) [
  | none ↦ raised (msg "cannot find GENERAL config")
  | some (obj general) ↦
      let config' = set_general product_id bus_ids general config in
      finish product_id config' (set_metrics bus_ids (get "METRICS" config') config')
  | some _ ↦ raised (msg "failed to parse GENERAL")
]

module _ (env : Env) where
  -- NewSenlibConfigGenerator
  pub template_file_path : String
  template_file_path =
      str_append
        (get_env_or_default env "SENLIB_CONFIG_TEMPLATE_FILEPATH" "/etc/senlib-config-template")
        (str_append "/" (get_config_file_name env))

  -- GenerateConfigContent
  pub generate_config_content : String → List String → Io env String
  generate_config_content product_id bus_ids = do
    file ← wrapping "error opening file" (attempt (env.read_file template_file_path))
    config ← wrapping "error unmarshalling JSON" (attempt (λ _. env.unmarshal file))
    config' ← give (update_config product_id bus_ids config)
    attempt (λ _. env.marshal config')

  -- GenerateConfigFile
  pub generate_config_file : String → List String → String → Io env (Unit {0})
  generate_config_file product_id bus_ids output_path = do
    content ← generate_config_content product_id bus_ids
    effect (env.write_file (env.join output_path (get_config_file_name env)) content)
