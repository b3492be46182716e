-- ===== src/Handler/Senlib/Runs.antt =====
-- A template with metrics switched on, and the configuration of one PF.
use dra_driver_spyre.Prelude.{String, true, false, ◌≡◌, refl, List, [], ◌∷◌}
use dra_driver_spyre.Prelude.Any.{Fields, bool, str, obj, strs, empty, field, get, put}
use dra_driver_spyre.Env.{returned}
use dra_driver_spyre.Handler.Senlib.{
  update_config, finish, set_general, set_metrics, set_metric_general, set_metrics_enabled,
  set_metric_path, set_multi_path, update_section, modify_riscv_content, child_map, is_enabled,
  first_bus_id,
}
use dra_driver_spyre.Handler.Senlib.Sections.{HasGeneral}
use dra_driver_spyre.Handler.Senlib.Generated.{
  HasRiscvOff, update_config-HasGeneral, update_config-HasRiscvOff,
}
use dra_driver_spyre.Strings.{str_append}

abbrev pub template : Fields
template =
    field "GENERAL" (obj (field "doom" (bool true) empty))
      (field "METRICS" (obj (field "general" (obj (field "enable" (bool true) empty)) empty)) empty)

abbrev pub bus_ids : List String
bus_ids = "0000:1a:00.0" ∷ []

abbrev pub made : Fields
made = field "GENERAL" (obj (field "doom" (bool false) (field "sen_bus_id" (strs bus_ids) empty))) (
    field "METRICS"
      (obj (
        field "general"
          (obj (
            field "enable" (bool true) (field "path" (str "/data/sentientmap_0000:1a:00.0") empty)))
          empty))
      (field "SNT_MCI"
        (obj (
          field "DCR" (obj (field "MCI_CTRL" (obj (field "ENABLE_RISCV" (str "0x0") empty)) empty))
            empty))
        empty))

pub makes : update_config "06a7" bus_ids template ≡ returned made
unfolding update_config finish set_general set_metrics set_metric_general set_metrics_enabled
    set_metric_path set_multi_path update_section modify_riscv_content child_map is_enabled
    first_bus_id get put str_append
makes = refl

update_config-HasGeneral_example : HasGeneral "06a7" bus_ids made
update_config-HasGeneral_example = update_config-HasGeneral "06a7" bus_ids template made makes

update_config-HasRiscvOff_example : HasRiscvOff made
update_config-HasRiscvOff_example =
    update_config-HasRiscvOff "06a7" bus_ids template made refl makes
