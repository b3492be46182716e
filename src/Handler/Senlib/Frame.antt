-- ===== src/Handler/Senlib/Frame.antt =====
-- What writing a configuration file leaves alone.
use dra_driver_spyre.Prelude.{String, List, ◌≡◌}
use dra_driver_spyre.Env.{Env, World, ok, returned}
use dra_driver_spyre.Env.Total.{
  Total, Total-bind, Total-attempt, Total-effect, Gives-bind, Gives-wrapping, Gives-attempt,
  Gives-give,
}
use dra_driver_spyre.Prelude.Any.{Fields}
use dra_driver_spyre.Env.Keeps.{Keeps, IsFramed, keeps_rules}
use dra_driver_spyre.Handler.Senlib.{
  template_file_path, update_config, generate_config_content, generate_config_file,
}

module _ {env : Env} {P : World env → Type 0} (f : IsFramed P) where
  generate_config_content-Keeps :
      (product_id : String) (ids : List String)
      → Keeps P (generate_config_content env product_id ids)
  unfolding generate_config_content
  generate_config_content-Keeps product_id ids = search keeps_rules depth 9

  pub generate_config_file-Keeps :
      (product_id : String) (ids : List String) (path : String)
      → Keeps P (generate_config_file env product_id ids path)
  unfolding generate_config_file
  generate_config_file-Keeps product_id ids path =
      search (keeps_rules, generate_config_content-Keeps, f.write_file)

-- The template is there, and GenerateConfigContent can fill it for these devices.
pub record Fills (env : Env) (product_id : String) (ids : List String) : Type 0 where
  pub text : String
  pub template : Fields
  pub config : Fields
  pub content : String
  pub there : (d : env.Disk) → env.read_file (template_file_path env) d ≡ ok text
  pub read : env.unmarshal text ≡ ok template
  pub filled : update_config product_id ids template ≡ returned config
  pub printed : env.marshal config ≡ ok content

module _ (env : Env) (product_id : String) (ids : List String)
    (fills : Fills env product_id ids) where
  generate_config_content-Total : Total (generate_config_content env product_id ids)
  unfolding generate_config_content
  generate_config_content-Total =
      Gives-bind _ (Gives-wrapping _ (Gives-attempt fills.text _ fills.there)) (
        Gives-bind _ (Gives-wrapping _ (Gives-attempt fills.template _ (λ d. fills.read))) (
          Gives-bind _ (Gives-give fills.config _ fills.filled)
            (Total-attempt _ (λ d. (fills.content, fills.printed)))))

  pub generate_config_file-Total :
      ((p s : String) (d : env.Disk) → (env.write_file p s d).0 ≡ ok tt)
      → (path : String) → Total (generate_config_file env product_id ids path)
  unfolding generate_config_file
  generate_config_file-Total written path =
      Total-bind generate_config_content-Total
        λ content. Total-effect _ (λ d. (tt, written _ content d))
