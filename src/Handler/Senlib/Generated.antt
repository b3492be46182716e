-- ===== src/Handler/Senlib/Generated.antt =====
-- What GenerateConfigContent promises of a configuration that it returns.
use dra_driver_spyre.Prelude.{
  String, false, Bool-cases, Option-cases, inl, inr, subst, ◌≡◌, refl, ap, ◌∙◌, Option, none, some,
  List, ◌==◌,
}
use dra_driver_spyre.Prelude.Any.{
  Any, Fields, null, bool, num, str, arr, obj, strs, str_map, get, put, get-put_self,
}
use dra_driver_spyre.Devices.{product_id_vf}
use dra_driver_spyre.Env.{Result, ok, err, Error, returned, raised, panicked}
use dra_driver_spyre.Handler.Senlib.{
  set_metrics, child_map, modify_riscv_content, set_general, finish, update_config,
}
use dra_driver_spyre.Handler.Senlib.Sections.{
  apart, HasGeneral, put-HasGeneral, set_general-HasGeneral, Kept, metrics_branch,
}

some-path : {a b : Fields} → some a ≡ some b → a ≡ b
some-path h = cc

none-path : {a : Fields} → none ≡ some a → ⊥
none-path h = cc

returned-path : {a b : Fields} → returned a ≡ returned b → a ≡ b
returned-path h = cc

raised-path : {a : Fields} {e : Error} → raised e ≡ returned a → ⊥
raised-path h = cc

panic-path : {a : Fields} → panicked ≡ returned a → ⊥
panic-path h = cc

-- SNT_MCI.DCR.MCI_CTRL.ENABLE_RISCV is "0x0".
pub record HasRiscvOff (config : Fields) : Type 0 where
  pub snt_mci : Fields
  pub dcr : Fields
  pub mci_ctrl : Fields
  pub section : get "SNT_MCI" config ≡ some (obj snt_mci)
  pub inner : get "DCR" snt_mci ≡ some (obj dcr)
  pub control : get "MCI_CTRL" dcr ≡ some (obj mci_ctrl)
  pub off : get "ENABLE_RISCV" mci_ctrl ≡ some (str "0x0")

module _ (product_id : String) (bus_ids : List String) where
  -- what modifyRISCVContent does where it does not panic
  record RiscvStep (config out : Fields) : Type 0 where
    keeps : HasGeneral product_id bus_ids config → HasGeneral product_id bus_ids out
    off : (product_id == product_id_vf) ≡ false → HasRiscvOff out

  riscv_off :
      (config snt_mci dcr mci_ctrl out : Fields)
      → put "SNT_MCI"
          (obj (
            put "DCR"
              (obj (put "MCI_CTRL" (obj (put "ENABLE_RISCV" (str "0x0") mci_ctrl)) dcr))
              snt_mci))
          config
        ≡ out
      → RiscvStep config out
  riscv_off config snt_mci dcr mci_ctrl out e =
      let ctrl = put "ENABLE_RISCV" (str "0x0") mci_ctrl in
      let dcr' = put "MCI_CTRL" (obj ctrl) dcr in
      let snt = put "DCR" (obj dcr') snt_mci in
      subst (RiscvStep config) e (record {
        keeps = λ h.
            put-HasGeneral product_id bus_ids "SNT_MCI" (obj snt) config
              (apart "SNT_MCI" "GENERAL" refl) h;
        off = λ _. record {
          snt_mci = snt;
          dcr = dcr';
          mci_ctrl = ctrl;
          section = get-put_self "SNT_MCI" (obj snt) config;
          inner = get-put_self "DCR" (obj dcr') snt_mci;
          control = get-put_self "MCI_CTRL" (obj ctrl) dcr;
          off = get-put_self "ENABLE_RISCV" (str "0x0") mci_ctrl;
        };
      })

  riscv_step :
      (config out : Fields)
      → modify_riscv_content product_id config ≡ some out
      → RiscvStep config out
  unfolding modify_riscv_content
  riscv_step config out h = elim (Bool-cases (product_id == product_id_vf)) [
    | inl vf ↦
        subst (RiscvStep config) (some-path (rw (modify_riscv_content, vf) at h))
          (record { keeps = λ g. g; off = λ pf. cc vf })
    | inr pf ↦ elim (Option-cases (child_map "SNT_MCI" config)) [
      | inl missing ↦ absurd (none-path (rw (modify_riscv_content, pf, missing) at h))
      | inr (snt_mci, e1) ↦ elim (Option-cases (child_map "DCR" snt_mci)) [
        | inl missing ↦ absurd (none-path (rw (modify_riscv_content, pf, e1, missing) at h))
        | inr (dcr, e2) ↦ elim (Option-cases (child_map "MCI_CTRL" dcr)) [
          | inl missing ↦ absurd (none-path (rw (modify_riscv_content, pf, e1, e2, missing) at h))
          | inr (mci_ctrl, e3) ↦
              riscv_off config snt_mci dcr mci_ctrl out
                (some-path (rw (modify_riscv_content, pf, e1, e2, e3) at h))
        ]
      ]
    ]
  ]

  -- the end of GenerateConfigContent
  finish_lem :
      (config out : Fields) (r : Result Fields)
      → Kept product_id bus_ids r
      → finish product_id config r ≡ returned out
      → HasGeneral product_id bus_ids out
        × ((product_id == product_id_vf) ≡ false → HasRiscvOff out)
  unfolding finish
  finish_lem config out (ok c) k h = elim (Option-cases (modify_riscv_content product_id c)) [
    | inl missing ↦ absurd (panic-path (rw (finish, missing) at h))
    | inr (c', e) ↦
        let step = riscv_step c out (e ∙ ap some (returned-path (rw (finish, e) at h))) in
        (step.keeps k, step.off)
  ]
  finish_lem config out (err x) k h = elim (Option-cases (modify_riscv_content product_id config)) [
    | inl missing ↦ absurd (panic-path (rw (finish, missing) at h))
    | inr (c', e) ↦ absurd (raised-path (rw (finish, e) at h))
  ]

  general_lem :
      (config out : Fields) (o : Option Any)
      → get "GENERAL" config ≡ o
      → update_config product_id bus_ids config ≡ returned out
      → HasGeneral product_id bus_ids out
        × ((product_id == product_id_vf) ≡ false → HasRiscvOff out)
  unfolding update_config
  general_lem config out none e h = absurd (raised-path (rw (update_config, e) at h))
  general_lem config out (some (obj general)) e h =
      let c = set_general product_id bus_ids general config in
      finish_lem c out (set_metrics bus_ids (get "METRICS" c) c)
        (metrics_branch product_id bus_ids (get "METRICS" c) c
          (set_general-HasGeneral product_id bus_ids general config))
        (rw (update_config, e) at h)
  general_lem config out (some null) e h = absurd (raised-path (rw (update_config, e) at h))
  general_lem config out (some (bool b)) e h = absurd (raised-path (rw (update_config, e) at h))
  general_lem config out (some (num n)) e h = absurd (raised-path (rw (update_config, e) at h))
  general_lem config out (some (str t)) e h = absurd (raised-path (rw (update_config, e) at h))
  general_lem config out (some (arr a)) e h = absurd (raised-path (rw (update_config, e) at h))
  general_lem config out (some (strs t)) e h = absurd (raised-path (rw (update_config, e) at h))
  general_lem config out (some (str_map t)) e h = absurd (raised-path (rw (update_config, e) at h))

  -- Whatever the template, where GenerateConfigContent makes a configuration, its GENERAL section holds
  -- exactly the given bus ids, and `doom`, which is true for a VF alone.
  pub update_config-HasGeneral :
      (config out : Fields)
      → update_config product_id bus_ids config ≡ returned out
      → HasGeneral product_id bus_ids out
  update_config-HasGeneral config out h = (general_lem config out (get "GENERAL" config) refl h).0

  -- Whatever the template, where GenerateConfigContent makes a configuration for a PF, its
  -- SNT_MCI.DCR.MCI_CTRL.ENABLE_RISCV is "0x0".
  pub update_config-HasRiscvOff :
      (config out : Fields)
      → (product_id == product_id_vf) ≡ false
      → update_config product_id bus_ids config ≡ returned out
      → HasRiscvOff out
  update_config-HasRiscvOff config out pf h =
      (general_lem config out (get "GENERAL" config) refl h).1 pf
