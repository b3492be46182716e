-- ===== src/Handler/Cdi/Clean.antt =====
-- CleanZombieConfigFolders spares the folders that are mounted.
use dra_driver_spyre.Prelude.{
  String, true, false, Bool-cases, ◌≡◌, ◌≢◌, refl, subst, inl, inr, List, [], ◌∷◌, Memᴰ, contains,
  contains_iff,
}
use dra_driver_spyre.Env.{Env, World, ok, returned, effect, attempt, reading}
use dra_driver_spyre.Env.Keeps.{
  Keeps, Keeps-bind, Keeps-pure, Keeps-ignoring, bind_rule, attempt-returned,
}
use dra_driver_spyre.Utils.{get_config_host_path, get_metrics_host_path}
use dra_driver_spyre.Handler.Cdi.{
  delete_mounted_path, existing_mounts, clean_entries, clean_zombie_config_folders,
}

module _ {env : Env} {P : World env → Type 0} (spared : String)
    (removal : (path : String) → path ≢ spared → Keeps P (effect (env.remove_all path)))
    (not_metrics : (entry : String) → env.join (get_metrics_host_path env) entry ≢ spared) where
  delete-Keeps : (path : String) → path ≢ spared → Keeps P (delete_mounted_path env path)
  unfolding delete_mounted_path
  delete-Keeps path ne = Keeps-ignoring (removal path ne)

  clean_entries-Keeps :
      (mounts entries : List String)
      → contains mounts spared ≡ true
      → Keeps P (clean_entries env mounts entries)
  unfolding clean_entries
  clean_entries-Keeps mounts [] m = Keeps-pure tt
  clean_entries-Keeps mounts (entry ∷ rest) m =
      let path = env.join (get_config_host_path env) entry in
      let later = clean_entries-Keeps mounts rest m in
      elim (Bool-cases (contains mounts path)) [
        | inl mounted ↦ rw (clean_entries, mounted) (Keeps-bind (Keeps-pure tt) (λ _. later))
        | inr free ↦
            rw (clean_entries, free)
              (Keeps-bind
                (Keeps-bind (delete-Keeps path (other mounts path free m)) (λ _.
                  delete-Keeps (env.join (get_metrics_host_path env) entry) (not_metrics entry)))
                (λ _. later))
      ]
    where
      other :
          (mounts : List String) (path : String)
          → contains mounts path ≡ false
          → contains mounts spared ≡ true
          → path ≢ spared
      other mounts path free m e = cc

  -- Let `P` be kept by the removal of any path but `spared`, and let no metrics folder be `spared`. If the
  -- walk of the CDI directory lists `paths`, and a readable spec of these mounts `spared`, then
  -- CleanZombieConfigFolders keeps `P`, however it ends: it never removes a folder that is mounted.
  pub clean_zombie_config_folders-spares :
      (root : String) (paths : List String) (w : World env)
      → env.walk root w.disk ≡ ok paths
      → Memᴰ spared (existing_mounts env root paths w.disk)
      → P w
      → P (clean_zombie_config_folders env root w).1
  unfolding clean_zombie_config_folders attempt reading
  clean_zombie_config_folders-spares root paths w walked mounted h =
      bind_rule (attempt (env.walk root)) _ w P (λ found v. P v × (v ≡ w) × (found ≡ paths)) h
        (λ found done. (h, refl, same_paths found (attempt-returned (env.walk root) w done)))
        (λ found v (hv, same, list).
          bind_rule (reading (existing_mounts env root found)) _ v P
            (λ mounts u. P u × (contains mounts spared ≡ true)) hv
            (λ mounts done. (hv, known found v mounts same list done))
            (λ mounts u (hu, m).
              bind_rule (attempt (env.read_dir (get_config_host_path env))) _ u P (λ _ t. P t) hu
                (λ _ _. hu) (λ entries t ht. (clean_entries-Keeps mounts entries m).at t ht)))
    where
      same_paths : (found : List String) → env.walk root w.disk ≡ ok found → found ≡ paths
      same_paths found e = cc walked

      known :
          (found : List String) (v : World env) (mounts : List String)
          → v ≡ w
          → found ≡ paths
          → returned (existing_mounts env root found v.disk) ≡ returned mounts
          → contains mounts spared ≡ true
      known found v mounts same list e =
          let equal : existing_mounts env root paths w.disk ≡ mounts = cc (same, list, e) in
          (contains_iff mounts spared).1 (subst (λ l. Memᴰ spared l) equal mounted)
