-- ===== src/Driver/Recorded.antt =====
-- PrepareResourceClaims against the checkpoint.
use dra_driver_spyre.Prelude.{
  String, ◌≡◌, ◌⊎◌, refl, sym, ap, ◌∙◌, subst, inl, inr, some, none, List, [], map, Map, lookup,
  insert, Memᴰ, lookup-insert_self, lookup-insert_ne, str_cases,
}
use dra_driver_spyre.Env.{
  Env, World, ok, err, Error, Outcome, returned, raised, panicked, DraDevice, PreparedClaims,
}
use dra_driver_spyre.Env.Ensures.{After}
use dra_driver_spyre.Env.Laws.{CheckpointLaws}
use dra_driver_spyre.Devices.Allocatable.{AllocatableDevices}
use dra_driver_spyre.State.{ResourceClaim, prepared_of, get_devices}
use dra_driver_spyre.State.Claims.{Reads, IsPrepared, prepare-After}
use dra_driver_spyre.Driver.{
  PrepareResult, KubeletDevice, kubelet_device, answered, answering, prepare_resource_claim,
  prepare_resource_claims,
}
use dra_driver_spyre.Driver.Batch.{Ends, IsAnswered, for_each-Ends}

-- The devices that were answered are those that the checkpoint holds, and a claim that was not asked for
-- has the entry it had.
pub record IsRecorded (env : Env) (old : PreparedClaims) (result : Map PrepareResult)
    (w : World env) : Type 0 where
  pub new : PreparedClaims
  pub reads : Reads env new w
  pub held :
      (uid : String) (devices : List KubeletDevice)
      → lookup uid result ≡ some (ok devices)
      → devices ≡ map kubelet_device (get_devices (prepared_of uid new))
  pub others : (uid : String) → lookup uid result ≡ none → prepared_of uid new ≡ prepared_of uid old

module _ {env : Env} (checkpoint : CheckpointLaws env) (node_name : String)
    (allocatable : AllocatableDevices) (old : PreparedClaims) where
  failed :
      (uid : String) (e : Error) (result : Map PrepareResult) (w v : World env)
      → (h : IsRecorded env old result w) → Reads env h.new v
      → IsRecorded env old (insert uid (err e) result) v
  failed uid e result w v h r = record {
    new = h.new;
    reads = r;
    held = λ k devices at. elim (str_cases uid k) [
      | inl same ↦ absurd (clash k devices same at)
      | inr ne ↦ h.held k devices (sym (lookup-insert_ne uid k (err e) result ne) ∙ at)
    ];
    others = λ k absent. elim (str_cases uid k) [
      | inl same ↦ absurd (present k same absent)
      | inr ne ↦ h.others k (sym (lookup-insert_ne uid k (err e) result ne) ∙ absent)
    ];
  }
    where
      clash :
          (k : String) (devices : List KubeletDevice)
          → uid ≡ k
          → lookup k (insert uid (err e) result) ≡ some (ok devices)
          → ⊥
      clash k devices same at =
          let self : lookup k (insert uid (err e) result) ≡ some (err e) =
            subst (λ x. lookup x (insert uid (err e) result) ≡ some (err e)) same
              (lookup-insert_self uid (err e) result) in
          cc

      present : (k : String) → uid ≡ k → lookup k (insert uid (err e) result) ≡ none → ⊥
      present k same at =
          let self : lookup k (insert uid (err e) result) ≡ some (err e) =
            subst (λ x. lookup x (insert uid (err e) result) ≡ some (err e)) same
              (lookup-insert_self uid (err e) result) in
          cc

  prepared :
      (claim : ResourceClaim) (ds : List DraDevice) (result : Map PrepareResult) (w v : World env)
      (d : env.Disk) (h : IsRecorded env old result w)
      → IsPrepared env allocatable claim h.new d ds v
      → IsRecorded env old (insert claim.uid (ok (map kubelet_device ds)) result) v
  prepared claim ds result w v d h p = record {
    new = p.new;
    reads = p.reads;
    held = λ k devices at. elim (str_cases claim.uid k) [
      | inl same ↦ of_claim k devices same at
      | inr ne ↦ rw (p.others.same k ne) (
          h.held k devices
            (sym (lookup-insert_ne claim.uid k (ok (map kubelet_device ds)) result ne) ∙ at))
    ];
    others = λ k absent. elim (str_cases claim.uid k) [
      | inl same ↦ absurd (present k same absent)
      | inr ne ↦
          p.others.same k ne
          ∙ h.others k
              (sym (lookup-insert_ne claim.uid k (ok (map kubelet_device ds)) result ne) ∙ absent)
    ];
  }
    where
      self :
          (k : String)
          → claim.uid ≡ k
          → lookup k (insert claim.uid (ok (map kubelet_device ds)) result)
            ≡ some (ok (map kubelet_device ds))
      self k same =
          subst
            (λ x.
              lookup x (insert claim.uid (ok (map kubelet_device ds)) result)
              ≡ some (ok (map kubelet_device ds)))
            same (lookup-insert_self claim.uid (ok (map kubelet_device ds)) result)

      of_claim :
          (k : String) (devices : List KubeletDevice)
          → claim.uid ≡ k
          → lookup k (insert claim.uid (ok (map kubelet_device ds)) result) ≡ some (ok devices)
          → devices ≡ map kubelet_device (get_devices (prepared_of k p.new))
      of_claim k devices same at =
          let at' = self k same in
          let e : devices ≡ map kubelet_device ds = cc in
          e
          ∙ ap (map kubelet_device) (sym p.held)
          ∙ ap (λ x. map kubelet_device (get_devices (prepared_of x p.new))) same

      present :
          (k : String)
          → claim.uid ≡ k
          → lookup k (insert claim.uid (ok (map kubelet_device ds)) result) ≡ none
          → ⊥
      present k same at = let at' = self k same in cc

  body_ends :
      (claim : ResourceClaim) (g : Error → Error) (result : Map PrepareResult) (w : World env)
      (d : env.Disk) (h : IsRecorded env old result w)
      → (o : Outcome (List DraDevice)) (v : World env)
      → After (IsPrepared env allocatable claim h.new d) (Reads env h.new) o v
      → ((a : PrepareResult) × (answered (map kubelet_device) g o ≡ returned a)
          × IsRecorded env old (insert claim.uid a result) v)
        ⊎ (answered (map kubelet_device) g o ≡ panicked)
  unfolding answered
  body_ends claim g result w d h (returned ds) v k =
      inl (ok (map kubelet_device ds), refl, prepared claim ds result w v d h k)
  body_ends claim g result w d h (raised e) v k =
      inl (err (g e), refl, failed claim.uid (g e) result w v h k)
  body_ends claim g result w d h panicked v k = inr refl

  body :
      (claim : ResourceClaim) (result : Map PrepareResult) (w : World env)
      → IsRecorded env old result w
      → Ends
          (λ claim. claim.uid)
          (prepare_resource_claim env node_name allocatable)
          (λ a v. IsRecorded env old (insert claim.uid a result) v)
          (prepare_resource_claim env node_name allocatable claim w)
  unfolding prepare_resource_claim answering
  body claim result w h =
      body_ends claim _ result w w.disk h _ _
        (prepare-After checkpoint node_name allocatable claim h.new w h.reads)

  -- Let the checkpoint behave as documented, and read as `old`. PrepareResourceClaims returns no error: it
  -- returns a result, unless a call panics. The result has an answer for every claim of the batch. The
  -- devices of each answer that is no error are those that the checkpoint then holds for the claim, and
  -- the checkpoint's entries of claims without an answer are as before.
  pub prepare_resource_claims-IsRecorded :
      (claims : List ResourceClaim) (w : World env)
      → Reads env old w
      → ((result : Map PrepareResult) × ((prepare_resource_claims env node_name allocatable claims
              w).0
            ≡ returned result)
          × IsRecorded env old result (prepare_resource_claims env node_name allocatable claims w).1
          × ((claim : ResourceClaim) → Memᴰ claim claims → IsAnswered result claim.uid))
        ⊎ ((prepare_resource_claims env node_name allocatable claims w).0 ≡ panicked)
  unfolding prepare_resource_claims lookup
  prepare_resource_claims-IsRecorded claims w h =
      elim (for_each-Ends (λ claim. claim.uid) (prepare_resource_claim env node_name allocatable)
        (IsRecorded env old) body [] claims w
        (record { new = old; reads = h; held = λ k devices at. cc; others = λ k at. refl })) [
          | inr p ↦ inr p
          | inl (result, done, (kept, answers)) ↦
              inl (result, done, kept, λ claim m. answers claim.uid (inl (claim, m, refl)))
        ]
