-- ===== src/Driver/Batch.antt =====
-- A batch of claims: what the loop over it keeps, and that it answers every claim.
use dra_driver_spyre.Prelude.{
  String, ◌≡◌, ◌⊎◌, refl, sym, ap, ◌∙◌, subst, inl, inr, some, List, [], ◌∷◌, Map, lookup, insert,
  Memᴰ, lookup-insert_self, lookup-insert_ne, str_cases,
}
use mathlib.Core.List.Memᴰ
use dra_driver_spyre.Env.{Env, World, Io, Error, Outcome, returned, panicked, ◌>>=◌, pure}
use dra_driver_spyre.Env.Keeps.{Keeps, Keeps-bind, Keeps-pure}
use dra_driver_spyre.Env.Laws.{CheckpointLaws, SpecLaws}
use dra_driver_spyre.Devices.Allocatable.{AllocatableDevices}
use dra_driver_spyre.State.{ResourceClaim}
use dra_driver_spyre.State.Consistent.{IsSafe}
use dra_driver_spyre.State.Crash.{prepare-IsSafe, unprepare-IsSafe}
use dra_driver_spyre.Driver.{
  answering, for_each, prepare_resource_claim, prepare_resource_claims, unprepare_resource_claim,
  unprepare_resource_claims,
}

-- There is an answer for the claim.
abbrev pub IsAnswered : {R : Type 0} → Map R → String → Type 0
IsAnswered {R} result uid = (answer : R) × (lookup uid result ≡ some answer)

insert-IsAnswered :
    {R : Type 0} (result : Map R) (uid other : String) (answer : R)
    → (uid ≡ other) ⊎ IsAnswered result other
    → IsAnswered (insert uid answer result) other
insert-IsAnswered {R} result uid other answer h = elim (str_cases uid other) [
  | inl e ↦
      subst (IsAnswered (insert uid answer result)) e (answer, lookup-insert_self uid answer result)
  | inr ne ↦ elim h [
    | inl e ↦ absurd (ne e)
    | inr (a, there) ↦ (a, lookup-insert_ne uid other answer result ne ∙ there)
  ]
]

module _ {env : Env} {X R : Type 0} (uid : X → String) (one : X → Io env R) where
  -- How a call of the loop's body, and the loop, end.
  abbrev pub Ends : {A : Type 0} → (A → World env → Type 0) → Outcome A × World env → Type 0
  Ends {A} Q (o, v) = ((a : A) × (o ≡ returned a) × Q a v) ⊎ (o ≡ panicked)

  pub for_each-Keeps :
      {P : World env → Type 0}
      → ((x : X) → Keeps P (one x))
      → (result : Map R) (xs : List X) → Keeps P (for_each uid one result xs)
  unfolding for_each
  for_each-Keeps k result [] = Keeps-pure result
  for_each-Keeps k result (x ∷ xs) =
      Keeps-bind (k x) (λ answer. for_each-Keeps k (insert (uid x) answer result) xs)

  module _ (Inv : Map R → World env → Type 0)
      (body : (x : X) (result : Map R) (w : World env)
        → Inv result w
        → Ends (λ a v. Inv (insert (uid x) a result) v) (one x w)) where
    next :
        (x : X) (xs : List X) (result : Map R) (w : World env)
        → ((a : R) (v : World env)
            → Inv (insert (uid x) a result) v
            → Ends
                (λ r u.
                  Inv r u
                  × ((k : String)
                      → ((y : X) × Memᴰ y xs × (uid y ≡ k)) ⊎ IsAnswered (insert (uid x) a result) k
                      → IsAnswered r k))
                (for_each uid one (insert (uid x) a result) xs v))
        → Ends (λ a v. Inv (insert (uid x) a result) v) (one x w)
        → Ends
            (λ r u.
              Inv r u
              × ((k : String)
                  → ((y : X) × Memᴰ y (x ∷ xs) × (uid y ≡ k)) ⊎ IsAnswered result k
                  → IsAnswered r k))
            (for_each uid one result (x ∷ xs) w)
    unfolding for_each ◌>>=◌
    next x xs result w rest (inr p) = rw p (inr refl)
    next x xs result w rest (inl (a, returns, inv)) = rw returns (elim (rest a (one x w).1 inv) [
      | inr p ↦ inr p
      | inl (r, done, (kept, answers)) ↦ inl (
        r,
        done,
        (
          kept,
          λ k there. answers k (elim there [
            | inr old ↦ inr (insert-IsAnswered result (uid x) k a (inr old))
            | inl (y, m, e) ↦ elim (Memᴰ.cases_cons m) [
              | inl q ↦ inr (insert-IsAnswered result (uid x) k a (inl (ap uid (sym q) ∙ e)))
              | inr later ↦ inl (y, later, e)
            ]
          ]),
        ),
      )
    ])

    -- The loop keeps the invariant of its map, ends in no error, and answers every claim.
    pub for_each-Ends :
        (result : Map R) (xs : List X) (w : World env)
        → Inv result w
        → Ends
            (λ r u.
              Inv r u
              × ((k : String)
                  → ((y : X) × Memᴰ y xs × (uid y ≡ k)) ⊎ IsAnswered result k
                  → IsAnswered r k))
            (for_each uid one result xs w)
    unfolding for_each pure
    for_each-Ends result [] w inv = inl (
      result,
      refl,
      (inv, λ k there. elim there [ inr old ↦ old | inl (y, m, e) ↦ absurd (Memᴰ.not-nil m) ]),
    )
    for_each-Ends result (x ∷ xs) w inv =
        next x xs result w (λ a v k. for_each-Ends (insert (uid x) a result) xs v k)
          (body x result w inv)

answering-Keeps :
    {env : Env} {A B : Type 0} {P : World env → Type 0} (f : A → B) (g : Error → Error)
    {m : Io env A}
    → Keeps P m
    → Keeps P (answering f g m)
unfolding answering
answering-Keeps f g k = record { at = λ w h. k.at w h }

module _ {env : Env} (checkpoint : CheckpointLaws env) (laws : SpecLaws env) where
  pub prepare_resource_claim-Keeps :
      (node_name : String) (allocatable : AllocatableDevices) (claim : ResourceClaim)
      → Keeps (IsSafe laws) (prepare_resource_claim env node_name allocatable claim)
  unfolding prepare_resource_claim
  prepare_resource_claim-Keeps node_name allocatable claim =
      answering-Keeps _ _
        (record { at = prepare-IsSafe checkpoint laws node_name allocatable claim })

  pub unprepare_resource_claim-Keeps :
      (root uid : String) → Keeps (IsSafe laws) (unprepare_resource_claim env root uid)
  unfolding unprepare_resource_claim
  unprepare_resource_claim-Keeps root uid =
      answering-Keeps _ _ (record { at = unprepare-IsSafe checkpoint laws root uid })

  -- Let the checkpoint and the CDI directory behave as documented. From a safe state, a batch of
  -- PrepareResourceClaims ends in a safe state, however its calls end: on the final disk, and on the disk
  -- before each write, every claim that the checkpoint holds as prepared has a CDI spec of exactly its
  -- devices, with their names and device nodes.
  pub prepare_resource_claims-IsSafe :
      (node_name : String) (allocatable : AllocatableDevices) (claims : List ResourceClaim)
      (w : World env)
      → IsSafe laws w
      → IsSafe laws (prepare_resource_claims env node_name allocatable claims w).1
  unfolding prepare_resource_claims prepare_resource_claim
  prepare_resource_claims-IsSafe node_name allocatable claims w h =
      (for_each-Keeps (λ claim. claim.uid) (prepare_resource_claim env node_name allocatable)
          (prepare_resource_claim-Keeps node_name allocatable) [] claims).at
        w h

  -- Let the checkpoint and the CDI directory behave as documented. From a safe state, a batch of
  -- UnprepareResourceClaims ends in a safe state, however its calls end: on the final disk, and on the disk
  -- before each write, every claim that the checkpoint holds as prepared has a CDI spec of exactly its
  -- devices, with their names and device nodes.
  pub unprepare_resource_claims-IsSafe :
      (root : String) (uids : List String) (w : World env)
      → IsSafe laws w
      → IsSafe laws (unprepare_resource_claims env root uids w).1
  unfolding unprepare_resource_claims unprepare_resource_claim
  unprepare_resource_claims-IsSafe root uids w h =
      (for_each-Keeps (λ uid. uid) (unprepare_resource_claim env root)
          (unprepare_resource_claim-Keeps root) [] uids).at
        w h
