-- ===== src/Driver/Freed.antt =====
-- UnprepareResourceClaims against the checkpoint.
use dra_driver_spyre.Prelude.{
  String, ◌≡◌, ◌≢◌, ◌⊎◌, refl, sym, ap, ◌∙◌, subst, inl, inr, some, none, List, [], Map, lookup,
  insert, delete, Memᴰ, lookup-insert_self, lookup-insert_ne, str_cases,
}
use dra_driver_spyre.Env.{
  Env, World, Result, ok, err, Error, Outcome, returned, raised, panicked, PreparedClaims,
}
use dra_driver_spyre.Env.Ensures.{After}
use dra_driver_spyre.Env.Laws.{CheckpointLaws}
use dra_driver_spyre.State.{prepared_of}
use dra_driver_spyre.State.Consistent.{prepared_of-delete_self, prepared_of-delete_ne}
use dra_driver_spyre.State.Claims.{Reads}
use dra_driver_spyre.State.Released.{IsReleased, IsHalfReleased, unprepare-After}
use dra_driver_spyre.Driver.{
  answered, answering, unprepare_resource_claim, unprepare_resource_claims,
}
use dra_driver_spyre.Driver.Batch.{Ends, IsAnswered, for_each-Ends}

abbrev Answers : Type 0
Answers = Map (Result (Unit {0}))

-- A claim that was answered without an error has no devices in the checkpoint, and a claim that was not
-- asked for has the entry it had.
pub record IsFreed (env : Env) (old : PreparedClaims) (result : Map (Result (Unit {0})))
    (w : World env) : Type 0 where
  pub new : PreparedClaims
  pub reads : Reads env new w
  pub free : (uid : String) → lookup uid result ≡ some (ok tt) → prepared_of uid new ≡ none
  pub others : (uid : String) → lookup uid result ≡ none → prepared_of uid new ≡ prepared_of uid old

-- an entry that is gone stays so when claims are deleted
delete-stays :
    (uid k : String) (claims : PreparedClaims)
    → prepared_of k claims ≡ none
    → prepared_of k (delete uid claims) ≡ none
delete-stays uid k claims h = elim (str_cases uid k) [
  | inl same ↦
      subst (λ x. prepared_of x (delete uid claims) ≡ none) same
        (prepared_of-delete_self uid claims)
  | inr ne ↦ prepared_of-delete_ne uid k claims ne ∙ h
]

refused : {x : Error} → Path (Result (Unit {0})) (err x) (ok tt) → ⊥
refused q = cc

module _ {env : Env} (old : PreparedClaims) where
  -- one more answer: what it needs
  add-IsFreed :
      (uid : String) (a : Result (Unit {0})) (result : Answers) (w v : World env)
      (h : IsFreed env old result w) (now : PreparedClaims)
      → Reads env now v
      → (a ≡ ok tt → prepared_of uid now ≡ none)
      → ((k : String) → prepared_of k h.new ≡ none → prepared_of k now ≡ none)
      → ((k : String) → uid ≢ k → prepared_of k now ≡ prepared_of k h.new)
      → IsFreed env old (insert uid a result) v
  add-IsFreed uid a result w v h now r own gone same = record {
    new = now;
    reads = r;
    free = λ k at. elim (str_cases uid k) [
      | inl e ↦ subst (λ x. prepared_of x now ≡ none) e (own (answer k e at))
      | inr ne ↦ gone k (h.free k (sym (lookup-insert_ne uid k a result ne) ∙ at))
    ];
    others = λ k absent. elim (str_cases uid k) [
      | inl e ↦ absurd (present k e absent)
      | inr ne ↦ same k ne ∙ h.others k (sym (lookup-insert_ne uid k a result ne) ∙ absent)
    ];
  }
    where
      self : (k : String) → uid ≡ k → lookup k (insert uid a result) ≡ some a
      self k e =
          subst (λ x. lookup x (insert uid a result) ≡ some a) e (lookup-insert_self uid a result)

      answer : (k : String) → uid ≡ k → lookup k (insert uid a result) ≡ some (ok tt) → a ≡ ok tt
      answer k e at = let there = self k e in cc

      present : (k : String) → uid ≡ k → lookup k (insert uid a result) ≡ none → ⊥
      present k e at = let there = self k e in cc

  body_ends :
      (uid : String) (g : Error → Error) (result : Answers) (w : World env)
      (h : IsFreed env old result w) (o : Outcome (Unit {0})) (v : World env)
      → After (λ _. IsReleased env uid h.new) (IsHalfReleased env uid h.new) o v
      → ((a : Result (Unit {0})) × (answered (λ _. tt) g o ≡ returned a)
          × IsFreed env old (insert uid a result) v)
        ⊎ (answered (λ _. tt) g o ≡ panicked)
  unfolding answered
  body_ends uid g result w h (returned _) v k = inl (
    ok tt,
    refl,
    add-IsFreed uid (ok tt) result w v h k.new k.reads (λ _. k.absent) gone k.others.same,
  )
    where
      gone : (x : String) → prepared_of x h.new ≡ none → prepared_of x k.new ≡ none
      gone x e = elim (str_cases uid x) [
        | inl same ↦ subst (λ y. prepared_of y k.new ≡ none) same k.absent
        | inr ne ↦ k.others.same x ne ∙ e
      ]
  body_ends uid g result w h (raised e) v k = inl (
    err (g e),
    refl,
    elim k.either [
      | inl same ↦
          add-IsFreed uid (err (g e)) result w v h k.new k.reads (λ q. absurd (refused q))
            (λ x a. ap (prepared_of x) same ∙ a) (λ x _. ap (prepared_of x) same)
      | inr gone ↦
          add-IsFreed uid (err (g e)) result w v h k.new k.reads (λ q. absurd (refused q))
            (λ x a. ap (prepared_of x) gone ∙ delete-stays uid x h.new a)
            (λ x ne. ap (prepared_of x) gone ∙ prepared_of-delete_ne uid x h.new ne)
    ],
  )
  body_ends uid g result w h panicked v k = inr refl

module _ {env : Env} (checkpoint : CheckpointLaws env) (root : String) (old : PreparedClaims) where
  body :
      (uid : String) (result : Answers) (w : World env)
      → IsFreed env old result w
      → Ends
          (λ uid. uid)
          (unprepare_resource_claim env root)
          (λ a v. IsFreed env old (insert uid a result) v)
          (unprepare_resource_claim env root uid w)
  unfolding unprepare_resource_claim answering
  body uid result w h =
      body_ends old uid _ result w h _ _ (unprepare-After checkpoint root uid h.new w h.reads)

  -- Let the checkpoint behave as documented, and read as `old`. UnprepareResourceClaims returns no error:
  -- it returns a result, unless a call panics. The result has an answer for every claim of the batch. A
  -- claim whose answer is no error has no devices in the checkpoint then, and the checkpoint's entries of
  -- claims without an answer are as before.
  pub unprepare_resource_claims-IsFreed :
      (uids : List String) (w : World env)
      → Reads env old w
      → ((result : Map (Result (Unit {0}))) × ((unprepare_resource_claims env root uids w).0
            ≡ returned result)
          × IsFreed env old result (unprepare_resource_claims env root uids w).1
          × ((uid : String) → Memᴰ uid uids → IsAnswered result uid))
        ⊎ ((unprepare_resource_claims env root uids w).0 ≡ panicked)
  unfolding unprepare_resource_claims lookup
  unprepare_resource_claims-IsFreed uids w h =
      elim (for_each-Ends (λ uid. uid) (unprepare_resource_claim env root) (IsFreed env old) body []
        uids w (record { new = old; reads = h; free = λ k at. cc; others = λ k at. refl })) [
          | inr p ↦ inr p
          | inl (result, done, (kept, answers)) ↦
              inl (result, done, kept, λ uid m. answers uid (inl (uid, m, refl)))
        ]
