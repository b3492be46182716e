-- ===== src/Env/Keeps.antt =====
-- Invariants of actions: one rule for each way to build an action.
use dra_driver_spyre.Prelude.{Map, String, Bool, true, false, ◌≡◌, refl, if◌then◌else◌}
use dra_driver_spyre.Env.{
  Env, World, Io, effect, ok, err, rewrap, outcome_of, Result, Error, Outcome, returned, raised,
  panicked, continue, pure, raise, give, wrapping, ignoring, reading, attempt, ◌>>=◌,
}

-- `m` keeps `P`, however it ends.
pub record Keeps {env : Env} {A : Type 0} (P : World env → Type 0) (m : Io env A) : Type 0 where
  pub at : (w : World env) → P w → P (m w).1

module _ {env : Env} {P : World env → Type 0} where
  pub Keeps-ignoring : {m : Io env Unit} → Keeps P m → Keeps P (ignoring m)
  unfolding ignoring
  Keeps-ignoring k = record { at = λ w h. k.at w h }

module _ {env : Env} {A : Type 0} {P : World env → Type 0} where
  pub Keeps-pure : (a : A) → Keeps P (pure a)
  unfolding pure
  Keeps-pure a = record { at = λ w h. h }

  pub Keeps-raise : (e : Error) → Keeps P (raise {A = A} e)
  unfolding raise
  Keeps-raise e = record { at = λ w h. h }

  pub Keeps-give : (o : Outcome A) → Keeps P (give o)
  unfolding give
  Keeps-give o = record { at = λ w h. h }

  pub Keeps-reading : (f : env.Disk → A) → Keeps P (reading f)
  unfolding reading
  Keeps-reading f = record { at = λ w h. h }

  pub Keeps-attempt : (f : env.Disk → Result A) → Keeps P (attempt f)
  unfolding attempt
  Keeps-attempt f = record { at = λ w h. h }

  pub Keeps-wrapping : (text : String) {m : Io env A} → Keeps P m → Keeps P (wrapping text m)
  unfolding wrapping
  Keeps-wrapping text k = record { at = λ w h. k.at w h }

  pub Keeps-if : (b : Bool) {m n : Io env A} → Keeps P m → Keeps P n → Keeps P (if b then m else n)
  Keeps-if true k l = k
  Keeps-if false k l = l

module _ {env : Env} {A B : Type 0} {P : World env → Type 0} where
  continue-keeps :
      (o : Outcome A) (f : A → Io env B)
      → ((a : A) → Keeps P (f a))
      → (w : World env) → P w
      → P (continue o f w).1
  continue-keeps (returned a) f k w h = (k a).at w h
  continue-keeps (raised e) f k w h = h
  continue-keeps panicked f k w h = h

  pub Keeps-bind :
      {m : Io env A} {f : A → Io env B} → Keeps P m → ((a : A) → Keeps P (f a)) → Keeps P (m >>= f)
  unfolding ◌>>=◌
  Keeps-bind {m} {f} k l = record { at = λ w h. continue-keeps (m w).0 f l (m w).1 (k.at w h) }

module _ {env : Env} {A B : Type 0} where
  continue-returned :
      (o : Outcome A) (f : A → Io env B) (w : World env) {b : B}
      → (continue o f w).0 ≡ returned b
      → (a : A) × (o ≡ returned a) × ((f a w).0 ≡ returned b) × ((continue o f w).1 ≡ (f a w).1)
  continue-returned (returned a) f w h = (a, refl, h, refl)
  continue-returned (raised e) f w h = cc
  continue-returned panicked f w h = cc

  -- What a sequence that returns says of its parts.
  pub bind-returned :
      (m : Io env A) (f : A → Io env B) (w : World env) {b : B}
      → ((m >>= f) w).0 ≡ returned b
      → (a : A) × ((m w).0 ≡ returned a)
        × ((f a (m w).1).0 ≡ returned b)
        × (((m >>= f) w).1 ≡ (f a (m w).1).1)
  unfolding ◌>>=◌
  bind-returned m f w h = continue-returned (m w).0 f (m w).1 h

  continue_rule :
      (o : Outcome A) (f : A → Io env B) (v : World env) (R : World env → Type 0)
      (Q : A → World env → Type 0)
      → R v
      → ((a : A) → o ≡ returned a → Q a v)
      → ((a : A) (u : World env) → Q a u → R (f a u).1)
      → R (continue o f v).1
  continue_rule (returned a) f v R Q r q k = k a v (q a refl)
  continue_rule (raised e) f v R Q r q k = r
  continue_rule panicked f v R Q r q k = r

  -- Sequencing, where the second part may use that the first has returned.
  pub bind_rule :
      (m : Io env A) (f : A → Io env B) (w : World env) (R : World env → Type 0)
      (Q : A → World env → Type 0)
      → R (m w).1
      → ((a : A) → (m w).0 ≡ returned a → Q a (m w).1)
      → ((a : A) (u : World env) → Q a u → R (f a u).1)
      → R ((m >>= f) w).1
  unfolding ◌>>=◌
  bind_rule m f w R Q r q k = continue_rule (m w).0 f (m w).1 R Q r q k

-- `m` leads from `P` to `R`, however it ends.
pub record Leads {env : Env} {A : Type 0} (P R : World env → Type 0) (m : Io env A) : Type 0 where
  pub at : (w : World env) → P w → R (m w).1

pub Leads-bind :
    {env : Env} {A B : Type 0} {P R : World env → Type 0} {m : Io env A} {f : A → Io env B}
    → ((w : World env) → P w → R w)
    → Keeps P m
    → ((a : A) → Leads P R (f a))
    → Leads P R (m >>= f)
Leads-bind {P} {R} {m} {f} held k l = record {
  at = λ w h.
      bind_rule m f w R (λ _ v. P v) (held _ (k.at w h)) (λ _ _. k.at w h) (λ a u q. (l a).at u q);
}

pub ruleset keeps_rules = (
  Keeps-pure, Keeps-raise, Keeps-give, Keeps-reading, Keeps-attempt, Keeps-wrapping, Keeps-ignoring,
  Keeps-if, Keeps-bind,
)

-- `P` does not depend on the folders that the driver makes and fills, nor on its memory.
pub record IsFramed {env : Env} (P : World env → Type 0) : Type 0 where
  pub mkdir : (p : String) → Keeps P (effect (env.mkdir_all p))
  pub write_file : (p s : String) → Keeps P (effect (env.write_file p s))
  pub remove_all : (p : String) → Keeps P (effect (env.remove_all p))
  pub uuid : (w : World env) → P w → P (record w { disk = (env.new_uuid w.disk).1 })
  pub memory : (w : World env) (m : Map String) → P w → P (record w { uuid_map = m })

-- An error text changes nothing about what returns.
pub rewrap-returned :
    {A : Type 0} (text : String) (o : Outcome A) {a : A}
    → rewrap text o ≡ returned a
    → o ≡ returned a
rewrap-returned text (returned a) h = h
rewrap-returned text (raised e) h = cc
rewrap-returned text panicked h = cc

pub wrapping-returned :
    {env : Env} {A : Type 0} (text : String) (m : Io env A) (w : World env) {a : A}
    → (wrapping text m w).0 ≡ returned a
    → (m w).0 ≡ returned a
unfolding wrapping
wrapping-returned text m w h = rewrap-returned text (m w).0 h

pub outcome-returned : {A : Type 0} (r : Result A) {a : A} → outcome_of r ≡ returned a → r ≡ ok a
outcome-returned (ok a) h = cc
outcome-returned (err e) h = cc

pub effect-returned :
    {env : Env} {A : Type 0} (f : env.Disk → Result A × env.Disk) (w : World env) {a : A}
    → (effect f w).0 ≡ returned a
    → (f w.disk).0 ≡ ok a
unfolding effect
effect-returned f w h = outcome-returned (f w.disk).0 h

pub attempt-returned :
    {env : Env} {A : Type 0} (f : env.Disk → Result A) (w : World env) {a : A}
    → (attempt f w).0 ≡ returned a
    → f w.disk ≡ ok a
unfolding attempt
attempt-returned f w h = outcome-returned (f w.disk) h

-- What holds whenever `m` returns.
pub record Yields {env : Env} {A : Type 0} (Q : A → World env → Type 0) (m : Io env A)
    : Type 0 where
  pub at : (w : World env) (a : A) → (m w).0 ≡ returned a → Q a (m w).1

module _ {env : Env} {A B : Type 0} {Q : B → World env → Type 0} where
  continue-yields :
      (o : Outcome A) (f : A → Io env B) (w : World env) (b : B)
      → ((a : A) → Yields Q (f a))
      → (continue o f w).0 ≡ returned b
      → Q b (continue o f w).1
  continue-yields (returned a) f w b k h = (k a).at w b h
  continue-yields (raised e) f w b k h = cc
  continue-yields panicked f w b k h = cc

  -- The last part of a sequence decides.
  pub Yields-bind :
      (m : Io env A) {f : A → Io env B} → ((a : A) → Yields Q (f a)) → Yields Q (m >>= f)
  unfolding ◌>>=◌
  Yields-bind m {f} k = record { at = λ w b h. continue-yields (m w).0 f (m w).1 b k h }
