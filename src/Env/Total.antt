-- ===== src/Env/Total.antt =====
-- Actions that always return, and actions that never panic: one rule for each way to build an action.
use dra_driver_spyre.Prelude.{String, Bool, true, false, ◌≡◌, refl, ap, if◌then◌else◌}
use dra_driver_spyre.Env.{
  Env, World, Io, Result, ok, err, Outcome, returned, raised, panicked, rewrap, log_only,
  outcome_of, continue, pure, give, wrapping, ignoring, reading, attempt, effect, ◌>>=◌,
}

-- `m` returns, from every world.
pub record Total {env : Env} {A : Type 0} (m : Io env A) : Type 0 where
  pub at : (w : World env) → (a : A) × ((m w).0 ≡ returned a)

-- `m` ends in a result or in an error.
abbrev pub IsEnd : {A : Type 0} → Outcome A → Type 0
IsEnd (returned a) = Unit
IsEnd (raised e) = Unit
IsEnd panicked = ⊥

pub record Calm {env : Env} {A : Type 0} (m : Io env A) : Type 0 where
  pub at : (w : World env) → IsEnd (m w).0

result-IsEnd : {A : Type 0} (r : Result A) → IsEnd (outcome_of r)
result-IsEnd (ok a) = tt
result-IsEnd (err e) = tt

module _ {A B : Type 0} {env : Env} where
  continue-IsEnd :
      (o : Outcome A) (f : A → Io env B) (w : World env)
      → IsEnd o
      → ((a : A) → Calm (f a))
      → IsEnd (continue o f w).0
  continue-IsEnd (returned a) f w h k = (k a).at w
  continue-IsEnd (raised e) f w h k = tt
  continue-IsEnd panicked f w h k = absurd h

  pub Calm-bind :
      {m : Io env A} {f : A → Io env B} → Calm m → ((a : A) → Calm (f a)) → Calm (m >>= f)
  unfolding ◌>>=◌
  Calm-bind {m} {f} k l = record { at = λ w. continue-IsEnd (m w).0 f (m w).1 (k.at w) l }

  continue-Total :
      (o : Outcome A) (f : A → Io env B) (w : World env) (a : A)
      → o ≡ returned a
      → ((a : A) → Total (f a))
      → (b : B) × ((continue o f w).0 ≡ returned b)
  continue-Total (returned x) f w a h k = (k x).at w
  continue-Total (raised e) f w a h k = cc
  continue-Total panicked f w a h k = cc

  pub Total-bind :
      {m : Io env A} {f : A → Io env B} → Total m → ((a : A) → Total (f a)) → Total (m >>= f)
  unfolding ◌>>=◌
  Total-bind {m} {f} k l = record {
    at = λ w. continue-Total (m w).0 f (m w).1 (k.at w).0 (k.at w).1 l;
  }

module _ {env : Env} {A : Type 0} where
  pub Calm-pure : (a : A) → Calm {env = env} (pure a)
  unfolding pure
  Calm-pure a = record { at = λ w. tt }

  pub Calm-reading : (f : env.Disk → A) → Calm {env = env} (reading f)
  unfolding reading
  Calm-reading f = record { at = λ w. tt }

  pub Calm-attempt : (f : env.Disk → Result A) → Calm {env = env} (attempt f)
  unfolding attempt
  Calm-attempt f = record { at = λ w. result-IsEnd (f w.disk) }

  pub Calm-effect : (f : env.Disk → Result A × env.Disk) → Calm {env = env} (effect f)
  unfolding effect
  Calm-effect f = record { at = λ w. result-IsEnd (f w.disk).0 }

  pub Calm-give : (o : Outcome A) → IsEnd o → Calm {env = env} (give o)
  unfolding give
  Calm-give o h = record { at = λ w. h }

  pub Calm-if : (b : Bool) {m n : Io env A} → Calm m → Calm n → Calm (if b then m else n)
  Calm-if true k l = k
  Calm-if false k l = l

  pub Total-pure : (a : A) → Total {env = env} (pure a)
  unfolding pure
  Total-pure a = record { at = λ w. (a, refl) }

  pub Total-reading : (f : env.Disk → A) → Total {env = env} (reading f)
  unfolding reading
  Total-reading f = record { at = λ w. (f w.disk, refl) }

  pub Total-attempt :
      (f : env.Disk → Result A)
      → ((d : env.Disk) → (a : A) × (f d ≡ ok a))
      → Total {env = env} (attempt f)
  unfolding attempt
  Total-attempt f h = record { at = λ w. ((h w.disk).0, ap outcome_of (h w.disk).1) }

  pub Total-effect :
      (f : env.Disk → Result A × env.Disk)
      → ((d : env.Disk) → (a : A) × ((f d).0 ≡ ok a))
      → Total {env = env} (effect f)
  unfolding effect
  Total-effect f h = record { at = λ w. ((h w.disk).0, ap outcome_of (h w.disk).1) }

  pub Total-wrapping : (text : String) {m : Io env A} → Total m → Total (wrapping text m)
  unfolding wrapping
  Total-wrapping text k = record { at = λ w. ((k.at w).0, ap (rewrap text) (k.at w).1) }

  pub Total-if : (b : Bool) {m n : Io env A} → Total m → Total n → Total (if b then m else n)
  Total-if true k l = k
  Total-if false k l = l

logged : (o : Outcome (Unit {0})) → IsEnd o → log_only o ≡ returned tt
logged (returned _) h = refl
logged (raised e) h = refl
logged panicked h = absurd h

pub Calm-ignoring : {env : Env} {m : Io env (Unit {0})} → Calm m → Calm (ignoring m)
unfolding ignoring
Calm-ignoring {m} k = record { at = λ w. rw (logged (m w).0 (k.at w)) tt }

-- What is only logged when it fails returns, unless it panics.
pub Total-ignoring : {env : Env} {m : Io env (Unit {0})} → Calm m → Total (ignoring m)
unfolding ignoring
Total-ignoring {m} k = record { at = λ w. (tt, logged (m w).0 (k.at w)) }

-- `m` returns `a`, from every world.
pub record Gives {env : Env} {A : Type 0} (a : A) (m : Io env A) : Type 0 where
  pub at : (w : World env) → (m w).0 ≡ returned a

module _ {A B : Type 0} {env : Env} where
  continue_given :
      (o : Outcome A) (f : A → Io env B) (w : World env) (a : A)
      → o ≡ returned a
      → Total (f a)
      → (b : B) × ((continue o f w).0 ≡ returned b)
  continue_given o f w a h k = rw h (k.at w)

  pub Gives-bind :
      {a : A} {m : Io env A} (f : A → Io env B) → Gives a m → Total (f a) → Total (m >>= f)
  unfolding ◌>>=◌
  Gives-bind {a} {m} f k l = record { at = λ w. continue_given (m w).0 f (m w).1 a (k.at w) l }

module _ {env : Env} {A : Type 0} where
  pub Gives-attempt :
      (a : A) (f : env.Disk → Result A)
      → ((d : env.Disk) → f d ≡ ok a)
      → Gives {env = env} a (attempt f)
  unfolding attempt
  Gives-attempt a f h = record { at = λ w. ap outcome_of (h w.disk) }

  pub Gives-give : (a : A) (o : Outcome A) → o ≡ returned a → Gives {env = env} a (give o)
  unfolding give
  Gives-give a o h = record { at = λ w. h }

  pub Gives-wrapping :
      (text : String) {a : A} {m : Io env A} → Gives a m → Gives a (wrapping text m)
  unfolding wrapping
  Gives-wrapping text k = record { at = λ w. ap (rewrap text) (k.at w) }
