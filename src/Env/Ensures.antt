-- ===== src/Env/Ensures.antt =====
-- What an action gives, from what holds before it: of its result where it returns, and of the world that
-- it leaves behind where it does not.
use dra_driver_spyre.Prelude.{String, ◌≡◌, refl}
use dra_driver_spyre.Env.{
  Env, World, Io, Error, Result, ok, err, rewrap, outcome_of, Outcome, returned, raised, panicked,
  continue, pure, wrapping, attempt, effect, ◌>>=◌,
}
use dra_driver_spyre.Env.Keeps.{Keeps}

-- `Q` of a result that is returned, and `E` beside an error or a panic
abbrev pub After :
    {env : Env} {A : Type 0}
    → (A → World env → Type 0)
    → (World env → Type 0)
    → Outcome A
    → World env
    → Type 0
After Q E (returned a) w = Q a w
After Q E (raised e) w = E w
After Q E panicked w = E w

pub record Ensures {env : Env} {A : Type 0} (P : World env → Type 0) (Q : A → World env → Type 0)
    (E : World env → Type 0) (m : Io env A) : Type 0 where
  pub at : (w : World env) → P w → After Q E (m w).0 (m w).1

After-Keeps :
    {env : Env} {A : Type 0} (P : World env → Type 0) (o : Outcome A) (w : World env)
    → P w
    → After (λ _. P) P o w
After-Keeps P (returned a) w h = h
After-Keeps P (raised e) w h = h
After-Keeps P panicked w h = h

pub Ensures-Keeps :
    {env : Env} {A : Type 0} {P : World env → Type 0} {m : Io env A}
    → Keeps P m
    → Ensures P (λ _. P) P m
Ensures-Keeps {P} {m} k = record { at = λ w h. After-Keeps P (m w).0 (m w).1 (k.at w h) }

module _ {env : Env} {A : Type 0} (Q : A → World env → Type 0) (E : World env → Type 0) where
  After-rewrap :
      (text : String) (o : Outcome A) (w : World env) → After Q E o w → After Q E (rewrap text o) w
  After-rewrap text (returned a) w h = h
  After-rewrap text (raised e) w h = h
  After-rewrap text panicked w h = h

  After-result :
      (r : Result A) (w : World env)
      → ((a : A) → r ≡ ok a → Q a w)
      → ((e : Error) → r ≡ err e → E w)
      → After Q E (outcome_of r) w
  After-result (ok a) w q f = q a refl
  After-result (err e) w q f = f e refl

module _ {env : Env} {A : Type 0} {P : World env → Type 0} {Q : A → World env → Type 0}
    {E : World env → Type 0} where
  pub Ensures-pure : (a : A) → ((w : World env) → P w → Q a w) → Ensures P Q E (pure a)
  unfolding pure
  Ensures-pure a q = record { at = q }

  pub Ensures-wrapping :
      (text : String) {m : Io env A} → Ensures P Q E m → Ensures P Q E (wrapping text m)
  unfolding wrapping
  Ensures-wrapping text {m} k = record {
    at = λ w h. After-rewrap Q E text (m w).0 (m w).1 (k.at w h);
  }

  pub Ensures-attempt :
      (f : env.Disk → Result A)
      → ((w : World env) (a : A) → P w → f w.disk ≡ ok a → Q a w)
      → ((w : World env) → P w → E w)
      → Ensures P Q E (attempt f)
  unfolding attempt
  Ensures-attempt f q e = record {
    at = λ w h. After-result Q E (f w.disk) w (λ a r. q w a h r) (λ _ _. e w h);
  }

  pub Ensures-effect :
      (f : env.Disk → Result A × env.Disk)
      → ((w : World env) (a : A) → P w → (f w.disk).0 ≡ ok a → Q a (effect f w).1)
      → ((w : World env) (e : Error) → P w → (f w.disk).0 ≡ err e → E (effect f w).1)
      → Ensures P Q E (effect f)
  unfolding effect
  Ensures-effect f q e = record {
    at = λ w h. After-result Q E (f w.disk).0 (effect f w).1 (λ a r. q w a h r) (λ x r. e w x h r);
  }

After-bind :
    {env : Env} {A B : Type 0} (R : A → World env → Type 0) (Q : B → World env → Type 0)
    (E : World env → Type 0) (o : Outcome A) (w : World env) (f : A → Io env B)
    → After R E o w
    → ((a : A) → Ensures (R a) Q E (f a))
    → After Q E (continue o f w).0 (continue o f w).1
After-bind R Q E (returned a) w f h k = (k a).at w h
After-bind R Q E (raised e) w f h k = h
After-bind R Q E panicked w f h k = h

module _ {env : Env} {A B : Type 0} {P : World env → Type 0} {Q : B → World env → Type 0}
    {E : World env → Type 0} where
  pub Ensures-bind :
      (R : A → World env → Type 0) {m : Io env A} {f : A → Io env B}
      → Ensures P R E m
      → ((a : A) → Ensures (R a) Q E (f a))
      → Ensures P Q E (m >>= f)
  unfolding ◌>>=◌
  Ensures-bind R {m} {f} k l = record {
    at = λ w h. After-bind R Q E (m w).0 (m w).1 f (k.at w h) l;
  }

After-weaken :
    {env : Env} {A : Type 0} {Q R : A → World env → Type 0} {E F : World env → Type 0}
    → ((a : A) (w : World env) → Q a w → R a w)
    → ((w : World env) → E w → F w)
    → (o : Outcome A) (w : World env) → After Q E o w
    → After R F o w
After-weaken q e (returned a) w h = q a w h
After-weaken q e (raised x) w h = e w h
After-weaken q e panicked w h = e w h

pub Ensures-weaken :
    {env : Env} {A : Type 0} {P : World env → Type 0} {Q R : A → World env → Type 0}
    {E F : World env → Type 0} {m : Io env A}
    → Ensures P Q E m
    → ((a : A) (w : World env) → Q a w → R a w)
    → ((w : World env) → E w → F w)
    → Ensures P R F m
Ensures-weaken {m} k q e = record { at = λ w h. After-weaken q e (m w).0 (m w).1 (k.at w h) }
