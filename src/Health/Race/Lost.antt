-- ===== src/Health/Race/Lost.antt =====
-- When the client is left to nobody: no goroutine listens, and none will.
use dra_driver_spyre.Prelude.{
  Bool, true, false, ◌≡◌, ◌⊎◌, inl, inr, refl, sym, ap, ◌∙◌, subst, List, [], ◌∷◌, ◌++◌, Memᴰ,
  mem_left, mem_right,
}
use mathlib.Core.List.Memᴰ
use dra_driver_spyre.Health.Race.{
  Place, starting, receiving, unwinding, spawned, trying, dialling, leaving, Client, Moves,
  start_registered, start_failed, stream_ended, not_running, swapped, not_yet, failed, registered,
  released, told_to_stop, recovered, gave_up, skipped, already_running, Step, goes, AnyMove, moves,
  quits, Steps, done, after, started,
}

-- A goroutine there listens, or will try to register.
abbrev pub is_active : Place → Bool
is_active starting = true
is_active receiving = true
is_active unwinding = false
is_active spawned = true
is_active trying = true
is_active dialling = true
is_active leaving = false

abbrev pub IsServed : Client → Type 0
IsServed s = (p : Place) × Memᴰ p s.places × (is_active p ≡ true)

-- No goroutine is left, and the client is not running.
abbrev pub lost : Client
lost = record { running = false; reconnecting = false; places = [] }

in_either : (ps qs : List Place) (p : Place) → Memᴰ p (ps ++ qs) → Memᴰ p ps ⊎ Memᴰ p qs
in_either [] qs p m = inr m
in_either (x ∷ ps) qs p m = elim (Memᴰ.cases_cons m) [
  | inl e ↦ inl (Memᴰ.head e)
  | inr later ↦ elim (in_either ps qs p later) [
    | inl there ↦ inl (Memᴰ.tail there)
    | inr there ↦ inr there
  ]
]

-- what replaces an active goroutine has one too
Moves-active :
    {r c r' c' : Bool} {here : Place} {next : List Place}
    → Moves r c here next r' c'
    → is_active here ≡ true
    → (p : Place) × Memᴰ p next × (is_active p ≡ true)
Moves-active start_registered h = (receiving, Memᴰ.head refl, refl)
Moves-active start_failed h = (spawned, Memᴰ.head refl, refl)
Moves-active stream_ended h = (spawned, Memᴰ.tail (Memᴰ.head refl), refl)
Moves-active not_running h = cc
Moves-active swapped h = (trying, Memᴰ.head refl, refl)
Moves-active not_yet h = (dialling, Memᴰ.head refl, refl)
Moves-active failed h = (trying, Memᴰ.head refl, refl)
Moves-active registered h = (receiving, Memᴰ.head refl, refl)
Moves-active released h = cc

Step-IsServed : {s t : Client} → Step Moves s t → IsServed s → IsServed t
Step-IsServed (goes before later {here} {next} m) (p, there, active) =
    elim (in_either before (here ∷ later) p there) [
      | inl b ↦ (p, mem_left p before (next ++ later) b, active)
      | inr rest ↦ elim (Memᴰ.cases_cons rest) [
        | inr l ↦ (p, mem_right p before (next ++ later) (mem_right p next later l), active)
        | inl e ↦
            let (q, new, act) = Moves-active m (ap is_active (sym e) ∙ active) in
            (q, mem_right q before (next ++ later) (mem_left q next later new), act)
      ]
    ]

Steps-keep-IsServed : {s t : Client} → Steps Moves s t → IsServed s → IsServed t
Steps-keep-IsServed done h = h
Steps-keep-IsServed (after steps last) h = Step-IsServed last (Steps-keep-IsServed steps h)

-- As long as no goroutine quits, the client is served: in every state that it reaches from its start, some
-- goroutine listens or will try to register. A goroutine quits where it is told to stop, where listen
-- recovers from a panic of setAndNotify, or where attemptReconnect has no attempt left, finds
-- `reconnecting` set, or finds `running` set in Register.
pub Steps-IsServed : (s : Client) → Steps Moves started s → IsServed s
Steps-IsServed s steps = Steps-keep-IsServed steps (starting, Memᴰ.head refl, refl)

not-IsServed : IsServed lost → ⊥
not-IsServed (p, there, active) = absurd (Memᴰ.not-nil there)

-- The move is none by which Register fails, and of those by which a goroutine quits, it can only be that
-- Register finds `running` set.
abbrev IsUndisturbed :
    {r c r' c' : Bool} {here : Place} {next : List Place} → AnyMove r c here next r' c' → Type 0
IsUndisturbed (moves start_registered) = Unit
IsUndisturbed (moves start_failed) = ⊥
IsUndisturbed (moves stream_ended) = Unit
IsUndisturbed (moves not_running) = Unit
IsUndisturbed (moves swapped) = Unit
IsUndisturbed (moves not_yet) = Unit
IsUndisturbed (moves failed) = ⊥
IsUndisturbed (moves registered) = Unit
IsUndisturbed (moves released) = Unit
IsUndisturbed (quits told_to_stop) = ⊥
IsUndisturbed (quits recovered) = ⊥
IsUndisturbed (quits gave_up) = ⊥
IsUndisturbed (quits skipped) = ⊥
IsUndisturbed (quits already_running) = Unit

-- what goroutines do that nobody stops and whose Register does not fail
pub data Undisturbed : Bool → Bool → Place → List Place → Bool → Bool → Type 0 where
  undisturbed :
      {r c r' c' : Bool} {here : Place} {next : List Place} (m : AnyMove r c here next r' c')
      → IsUndisturbed m
      → Undisturbed r c here next r' c'

abbrev pub listening : Client
listening = record { running = true; reconnecting = false; places = receiving ∷ [] }

-- the new attemptReconnect finds `running` set, before listen clears it
misled : Steps Undisturbed listening lost
misled =
    after
      (after
        (after
          (after (after done (goes [] [] (undisturbed (moves stream_ended) tt)))
            (goes (unwinding ∷ []) [] (undisturbed (moves swapped) tt)))
          (goes (unwinding ∷ []) [] (undisturbed (quits already_running) tt)))
        (goes (unwinding ∷ []) [] (undisturbed (moves released) tt)))
      (goes [] [] (undisturbed (moves not_running) tt))

not_split : (ps qs : List Place) (p : Place) → ps ++ p ∷ qs ≡ [] → ⊥
not_split [] qs p e = cc
not_split (x ∷ ps) qs p e = cc

no-Step : {s t : Client} → Step AnyMove s t → s.places ≡ [] → ⊥
no-Step (goes before later {here} m) e = not_split before later here e

-- A client that is running and not reconnecting, of which one goroutine listens and no other is there, can
-- become lost although nothing stops it: by steps of which none is a Register that fails, and none quits
-- but by finding `running` set in Register. By steps of which none quits, it cannot become lost, whether
-- Register fails or not. No step leads out of the lost state.
pub stream_ended-lost :
    (s : Client)
    → s.running ≡ true
    → s.reconnecting ≡ false
    → s.places ≡ receiving ∷ []
    → Steps Undisturbed s lost × (Steps Moves s lost → ⊥) × ((t : Client) → Step AnyMove lost t → ⊥)
stream_ended-lost s up free alone =
    let start : s ≡ listening =
      ap (λ x. record { running = x; reconnecting = s.reconnecting; places = s.places }) up
      ∙ ap (λ x. record { running = true; reconnecting = x; places = s.places }) free
      ∙ ap (λ x. record { running = true; reconnecting = false; places = x }) alone in
    subst
      (λ x.
        Steps Undisturbed x lost
        × (Steps Moves x lost → ⊥)
        × ((t : Client) → Step AnyMove lost t → ⊥))
      (sym start)
      (
        misled,
        λ steps. not-IsServed (Steps-keep-IsServed steps (receiving, Memᴰ.head refl, refl)),
        λ t x. no-Step x refl,
      )
