-- ===== src/Health/Race/Holder.antt =====
-- Who holds `reconnecting`: of all goroutines, one at most is past its CompareAndSwap.
use dra_driver_spyre.Prelude.{ℕ, ◌+◌, Bool, true, false, ◌≡◌, refl, List, [], ◌∷◌, ◌++◌, arith}
use dra_driver_spyre.Health.Race.{
  Place, starting, receiving, unwinding, spawned, trying, dialling, leaving, Client,
  start_registered, start_failed, stream_ended, not_running, swapped, not_yet, failed, registered,
  released, told_to_stop, recovered, gave_up, skipped, already_running, Step, goes, AnyMove, moves,
  quits, Steps, done, after, started,
}

-- 1 for a goroutine that has set `reconnecting` and not cleared it
abbrev holds : Place → ℕ
holds starting = 0
holds receiving = 0
holds unwinding = 0
holds spawned = 0
holds trying = 1
holds dialling = 1
holds leaving = 1

abbrev pub holders : List Place → ℕ
holders [] = 0
holders (p ∷ ps) = holds p + holders ps

abbrev pub flag : Bool → ℕ
flag true = 1
flag false = 0

holders-append : (ps qs : List Place) → holders (ps ++ qs) ≡ holders ps + holders qs
holders-append [] qs = omega arith
holders-append (p ∷ ps) qs = let later = holders-append ps qs in omega arith

-- The number of holders is 1 where `reconnecting` is set, and 0 where it is not.
abbrev pub IsHeld : Client → Type 0
IsHeld s = holders s.places ≡ flag s.reconnecting

moves-holders :
    {r c r' c' : Bool} {here : Place} {next : List Place} (rest : ℕ)
    → AnyMove r c here next r' c'
    → holds here + rest ≡ flag c
    → holders next + rest ≡ flag c'
moves-holders rest (moves start_registered) h = omega arith
moves-holders rest (moves start_failed) h = omega arith
moves-holders rest (moves stream_ended) h = omega arith
moves-holders rest (moves not_running) h = omega arith
moves-holders rest (moves swapped) h = omega arith
moves-holders rest (moves not_yet) h = omega arith
moves-holders rest (moves failed) h = omega arith
moves-holders rest (moves registered) h = omega arith
moves-holders rest (moves (released {c})) h = let none_left = one c rest h in omega arith
  where
    one : (c : Bool) (rest : ℕ) → 1 + rest ≡ flag c → rest ≡ 0
    one true rest h = omega arith
    one false rest h = omega arith
moves-holders rest (quits told_to_stop) h = omega arith
moves-holders rest (quits recovered) h = omega arith
moves-holders rest (quits gave_up) h = omega arith
moves-holders rest (quits skipped) h = omega arith
moves-holders rest (quits already_running) h = omega arith

Step-IsHeld : {s t : Client} → Step AnyMove s t → IsHeld s → IsHeld t
Step-IsHeld (goes before later {here} {next} {c} {c'} m) h =
    let whole = holders-append before (here ∷ later) in
    let new = holders-append before (next ++ later) in
    let part = holders-append next later in
    let held : holders (before ++ here ∷ later) ≡ flag c = h in
    let one : holds here + (holders before + holders later) ≡ flag c = omega arith in
    let moved = moves-holders (holders before + holders later) m one in
    let goal : holders (before ++ (next ++ later)) ≡ flag c' = omega arith in goal

-- In every state that the client reaches from its start, by any steps of its goroutines: if
-- `reconnecting` is set, exactly one goroutine is between its CompareAndSwap and its Store(false), and
-- else none is.
pub Steps-IsHeld : (s : Client) → Steps AnyMove started s → IsHeld s
Steps-IsHeld s done = refl
Steps-IsHeld s (after steps last) = Step-IsHeld last (Steps-IsHeld _ steps)
