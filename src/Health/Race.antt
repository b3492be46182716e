-- ===== src/Health/Race.antt =====
-- The goroutines of internal/health/health_client.go: Register's, listen's and attemptReconnect's, which
-- share `running` and `reconnecting`. A step is what one goroutine does between two accesses of these.
pub mod Holder
pub mod Lost
use dra_driver_spyre.Prelude.{ℕ, Bool, true, false, ◌≡◌, refl, List, [], ◌∷◌, ◌++◌}

-- Where a goroutine is. `starting` is Start's call of Register, and `spawned` an attemptReconnect before
-- its CompareAndSwap; `trying` is before Register's test of `running`, `dialling` in Register after it,
-- and `leaving` before the deferred Store(false) of `reconnecting`. `receiving` is listen in its loop, and
-- `unwinding` before the deferred Store(false) of `running`.
pub data Place : Type 0 where
  starting : Place
  receiving : Place
  unwinding : Place
  spawned : Place
  trying : Place
  dialling : Place
  leaving : Place

-- `running`, `reconnecting`, and the goroutines
pub record Client : Type 0 where
  pub running : Bool
  pub reconnecting : Bool
  pub places : List Place

-- A goroutine at `here` goes on, which may start others: what it is replaced by, and what becomes of
-- `running` and `reconnecting`.
pub data Moves : Bool → Bool → Place → List Place → Bool → Bool → Type 0 where
  -- Start's Register, and attemptReconnect where that fails
  start_registered : {r c : Bool} → Moves r c starting (receiving ∷ []) true c
  start_failed : {r c : Bool} → Moves r c starting (spawned ∷ []) r c
  -- listen, at the end of the stream or an error of it
  stream_ended : {r c : Bool} → Moves r c receiving (unwinding ∷ spawned ∷ []) r c
  not_running : {r c : Bool} → Moves r c unwinding [] false c
  -- attemptReconnect's CompareAndSwap
  swapped : {r : Bool} → Moves r false spawned (trying ∷ []) r true
  -- Register fails, or returns a stream
  not_yet : {c : Bool} → Moves false c trying (dialling ∷ []) false c
  failed : {r c : Bool} → Moves r c dialling (trying ∷ []) r c
  registered : {r c : Bool} → Moves r c dialling (receiving ∷ leaving ∷ []) true c
  -- attemptReconnect's deferred Store
  released : {r c : Bool} → Moves r c leaving [] r false

-- The moves by which a goroutine may leave the client to nobody.
pub data Quits : Bool → Bool → Place → List Place → Bool → Bool → Type 0 where
  -- listen is told to stop, or setAndNotify panics (a report has no DeviceID), which listen's deferred
  -- function recovers from
  told_to_stop : {r c : Bool} → Quits r c receiving (unwinding ∷ []) r c
  recovered : {r c : Bool} → Quits r c receiving (unwinding ∷ []) r c
  -- attemptReconnect is told to stop, or has no attempt left
  gave_up : {r c : Bool} → Quits r c trying (leaving ∷ []) r c
  -- attemptReconnect finds `reconnecting` set, or Register finds `running` set and returns no error
  skipped : {r : Bool} → Quits r true spawned [] r true
  already_running : {c : Bool} → Quits true c trying (leaving ∷ []) true c

-- A step of the client, where `Move` is what a goroutine may do.
pub data Step (Move : Bool → Bool → Place → List Place → Bool → Bool → Type 0)
    : Client → Client → Type 0 where
  goes :
      (before after : List Place) {here : Place} {next : List Place} {r c r' c' : Bool}
      → Move r c here next r' c'
      → Step Move
          (record { running = r; reconnecting = c; places = before ++ here ∷ after })
          (record { running = r'; reconnecting = c'; places = before ++ (next ++ after) })

-- any of these
pub data AnyMove : Bool → Bool → Place → List Place → Bool → Bool → Type 0 where
  moves :
      {r c r' c' : Bool} {here : Place} {next : List Place}
      → Moves r c here next r' c'
      → AnyMove r c here next r' c'
  quits :
      {r c r' c' : Bool} {here : Place} {next : List Place}
      → Quits r c here next r' c'
      → AnyMove r c here next r' c'

-- some steps, one after the other
pub data Steps (Move : Bool → Bool → Place → List Place → Bool → Bool → Type 0)
    : Client → Client → Type 0 where
  done : {s : Client} → Steps Move s s
  after : {s t u : Client} → Steps Move s t → Step Move t u → Steps Move s u

-- NewSpyreHealthClient, and the call of Start
abbrev pub started : Client
started = record { running = false; reconnecting = false; places = starting ∷ [] }
