-- ===== src/SaveCoordinator.antt =====
-- src/agent/save-coordinator.ts: the coordinator that writes a workspace after edits.
-- What the event loop decides is an event: whether `synchronize` and the call of `save` return
-- or throw, when a save settles, when the debounce timer fires and when the handlers of a settled
-- drain run. The observer `onStateChange` is the list of the states that it is given, newest first.
pub mod Transitions
pub mod Revisions
pub mod Coverage
pub mod Bursts
mod Tests
use jupyter_plugin_aitermina.Base.{
  ℕ, ◌+◌, Bool, true, false, not, ◌&&◌, List, [], ◌∷◌, Option, none, some, Text, codes, truthy,
  trim, take, ltb, ◌≡◌, arith, if◌then◌else◌,
}

pub data SavePhase : Type 0 where
  saved pending saving error : SavePhase

abbrev pub phase_eq : SavePhase → SavePhase → Bool
phase_eq saved saved = true
phase_eq pending pending = true
phase_eq saving saving = true
phase_eq error error = true
phase_eq _ _ = false

pub record SaveCoordinatorState : Type 0 where
  pub phase : SavePhase
  pub requested_revision : ℕ
  pub saved_revision : ℕ
  pub error : Option Text

-- `inFlight`: `null`; the promise of a drain that awaits the save of a revision; the promise of a
-- drain that has ended, while the handlers that clear the field have not run.
pub data Flight : Type 0 where
  idle : Flight
  writing : ℕ → Flight
  settling : Flight

pub record Coordinator : Type 0 where
  pub requested : ℕ
  pub saved_rev : ℕ
  pub phase : SavePhase
  pub error : Option Text
  pub timer : Bool
  pub in_flight : Flight
  pub emitted : List SaveCoordinatorState

abbrev pub max_error_length : ℕ
max_error_length = 500

abbrev pub or_default : Text → Text → Text
or_default s d = if truthy s then s else d

-- `boundedError`, at the message of the error.
pub bounded_error : Text → Text
bounded_error message =
    take max_error_length (or_default (trim message) (codes "Workspace save failed."))

abbrev pub initial : Coordinator
initial = record {
  requested = 0;
  saved_rev = 0;
  phase = saved;
  error = none;
  timer = false;
  in_flight = idle;
  emitted = [];
}

abbrev pub state_of : Coordinator → SaveCoordinatorState
state_of c = record {
  phase = c.phase;
  requested_revision = c.requested;
  saved_revision = c.saved_rev;
  error = c.error;
}

abbrev pub dirty : Coordinator → Bool
dirty c = ltb c.saved_rev c.requested

abbrev pub flying : Flight → Bool
flying idle = false
flying (writing t) = true
flying settling = true

abbrev pub emit : Coordinator → Coordinator
emit c = record c { emitted = state_of c ∷ c.emitted }

-- Both branches of `setPhase` emit; the first leaves an equal phase.
pub set_phase : SavePhase → Coordinator → Coordinator
set_phase p c = if phase_eq c.phase p then emit c else emit (record c { phase = p })

pub set_phase_lem :
    (p : SavePhase) (c : Coordinator) → set_phase p c ≡ emit (record c { phase = p })
unfolding set_phase
set_phase_lem p c = ground arith

abbrev pub schedule : Coordinator → Coordinator
schedule c = if c.timer then c else record c { timer = true }

abbrev pub cancel_timer : Coordinator → Coordinator
cancel_timer c = if not c.timer then c else record c { timer = false }

-- The `catch` branch of `drain`, for the revision that was being written.
pub fail : ℕ → Text → Coordinator → Coordinator
fail target message c =
    let c' = set_phase error (record c { error = some (bounded_error message) }) in
    let c'' = if ltb target c'.requested then schedule c' else c' in
    record c'' { in_flight = settling }

-- One pass of the loop of `drain`, to its next `await` or its end. `thrown` is the message of what
-- `synchronize` or the call of `save` throws at once.
pub drain : Option Text → Coordinator → Coordinator
drain thrown c =
    let target = c.requested in
    let c' = set_phase saving (record c { error = none }) in
    let done = set_phase saved (record c { error = none }) in
    if ltb c.saved_rev c.requested
    then elim thrown [
      | none ↦ record c' { in_flight = writing target }
      | some message ↦ fail target message c'
    ]
    else record done { in_flight = settling }

-- The promise that `flush` returns.
pub data Flushed : Type 0 where
  joined resolved started : Flushed

pub flush : Option Text → Coordinator → Coordinator × Flushed
flush thrown c =
    let c' = cancel_timer c in
    if flying c'.in_flight
    then (c', joined)
    else if not (dirty c')
    then (
      (if not (phase_eq c'.phase error) && not (phase_eq c'.phase saved)
          then set_phase saved c'
          else c'),
      resolved,
    )
    else (drain thrown c', started)

-- `retry`
pub retry : Option Text → Coordinator → Coordinator × Flushed
unfolding flush
retry = flush

pub mark_dirty : Bool → Option Text → Coordinator → Coordinator × ℕ
mark_dirty immediate thrown c =
    let c' = record c { requested = c.requested + 1; error = none } in
    let opened = set_phase pending c' in
    let next =
      if not (flying c'.in_flight)
      then if immediate then (flush thrown opened).0 else schedule opened
      else emit c' in
    (next, next.requested)

pub accept_external_saved_state : Coordinator → Coordinator × Bool
accept_external_saved_state c =
    if flying c.in_flight
    then (c, false)
    else if dirty c
    then (c, false)
    else (set_phase saved (record (cancel_timer c) { error = none }), true)
