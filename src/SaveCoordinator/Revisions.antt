-- ===== src/SaveCoordinator/Revisions.antt =====
-- src/agent/save-coordinator.ts: the revisions and the phase stay consistent.
use jupyter_plugin_aitermina.Base.{
  ℕ, ◌≤◌, ◌<◌, ◌≡◌, ◌⊎◌, ◌≢◌, false, [], ◌∷◌, Option, none, some, Text, arith, length, length-take,
  trim, take, Bool, ◌+◌, List, refl,
}
use jupyter_plugin_aitermina.SaveCoordinator.{
  SavePhase, saved, pending, saving, error, Coordinator, Flight, idle, writing, settling,
  bounded_error, fail, drain, flush, or_default, set_phase_lem, cancel_timer, emit, mark_dirty,
  accept_external_saved_state, initial, retry,
}
use jupyter_plugin_aitermina.SaveCoordinator.Transitions.{
  resume_drain, reject_drain, clear_flight, on_timer, step, run, Event, marked, flushed, retried,
  timer_fired, save_resolved, save_rejected, accepted, handlers_ran,
}

-- What the field `inFlight` says of the rest of the state.
abbrev pub FlightFits : Flight → Coordinator → Type 0
FlightFits idle c = c.phase ≢ saving
FlightFits (writing t) c =
    (c.saved_rev < t) × (t ≤ c.requested) × (c.phase ≡ saving) × (c.timer ≡ false)
FlightFits settling c = ((c.phase ≡ saved) × (c.timer ≡ false)) ⊎ (c.phase ≡ error)

abbrev pub ErrorFits : Option Text → SavePhase → Type 0
ErrorFits none p = Unit
ErrorFits (some e) p = (p ≡ error) × (0 < length e) × (length e ≤ 500)

pub record IsConsistent (c : Coordinator) : Type 0 where
  pub ordered : c.saved_rev ≤ c.requested
  pub flight : FlightFits c.in_flight c
  pub failed : c.phase ≡ error → c.saved_rev < c.requested
  pub waiting : c.phase ≡ pending → c.saved_rev < c.requested
  pub reported : ErrorFits c.error c.phase

or_default_bounds :
    (s d : Text)
    → 0 < length (take 500 d)
    → (0 < length (take 500 (or_default s d))) × (length (take 500 (or_default s d)) ≤ 500)
or_default_bounds [] d h = omega (arith, length-take {0} 500 d)
or_default_bounds (x ∷ s) d h = omega (arith, length-take {0} 500 (x ∷ s))

-- A reported error is never empty and never longer than 500 code units.
bounded_error_bounds :
    (message : Text) → (0 < length (bounded_error message)) × (length (bounded_error message) ≤ 500)
unfolding bounded_error
bounded_error_bounds message = or_default_bounds (trim message) _ (omega arith)

fail-IsConsistent :
    (t : ℕ) (message : Text) (c : Coordinator)
    → c.saved_rev < t
    → t ≤ c.requested
    → IsConsistent (fail t message c)
unfolding fail
fail-IsConsistent t message c h k =
    simp set_phase_lem (ground (arith, bounded_error_bounds message))

drain-IsConsistent :
    (thrown : Option Text) (c : Coordinator)
    → c.saved_rev ≤ c.requested
    → c.timer ≡ false
    → IsConsistent (drain thrown c)
unfolding drain
drain-IsConsistent none c h k = simp set_phase_lem (ground arith)
drain-IsConsistent (some message) c h k =
    let begun = emit (record c { phase = saving; error = none }) in
    simp set_phase_lem (ground (arith, fail-IsConsistent c.requested message begun))

flush-IsConsistent :
    (thrown : Option Text) (c : Coordinator) → IsConsistent c → IsConsistent (flush thrown c).0
unfolding flush
flush-IsConsistent thrown c v =
    simp set_phase_lem (ground (arith, drain-IsConsistent thrown (cancel_timer c)))

mark_dirty-IsConsistent :
    (immediate : Bool) (thrown : Option Text) (c : Coordinator)
    → IsConsistent c
    → IsConsistent (mark_dirty immediate thrown c).0
unfolding mark_dirty
mark_dirty-IsConsistent immediate thrown c v =
    let opened = emit (record c { requested = c.requested + 1; error = none; phase = pending }) in
    simp set_phase_lem (ground (arith, flush-IsConsistent thrown opened))

accept-IsConsistent :
    (c : Coordinator) → IsConsistent c → IsConsistent (accept_external_saved_state c).0
unfolding accept_external_saved_state
accept-IsConsistent c v = simp set_phase_lem (ground arith)

resume_drain-IsConsistent :
    (f : Flight) (thrown : Option Text) (c : Coordinator)
    → c.in_flight ≡ f
    → IsConsistent c
    → IsConsistent (resume_drain f thrown c)
unfolding resume_drain
resume_drain-IsConsistent (writing t) thrown c e v =
    let written = emit (record c { saved_rev = t }) in
    ground (arith, drain-IsConsistent thrown written)
resume_drain-IsConsistent idle thrown c e v = v
resume_drain-IsConsistent settling thrown c e v = v

reject_drain-IsConsistent :
    (f : Flight) (message : Text) (c : Coordinator)
    → c.in_flight ≡ f
    → IsConsistent c
    → IsConsistent (reject_drain f message c)
unfolding reject_drain
reject_drain-IsConsistent (writing t) message c e v = ground (arith, fail-IsConsistent t message c)
reject_drain-IsConsistent idle message c e v = v
reject_drain-IsConsistent settling message c e v = v

clear_flight-IsConsistent :
    (f : Flight) (c : Coordinator)
    → c.in_flight ≡ f
    → IsConsistent c
    → IsConsistent (clear_flight f c)
unfolding clear_flight
clear_flight-IsConsistent settling c e v = ground arith
clear_flight-IsConsistent idle c e v = v
clear_flight-IsConsistent (writing t) c e v = v

on_timer-IsConsistent :
    (thrown : Option Text) (c : Coordinator) → IsConsistent c → IsConsistent (on_timer thrown c)
unfolding on_timer
on_timer-IsConsistent thrown c v =
    let fired = record c { timer = false } in ground (arith, flush-IsConsistent thrown fired)

pub step-IsConsistent : (e : Event) (c : Coordinator) → IsConsistent c → IsConsistent (step e c)
unfolding step retry
step-IsConsistent (marked immediate thrown) c v = mark_dirty-IsConsistent immediate thrown c v
step-IsConsistent (flushed thrown) c v = flush-IsConsistent thrown c v
step-IsConsistent (retried thrown) c v = flush-IsConsistent thrown c v
step-IsConsistent accepted c v = accept-IsConsistent c v
step-IsConsistent (timer_fired thrown) c v = ground (arith, on_timer-IsConsistent thrown c v)
step-IsConsistent (save_resolved thrown) c v = resume_drain-IsConsistent c.in_flight thrown c refl v
step-IsConsistent (save_rejected message) c v =
    reject_drain-IsConsistent c.in_flight message c refl v
step-IsConsistent handlers_ran c v = clear_flight-IsConsistent c.in_flight c refl v

-- Every history of events keeps a consistent coordinator consistent: the saved revision never
-- passes the requested one, a save under way is of a later revision that was requested, with the
-- phase `saving` and no timer armed, the phases `error` and `pending` mean that a revision is not
-- saved, and an error is reported under the phase `error` only, with 1 to 500 code units.
pub run-IsConsistent :
    (es : List Event) (c : Coordinator) → IsConsistent c → IsConsistent (run es c)
unfolding run
run-IsConsistent [] c v = v
run-IsConsistent (e ∷ es) c v = run-IsConsistent es (step e c) (step-IsConsistent e c v)

pub initial-IsConsistent : IsConsistent initial
initial-IsConsistent = ground arith
