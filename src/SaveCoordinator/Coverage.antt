-- ===== src/SaveCoordinator/Coverage.antt =====
-- src/agent/save-coordinator.ts: unsaved work is always taken care of, outside one gap.
use jupyter_plugin_aitermina.SaveCoordinator.{
  Coordinator, fail, drain, writing, settling, set_phase_lem, emit, error, saving, Flight, flush,
  saved, cancel_timer, pending, SavePhase, mark_dirty, accept_external_saved_state, retry, initial,
  idle,
}
use jupyter_plugin_aitermina.SaveCoordinator.Transitions.{
  Event, marked, step, resume_drain, reject_drain, clear_flight, on_timer, run, handlers_ran,
  save_resolved, flushed, retried, timer_fired, save_rejected, accepted,
}
use jupyter_plugin_aitermina.Base.{
  List, ℕ, Option, ◌<◌, Text, ◌≡◌, ◌≢◌, ◌≤◌, inr, some, ◌⊎◌, true, arith, none, ◌∷◌, Bool, false,
  inl, ◌+◌, refl,
}
use jupyter_plugin_aitermina.SaveCoordinator.Revisions.{
  IsConsistent, step-IsConsistent, initial-IsConsistent, run-IsConsistent,
}
use mathlib.Core.List.{[]}

abbrev pub writes : Flight → Bool
writes (writing t) = true
writes _ = false

-- Something will save what is not saved yet, or the error is shown: a save is under way, the timer
-- is armed, or the phase is `error`.
abbrev pub IsCovered : Coordinator → Type 0
IsCovered c =
    c.saved_rev < c.requested → (writes c.in_flight ≡ true) ⊎ ((c.timer ≡ true) ⊎ (c.phase ≡ error))

-- Not in the gap between the end of a drain and the handlers that clear `inFlight`.
abbrev pub NotMarkedInGap : Event → Coordinator → Type 0
NotMarkedInGap (marked immediate thrown) c = c.in_flight ≢ settling
NotMarkedInGap _ c = Unit

abbrev pub NeverMarkedInGap : List Event → Coordinator → Type 0
NeverMarkedInGap [] c = Unit
NeverMarkedInGap (e ∷ es) c = NotMarkedInGap e c × NeverMarkedInGap es (step e c)

-- The phase `saved` is not shown over unsaved work, and pending work has its timer.
pub record IsHonest (c : Coordinator) : Type 0 where
  pub clean : c.phase ≡ saved → c.saved_rev ≡ c.requested
  pub armed : c.phase ≡ pending → c.timer ≡ true

IsHonest-IsCovered : (c : Coordinator) → IsConsistent c → IsHonest c → IsCovered c
IsHonest-IsCovered c v h = covers c.phase c.in_flight refl refl
  where
    covers : (p : SavePhase) (f : Flight) → c.phase ≡ p → c.in_flight ≡ f → IsCovered c
    covers error f e k = λ d. inr (inr e)
    covers pending f e k = λ d. inr (inl (h.armed e))
    covers saved f e k = λ d. absurd (omega (arith, h.clean e))
    covers saving (writing t) e k = λ d. inl (rw k)
    covers saving idle e k = ground arith
    covers saving settling e k = ground arith

fail-IsHonest : (t : ℕ) (message : Text) (c : Coordinator) → IsHonest (fail t message c)
unfolding fail
fail-IsHonest t message c = simp set_phase_lem (ground arith)

drain-IsHonest :
    (thrown : Option Text) (c : Coordinator) → c.saved_rev ≤ c.requested → IsHonest (drain thrown c)
unfolding drain
drain-IsHonest none c v = simp set_phase_lem (ground arith)
drain-IsHonest (some message) c v =
    let begun = emit (record c { phase = saving; error = none }) in
    simp set_phase_lem (ground (arith, fail-IsHonest c.requested message begun))

flush-IsHonest :
    (thrown : Option Text) (c : Coordinator)
    → IsConsistent c
    → (c.phase ≡ saved → c.saved_rev ≡ c.requested)
    → IsHonest (flush thrown c).0
unfolding flush
flush-IsHonest thrown c v h =
    simp set_phase_lem (ground (arith, drain-IsHonest thrown (cancel_timer c)))

mark_dirty-IsHonest :
    (immediate : Bool) (thrown : Option Text) (c : Coordinator)
    → IsConsistent c
    → IsHonest c
    → c.in_flight ≢ settling
    → IsHonest (mark_dirty immediate thrown c).0
unfolding mark_dirty
mark_dirty-IsHonest immediate thrown c v h gap =
    let opened = emit (record c { requested = c.requested + 1; error = none; phase = pending }) in
    simp set_phase_lem (ground (arith, flush-IsHonest thrown opened))

accept-IsHonest :
    (c : Coordinator) → IsConsistent c → IsHonest c → IsHonest (accept_external_saved_state c).0
unfolding accept_external_saved_state
accept-IsHonest c v h = simp set_phase_lem (ground arith)

resume_drain-IsHonest :
    (f : Flight) (thrown : Option Text) (c : Coordinator)
    → c.in_flight ≡ f
    → IsConsistent c
    → IsHonest c
    → IsHonest (resume_drain f thrown c)
unfolding resume_drain
resume_drain-IsHonest (writing t) thrown c e v h =
    let written = emit (record c { saved_rev = t }) in ground (arith, drain-IsHonest thrown written)
resume_drain-IsHonest idle thrown c e v h = h
resume_drain-IsHonest settling thrown c e v h = h

reject_drain-IsHonest :
    (f : Flight) (message : Text) (c : Coordinator)
    → IsHonest c
    → IsHonest (reject_drain f message c)
unfolding reject_drain
reject_drain-IsHonest (writing t) message c h = fail-IsHonest t message c
reject_drain-IsHonest idle message c h = h
reject_drain-IsHonest settling message c h = h

clear_flight-IsHonest : (f : Flight) (c : Coordinator) → IsHonest c → IsHonest (clear_flight f c)
unfolding clear_flight
clear_flight-IsHonest settling c h = record { clean = h.clean; armed = h.armed }
clear_flight-IsHonest idle c h = h
clear_flight-IsHonest (writing t) c h = h

on_timer-IsHonest :
    (thrown : Option Text) (c : Coordinator)
    → IsConsistent c
    → IsHonest c
    → IsHonest (on_timer thrown c)
unfolding on_timer
on_timer-IsHonest thrown c v h =
    let fired = record c { timer = false } in ground (arith, flush-IsHonest thrown fired)

step-IsHonest :
    (e : Event) (c : Coordinator)
    → IsConsistent c
    → IsHonest c
    → NotMarkedInGap e c
    → IsHonest (step e c)
unfolding step retry
step-IsHonest (marked immediate thrown) c v h g = mark_dirty-IsHonest immediate thrown c v h g
step-IsHonest (flushed thrown) c v h g = flush-IsHonest thrown c v h.clean
step-IsHonest (retried thrown) c v h g = flush-IsHonest thrown c v h.clean
step-IsHonest accepted c v h g = accept-IsHonest c v h
step-IsHonest (timer_fired thrown) c v h g = ground (arith, on_timer-IsHonest thrown c v)
step-IsHonest (save_resolved thrown) c v h g = resume_drain-IsHonest c.in_flight thrown c refl v h
step-IsHonest (save_rejected message) c v h g = reject_drain-IsHonest c.in_flight message c h
step-IsHonest handlers_ran c v h g = clear_flight-IsHonest c.in_flight c h

run-IsHonest :
    (es : List Event) (c : Coordinator)
    → IsConsistent c
    → IsHonest c
    → NeverMarkedInGap es c
    → IsHonest (run es c)
unfolding run
run-IsHonest [] c v h g = h
run-IsHonest (e ∷ es) c v h (g, gs) =
    run-IsHonest es (step e c) (step-IsConsistent e c v) (step-IsHonest e c v h g) gs

-- After any history from the start in which no edit falls between the end of a drain and the
-- handlers that clear `inFlight`: unsaved work is being saved, or has its timer armed, or is shown
-- as an error, and the phase `saved` is shown only when all requested revisions are saved.
pub run-IsCovered :
    (es : List Event)
    → NeverMarkedInGap es initial
    → IsCovered (run es initial)
      × ((run es initial).phase ≡ saved → (run es initial).saved_rev ≡ (run es initial).requested)
run-IsCovered es g =
    let honest = run-IsHonest es initial initial-IsConsistent (ground arith) g in
    (IsHonest-IsCovered _ (run-IsConsistent es initial initial-IsConsistent) honest, honest.clean)
