-- ===== src/SaveCoordinator/Bursts.antt =====
-- src/agent/save-coordinator.ts: edits while a save is under way, and where an edit is forgotten.
use jupyter_plugin_aitermina.SaveCoordinator.{
  Coordinator, drain, writing, settling, set_phase_lem, emit, saved, mark_dirty, idle,
}
use jupyter_plugin_aitermina.SaveCoordinator.Transitions.{
  marked, step, resume_drain, clear_flight, run, handlers_ran, save_resolved,
}
use jupyter_plugin_aitermina.Base.{
  ℕ, Option, ◌<◌, Text, ◌≡◌, ◌≤◌, arith, none, ◌∷◌, Bool, false, suc, ◌+◌,
}
use jupyter_plugin_aitermina.SaveCoordinator.Revisions.{IsConsistent}
use mathlib.Core.List.{[]}
use Prim.Native.Nat.{zero}

-- An edit between the end of a drain and the handlers that clear `inFlight` is forgotten: from every
-- state in which a drain has ended with all saved, an edit, immediate or not, and the handlers leave a revision that is not saved, with no save under
-- way, no timer armed and the phase `saved`.
pub marked_in_gap_is_lost :
    (immediate : Bool) (thrown : Option Text) (c : Coordinator)
    → IsConsistent c
    → c.in_flight ≡ settling
    → c.phase ≡ saved
    → let d = run (marked immediate thrown ∷ handlers_ran ∷ []) c in
      (d.saved_rev < d.requested) × (d.in_flight ≡ idle) × (d.timer ≡ false) × (d.phase ≡ saved)
unfolding run step mark_dirty clear_flight
marked_in_gap_is_lost immediate thrown c v e k = ground arith

-- Any number of edits while a save is under way.
pub marks : ℕ → Coordinator → Coordinator
marks zero c = c
marks (suc n) c = marks n (step (marked false none) c)

marks_lem :
    (n t : ℕ) (c : Coordinator)
    → c.in_flight ≡ writing t
    → ((marks n c).in_flight ≡ writing t) × ((marks n c).requested ≡ c.requested + n)
unfolding marks step mark_dirty
marks_lem zero t c e = (e, omega arith)
marks_lem (suc n) t c e = ground (arith, marks_lem n t (step (marked false none) c))

drain_effect :
    (c : Coordinator)
    → let d = drain none c in
      (d.saved_rev ≡ c.saved_rev)
      × (d.requested ≡ c.requested)
      × (c.saved_rev < c.requested → d.in_flight ≡ writing c.requested)
      × (c.requested ≤ c.saved_rev → (d.phase ≡ saved) × (d.in_flight ≡ settling))
unfolding drain
drain_effect c = simp set_phase_lem (ground arith)

resolved_effect :
    (t : ℕ) (c : Coordinator)
    → c.in_flight ≡ writing t
    → t ≤ c.requested
    → let d = step (save_resolved none) c in
      (d.saved_rev ≡ t)
      × (d.requested ≡ c.requested)
      × (t < c.requested → d.in_flight ≡ writing c.requested)
      × (c.requested ≤ t → (d.phase ≡ saved) × (d.in_flight ≡ settling))
unfolding step resume_drain
resolved_effect t c e k =
    let written = emit (record c { saved_rev = t }) in ground (arith, drain_effect written)

resolve_settling : (c : Coordinator) → c.in_flight ≡ settling → step (save_resolved none) c ≡ c
unfolding step resume_drain
resolve_settling c e = ground arith

resolve_twice :
    (t : ℕ) (c : Coordinator)
    → c.in_flight ≡ writing t
    → t ≤ c.requested
    → let d = step (save_resolved none) (step (save_resolved none) c) in
      (d.saved_rev ≡ c.requested)
      × (d.requested ≡ c.requested)
      × (d.phase ≡ saved)
      × (d.in_flight ≡ settling)
resolve_twice t c e k =
    let d = step (save_resolved none) c in
    ground (arith, resolved_effect t c, resolved_effect c.requested d, resolve_settling d)

handlers_effect :
    (c : Coordinator) → c.in_flight ≡ settling → step handlers_ran c ≡ record c { in_flight = idle }
unfolding step clear_flight
handlers_effect c e = ground arith

-- However many edits arrive while a save is under way, two saves that succeed are enough to save
-- the newest revision and to show `saved`.
pub marks-coalesce :
    (n t : ℕ) (c : Coordinator)
    → IsConsistent c
    → c.in_flight ≡ writing t
    → let d = run (save_resolved none ∷ save_resolved none ∷ handlers_ran ∷ []) (marks n c) in
      (d.saved_rev ≡ c.requested + n)
      × (d.requested ≡ c.requested + n)
      × (d.phase ≡ saved)
      × (d.in_flight ≡ idle)
unfolding run
marks-coalesce n t c v e =
    let (flying, total) = marks_lem n t c e in
    let d = step (save_resolved none) (step (save_resolved none) (marks n c)) in
    ground (arith, resolve_twice t (marks n c) flying, handlers_effect d)
