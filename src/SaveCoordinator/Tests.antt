-- ===== src/SaveCoordinator/Tests.antt =====
-- src/agent/save-coordinator.ts: runs of the coordinator, and its theorems at concrete states.
use jupyter_plugin_aitermina.SaveCoordinator.Transitions.{
  run, step, Event, marked, save_resolved, timer_fired, handlers_ran, save_rejected, on_timer,
  resume_drain, reject_drain, clear_flight,
}
use jupyter_plugin_aitermina.Base.{
  List, map, false, true, none, ◌++◌, ◌≡◌, ◌∷◌, [], codes, ◌<◌, some, trim, arith, is_space, refl,
}
use jupyter_plugin_aitermina.SaveCoordinator.Revisions.{
  IsConsistent, run-IsConsistent, initial-IsConsistent,
}
use jupyter_plugin_aitermina.SaveCoordinator.Coverage.{IsCovered, run-IsCovered}
use jupyter_plugin_aitermina.SaveCoordinator.{
  Coordinator, initial, SaveCoordinatorState, mark_dirty, flush, writing, saved, drain, saving,
  fail, pending, set_phase, idle, bounded_error,
}
use jupyter_plugin_aitermina.SaveCoordinator.Bursts.{marked_in_gap_is_lost, marks, marks-coalesce}

coordinator : Unit {0}
unfolding run step mark_dirty flush drain fail set_phase on_timer resume_drain reject_drain
    clear_flight bounded_error trim is_space
coordinator = tt

-- An edit, its timer, and an edit while the save is under way.
abbrev editing : List Event
editing = marked false none ∷ timer_fired none ∷ marked false none ∷ []

abbrev written : List Event
written = editing ++ save_resolved none ∷ save_resolved none ∷ handlers_ran ∷ []

editing_flight : (run editing initial).in_flight ≡ writing 1
unfolding coordinator
editing_flight = refl

written_phase : ((run written initial).phase ≡ saved) × ((run written initial).saved_rev ≡ 2)
unfolding coordinator
written_phase = (refl, refl)

failed_error :
    (run (marked true none ∷ save_rejected (codes "  disk full ") ∷ []) initial).error
    ≡ some (codes "disk full")
unfolding coordinator
failed_error = refl

-- The states that `onStateChange` is given, newest first.
written_phases :
    map (λ (s : SaveCoordinatorState). s.phase) (run written initial).emitted
    ≡ saved ∷ saving ∷ saving ∷ saving ∷ saving ∷ saving ∷ pending ∷ []
unfolding coordinator
written_phases = refl

run-IsConsistent_example : IsConsistent (run written initial)
run-IsConsistent_example = run-IsConsistent written initial initial-IsConsistent

run-IsCovered_example :
    IsCovered (run written initial)
    × ((run written initial).phase ≡ saved
        → (run written initial).saved_rev ≡ (run written initial).requested)
unfolding coordinator
run-IsCovered_example = run-IsCovered written (ground arith)

-- One edit saved at once; the handlers of its drain have not run.
abbrev ended : Coordinator
ended = run (marked true none ∷ save_resolved none ∷ []) initial

marked_in_gap_is_lost_example :
    let d = run (marked false none ∷ handlers_ran ∷ []) ended in
    (d.saved_rev < d.requested) × (d.in_flight ≡ idle) × (d.timer ≡ false) × (d.phase ≡ saved)
unfolding coordinator
marked_in_gap_is_lost_example =
    marked_in_gap_is_lost false none ended
      (run-IsConsistent (marked true none ∷ save_resolved none ∷ []) initial initial-IsConsistent)
      refl refl

marks-coalesce_example :
    let d =
      run
        (save_resolved none ∷ save_resolved none ∷ handlers_ran ∷ [])
        (marks 3 (run editing initial)) in
    (d.saved_rev ≡ 5) × (d.requested ≡ 5) × (d.phase ≡ saved) × (d.in_flight ≡ idle)
unfolding coordinator
marks-coalesce_example =
    marks-coalesce 3 1 (run editing initial) (run-IsConsistent editing initial initial-IsConsistent)
      refl
