-- ===== src/SaveCoordinator/Transitions.antt =====
-- src/agent/save-coordinator.ts: what happens to a coordinator, one event at a time.
use jupyter_plugin_aitermina.Base.{Bool, false, List, [], ◌∷◌, Option, Text, if◌then◌else◌}
use jupyter_plugin_aitermina.SaveCoordinator.{
  Coordinator, Flight, idle, writing, settling, emit, fail, drain, flush, retry, mark_dirty,
  accept_external_saved_state,
}

-- Each event carries what `synchronize` or the call of `save` throws, if the event starts a save.
pub data Event : Type 0 where
  marked : Bool → Option Text → Event
  flushed : Option Text → Event
  retried : Option Text → Event
  accepted : Event
  timer_fired : Option Text → Event
  save_resolved : Option Text → Event
  save_rejected : Text → Event
  handlers_ran : Event

-- The callback of `schedule`.
unfoldable pub on_timer : Option Text → Coordinator → Coordinator
on_timer thrown c = (flush thrown (record c { timer = false })).0

-- `drain` after its `await` returned: the revision is saved and the loop goes on.
unfoldable pub resume_drain : Flight → Option Text → Coordinator → Coordinator
resume_drain (writing target) thrown c = drain thrown (emit (record c { saved_rev = target }))
resume_drain _ thrown c = c

-- `drain` after its `await` threw.
unfoldable pub reject_drain : Flight → Text → Coordinator → Coordinator
reject_drain (writing target) message c = fail target message c
reject_drain _ message c = c

-- The handlers that `flush` attaches to the promise of `drain`.
unfoldable pub clear_flight : Flight → Coordinator → Coordinator
clear_flight settling c = record c { in_flight = idle }
clear_flight _ c = c

-- An event that cannot occur in a state changes nothing there.
unfoldable pub step : Event → Coordinator → Coordinator
step (marked immediate thrown) c = (mark_dirty immediate thrown c).0
step (flushed thrown) c = (flush thrown c).0
step (retried thrown) c = (retry thrown c).0
step accepted c = (accept_external_saved_state c).0
step (timer_fired thrown) c = if c.timer then on_timer thrown c else c
step (save_resolved thrown) c = resume_drain c.in_flight thrown c
step (save_rejected message) c = reject_drain c.in_flight message c
step handlers_ran c = clear_flight c.in_flight c

unfoldable pub run : List Event → Coordinator → Coordinator
run [] c = c
run (e ∷ es) c = run es (step e c)
