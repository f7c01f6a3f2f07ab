-- ===== src/Turn/Presentation.antt =====
-- src/agent/turn.ts: what of a turn is shown, and the user's switches.
use jupyter_plugin_aitermina.Turn.{
  TurnStatus, TraceDisclosure, ChatTurn, TurnPresentationState, collapsed, expanded, turn_running,
  auto,
}
use jupyter_plugin_aitermina.Base.{
  Text, List, Bool, [], not, ◌+◌, if◌then◌else◌, ◌∷◌, true, keep, ◌++◌, false, text_eq, to_set,
  listed, add_to_set,
}

abbrev pub is_running : TurnStatus → Bool
is_running turn_running = true
is_running _ = false

abbrev pub trace_expanded : TraceDisclosure → TurnStatus → Bool
trace_expanded expanded status = true
trace_expanded collapsed status = false
trace_expanded auto status = is_running status

abbrev pub is_trace_expanded : ChatTurn → Bool
is_trace_expanded t = trace_expanded t.presentation.trace t.status

-- `{ ...turn, presentation, revision: turn.revision + 1 }`
abbrev pub with_presentation : TurnPresentationState → ChatTurn → ChatTurn
with_presentation p t = record t { presentation = p; revision = t.revision + 1 }

unfoldable pub toggle_trace : ChatTurn → ChatTurn
toggle_trace t =
    let trace = if is_trace_expanded t then collapsed else expanded in
    with_presentation (record t.presentation { trace = trace }) t

-- The switch of an id in `toggleActivity` and `toggleEvidence`.
unfoldable pub toggle_id : Text → List Text → List Text
unfolding to_set
toggle_id id ids =
    let set = to_set [] ids in
    if listed id set then keep (λ x. not (text_eq x id)) set else set ++ id ∷ []

unfoldable pub reveal_failed_activity : Text → ChatTurn → ChatTurn
unfolding to_set
reveal_failed_activity id t =
    let ids = add_to_set id (to_set [] t.presentation.expanded_activity_ids) in
    with_presentation (record t.presentation { trace = expanded; expanded_activity_ids = ids }) t

unfoldable pub toggle_activity : Text → ChatTurn → ChatTurn
unfolding toggle_id
toggle_activity id t =
    let ids = toggle_id id t.presentation.expanded_activity_ids in
    with_presentation (record t.presentation { expanded_activity_ids = ids }) t

unfoldable pub toggle_outcome : ChatTurn → ChatTurn
toggle_outcome t =
    let shown = not t.presentation.outcome_expanded in
    with_presentation (record t.presentation { outcome_expanded = shown }) t

unfoldable pub toggle_evidence : Text → ChatTurn → ChatTurn
unfolding toggle_id
toggle_evidence id t =
    let ids = toggle_id id t.presentation.full_evidence_activity_ids in
    with_presentation (record t.presentation { full_evidence_activity_ids = ids }) t
