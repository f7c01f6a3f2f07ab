-- ===== src/Turn/Deriving.antt =====
-- src/agent/turn.ts: the state of a turn after an event, and what is derived from its blocks.
use jupyter_plugin_aitermina.Base.{
  [], Text, Bool, Option, false, List, ◌∷◌, none, is_space, trim, true, keep, some, if◌then◌else◌,
  text_eq, truthy, not, ◌&&◌, ◌+◌,
}
use jupyter_plugin_aitermina.Turn.{
  ChatTurn, turn_running, OutcomeKind, no_outcome, of_result, ToolActivity, TurnActivity,
  TurnStatus, TurnMetrics, turn_error, auto, of_assistant, turn_done, turn_interrupted, of_tool,
  turn_unchecked,
}
use jupyter_plugin_aitermina.Turn.Timeline.{activity_id}
use jupyter_plugin_aitermina.Protocol.{
  text, TerminalReason, RunResult, ServerEvent, ChatBlock, result, untrusted, thinking, tool_start,
  tool_end, install, denied, ready, accepted, exec_output, unexpected, exec_done, exec_error,
  configuration, configuration_error,
}
use jupyter_plugin_aitermina.Turn.Timeline.{
  derive_diagnostics, derive_changes, timeline_from_blocks, last_text, last_tool,
}
use jupyter_plugin_aitermina.Protocol.Blocks.{message_of, given_or}
use jupyter_plugin_aitermina.Turn.Presentation.{is_running}
use jupyter_plugin_aitermina.ToolPresenter.Formats.{or_else, Doubles}

unfoldable pub create_turn : Text → ChatTurn
create_turn id = record {
  id = id;
  status = turn_running;
  outcome = [];
  outcome_kind = no_outcome;
  timeline = [];
  diagnostics = [];
  changes = [];
  metrics = record {
    duration_ms = none;
    api_duration_ms = none;
    num_turns = none;
    cost_usd = none;
    usage = none;
  };
  presentation = record {
    trace = auto;
    expanded_activity_ids = [];
    full_evidence_activity_ids = [];
    outcome_expanded = false;
  };
  result_text = [];
  result_is_error = false;
  terminal_reason = none;
  revision = 0;
}

-- `replace(/\s+/g, ' ')`; the first argument says that the code unit before was a space.
unfoldable pub collapse_spaces : Bool → Text → Text
collapse_spaces in_run [] = []
collapse_spaces in_run (c ∷ s) = elim (is_space c) [
  | true ↦ if in_run then collapse_spaces true s else 32 ∷ collapse_spaces true s
  | false ↦ c ∷ collapse_spaces false s
]

unfoldable pub normalize_text : Text → Text
unfolding collapse_spaces
normalize_text s = collapse_spaces false (trim s)

pub record Outcome : Type 0 where
  pub text : Text
  pub kind : OutcomeKind
  pub consumed_activity_id : Option Text

abbrev pub no_result : Outcome
no_result = record { text = []; kind = no_outcome; consumed_activity_id = none }

-- The result of the turn: the last text is consumed when it says the same.
unfoldable pub result_outcome : Text → Option (Text × Text) → Outcome
unfolding normalize_text
result_outcome result_text none = record {
  text = result_text;
  kind = of_result;
  consumed_activity_id = none;
}
result_outcome result_text (some (id, shown)) = record {
  text = result_text;
  kind = of_result;
  consumed_activity_id =
      if text_eq (normalize_text shown) (normalize_text result_text) then some id else none;
}

abbrev pub tool_outcome : Option ToolActivity → Outcome
tool_outcome none = no_result
tool_outcome (some a) = record {
  text = or_else (or_else a.presentation.preview a.presentation.detail) a.presentation.title;
  kind = of_tool;
  consumed_activity_id = none;
}

abbrev pub assistant_outcome : Option (Text × Text) → Option ToolActivity → Outcome
assistant_outcome none tool = tool_outcome tool
assistant_outcome (some (id, shown)) tool = record {
  text = shown;
  kind = of_assistant;
  consumed_activity_id = some id;
}

unfoldable pub resolve_outcome : ChatTurn → List TurnActivity → Outcome
unfolding result_outcome
resolve_outcome t timeline =
    if truthy t.result_text
    then result_outcome t.result_text (last_text timeline)
    else if is_running t.status
    then no_result
    else assistant_outcome (last_text timeline) (last_tool timeline)

-- `!consumedActivityIds.has(activity.id)`
abbrev pub is_not_consumed : Option Text → TurnActivity → Bool
is_not_consumed none a = true
is_not_consumed (some id) a = not (text_eq (activity_id a) id)

unfoldable pub visible_timeline : Option Text → List TurnActivity → List TurnActivity
visible_timeline consumed timeline = keep (is_not_consumed (message_of consumed)) timeline

-- `next.metrics` with `eventMetrics(event)` spread over it.
abbrev pub merge_metrics : RunResult → TurnMetrics → TurnMetrics
merge_metrics r m = record m {
  duration_ms = given_or r.duration_ms m.duration_ms;
  api_duration_ms = given_or r.api_duration_ms m.api_duration_ms;
  num_turns = given_or r.num_turns m.num_turns;
  cost_usd = given_or r.cost_usd m.cost_usd;
  usage = given_or r.usage m.usage;
}

unfoldable pub normalize_terminal_reason : Option TerminalReason → Option TerminalReason
normalize_terminal_reason (some untrusted) = none
normalize_terminal_reason reason = reason

unfoldable pub finish_turn : RunResult → ChatTurn → ChatTurn
unfolding normalize_terminal_reason
finish_turn r t = record t {
  status = if r.is_error then turn_error else turn_done;
  result_text = trim r.text;
  result_is_error = r.is_error;
  metrics = merge_metrics r t.metrics;
  terminal_reason = normalize_terminal_reason r.reason;
}

-- An activity sets a turn running again, unless it has failed or was interrupted.
unfoldable pub resume_status : TurnStatus → TurnStatus
resume_status turn_error = turn_error
resume_status turn_interrupted = turn_interrupted
resume_status turn_running = turn_running
resume_status turn_done = turn_running
resume_status (turn_unchecked v) = turn_running

-- The switch on `event.type`: `none` where the turn is returned as it is.
unfoldable pub turn_of_event : ServerEvent → ChatTurn → Option ChatTurn
unfolding finish_turn resume_status
turn_of_event (result turn r) t = some (finish_turn r t)
turn_of_event (ServerEvent.error turn code message) t = some (record t { status = turn_error })
turn_of_event (text turn message s) t = some (record t { status = resume_status t.status })
turn_of_event (thinking turn id s) t = some (record t { status = resume_status t.status })
turn_of_event (tool_start turn s) t = some (record t { status = resume_status t.status })
turn_of_event (tool_end turn s) t = some (record t { status = resume_status t.status })
turn_of_event (install turn id s d) t = some (record t { status = resume_status t.status })
turn_of_event (denied turn c r) t = some (record t { status = resume_status t.status })
turn_of_event (ready r) t = none
turn_of_event (accepted turn k) t = none
turn_of_event (exec_output s) t = none
turn_of_event (exec_done d) t = none
turn_of_event (exec_error s) t = none
turn_of_event (configuration v) t = some t
turn_of_event configuration_error t = some t
turn_of_event (unexpected turn) t = some t

-- `'turnId' in event ? event.turnId : undefined`
abbrev pub event_turn_id : ServerEvent → Option Text
event_turn_id (result turn r) = turn
event_turn_id (ServerEvent.error turn code message) = turn
event_turn_id (text turn message s) = turn
event_turn_id (thinking turn id s) = turn
event_turn_id (tool_start turn s) = turn
event_turn_id (tool_end turn s) = turn
event_turn_id (install turn id s d) = turn
event_turn_id (denied turn c r) = turn
event_turn_id (accepted turn k) = turn
event_turn_id (unexpected turn) = turn
event_turn_id e = none

-- `eventTurnId && eventTurnId !== turn.id`
abbrev pub is_of_other_turn : Option Text → ChatTurn → Bool
is_of_other_turn none t = false
is_of_other_turn (some id) t = truthy id && not (text_eq id t.id)

module _ (doubles : Doubles) where
  unfoldable pub derive_turn : ChatTurn → List ChatBlock → ChatTurn
  unfolding resolve_outcome visible_timeline derive_diagnostics derive_changes timeline_from_blocks
  derive_turn t blocks =
      let timeline = timeline_from_blocks doubles blocks in
      let outcome = resolve_outcome t timeline in
      let visible = visible_timeline outcome.consumed_activity_id timeline in
      record t {
        outcome = outcome.text;
        outcome_kind = outcome.kind;
        timeline = visible;
        diagnostics = derive_diagnostics visible;
        changes = derive_changes visible;
        revision = t.revision + 1;
      }

  unfoldable pub set_turn_status : ChatTurn → TurnStatus → List ChatBlock → ChatTurn
  unfolding derive_turn
  set_turn_status t status blocks = derive_turn (record t { status = status }) blocks

  unfoldable pub apply_turn_event : ChatTurn → List ChatBlock → ServerEvent → ChatTurn
  unfolding turn_of_event derive_turn
  apply_turn_event t blocks e =
      if is_of_other_turn (event_turn_id e) t
      then t
      else elim (turn_of_event e t) [ none ↦ t | some next ↦ derive_turn next blocks ]
