-- ===== src/Protocol/DshEvents.antt =====
-- src/agent/protocol.ts: `parseDshProductEvent`.
use jupyter_plugin_aitermina.Json.{Fields, Value, str, obj, get}
use jupyter_plugin_aitermina.Protocol.Dsh.{
  ArtifactPhase, SessionScope, RunScope, ProductEvent, ParseResult, refused, unknown_event,
  unknown_namespace, not_object, deleted, invalid_payload, parsed, unsupported_version, text_delta,
  interaction_cancelled, run_started, text_snapshot, capabilities, interaction_resolved,
  run_finished, connection, session, artifact, interaction_requested, activity,
}
use jupyter_plugin_aitermina.Base.{
  List, Text, Option, Bool, some, true, codes, index_of, ◌∷◌, is_some, [], none, ◌||◌,
  if◌then◌else◌, ◌==◌, not, text_eq, take, drop, ◌+◌,
}
use jupyter_plugin_aitermina.Protocol.DshParse.{
  member, ◌>>=◌, require_string, optional_string, require_enum, parse_capabilities, activity_phases,
  artifact_phases, interaction_kinds, interaction_resolutions, run_statuses, connection_phases,
  session_phases, optional_enum, optional_options, activity_statuses, artifact_sources,
  optional_bool, optional_number, guard,
}
use Prim.Native.String.{String}

abbrev pub text_at : String → Fields → Option Text
text_at key = require_string (codes key)

unfoldable pub session_scope : Fields → Option SessionScope
session_scope p = do
  s ← text_at "sessionId" p
  r ← text_at "runtimeId" p
  some (record { session_id = s; runtime_id = r })

unfoldable pub run_scope : Fields → Option RunScope
run_scope p = do
  s ← text_at "sessionId" p
  r ← text_at "runtimeId" p
  run ← text_at "runId" p
  some (record { session_id = s; runtime_id = r; run_id = run })

unfoldable pub parse_text_snapshot : Fields → Option ProductEvent
parse_text_snapshot p = do
  scope ← session_scope p
  run ← optional_string (codes "runId") p
  message ← text_at "messageId" p
  text ← text_at "text" p
  some (text_snapshot scope run message text)

unfoldable pub parse_text_delta : Fields → Option ProductEvent
parse_text_delta p = do
  scope ← run_scope p
  message ← text_at "messageId" p
  delta ← text_at "delta" p
  some (text_delta scope message delta)

unfoldable pub parse_activity : Fields → Option ProductEvent
parse_activity p = do
  scope ← run_scope p
  id ← text_at "activityId" p
  phase ← require_enum activity_phases (codes "phase") p
  call ← optional_string (codes "toolCallId") p
  label ← optional_string (codes "label") p
  tool ← optional_string (codes "toolName") p
  status ← optional_enum activity_statuses (codes "status") p
  summary ← optional_string (codes "outputSummary") p
  duration ← optional_number (codes "durationMs") p
  some (
      activity scope (record {
        activity_id = id;
        phase = phase;
        tool_call_id = call;
        label = label;
        tool_name = tool;
        status = status;
        output_summary = summary;
        duration_ms = duration;
      }))

-- A created or updated artifact needs a locator or a reason.
abbrev pub has_locator : ArtifactPhase → Option Text → Option Text → Bool
has_locator deleted uri reason = true
has_locator _ uri reason = is_some uri || is_some reason

unfoldable pub parse_artifact : Fields → Option ProductEvent
parse_artifact p = do
  phase ← require_enum artifact_phases (codes "phase") p
  uri ← optional_string (codes "uri") p
  reason ← optional_string (codes "unavailableReason") p
  located ← guard (has_locator phase uri reason)
  scope ← run_scope p
  id ← text_at "artifactId" p
  name ← optional_string (codes "name") p
  media ← optional_string (codes "mediaType") p
  source ← optional_enum artifact_sources (codes "source") p
  some (
      artifact scope (record {
        artifact_id = id;
        phase = phase;
        name = name;
        uri = uri;
        media_type = media;
        source = source;
        unavailable_reason = reason;
      }))

unfoldable pub parse_requested : Fields → Option ProductEvent
parse_requested p = do
  scope ← run_scope p
  id ← text_at "requestId" p
  kind ← require_enum interaction_kinds (codes "kind") p
  call ← optional_string (codes "toolCallId") p
  prompt ← text_at "prompt" p
  options ← optional_options p
  free ← optional_bool (codes "allowFreeText") p
  action ← optional_string (codes "action") p
  target ← optional_string (codes "target") p
  some (
      interaction_requested scope (record {
        request_id = id;
        kind = kind;
        tool_call_id = call;
        prompt = prompt;
        options = options;
        allow_free_text = free;
        action = action;
        target = target;
      }))

unfoldable pub parse_resolved : Fields → Option ProductEvent
parse_resolved p = do
  scope ← run_scope p
  id ← text_at "requestId" p
  resolution ← require_enum interaction_resolutions (codes "resolution") p
  some (interaction_resolved scope id resolution)

unfoldable pub parse_cancelled : Fields → Option ProductEvent
parse_cancelled p = do
  scope ← run_scope p
  id ← text_at "requestId" p
  some (interaction_cancelled scope id)

unfoldable pub parse_run_started : Fields → Option ProductEvent
parse_run_started p = do scope ← run_scope p; some (run_started scope)

unfoldable pub parse_run_finished : Fields → Option ProductEvent
parse_run_finished p = do
  scope ← run_scope p
  status ← require_enum run_statuses (codes "status") p
  some (run_finished scope status)

unfoldable pub parse_connection : Fields → Option ProductEvent
parse_connection p = do
  runtime ← text_at "runtimeId" p
  phase ← require_enum connection_phases (codes "phase") p
  some (connection runtime phase)

unfoldable pub parse_session : Fields → Option ProductEvent
parse_session p = do
  scope ← session_scope p
  phase ← require_enum session_phases (codes "phase") p
  some (session scope phase)

unfoldable pub parse_capabilities_event : Fields → Option ProductEvent
parse_capabilities_event p = do
  runtime ← text_at "runtimeId" p
  manifest ← parse_capabilities (get (codes "capabilities") p)
  some (capabilities runtime manifest)

-- The cases of `parseDshPayload`.
abbrev pub event_kinds : List (Text × (Fields → Option ProductEvent))
event_kinds =
    (codes "text.snapshot", parse_text_snapshot)
    ∷ (codes "text.delta", parse_text_delta)
    ∷ (codes "activity", parse_activity)
    ∷ (codes "artifact", parse_artifact)
    ∷ (codes "interaction.requested", parse_requested)
    ∷ (codes "interaction.resolved", parse_resolved)
    ∷ (codes "interaction.cancelled", parse_cancelled)
    ∷ (codes "run.started", parse_run_started)
    ∷ (codes "run.finished", parse_run_finished)
    ∷ (codes "connection", parse_connection)
    ∷ (codes "session", parse_session)
    ∷ (codes "capabilities", parse_capabilities_event)
    ∷ []

abbrev pub result_of : Option ProductEvent → ParseResult
result_of none = refused invalid_payload
result_of (some e) = parsed e

-- `parseDshPayload` and the reasons for its failure.
unfoldable pub parse_payload : Text → Fields → ParseResult
unfolding member
parse_payload kind p = elim (member kind event_kinds) [
  | none ↦ refused unknown_event
  | some parse ↦ result_of (parse p)
]

-- `s.startsWith(prefix)` and `s.slice(prefix.length)`.
unfoldable pub strip_prefix : Text → Text → Option Text
strip_prefix [] s = some s
strip_prefix (c ∷ p) [] = none
strip_prefix (c ∷ p) (d ∷ s) = if c == d then strip_prefix p s else none

unfoldable pub parse_versioned : Text → Fields → ParseResult
unfolding parse_payload
parse_versioned rest p = elim (index_of b'/' rest) [
  | none ↦ refused unknown_event
  | some i ↦
      if not (text_eq (take i rest) (codes "v1"))
      then refused unsupported_version
      else parse_payload (drop (i + 1) rest) p
]

unfoldable pub parse_typed : Option Value → Fields → ParseResult
unfolding parse_versioned
parse_typed (some (str type)) p = elim (strip_prefix (codes "dsh/") type) [
  | none ↦ refused unknown_namespace
  | some rest ↦ parse_versioned rest p
]
parse_typed _ p = refused invalid_payload

unfoldable pub parse_dsh_product_event : Value → ParseResult
unfolding parse_typed
parse_dsh_product_event (obj p) = parse_typed (get (codes "type") p) p
parse_dsh_product_event _ = refused not_object
