-- ===== src/Turn/Persistence.antt =====
-- src/agent/turn.ts: what of a turn a document keeps, and what the reader is told of its end.
use jupyter_plugin_aitermina.Base.{
  Text, Bool, Option, true, not, some, if◌then◌else◌, false, text_eq, none, ◌||◌, ltb, codes,
  truthy, ◌&&◌, length, trim, List, [], ℕ, ◌==◌, ◌∷◌,
}
use jupyter_plugin_aitermina.Turn.{
  TurnStatus, ChatTurn, TraceDisclosure, TurnPresentationState, OutcomeKind, turn_interrupted,
  TurnMetrics, turn_running, auto, of_assistant, of_result, turn_done, expanded, turn_error,
  collapsed, turn_unchecked,
}
use jupyter_plugin_aitermina.Turn.Deriving.{create_turn, normalize_terminal_reason}
use jupyter_plugin_aitermina.Protocol.{
  TerminalReason, completed, cancelled, budget_exhausted, run_failed, untrusted, ChatBlock,
}
use jupyter_plugin_aitermina.Json.{
  Value, Items, Fields, get, bool, str, arr, end, num, obj, whole, cons, other, nil, null,
}
use jupyter_plugin_aitermina.ToolPresenter.Formats.{string_value, starts_with}

pub record PersistedTurn : Type 0 where
  pub id : Text
  pub status : TurnStatus
  pub result_text : Text
  pub result_is_error : Bool
  pub terminal_reason : Option TerminalReason
  pub metrics : TurnMetrics
  pub presentation : TurnPresentationState

-- `turn.status === 'running' ? 'interrupted' : turn.status`
abbrev pub settled_status : TurnStatus → TurnStatus
settled_status turn_running = turn_interrupted
settled_status s = s

unfoldable pub to_persisted_turn : ChatTurn → PersistedTurn
to_persisted_turn t = record {
  id = t.id;
  status = settled_status t.status;
  result_text = t.result_text;
  result_is_error = t.result_is_error;
  terminal_reason = t.terminal_reason;
  metrics = t.metrics;
  presentation = t.presentation;
}

-- A persisted turn with fields of the declared types.
unfoldable pub restore_turn : PersistedTurn → ChatTurn
unfolding create_turn normalize_terminal_reason
restore_turn p = record (create_turn p.id) {
  status = p.status;
  result_text = p.result_text;
  result_is_error = p.result_is_error;
  terminal_reason = normalize_terminal_reason p.terminal_reason;
  metrics = p.metrics;
  presentation = p.presentation;
}

-- What a document holds where the source does not look at the value but takes it as it is for one of
-- the declared type.
pub record Unchecked : Type 0 where
  pub blocks : Items → List ChatBlock
  pub metrics : Value → TurnMetrics
  pub execution_count : Bool → Bool → Bool → ℕ → ℕ

abbrev pub no_metrics : TurnMetrics
no_metrics = record {
  duration_ms = none;
  api_duration_ms = none;
  num_turns = none;
  cost_usd = none;
  usage = none;
}

-- `Boolean(value)`
abbrev pub truthy_value : Option Value → Bool
truthy_value none = false
truthy_value (some null) = false
truthy_value (some (bool b)) = b
truthy_value (some (num (whole n))) = not (n == 0)
truthy_value (some (num (other a b c tag))) = true
truthy_value (some (str s)) = truthy s
truthy_value (some (arr items)) = true
truthy_value (some (obj fields)) = true

-- `normalizeTerminalReason` of an unknown value.
unfoldable pub read_terminal_reason : Option Value → Option TerminalReason
read_terminal_reason (some (str s)) =
    if text_eq s (codes "completed")
    then some completed
    else if text_eq s (codes "cancelled")
    then some cancelled
    else if text_eq s (codes "budget-exhausted")
    then some budget_exhausted
    else if text_eq s (codes "failed")
    then some run_failed
    else none
read_terminal_reason v = none

unfoldable pub read_turn_status : Option Value → TurnStatus
read_turn_status (some (str s)) =
    if text_eq s (codes "running")
    then turn_running
    else if text_eq s (codes "done")
    then turn_done
    else if text_eq s (codes "interrupted")
    then turn_interrupted
    else if text_eq s (codes "error")
    then turn_error
    else turn_unchecked (some (str s))
read_turn_status v = turn_unchecked v

unfoldable pub read_disclosure : Option Value → TraceDisclosure
read_disclosure (some (str s)) =
    if text_eq s (codes "expanded")
    then expanded
    else if text_eq s (codes "collapsed")
    then collapsed
    else auto
read_disclosure v = auto

-- The strings of an array.
unfoldable pub strings_of : Items → List Text
strings_of nil = []
strings_of (cons (str s) items) = s ∷ strings_of items
strings_of (cons v items) = strings_of items

abbrev pub read_strings : Option Value → List Text
read_strings (some (arr items)) = strings_of items
read_strings v = []

-- The fields of a value that is there: `value.key` is undefined on all but an object.
abbrev pub fields_of : Value → Fields
fields_of (obj fields) = fields
fields_of v = end

abbrev pub fields_of? : Option Value → Fields
fields_of? none = end
fields_of? (some v) = fields_of v

unfoldable pub normalize_presentation : Option Value → TurnPresentationState
unfolding read_disclosure strings_of
normalize_presentation v = record {
  trace = read_disclosure (get (codes "trace") (fields_of? v));
  expanded_activity_ids = read_strings (get (codes "expandedActivityIds") (fields_of? v));
  full_evidence_activity_ids = read_strings (get (codes "fullEvidenceActivityIds") (fields_of? v));
  outcome_expanded = truthy_value (get (codes "outcomeExpanded") (fields_of? v));
}

abbrev pub read_metrics : Unchecked → Option Value → TurnMetrics
read_metrics unchecked (some (arr items)) = unchecked.metrics (arr items)
read_metrics unchecked (some (obj fields)) = unchecked.metrics (obj fields)
read_metrics unchecked v = no_metrics

-- `restoreTurn` of a value that the document holds.
unfoldable pub restore_turn_value : Unchecked → Value → Option ChatTurn
unfolding create_turn read_terminal_reason read_turn_status normalize_presentation
restore_turn_value unchecked v = elim (get (codes "id") (fields_of v)) [
  | some (str id) ↦ some (record (create_turn id) {
    status = read_turn_status (get (codes "status") (fields_of v));
    result_text = string_value (get (codes "resultText") (fields_of v));
    result_is_error = truthy_value (get (codes "resultIsError") (fields_of v));
    terminal_reason = read_terminal_reason (get (codes "terminalReason") (fields_of v));
    metrics = read_metrics unchecked (get (codes "metrics") (fields_of v));
    presentation = normalize_presentation (get (codes "presentation") (fields_of v));
  })
  | _ ↦ none
]

abbrev pub is_auto : TraceDisclosure → Bool
is_auto auto = true
is_auto d = false

abbrev pub is_adjusted : TurnPresentationState → Bool
is_adjusted p =
    not (is_auto p.trace)
    || ltb 0 (length p.expanded_activity_ids)
    || ltb 0 (length p.full_evidence_activity_ids)

unfoldable pub preserve_turn_presentation : ChatTurn → Option ChatTurn → ChatTurn
unfolding starts_with
preserve_turn_presentation incoming none = incoming
preserve_turn_presentation incoming (some previous) =
    if not (is_adjusted previous.presentation)
    then incoming
    else if not (text_eq previous.id incoming.id) && not (starts_with (codes "legacy-") previous.id)
    then incoming
    else record incoming { presentation = previous.presentation }

abbrev pub is_answer : OutcomeKind → Bool
is_answer of_assistant = true
is_answer of_result = true
is_answer kind = false

abbrev pub reason_message : TerminalReason → Bool → Option Text
reason_message completed has_result =
    if has_result then none else some (codes "Run completed without producing a response.")
reason_message cancelled has_result = some (
    if has_result
    then codes "Run cancelled before finishing."
    else codes "Run cancelled before producing a response.")
reason_message budget_exhausted has_result = some (
    if has_result
    then codes "Run stopped early: token budget exhausted."
    else codes "Run stopped before producing a response: token budget exhausted.")
reason_message run_failed has_result = some (
    if has_result
    then codes "Run failed before finishing."
    else codes "Run failed before producing a response.")
reason_message untrusted has_result = none

unfoldable pub terminal_reason_message : ChatTurn → Option Text
terminal_reason_message t = elim t.terminal_reason [
  | none ↦ none
  | some reason ↦ reason_message reason (truthy (trim t.result_text) || is_answer t.outcome_kind)
]
