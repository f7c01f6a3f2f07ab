-- ===== src/Turn/Tests.antt =====
-- src/agent/turn.ts: runs on concrete turns.
use jupyter_plugin_aitermina.Json.{Value}
use jupyter_plugin_aitermina.Protocol.{text}
use jupyter_plugin_aitermina.Turn.{
  ChatTurn, turn_running, no_outcome, auto, turn_done, TurnActivity, ToolActivity, tool_activity,
  collapsed, turn_error, thinking_activity,
}
use jupyter_plugin_aitermina.Turn.Presentation.{toggle_id, toggle_trace}
use jupyter_plugin_aitermina.Base.{
  codes, text_eq, ◌≡◌, ◌∷◌, [], refl, none, false, to_set, Text, List, Distinct, trim, find,
  trim_end, some, trim_start, is_space,
}
use jupyter_plugin_aitermina.ToolPresenter.Formats.{Doubles, starts_with}
use jupyter_plugin_aitermina.Turn.Timeline.{
  derive_changes, changes_from, derive_diagnostics, change_of, add_change, sum_nullable,
}
use jupyter_plugin_aitermina.Turn.Deriving.{
  derive_turn, normalize_text, apply_turn_event, collapse_spaces, turn_of_event, resume_status,
}
use jupyter_plugin_aitermina.Turn.Keeping.{KeepsResult, apply_turn_events, apply_turn_events-keeps}
use jupyter_plugin_aitermina.Turn.Persistence.{terminal_reason_message, preserve_turn_presentation}
use jupyter_plugin_aitermina.Protocol.{
  ToolStatus, ChatBlock, user_block, ServerEvent, tool_error, thinking_block, runtime, finished,
  cancelled, text_block,
}
use jupyter_plugin_aitermina.Turn.Changes.{paths, is_path, derive_changes-entry}
use jupyter_plugin_aitermina.Turn.Diagnostics.{
  keys, has_key, all_diagnostics, derive_diagnostics-first,
}
use jupyter_plugin_aitermina.ToolPresenter.{mutation}
use jupyter_plugin_aitermina.Turn.Totals.{summed_entry, changes_of_file}

abbrev running_turn : ChatTurn
running_turn = record {
  id = codes "t";
  status = turn_running;
  outcome = [];
  outcome_kind = no_outcome;
  timeline = [];
  diagnostics = [];
  changes = [];
  metrics = record {
    duration_ms = none;
    api_duration_ms = none;
    num_turns = none;
    cost_usd = none;
    usage = none;
  };
  presentation = record {
    trace = auto;
    expanded_activity_ids = [];
    full_evidence_activity_ids = [];
    outcome_expanded = false;
  };
  result_text = [];
  result_is_error = false;
  terminal_reason = none;
  revision = 0;
}

toggled : toggle_id (codes "a") (codes "a" ∷ codes "b" ∷ codes "a" ∷ []) ≡ codes "b" ∷ []
unfolding toggle_id to_set text_eq
toggled = refl

-- An arithmetic that prints nothing.
abbrev silent : Doubles
silent = record {
  is_falsy = λ a b c tag. false;
  is_below = λ a b c tag n. false;
  print = λ a b c tag. [];
  print_rounded = λ a b c tag. [];
  print_quotient = λ v n. [];
}

abbrev presented_edit : Text → ToolStatus → ToolActivity
presented_edit id status = record {
  id = id;
  block_id = id;
  name = codes "Edit";
  status = status;
  input = Value.null;
  output = [];
  duration_ms = none;
  presentation = record {
    category = mutation;
    title = codes "Edit f";
    detail = [];
    preview = [];
    hidden_line_count = 0;
    hidden_character_count = 0;
    change = some (record { path = codes "f"; additions = some 2; deletions = none });
  };
}

-- Two edits of one file, of which the second failed twice.
abbrev two_edits : List TurnActivity
two_edits =
    tool_activity (presented_edit (codes "a") ToolStatus.done)
    ∷ tool_activity (presented_edit (codes "b") tool_error)
    ∷ tool_activity (presented_edit (codes "c") tool_error)
    ∷ []

derive_changes-entry_example :
    Distinct (paths (derive_changes two_edits))
    × ((path : Text)
        → find (is_path path) (derive_changes two_edits)
          ≡ summed_entry path (changes_of_file path two_edits))
derive_changes-entry_example = derive_changes-entry two_edits

derive_diagnostics-first_example :
    Distinct (keys (derive_diagnostics two_edits))
    × ((key : Text)
        → find (has_key key) (derive_diagnostics two_edits)
          ≡ find (has_key key) (all_diagnostics two_edits))
derive_diagnostics-first_example = derive_diagnostics-first two_edits

summed :
    derive_changes two_edits
    ≡ record {
      path = codes "f";
      additions = some 6;
      deletions = none;
      source_ids = codes "a" ∷ codes "b" ∷ codes "c" ∷ [];
    }
      ∷ []
unfolding derive_changes changes_from change_of add_change sum_nullable text_eq
summed = refl

abbrev ended_turn : ChatTurn
ended_turn = record running_turn { status = turn_done }

abbrev answered : List ChatBlock
answered =
    user_block (codes "u") (codes "hi")
    ∷ thinking_block (codes "k") finished
    ∷ text_block (codes "m") (codes "hello") none
    ∷ []

abbrev thought : List TurnActivity
thought = thinking_activity (codes "activity-k") (codes "k") finished ∷ []

abbrev failure_then_text : List (List ChatBlock × ServerEvent)
failure_then_text =
    ([], ServerEvent.error none runtime (codes "lost"))
    ∷ (answered, text none none (codes "hello"))
    ∷ []

apply_turn_events-keeps_example :
    KeepsResult running_turn (apply_turn_events silent running_turn failure_then_text)
apply_turn_events-keeps_example =
    apply_turn_events-keeps silent running_turn failure_then_text (refl, (refl, tt))

stays_failed : (apply_turn_events silent running_turn failure_then_text).status ≡ turn_error
unfolding apply_turn_events apply_turn_event turn_of_event resume_status derive_turn
stays_failed = refl

one_space : normalize_text (codes "  a \n b ") ≡ codes "a b"
unfolding normalize_text collapse_spaces trim trim_end trim_start is_space
one_space = refl

unanswered :
    terminal_reason_message (record running_turn { terminal_reason = some cancelled })
    ≡ some (codes "Run cancelled before producing a response.")
unfolding terminal_reason_message trim trim_end trim_start
unanswered = refl

legacy_is_preserved :
    (preserve_turn_presentation running_turn
      (some (toggle_trace (record running_turn { id = codes "legacy-c" })))).presentation.trace
    ≡ collapsed
unfolding preserve_turn_presentation toggle_trace text_eq starts_with
legacy_is_preserved = refl
