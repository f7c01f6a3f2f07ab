-- ===== src/Turn.antt =====
-- src/agent/turn.ts: the data of a turn, as a cell keeps it.
pub mod Presentation
pub mod Switches
pub mod Timeline
pub mod Deriving
pub mod Persistence
pub mod Totals
pub mod Changes
pub mod Diagnostics
pub mod Answers
pub mod Keeping
mod Tests
use jupyter_plugin_aitermina.Base.{Option, List, Text, Bool, ℕ}
use jupyter_plugin_aitermina.Json.{Number, Value}
use jupyter_plugin_aitermina.Protocol.{ToolStatus, ErrorCode, ThinkingState, TerminalReason}
use jupyter_plugin_aitermina.ToolPresenter.{ToolPresentation}

-- `turn_unchecked` is a value of a document that is none of the declared ones, `none` for
-- `undefined`; it is taken over as it is.
pub data TurnStatus : Type 0 where
  turn_running turn_done turn_interrupted turn_error : TurnStatus
  turn_unchecked : Option Value → TurnStatus

pub data TraceDisclosure : Type 0 where
  auto expanded collapsed : TraceDisclosure

pub data OutcomeKind : Type 0 where
  of_result of_assistant of_tool no_outcome : OutcomeKind

pub record TurnMetrics : Type 0 where
  pub duration_ms : Option Number
  pub api_duration_ms : Option Number
  pub num_turns : Option Number
  pub cost_usd : Option (Option Number)
  pub usage : Option (Option Value)

pub record TurnPresentationState : Type 0 where
  pub trace : TraceDisclosure
  pub expanded_activity_ids : List Text
  pub full_evidence_activity_ids : List Text
  pub outcome_expanded : Bool

pub record ToolActivity : Type 0 where
  pub id : Text
  pub block_id : Text
  pub name : Text
  pub status : ToolStatus
  pub input : Value
  pub output : Text
  pub duration_ms : Option Number
  pub presentation : ToolPresentation

pub data NoticeKind : Type 0 where
  install_notice denied_notice error_notice unknown_notice : NoticeKind

pub data NoticeStatus : Type 0 where
  notice_started notice_ok notice_failed notice_error notice_info : NoticeStatus

pub record NoticeActivity : Type 0 where
  pub kind : NoticeKind
  pub id : Text
  pub block_id : Text
  pub status : NoticeStatus
  pub title : Text
  pub detail : Text
  pub code : Option ErrorCode

-- The id and the block id of text and thinking come first.
pub data TurnActivity : Type 0 where
  text_activity : Text → Text → Text → TurnActivity
  thinking_activity : Text → Text → ThinkingState → TurnActivity
  tool_activity : ToolActivity → TurnActivity
  notice_activity : NoticeActivity → TurnActivity

pub data Tone : Type 0 where
  error_tone warning_tone : Tone

pub record TurnDiagnostic : Type 0 where
  pub id : Text
  pub activity_id : Text
  pub tone : Tone
  pub title : Text
  pub detail : Text

pub record TurnChange : Type 0 where
  pub path : Text
  pub additions : Option ℕ
  pub deletions : Option ℕ
  pub source_ids : List Text

pub record ChatTurn : Type 0 where
  pub id : Text
  pub status : TurnStatus
  pub outcome : Text
  pub outcome_kind : OutcomeKind
  pub timeline : List TurnActivity
  pub diagnostics : List TurnDiagnostic
  pub changes : List TurnChange
  pub metrics : TurnMetrics
  pub presentation : TurnPresentationState
  pub result_text : Text
  pub result_is_error : Bool
  pub terminal_reason : Option TerminalReason
  pub revision : ℕ
