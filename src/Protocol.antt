-- ===== src/Protocol.antt =====
-- src/agent/protocol.ts: the events of the server, the blocks of a chat and the product events.
pub mod Blocks
pub mod BlockLaws
pub mod Streaming
pub mod Dsh
pub mod DshParse
pub mod DshEvents
pub mod DshSound
pub mod DshReaders
pub mod DshLaws
pub mod Report
pub mod ReportParse
pub mod ReportDifferences
pub mod ReportSound
pub mod ReportAccepted
mod ReportTests
mod Tests
use jupyter_plugin_aitermina.Base.{Text, Option, Bool}
use jupyter_plugin_aitermina.Json.{Value, Number}

pub data WorkspaceMode : Type 0 where
  ai command : WorkspaceMode

pub data AgentContextState : Type 0 where
  connecting new live resumed unavailable reset : AgentContextState

pub data ErrorCode : Type 0 where
  config runtime denied_code resume context : ErrorCode

pub data ThinkingState : Type 0 where
  started finished : ThinkingState

pub data InstallStatus : Type 0 where
  begun ok failed : InstallStatus

-- The stable reasons. `untrusted` is any other value that arrives.
pub data TerminalReason : Type 0 where
  completed cancelled budget_exhausted run_failed untrusted : TerminalReason

pub record ToolStart : Type 0 where
  pub id : Text
  pub name : Text
  pub input : Value
  pub started_at : Option Number

pub record ToolEnd : Type 0 where
  pub id : Text
  pub name : Text
  pub output : Text
  pub is_error : Bool
  pub duration_ms : Option Number
  pub line_count : Option Number
  pub byte_count : Option Number

-- `costUsd` and `usage` are `undefined`, `null` or a value.
pub record RunResult : Type 0 where
  pub text : Text
  pub is_error : Bool
  pub reason : Option TerminalReason
  pub duration_ms : Option Number
  pub api_duration_ms : Option Number
  pub num_turns : Option Number
  pub cost_usd : Option (Option Number)
  pub usage : Option (Option Value)
  pub session_id : Option Text

pub record ExecDone : Type 0 where
  pub output : Text
  pub returncode : Number
  pub cwd : Text

pub record Ready : Type 0 where
  pub session_id : Text
  pub context_state : Option AgentContextState
  pub model : Text
  pub cwd : Text

-- The first argument of an event of a turn is its `turnId`. `unexpected` is a payload whose type is
-- none of the declared ones.
pub data ServerEvent : Type 0 where
  ready : Ready → ServerEvent
  accepted : Option Text → Text → ServerEvent
  error : Option Text → ErrorCode → Text → ServerEvent
  text : Option Text → Option Text → Text → ServerEvent
  thinking : Option Text → Text → Option ThinkingState → ServerEvent
  tool_start : Option Text → ToolStart → ServerEvent
  tool_end : Option Text → ToolEnd → ServerEvent
  install : Option Text → Text → InstallStatus → Option Text → ServerEvent
  denied : Option Text → Text → Text → ServerEvent
  result : Option Text → RunResult → ServerEvent
  exec_output : Text → ServerEvent
  exec_done : ExecDone → ServerEvent
  exec_error : Text → ServerEvent
  configuration : Option Value → ServerEvent
  configuration_error : ServerEvent
  unexpected : Option Text → ServerEvent

pub data ToolStatus : Type 0 where
  running done tool_error : ToolStatus

pub record ToolBlock : Type 0 where
  pub id : Text
  pub name : Text
  pub input : Value
  pub output : Text
  pub status : ToolStatus
  pub started_at : Option Number
  pub duration_ms : Option Number
  pub line_count : Option Number
  pub byte_count : Option Number

-- Each block has its id first.
pub data ChatBlock : Type 0 where
  user_block : Text → Text → ChatBlock
  text_block : Text → Text → Option Text → ChatBlock
  thinking_block : Text → ThinkingState → ChatBlock
  tool_block : ToolBlock → ChatBlock
  install_block : Text → Text → InstallStatus → Text → ChatBlock
  denied_block : Text → Text → Text → ChatBlock
  error_block : Text → Text → Option ErrorCode → ChatBlock

unfoldable pub block_id : ChatBlock → Text
block_id (user_block id _) = id
block_id (text_block id _ _) = id
block_id (thinking_block id _) = id
block_id (tool_block b) = b.id
block_id (install_block id _ _ _) = id
block_id (denied_block id _ _) = id
block_id (error_block id _ _) = id
