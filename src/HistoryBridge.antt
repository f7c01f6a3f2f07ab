-- ===== src/HistoryBridge.antt =====
-- src/agent/history-bridge.ts: the data of a history bridge, as a run request carries it.
pub mod Membership
pub mod Belonging
pub mod Tasks
pub mod Building
pub mod Counts
mod Tests
use jupyter_plugin_aitermina.Base.{Text, List, Bool, ℕ}

pub data BackgroundTaskState : Type 0 where
  task_running task_completed task_failed task_killed task_unknown : BackgroundTaskState

pub record HistoryBridgeTurn : Type 0 where
  pub cell_id : Text
  pub source : Text
  pub interrupted : Bool
  pub outcome : Text
  pub task_ids : List Text

pub record HistoryBridgeTask : Type 0 where
  pub cell_id : Text
  pub task_id : Text
  pub output_path : Text
  pub state : BackgroundTaskState

pub record HistoryBridgeCapsule : Type 0 where
  pub turns : List HistoryBridgeTurn
  pub tasks : List HistoryBridgeTask
  pub omitted_turn_count : ℕ
  pub omitted_task_count : ℕ
  pub truncated_field_count : ℕ
