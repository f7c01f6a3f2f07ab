-- ===== src/Document.antt =====
-- src/agent/document.ts: the data of a saved workspace.
pub mod Normalizing
pub mod References
pub mod Bridges
pub mod Reading
pub mod Snapshots
pub mod Restoring
pub mod Inputs
pub mod Ordering
pub mod RoundTrip
pub mod Acceptable
pub mod WellFormed
pub mod Restored
mod Tests
use jupyter_plugin_aitermina.Base.{ℕ, Text, Option, List, Bool}
use jupyter_plugin_aitermina.Notebook.{Notebook, AgentContextBridge, CellStatus}
use jupyter_plugin_aitermina.Protocol.{WorkspaceMode, ChatBlock}
use jupyter_plugin_aitermina.Json.{Number}
use jupyter_plugin_aitermina.Turn.Persistence.{PersistedTurn}

abbrev pub agent_workspace_version : ℕ
agent_workspace_version = 5

-- The engine is `dsh`, the only one.
pub record AgentSessionReference : Type 0 where
  pub session_id : Text

pub record CellSnapshot : Type 0 where
  pub id : Text
  pub kind : WorkspaceMode
  pub source : Text
  pub output : Text
  pub blocks : List ChatBlock
  pub turn : Option PersistedTurn
  pub status : CellStatus
  pub execution_count : Option ℕ
  pub output_collapsed : Bool
  pub agent_context_generation : Option ℕ

pub record WorkspaceSnapshot : Type 0 where
  pub version : ℕ
  pub active : Number
  pub agent_session_id : Option Text
  pub session_reference : Option AgentSessionReference
  pub agent_context_generation : ℕ
  pub agent_context_bridges : List AgentContextBridge
  pub cells : List CellSnapshot

-- A notebook with its entry in the map of session references, and the counter of the cells that are
-- made outside of a notebook.
pub record Workspace : Type 0 where
  pub notebook : Notebook
  pub reference : Option AgentSessionReference
  pub standalone_cell_counter : ℕ
