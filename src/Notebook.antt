-- ===== src/Notebook.antt =====
-- src/agent/notebook.ts: the cells of a workspace, the execution of their sources and the queue of
-- runs. The methods stand in the child modules.
pub mod Source
pub mod Rounding
pub mod Cells
pub mod Runs
pub mod Context
pub mod Ids
pub mod Updates
pub mod Placement
pub mod Statuses
pub mod CellServing
pub mod Deletion
pub mod RunServing
pub mod RunEnding
pub mod Commit
pub mod Steps
pub mod FieldSteps
pub mod RunPlacement
pub mod Invariant
pub mod Counters
pub mod Queue
mod Tests
use jupyter_plugin_aitermina.Base.{
  ℕ, Text, List, Bool, Option, codes, [], length, find, false, true, ◌+◌, ◌∷◌, none, text_eq, suc,
  some, ◌++◌, ◌==◌, if◌then◌else◌, decimal, zero,
}
use jupyter_plugin_aitermina.Protocol.{WorkspaceMode, ai, ChatBlock, command}
use jupyter_plugin_aitermina.HistoryBridge.{HistoryBridgeCapsule}
use jupyter_plugin_aitermina.Keys.{EditorMode, edit}
use jupyter_plugin_aitermina.Turn.{ChatTurn}

pub data CellStatus : Type 0 where
  idle queued running done interrupted : CellStatus

pub record RunRequest : Type 0 where
  pub id : Text
  pub cell_id : Text
  pub kind : WorkspaceMode
  pub source : Text
  pub execution_source : Text
  pub advance : Bool
  pub history_bridge : Option HistoryBridgeCapsule
  pub agent_context_generation : Option ℕ
  pub context_committed : Bool

pub record AgentContextBridge : Type 0 where
  pub generation : ℕ
  pub cell_ids : List Text

pub record WorkspaceCell : Type 0 where
  pub id : Text
  pub kind : WorkspaceMode
  pub source : Text
  pub output : Text
  pub blocks : List ChatBlock
  pub turn : Option ChatTurn
  pub status : CellStatus
  pub execution_count : Option ℕ
  pub output_collapsed : Bool
  pub agent_context_generation : Option ℕ

pub record Notebook : Type 0 where
  pub cells : List WorkspaceCell
  pub active : ℕ
  pub mode : EditorMode
  pub agent_session_id : Option Text
  pub agent_context_generation : ℕ
  pub agent_context_bridges : List AgentContextBridge
  pub run_queue : List RunRequest
  pub active_request : Option RunRequest
  pub cell_counter : ℕ
  pub execution_counter : ℕ
  pub run_counter : ℕ
  pub explicit_draft_kinds : List Text

abbrev pub cell_id : ℕ → Text
cell_id n = codes "cell-" ++ decimal n

abbrev pub run_id : ℕ → Text
run_id n = codes "run-" ++ decimal n

abbrev pub fresh_cell : ℕ → WorkspaceMode → Text → WorkspaceCell
fresh_cell n kind source = record {
  id = cell_id n;
  kind = kind;
  source = source;
  output = [];
  blocks = [];
  turn = none;
  status = idle;
  execution_count = none;
  output_collapsed = false;
  agent_context_generation = none;
}

-- `createCell`: the notebook with the counter moved, and the cell.
abbrev pub create_cell : WorkspaceMode → Text → Notebook → Notebook × WorkspaceCell
create_cell kind source n =
    (record n { cell_counter = n.cell_counter + 1 }, fresh_cell (n.cell_counter + 1) kind source)

-- The constructor.
abbrev pub new_notebook : Notebook
new_notebook = record {
  cells = fresh_cell 1 ai [] ∷ [];
  active = 0;
  mode = edit;
  agent_session_id = none;
  agent_context_generation = 0;
  agent_context_bridges = [];
  run_queue = [];
  active_request = none;
  cell_counter = 1;
  execution_counter = 0;
  run_counter = 0;
  explicit_draft_kinds = [];
}

abbrev pub is_empty : Notebook → Bool
is_empty n = length n.cells == 0

-- `cells.find(c => c.id === id)`
abbrev pub find_cell : Text → List WorkspaceCell → Option WorkspaceCell
find_cell id = find λ c. text_eq c.id id

-- An assignment to fields of the first cell with an id.
unfoldable pub update_cell :
    Text → (WorkspaceCell → WorkspaceCell) → List WorkspaceCell → List WorkspaceCell
update_cell id f [] = []
update_cell id f (c ∷ cs) = if text_eq c.id id then f c ∷ cs else c ∷ update_cell id f cs

-- An assignment to fields of the cell at an index.
unfoldable pub update_at :
    ℕ → (WorkspaceCell → WorkspaceCell) → List WorkspaceCell → List WorkspaceCell
update_at i f [] = []
update_at zero f (c ∷ cs) = f c ∷ cs
update_at (suc i) f (c ∷ cs) = c ∷ update_at i f cs

-- `activeRequest?.cellId === id`
abbrev pub runs_cell : Option RunRequest → Text → Bool
runs_cell none id = false
runs_cell (some r) id = text_eq r.cell_id id

abbrev pub status_eq : CellStatus → CellStatus → Bool
status_eq idle idle = true
status_eq queued queued = true
status_eq running running = true
status_eq done done = true
status_eq interrupted interrupted = true
status_eq _ _ = false

abbrev pub is_ai : WorkspaceMode → Bool
is_ai ai = true
is_ai command = false

abbrev pub is_nil {ℓ} : {A : Type ℓ} → List A → Bool
is_nil [] = true
is_nil (x ∷ xs) = false
