-- ===== src/Document/Restoring.antt =====
-- src/agent/document.ts: a notebook as a snapshot, and a snapshot as a notebook, restored in place.
use mathlib.Core.Option
use jupyter_plugin_aitermina.Keys.{EditorMode, edit}
use jupyter_plugin_aitermina.Protocol.{WorkspaceMode, ai, ChatBlock, command}
use jupyter_plugin_aitermina.Document.Normalizing.{
  normalize_input, persist_status, normal_generation?, clamp, is_command, generation_or_zero,
  normal_generation,
}
use jupyter_plugin_aitermina.Notebook.{WorkspaceCell, CellStatus, Notebook, is_empty}
use jupyter_plugin_aitermina.Document.References.{
  normalize_session_text, get_agent_session_reference, normalize_session?,
}
use jupyter_plugin_aitermina.Base.{
  Option, ℕ, none, Text, map, List, some, inl, if◌then◌else◌, inr, ◌∷◌, codes, ◌++◌, [], length,
  ◌-◌,
}
use jupyter_plugin_aitermina.Document.Bridges.{BridgeCell, normalize_notebook_bridges}
use jupyter_plugin_aitermina.Turn.{TurnStatus, turn_interrupted, turn_done, ChatTurn}
use jupyter_plugin_aitermina.Document.{
  Workspace, WorkspaceSnapshot, CellSnapshot, agent_workspace_version,
}
use jupyter_plugin_aitermina.Turn.Deriving.{set_turn_status, create_turn, derive_turn}
use jupyter_plugin_aitermina.Turn.Persistence.{restore_turn, to_persisted_turn, Unchecked}
use jupyter_plugin_aitermina.Notebook.Runs.{restore_counters}
use jupyter_plugin_aitermina.Json.{Number, Value, whole}
use jupyter_plugin_aitermina.Document.Reading.{ReadError}
use jupyter_plugin_aitermina.ToolPresenter.Formats.{Doubles}
use jupyter_plugin_aitermina.Document.Snapshots.{parse_workspace_snapshot}

abbrev pub kept_generation : WorkspaceMode → Option ℕ → Option ℕ
kept_generation ai g = normal_generation? g
kept_generation command g = none

unfoldable pub snapshot_from_cell : WorkspaceCell → CellSnapshot
unfolding normalize_input persist_status to_persisted_turn
snapshot_from_cell c =
    let input = normalize_input c.source (is_command c.kind) in
    record {
      id = c.id;
      kind = input.kind;
      source = input.source;
      output = c.output;
      blocks = c.blocks;
      turn = Option.map to_persisted_turn c.turn;
      status = persist_status c.status;
      execution_count = c.execution_count;
      output_collapsed = c.output_collapsed;
      agent_context_generation = kept_generation input.kind c.agent_context_generation;
    }

abbrev pub bridge_cell : WorkspaceCell → BridgeCell
bridge_cell c = record {
  id = c.id;
  kind = c.kind;
  status = c.status;
  source = c.source;
  agent_context_generation = c.agent_context_generation;
}

unfoldable pub snapshot_from_notebook : Workspace → WorkspaceSnapshot
unfolding normalize_session_text get_agent_session_reference normalize_notebook_bridges
    snapshot_from_cell
snapshot_from_notebook w =
    let n = w.notebook in
    let generation = generation_or_zero (normal_generation n.agent_context_generation) in
    record {
      version = agent_workspace_version;
      active = whole n.active;
      agent_session_id = normalize_session? n.agent_session_id;
      session_reference = get_agent_session_reference w;
      agent_context_generation = generation;
      agent_context_bridges =
          normalize_notebook_bridges n.agent_context_bridges (map bridge_cell n.cells) generation;
      cells = map snapshot_from_cell n.cells;
    }

abbrev pub legacy_status : CellStatus → TurnStatus
legacy_status CellStatus.running = turn_interrupted
legacy_status CellStatus.interrupted = turn_interrupted
legacy_status s = turn_done

-- A notebook whose selection is an index, or one whose `active` is a number between two indices;
-- the field of the record does not count then.
pub data Placed : Type 0 where
  at_index : Notebook → Placed
  between_indices : Number → Notebook → Placed

-- How `restoreNotebook` ends: it throws, or the workspace is restored, with a selection between two
-- cells in the second case.
pub data Restored : Type 0 where
  failed_to_read : ReadError → Restored
  between_cells : Number → Workspace → Restored
  restored : Workspace → Restored

unfoldable pub place_at : Number → Notebook → Placed
unfolding restore_counters
place_at (whole i) n = at_index (restore_counters n.cells (record n { active = i; mode = edit }))
place_at active n = between_indices active (restore_counters n.cells (record n { mode = edit }))

abbrev pub workspace_of : ℕ → WorkspaceSnapshot → Notebook → Workspace
workspace_of k s n = record {
  notebook = n;
  reference = s.session_reference;
  standalone_cell_counter = k;
}

abbrev pub restored_as : ℕ → WorkspaceSnapshot → Placed → Restored
restored_as k s (at_index n) = restored (workspace_of k s n)
restored_as k s (between_indices active n) = between_cells active (workspace_of k s n)

module _ (doubles : Doubles) where
  unfoldable pub legacy_turn : Text → WorkspaceMode → CellStatus → List ChatBlock → Option ChatTurn
  unfolding set_turn_status create_turn
  legacy_turn id command status blocks = none
  legacy_turn id ai status [] = none
  legacy_turn id ai status (b ∷ bs) = some (
      set_turn_status doubles (create_turn (codes "legacy-" ++ id)) (legacy_status status) (b ∷ bs))

  unfoldable pub restored_turn : CellSnapshot → WorkspaceMode → CellStatus → Option ChatTurn
  unfolding legacy_turn restore_turn derive_turn
  restored_turn c kind status = elim c.turn [
    | some p ↦ some (derive_turn doubles (restore_turn p) c.blocks)
    | none ↦ legacy_turn c.id kind status c.blocks
  ]

  unfoldable pub cell_from_snapshot : CellSnapshot → WorkspaceCell
  unfolding normalize_input persist_status restored_turn
  cell_from_snapshot c =
      let input = normalize_input c.source (is_command c.kind) in
      let status = persist_status c.status in
      record {
        id = c.id;
        kind = input.kind;
        source = input.source;
        output = c.output;
        blocks = c.blocks;
        turn = restored_turn c input.kind status;
        status = status;
        execution_count = c.execution_count;
        output_collapsed = c.output_collapsed;
        agent_context_generation = kept_generation input.kind c.agent_context_generation;
      }

  -- The assignments of `restoreNotebook` before the selection is set.
  unfoldable pub load_snapshot : WorkspaceSnapshot → Notebook → Notebook
  unfolding cell_from_snapshot
  load_snapshot s n = record n {
    cells = map cell_from_snapshot s.cells;
    agent_session_id = s.agent_session_id;
    agent_context_generation = s.agent_context_generation;
    agent_context_bridges = s.agent_context_bridges;
  }

  -- The selection, the mode and the counters.
  unfoldable pub place_notebook : Number → Notebook → Placed
  unfolding restore_counters place_at clamp
  place_notebook active n =
      if is_empty n
      then at_index (restore_counters n.cells (record n { active = 0; mode = EditorMode.command }))
      else place_at (clamp doubles active (length n.cells - 1)) n

  unfoldable pub restore_snapshot : ℕ → WorkspaceSnapshot → Workspace → Restored
  unfolding load_snapshot place_notebook
  restore_snapshot k s w = restored_as k s (place_notebook s.active (load_snapshot s w.notebook))

  unfoldable pub restore_notebook : Unchecked → Option Value → Workspace → Restored
  unfolding parse_workspace_snapshot restore_snapshot
  restore_notebook unchecked text w =
      elim (parse_workspace_snapshot unchecked w.standalone_cell_counter text) [
        | inl e ↦ failed_to_read e
        | inr (k, s) ↦ restore_snapshot k s w
      ]
