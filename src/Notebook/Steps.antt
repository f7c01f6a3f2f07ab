-- ===== src/Notebook/Steps.antt =====
-- src/agent/notebook.ts: the methods as steps, and what a notebook satisfies between two of them.
use jupyter_plugin_aitermina.Notebook.{Notebook, CellStatus, create_cell}
use jupyter_plugin_aitermina.Base.{ℕ, Text, List, Option, Bool, All}
use jupyter_plugin_aitermina.Notebook.Placement.{IsPlaced}
use jupyter_plugin_aitermina.Notebook.Statuses.{IsServed}
use jupyter_plugin_aitermina.Notebook.Cells.{
  select, append_cell, insert_above, insert_below, prepare_retry, delete_active, cancel_queued_runs,
  enter_edit, exit_edit, set_source, set_draft_kind, set_blocks, set_turn, update_turn,
  toggle_output_collapsed, ensure_trailing_input, advance_after_run,
}
use jupyter_plugin_aitermina.Protocol.{WorkspaceMode, ChatBlock}
use jupyter_plugin_aitermina.Turn.{ChatTurn}
use jupyter_plugin_aitermina.HistoryBridge.{HistoryBridgeCapsule}
use jupyter_plugin_aitermina.Notebook.Runs.{
  enqueue_run, promote_next_run, finish_run, clear_runs, restore_counters,
}
use jupyter_plugin_aitermina.Notebook.RunEnding.{IsSettled}
use jupyter_plugin_aitermina.Notebook.Context.{
  start_new_agent_context, set_agent_context_bridge, commit_run_context,
}
use jupyter_plugin_aitermina.Notebook.Counters.{IsExact}
use jupyter_plugin_aitermina.Notebook.Ids.{ids}

pub record IsValid (n : Notebook) : Type 0 where
  pub placed : IsPlaced n
  pub served : IsServed n

-- A call of a method. `finishRun` is called with a status that a run can end with; `restoreCounters`
-- with the cells of the notebook, whose ids have numbers below 2^53. A cell of a call of
-- `createCell` from outside is not put into the notebook.
pub data Step (n : Notebook) : Notebook → Type 0 where
  selects : (i : ℕ) → Step n (select i n)
  appends : Step n (append_cell n).0
  inserts_above : Step n (insert_above n).0
  inserts_below : Step n (insert_below n).0
  retries : (i : ℕ) → Step n (prepare_retry i n).0
  deletes : Step n (delete_active n).0
  cancels : (id : Text) → Step n (cancel_queued_runs id n)
  enters_edit : Step n (enter_edit n)
  exits_edit : Step n (exit_edit n)
  sets_source : (source : Text) → Step n (set_source source n)
  sets_kind : (kind : WorkspaceMode) (i : ℕ) → Step n (set_draft_kind kind i n).0
  sets_blocks : (blocks : List ChatBlock) → Step n (set_blocks blocks n)
  sets_turn : (turn : Option ChatTurn) → Step n (set_turn turn n)
  updates_turn : (id : Text) (update : ChatTurn → ChatTurn) → Step n (update_turn id update n).0
  toggles : (i : ℕ) → Step n (toggle_output_collapsed i n)
  trails : Step n (ensure_trailing_input n).0
  advances : Step n (advance_after_run n).0
  enqueues :
      (i : ℕ) (advance : Bool) (bridge : Option HistoryBridgeCapsule)
      → Step n (enqueue_run i advance bridge n).0
  promotes : Step n (promote_next_run n).0
  finishes : (id output : Text) (s : CellStatus) → IsSettled s → Step n (finish_run id output s n).0
  clears : Step n (clear_runs n)
  creates : (kind : WorkspaceMode) (source : Text) → Step n (create_cell kind source n).0
  restores : All IsExact (ids n.cells) → Step n (restore_counters n.cells n)
  starts_context : (ids : Option (List Text)) → Step n (start_new_agent_context ids n).0
  sets_bridge : (ids : List Text) (g : ℕ) → Step n (set_agent_context_bridge ids g n)
  commits : (id : Text) → Step n (commit_run_context id n).0

pub data Reaches (n : Notebook) : Notebook → Type 0 where
  here : Reaches n n
  next : {m k : Notebook} → Reaches n m → Step m k → Reaches n k
