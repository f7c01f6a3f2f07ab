-- ===== src/Notebook/Runs.antt =====
-- src/agent/notebook.ts: the queue of runs, from the request to its end.
use mathlib.Core.Option
use jupyter_plugin_aitermina.Base.{
  ℕ, Option, Text, List, Bool, some, none, [], ◌∷◌, if◌then◌else◌, false, is_some, map, max, ◌+◌,
  not, get_elem?, text_eq, ◌++◌, trim, truthy, true, read_decimal, take, codes, drop,
}
use jupyter_plugin_aitermina.Notebook.{
  WorkspaceCell, update_at, RunRequest, update_cell, Notebook, CellStatus, running, idle, is_ai,
  interrupted, run_id, queued, find_cell, runs_cell,
}
use jupyter_plugin_aitermina.Protocol.{WorkspaceMode}
use jupyter_plugin_aitermina.Notebook.Source.{Execution, resolve_run_execution}
use jupyter_plugin_aitermina.HistoryBridge.{HistoryBridgeCapsule}
use jupyter_plugin_aitermina.Notebook.Rounding.{to_double}

-- The request that `enqueueRun` makes for a cell.
abbrev pub request_of :
    WorkspaceCell → Execution → Bool → Option HistoryBridgeCapsule → Notebook → RunRequest
request_of c e advance bridge n = record {
  id = run_id (n.run_counter + 1);
  cell_id = c.id;
  kind = e.kind;
  source = trim c.source;
  execution_source = e.execution_source;
  advance = advance;
  history_bridge = bridge;
  agent_context_generation = if is_ai e.kind then some n.agent_context_generation else none;
  context_committed = not (is_ai e.kind);
}

-- The writes of `enqueueRun` to the cell.
abbrev pub mark_enqueued : WorkspaceMode → Bool → WorkspaceCell → WorkspaceCell
mark_enqueued kind runs c =
    let d = if is_ai kind then c else record c { agent_context_generation = none } in
    if runs then d else record d { status = queued }

abbrev pub enqueue_resolved :
    WorkspaceCell
    → Option Execution
    → ℕ
    → Bool
    → Option HistoryBridgeCapsule
    → Notebook
    → Notebook × Option RunRequest
enqueue_resolved c none i advance bridge n = (n, none)
enqueue_resolved c (some e) i advance bridge n =
    let request = request_of c e advance bridge n in
    (
      record n {
        run_counter = n.run_counter + 1;
        run_queue = n.run_queue ++ request ∷ [];
        cells = update_at i (mark_enqueued e.kind (runs_cell n.active_request c.id)) n.cells;
      },
      some request,
    )

abbrev pub enqueue_cell :
    Option WorkspaceCell
    → ℕ
    → Bool
    → Option HistoryBridgeCapsule
    → Notebook
    → Notebook × Option RunRequest
enqueue_cell none i advance bridge n = (n, none)
enqueue_cell (some c) i advance bridge n =
    if not (truthy (trim c.source))
    then (n, none)
    else enqueue_resolved c (resolve_run_execution (trim c.source) c.kind) i advance bridge n

unfoldable pub enqueue_run :
    ℕ → Bool → Option HistoryBridgeCapsule → Notebook → Notebook × Option RunRequest
unfolding update_at resolve_run_execution
enqueue_run i advance bridge n = enqueue_cell (get_elem? n.cells i) i advance bridge n

-- The cell of a run that starts.
abbrev pub start_cell : WorkspaceMode → ℕ → WorkspaceCell → WorkspaceCell
start_cell kind count c = record c {
  kind = kind;
  status = running;
  output = [];
  blocks = [];
  turn = none;
  execution_count = some count;
  output_collapsed = false;
}

-- What `promoteNextRun` does with a request, `queue` the requests behind it, whose cell is there.
abbrev pub start_run : RunRequest → List RunRequest → Notebook → Notebook
start_run r queue n = record n {
  run_queue = queue;
  active_request = some r;
  execution_counter = n.execution_counter + 1;
  cells = update_cell r.cell_id (start_cell r.kind (n.execution_counter + 1)) n.cells;
}

-- The loop of `promoteNextRun` over the queue.
unfoldable pub promote_loop : List RunRequest → Notebook → Notebook × Option RunRequest
unfolding update_cell
promote_loop [] n = (record n { run_queue = [] }, none)
promote_loop (r ∷ rs) n =
    let rest = promote_loop rs n in
    if is_some (find_cell r.cell_id n.cells) then (start_run r rs n, some r) else rest

unfoldable pub promote_next_run : Notebook → Notebook × Option RunRequest
unfolding promote_loop
promote_next_run n = if is_some n.active_request then (n, none) else promote_loop n.run_queue n

-- `this.activeRequest?.id === id`
abbrev pub has_run_id : Option RunRequest → Text → Bool
has_run_id none id = false
has_run_id (some r) id = text_eq r.id id

abbrev pub end_cell : Text → CellStatus → WorkspaceCell → WorkspaceCell
end_cell output status c = record c { output = output; status = status }

abbrev pub finish_request :
    Option RunRequest → Text → Text → CellStatus → Notebook → Notebook × Bool
finish_request none id output status n = (n, false)
finish_request (some r) id output status n = if not (text_eq r.id id) then (n, false) else (
  record n {
    cells = update_cell r.cell_id (end_cell output status) n.cells;
    active_request = none;
  },
  true,
)

unfoldable pub finish_run : Text → Text → CellStatus → Notebook → Notebook × Bool
unfolding update_cell
finish_run id output status n = finish_request n.active_request id output status n

abbrev pub busy : Notebook → Bool
busy n = is_some n.active_request

abbrev pub clear_status : CellStatus → CellStatus
clear_status queued = idle
clear_status running = interrupted
clear_status s = s

unfoldable pub clear_runs : Notebook → Notebook
clear_runs n = record n {
  run_queue = [];
  active_request = none;
  cells = map (λ (c : WorkspaceCell). record c { status = clear_status c.status }) n.cells;
}

-- `/^cell-(\d+)$/`: the number that the digits write.
unfoldable pub read_cell_id : Text → Option ℕ
unfolding text_eq read_decimal
read_cell_id s = if text_eq (take 5 s) (codes "cell-") then read_decimal (drop 5 s) else none

-- `Number(match[1])`
unfoldable pub read_cell_number : Text → Option ℕ
unfolding read_cell_id to_double
read_cell_number s = Option.map to_double (read_cell_id s)

abbrev pub max_with : ℕ → Option ℕ → ℕ
max_with n none = n
max_with n (some k) = max n k

unfoldable pub max_cell : ℕ → List WorkspaceCell → ℕ
unfolding read_cell_number
max_cell n [] = n
max_cell n (c ∷ cs) = max_cell (max_with n (read_cell_number c.id)) cs

unfoldable pub max_execution : ℕ → List WorkspaceCell → ℕ
max_execution n [] = n
max_execution n (c ∷ cs) = max_execution (max_with n c.execution_count) cs

unfoldable pub restore_counters : List WorkspaceCell → Notebook → Notebook
unfolding max_cell max_execution
restore_counters cells n = record n {
  cell_counter = max_cell 0 cells;
  execution_counter = max_execution 0 cells;
}
