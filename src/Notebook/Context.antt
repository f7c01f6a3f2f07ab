-- ===== src/Notebook/Context.antt =====
-- src/agent/notebook.ts: which cells an agent's context was started from.
use jupyter_plugin_aitermina.Base.{
  Option, List, Text, ℕ, keep, some, Bool, ◌+◌, none, not, map, true, false, ◌++◌, ◌∷◌, ◌==◌,
  if◌then◌else◌, [], is_some, text_eq, ◌||◌,
}
use jupyter_plugin_aitermina.Notebook.{
  RunRequest, update_cell, AgentContextBridge, Notebook, find_cell, is_ai,
}
use jupyter_plugin_aitermina.HistoryBridge.{HistoryBridgeCapsule, HistoryBridgeTurn}

abbrev pub add_bridge : Option (List Text) → ℕ → List AgentContextBridge → List AgentContextBridge
add_bridge none g bs = bs
add_bridge (some ids) g bs = bs ++ record { generation = g; cell_ids = ids } ∷ []

unfoldable pub start_new_agent_context : Option (List Text) → Notebook → Notebook × ℕ
start_new_agent_context ids n =
    let g = n.agent_context_generation + 1 in
    (
      record n {
        agent_context_generation = g;
        agent_session_id = none;
        agent_context_bridges = add_bridge ids g n.agent_context_bridges;
      },
      g,
    )

unfoldable pub set_agent_context_bridge : List Text → ℕ → Notebook → Notebook
set_agent_context_bridge ids g n = record n {
  agent_context_bridges =
      keep (λ (b : AgentContextBridge). not (b.generation == g)) n.agent_context_bridges
      ++ record { generation = g; cell_ids = ids } ∷ [];
}

unfoldable pub set_bridge_of : Option HistoryBridgeCapsule → ℕ → Notebook → Notebook
unfolding set_agent_context_bridge
set_bridge_of none g n = n
set_bridge_of (some h) g n =
    set_agent_context_bridge (map (λ (t : HistoryBridgeTurn). t.cell_id) h.turns) g n

-- The writes of `commitRunContext`.
abbrev pub commit_with : RunRequest → ℕ → Notebook → Notebook
commit_with r g n =
    let m = record n {
      cells = update_cell r.cell_id (λ c. record c { agent_context_generation = some g }) n.cells;
    } in
    record (set_bridge_of r.history_bridge g m) {
      active_request = some (record r { context_committed = true });
    }

abbrev pub commit_generation : Option ℕ → RunRequest → Notebook → Notebook × Bool
commit_generation none r n = (n, false)
commit_generation (some g) r n =
    if is_some (find_cell r.cell_id n.cells) then (commit_with r g n, true) else (n, false)

abbrev pub commit_request : Option RunRequest → Text → Notebook → Notebook × Bool
commit_request none id n = (n, false)
commit_request (some r) id n =
    if not (text_eq r.id id) || not (is_ai r.kind) || r.context_committed
    then (n, false)
    else commit_generation r.agent_context_generation r n

unfoldable pub commit_run_context : Text → Notebook → Notebook × Bool
unfolding update_cell set_agent_context_bridge
commit_run_context id n = commit_request n.active_request id n
