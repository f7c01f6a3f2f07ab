-- ===== src/Notebook/Invariant.antt =====
-- src/agent/notebook.ts: what every notebook that the methods reach satisfies.
use jupyter_plugin_aitermina.Notebook.{Notebook, new_notebook}
use jupyter_plugin_aitermina.Notebook.Steps.{
  IsValid, Step, Reaches, selects, next, retries, cancels, sets_source, sets_kind, sets_blocks,
  here, sets_turn, updates_turn, toggles, enqueues, finishes, starts_context, sets_bridge, commits,
  appends, inserts_above, inserts_below, deletes, enters_edit, exits_edit, trails, advances,
  promotes, clears, creates, restores,
}
use jupyter_plugin_aitermina.Base.{arith, refl}
use jupyter_plugin_aitermina.Notebook.Placement.{
  select-IsPlaced, append_cell-IsPlaced, insert_above-IsPlaced, insert_below-IsPlaced,
  prepare_retry-IsPlaced, delete_active-IsPlaced, cancel_queued_runs-IsPlaced,
  ensure_trailing_input-IsPlaced, advance_after_run-IsPlaced,
}
use jupyter_plugin_aitermina.Notebook.Ids.{cell_id-Below}
use jupyter_plugin_aitermina.Notebook.RunPlacement.{
  select-IsServed, enqueue_run-IsPlaced, promote_next_run-IsPlaced,
}
use jupyter_plugin_aitermina.Notebook.CellServing.{
  append_cell-IsServed, insert_above-IsServed, insert_below-IsServed, prepare_retry-IsServed,
  cancel_queued_runs-IsServed, ensure_trailing_input-IsServed, advance_after_run-IsServed,
}
use jupyter_plugin_aitermina.Notebook.Deletion.{delete_active-IsServed}
use jupyter_plugin_aitermina.Notebook.FieldSteps.{
  enter-IsValid, exit-IsValid, set_source-IsValid, set_draft_kind-IsValid, set_blocks-IsValid,
  set_turn-IsValid, update_turn-IsValid, toggle-IsValid, start-IsValid, bridge-IsValid,
  create_cell-IsValid, restore_counters-IsValid,
}
use jupyter_plugin_aitermina.Notebook.RunServing.{enqueue_run-IsServed, promote_next_run-IsServed}
use jupyter_plugin_aitermina.Notebook.RunEnding.{
  finish_run-IsPlaced, finish_run-IsServed, clear_runs-IsPlaced, clear_runs-IsServed,
}
use jupyter_plugin_aitermina.Notebook.Commit.{
  commit_run_context-IsPlaced, commit_run_context-IsServed,
}

Step-IsValid : (n : Notebook) {m : Notebook} → Step n m → IsValid n → IsValid m
Step-IsValid n (selects i) v = record {
  placed = select-IsPlaced i n v.placed;
  served = select-IsServed i n v.served;
}
Step-IsValid n appends v = record {
  placed = append_cell-IsPlaced n v.placed;
  served = append_cell-IsServed n v.placed v.served;
}
Step-IsValid n inserts_above v = record {
  placed = insert_above-IsPlaced n v.placed;
  served = insert_above-IsServed n v.placed v.served;
}
Step-IsValid n inserts_below v = record {
  placed = insert_below-IsPlaced n v.placed;
  served = insert_below-IsServed n v.placed v.served;
}
Step-IsValid n (retries i) v = record {
  placed = prepare_retry-IsPlaced i n v.placed;
  served = prepare_retry-IsServed i n v.placed v.served;
}
Step-IsValid n deletes v = record {
  placed = delete_active-IsPlaced n v.placed;
  served = delete_active-IsServed n v.placed v.served;
}
Step-IsValid n (cancels id) v = record {
  placed = cancel_queued_runs-IsPlaced id n v.placed;
  served = cancel_queued_runs-IsServed id n v.placed v.served;
}
Step-IsValid n enters_edit v = enter-IsValid n v
Step-IsValid n exits_edit v = exit-IsValid n v
Step-IsValid n (sets_source s) v = set_source-IsValid s n v
Step-IsValid n (sets_kind kind i) v = set_draft_kind-IsValid kind i n v
Step-IsValid n (sets_blocks bs) v = set_blocks-IsValid bs n v
Step-IsValid n (sets_turn t) v = set_turn-IsValid t n v
Step-IsValid n (updates_turn id u) v = update_turn-IsValid id u n v
Step-IsValid n (toggles i) v = toggle-IsValid i n v
Step-IsValid n trails v = record {
  placed = ensure_trailing_input-IsPlaced n v.placed;
  served = ensure_trailing_input-IsServed n v.placed v.served;
}
Step-IsValid n advances v = record {
  placed = advance_after_run-IsPlaced n v.placed;
  served = advance_after_run-IsServed n v.placed v.served;
}
Step-IsValid n (enqueues i a b) v = record {
  placed = enqueue_run-IsPlaced i a b n v.placed;
  served = enqueue_run-IsServed i a b n v.served;
}
Step-IsValid n promotes v = record {
  placed = promote_next_run-IsPlaced n v.placed;
  served = promote_next_run-IsServed n v.placed v.served;
}
Step-IsValid n (finishes id output s h) v = record {
  placed = finish_run-IsPlaced id output s n v.placed;
  served = finish_run-IsServed id output s n h v.placed v.served;
}
Step-IsValid n clears v = record {
  placed = clear_runs-IsPlaced n v.placed;
  served = clear_runs-IsServed n v.served;
}
Step-IsValid n (starts_context s) v = start-IsValid s n v
Step-IsValid n (sets_bridge s g) v = bridge-IsValid s g n v
Step-IsValid n (commits id) v = record {
  placed = commit_run_context-IsPlaced id n v.placed;
  served = commit_run_context-IsServed id n v.placed v.served;
}
Step-IsValid n (creates kind source) v = create_cell-IsValid kind source n v
Step-IsValid n (restores e) v = restore_counters-IsValid n e v

new_notebook-IsValid : IsValid new_notebook
new_notebook-IsValid = record {
  placed = record { in_range = omega arith; distinct = (tt, tt); below = (cell_id-Below 1, tt) };
  served = record { fits = (record { is_run = refl; is_asked = λ h. cc }, tt); owner = tt };
}

-- In a notebook that calls of the methods reach from a new one, runs ending with a settled status and
-- the counters being restored from the cells of the notebook, when their ids have numbers below 2^53:
-- the selected index is that of a cell, or 0 without cells; the cells' ids are distinct, and of those
-- that are made from a number none is above the counter; a cell is running exactly when the active
-- run is its own; a queued cell has a request in the queue; the active run has its cell.
pub reached-IsValid : (n : Notebook) → Reaches new_notebook n → IsValid n
reached-IsValid n here = new_notebook-IsValid
reached-IsValid n (next {m} r s) = Step-IsValid m s (reached-IsValid m r)
