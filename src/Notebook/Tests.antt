-- ===== src/Notebook/Tests.antt =====
-- src/agent/notebook.ts: runs on concrete notebooks.
use Prim.Native.Nat.{◌^◌}
use jupyter_plugin_aitermina.Notebook.Cells.{
  set_source, select, append_cell, insert_above, insert_below,
}
use jupyter_plugin_aitermina.Notebook.{
  Notebook, new_notebook, WorkspaceCell, queued, running, create_cell, update_at, update_cell,
}
use jupyter_plugin_aitermina.Notebook.Steps.{
  Reaches, IsValid, next, here, sets_source, enqueues, promotes,
}
use jupyter_plugin_aitermina.Notebook.Source.{
  resolve_run_execution, is_shell_escape_source, strip_shell_escape,
}
use jupyter_plugin_aitermina.Base.{
  map, ◌≡◌, All, codes, none, ◌≢◌, true, some, ◌∷◌, [], trim, trim_start, trim_end, is_space,
  text_eq, refl, decimal, arith, ◌+◌,
}
use jupyter_plugin_aitermina.Notebook.Queue.{Promoted, promote_next_run-Promoted}
use jupyter_plugin_aitermina.Notebook.Runs.{
  enqueue_run, promote_next_run, restore_counters, promote_loop, finish_run, read_cell_id,
}
use jupyter_plugin_aitermina.Notebook.Invariant.{reached-IsValid}
use jupyter_plugin_aitermina.Protocol.{ai, WorkspaceMode}
use jupyter_plugin_aitermina.Notebook.Ids.{ids}
use jupyter_plugin_aitermina.Notebook.Counters.{restore_counters-fresh}
use jupyter_plugin_aitermina.Notebook.Rounding.{to_double, halvings}

compute : Unit {0}
unfolding set_source select append_cell insert_above insert_below enqueue_run promote_next_run
    promote_loop finish_run update_at update_cell resolve_run_execution is_shell_escape_source
    strip_shell_escape trim decimal trim_start trim_end is_space text_eq
compute = tt

-- A new notebook whose cell is given a source, and its run.
abbrev written : Notebook
written = set_source (codes " !ls ") new_notebook

abbrev asked : Notebook
asked = (enqueue_run 0 true none written).0

abbrev started : Notebook
started = (promote_next_run asked).0

started_run : Reaches new_notebook started
started_run = next (next (next here (sets_source (codes " !ls "))) (enqueues 0 true none)) promotes

reached-IsValid_example : IsValid started
reached-IsValid_example = reached-IsValid started started_run

shell_source :
    (resolve_run_execution (codes " ! ls ") ai)
    ≡ some (record { kind = WorkspaceMode.command; execution_source = codes "ls" })
unfolding compute
shell_source = refl

asked_status : map (λ (c : WorkspaceCell). c.status) asked.cells ≡ queued ∷ []
unfolding compute
asked_status = refl

started_status : map (λ (c : WorkspaceCell). c.status) started.cells ≡ running ∷ []
unfolding compute
started_status = refl

asked_free : asked.active_request ≡ none
unfolding compute
asked_free = refl

promote_next_run-Promoted_example :
    Promoted asked asked.run_queue (promote_next_run asked).0 (promote_next_run asked).1
promote_next_run-Promoted_example = promote_next_run-Promoted asked asked_free

restore_counters-fresh_example :
    All
      (λ t. t ≢ (create_cell ai (codes "x") (restore_counters asked.cells asked)).1.id)
      (ids asked.cells)
unfolding compute read_cell_id
restore_counters-fresh_example = restore_counters-fresh ai (codes "x") asked (omega arith, tt)

-- Past 2^53 a number is rounded to an even one, so that the counter of such an id stays where it is.
rounded : (to_double (2 ^ 53 + 1) ≡ 2 ^ 53) × (to_double (2 ^ 53 + 3) ≡ 2 ^ 53 + 4)
unfolding to_double halvings
rounded = (refl, refl)
