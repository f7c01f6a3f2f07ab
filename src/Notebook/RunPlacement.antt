-- ===== src/Notebook/RunPlacement.antt =====
-- src/agent/notebook.ts: the queue of runs leaves the ids of the cells and the selection in order.
use jupyter_plugin_aitermina.Notebook.Cells.{select}
use jupyter_plugin_aitermina.Notebook.{
  WorkspaceCell, Notebook, RunRequest, is_empty, find_cell, runs_cell,
}
use jupyter_plugin_aitermina.Notebook.Runs.{
  enqueue_run, promote_loop, promote_next_run, enqueue_resolved, mark_enqueued, start_cell,
}
use jupyter_plugin_aitermina.Base.{
  ℕ, Option, List, Bool, Bool-cases, Option-cases, is_some, ◌∷◌, get_elem?, inl, some, inr, leb,
  truthy, length, trim, ◌+◌, [], none, refl,
}
use jupyter_plugin_aitermina.Notebook.Statuses.{IsServed}
use jupyter_plugin_aitermina.Notebook.Source.{Execution}
use jupyter_plugin_aitermina.Notebook.Placement.{IsPlaced, SamePlaces-IsPlaced}
use jupyter_plugin_aitermina.HistoryBridge.{HistoryBridgeCapsule}
use jupyter_plugin_aitermina.Notebook.Updates.{update_at-ids, update_cell-ids}
use jupyter_plugin_aitermina.Notebook.RunServing.{mark_enqueued-id}

pub select-IsServed : (i : ℕ) (n : Notebook) → IsServed n → IsServed (select i n)
unfolding select
select-IsServed i n v = elim (Bool-cases (is_empty n)) [
  | inl e ↦ rw e (record { fits = v.fits; owner = v.owner })
  | inr e ↦ elim (Bool-cases (leb (length n.cells) i)) [
    | inl b ↦ rw (e, b) v
    | inr b ↦ rw (e, b) (record { fits = v.fits; owner = v.owner })
  ]
]

enqueue_resolved-IsPlaced :
    (c : WorkspaceCell) (o : Option Execution) (i : ℕ) (a : Bool) (b : Option HistoryBridgeCapsule)
    (n : Notebook)
    → IsPlaced n
    → IsPlaced (enqueue_resolved c o i a b n).0
enqueue_resolved-IsPlaced c none i a b n p = p
enqueue_resolved-IsPlaced c (some x) i a b n p =
    SamePlaces-IsPlaced _ n refl refl
      (update_at-ids i (mark_enqueued x.kind (runs_cell n.active_request c.id)) n.cells
        (mark_enqueued-id x.kind (runs_cell n.active_request c.id)))
      p

pub enqueue_run-IsPlaced :
    (i : ℕ) (a : Bool) (b : Option HistoryBridgeCapsule) (n : Notebook)
    → IsPlaced n
    → IsPlaced (enqueue_run i a b n).0
unfolding enqueue_run
enqueue_run-IsPlaced i a b n p = elim (Option-cases (get_elem? n.cells i)) [
  | inl e ↦ rw e p
  | inr (c, e) ↦ elim (Bool-cases (truthy (trim c.source))) [
    | inl k ↦ rw (e, k) (enqueue_resolved-IsPlaced c _ i a b n p)
    | inr k ↦ rw (e, k) p
  ]
]

promote_loop-IsPlaced :
    (q : List RunRequest) (n : Notebook) → IsPlaced n → IsPlaced (promote_loop q n).0
unfolding promote_loop
promote_loop-IsPlaced [] n p = SamePlaces-IsPlaced _ n refl refl refl p
promote_loop-IsPlaced (r ∷ q) n p = elim (Bool-cases (is_some (find_cell r.cell_id n.cells))) [
  | inl e ↦ rw e (
      SamePlaces-IsPlaced _ n refl refl
        (update_cell-ids r.cell_id (start_cell r.kind (n.execution_counter + 1)) n.cells
          (λ c. refl))
        p)
  | inr e ↦ rw e (promote_loop-IsPlaced q n p)
]

pub promote_next_run-IsPlaced : (n : Notebook) → IsPlaced n → IsPlaced (promote_next_run n).0
unfolding promote_next_run
promote_next_run-IsPlaced n p = elim (Bool-cases (is_some n.active_request)) [
  | inl e ↦ rw e p
  | inr e ↦ rw e (promote_loop-IsPlaced n.run_queue n p)
]
