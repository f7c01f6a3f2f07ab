-- ===== src/Notebook/Queue.antt =====
-- src/agent/notebook.ts: which request of the queue starts, which are dropped, and what a run is
-- started with.
use jupyter_plugin_aitermina.Base.{
  List, Option, ◌≡◌, ◌∷◌, All, Bool-cases, none, some, ◌++◌, [], ap, is_some, false, true, inl, ◌+◌,
  sym, ◌∙◌, inr, refl,
}
use jupyter_plugin_aitermina.Notebook.{Notebook, RunRequest, WorkspaceCell, find_cell}
use jupyter_plugin_aitermina.Notebook.Runs.{promote_loop, promote_next_run}
use jupyter_plugin_aitermina.Notebook.Cells.{has_text}
use jupyter_plugin_aitermina.Notebook.Ids.{ids}
use jupyter_plugin_aitermina.Notebook.RunServing.{promote_free}
use jupyter_plugin_aitermina.Notebook.Updates.{find_cell-ids}

-- No cell of the notebook has the request's id.
abbrev pub IsOrphan : List WorkspaceCell → RunRequest → Type 0
IsOrphan cs r = has_text r.cell_id (ids cs) ≡ false

-- What a promotion may do to a notebook without an active run.
pub record Started (n m : Notebook) (r : RunRequest) : Type 0 where
  pub skipped : List RunRequest
  pub split : n.run_queue ≡ skipped ++ r ∷ m.run_queue
  pub orphans : All (IsOrphan n.cells) skipped
  pub served : has_text r.cell_id (ids n.cells) ≡ true
  pub active : m.active_request ≡ some r
  pub count : m.execution_counter ≡ n.execution_counter + 1

abbrev pub Promoted : Notebook → List RunRequest → Notebook → Option RunRequest → Type 0
Promoted n q m none = All (IsOrphan n.cells) q × (m ≡ record n { run_queue = [] })
Promoted n q m (some r) = Started (record n { run_queue = q }) m r

later :
    (r : RunRequest) (q : List RunRequest) (n : Notebook)
    → IsOrphan n.cells r
    → (m : Notebook) (o : Option RunRequest) → Promoted n q m o
    → Promoted n (r ∷ q) m o
later r q n h m none (a, e) = ((h, a), e)
later r q n h m (some s) t = record {
  skipped = r ∷ t.skipped;
  split = ap (◌∷◌ r) t.split;
  orphans = (h, t.orphans);
  served = t.served;
  active = t.active;
  count = t.count;
}

promote_loop-Promoted :
    (q : List RunRequest) (n : Notebook) → Promoted n q (promote_loop q n).0 (promote_loop q n).1
unfolding promote_loop
promote_loop-Promoted [] n = (tt, refl)
promote_loop-Promoted (r ∷ q) n = elim (Bool-cases (is_some (find_cell r.cell_id n.cells))) [
  | inl e ↦ rw e (record {
    skipped = [];
    split = refl;
    orphans = tt;
    served = sym (find_cell-ids r.cell_id n.cells) ∙ e;
    active = refl;
    count = refl;
  })
  | inr e ↦
      rw e (later r q n (sym (find_cell-ids r.cell_id n.cells) ∙ e) _ _ (promote_loop-Promoted q n))
]

-- Without an active run the first request whose cell is there starts, the orphans before it are
-- dropped and those behind it wait in their order; when there is none, the queue is emptied and
-- nothing else changes.
pub promote_next_run-Promoted :
    (n : Notebook)
    → n.active_request ≡ none
    → Promoted n n.run_queue (promote_next_run n).0 (promote_next_run n).1
promote_next_run-Promoted n e = rw (promote_free n e) (promote_loop-Promoted n.run_queue n)
