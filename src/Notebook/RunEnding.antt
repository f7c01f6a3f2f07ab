-- ===== src/Notebook/RunEnding.antt =====
-- src/agent/notebook.ts: the end of a run and the reset of all runs keep what the invariants state.
use jupyter_plugin_aitermina.Notebook.{
  CellStatus, RunRequest, status_eq, Notebook, running, WorkspaceCell, idle, queued, done,
  interrupted,
}
use jupyter_plugin_aitermina.Base.{
  Option, Text, List, ◌≡◌, false, some, inl, ◌≢◌, none, Bool-cases, subst, ◌∙◌, refl, arith,
  text_eq, [], text_eq_iff, All, inr,
}
use jupyter_plugin_aitermina.Notebook.Runs.{
  finish_run, clear_runs, clear_status, finish_request, end_cell,
}
use jupyter_plugin_aitermina.Notebook.Placement.{IsPlaced, SamePlaces-IsPlaced}
use jupyter_plugin_aitermina.Notebook.Statuses.{IsServed, Fits}
use jupyter_plugin_aitermina.Notebook.Updates.{All-map, map-ids, All-update_cell, update_cell-ids}

-- A status that a run can end with.
abbrev pub IsSettled : CellStatus → Type 0
IsSettled s = (status_eq s running ≡ false) × (status_eq s queued ≡ false)

ended-Fits :
    (r : RunRequest) (q : List RunRequest) (c : WorkspaceCell)
    → c.id ≢ r.cell_id
    → Fits (some r) q c
    → Fits none q c
ended-Fits r q c n v = record {
  is_run = v.is_run ∙ ground (arith, text_eq_iff r.cell_id c.id);
  is_asked = v.is_asked;
}

finish_request-IsServed :
    (a : Option RunRequest) (id output : Text) (s : CellStatus) (n : Notebook)
    → n.active_request ≡ a
    → IsSettled s
    → IsPlaced n
    → IsServed n
    → IsServed (finish_request a id output s n).0
finish_request-IsServed none id output s n e h p v = v
finish_request-IsServed (some r) id output s n e (h, k) p v = elim (Bool-cases (text_eq r.id id)) [
  | inl b ↦ rw b (record {
    fits =
        All-update_cell {P = Fits (some r) n.run_queue} (end_cell output s) r.cell_id n.cells
          p.distinct (subst (λ z. All (Fits z n.run_queue) n.cells) e v.fits)
          (λ c i w. record { is_run = h; is_asked = λ l. absurd (ground arith) })
          (λ c i w. ended-Fits r n.run_queue c i w);
    owner = tt;
  })
  | inr b ↦ rw b v
]

pub finish_run-IsServed :
    (id output : Text) (s : CellStatus) (n : Notebook)
    → IsSettled s
    → IsPlaced n
    → IsServed n
    → IsServed (finish_run id output s n).0
unfolding finish_run
finish_run-IsServed id output s n h p v =
    finish_request-IsServed n.active_request id output s n refl h p v

finish_request-IsPlaced :
    (a : Option RunRequest) (id output : Text) (s : CellStatus) (n : Notebook)
    → IsPlaced n
    → IsPlaced (finish_request a id output s n).0
finish_request-IsPlaced none id output s n p = p
finish_request-IsPlaced (some r) id output s n p = elim (Bool-cases (text_eq r.id id)) [
  | inl b ↦ rw b (
      SamePlaces-IsPlaced _ n refl refl
        (update_cell-ids r.cell_id (end_cell output s) n.cells (λ c. refl)) p)
  | inr b ↦ rw b p
]

pub finish_run-IsPlaced :
    (id output : Text) (s : CellStatus) (n : Notebook)
    → IsPlaced n
    → IsPlaced (finish_run id output s n).0
unfolding finish_run
finish_run-IsPlaced id output s n p = finish_request-IsPlaced n.active_request id output s n p

clear_status-IsSettled : (s : CellStatus) → IsSettled (clear_status s)
clear_status-IsSettled idle = (refl, refl)
clear_status-IsSettled queued = (refl, refl)
clear_status-IsSettled running = (refl, refl)
clear_status-IsSettled done = (refl, refl)
clear_status-IsSettled interrupted = (refl, refl)

pub clear_runs-IsServed : (n : Notebook) → IsServed n → IsServed (clear_runs n)
unfolding clear_runs
clear_runs-IsServed n v = record {
  fits =
      All-map (Fits n.active_request n.run_queue) (Fits none [])
        (λ (c : WorkspaceCell). record c { status = clear_status c.status }) n.cells
        (λ c w. record {
          is_run = (clear_status-IsSettled c.status).0;
          is_asked = λ h. let k = (clear_status-IsSettled c.status).1 in absurd (ground arith);
        })
        v.fits;
  owner = tt;
}

pub clear_runs-IsPlaced : (n : Notebook) → IsPlaced n → IsPlaced (clear_runs n)
unfolding clear_runs
clear_runs-IsPlaced n p =
    SamePlaces-IsPlaced _ n refl refl
      (map-ids (λ (c : WorkspaceCell). record c { status = clear_status c.status }) n.cells
        (λ c. refl))
      p
