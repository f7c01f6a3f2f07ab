-- ===== src/Notebook/CellServing.antt =====
-- src/agent/notebook.ts: the methods that change the list of cells keep the statuses and the runs in
-- agreement.
use jupyter_plugin_aitermina.Notebook.Cells.{
  append_cell, insert_above, insert_below, prepare_retry, ensure_trailing_input, advance_after_run,
  cancel_queued_runs, is_blank_input,
}
use jupyter_plugin_aitermina.Base.{
  Option, ℕ, Text, List, Bool-cases, Option-cases, ◌≢◌, if◌then◌else◌, length, get_elem?, last?,
  inl, ◌≡◌, ◌+◌, false, keep, true, inr, ◌==◌, [], truthy, not, trim, text_eq, refl, text_eq_iff,
  sym, arith, ◌∙◌,
}
use jupyter_plugin_aitermina.Notebook.{
  Notebook, RunRequest, WorkspaceCell, runs_cell, is_empty, status_eq, queued, fresh_cell, idle,
  running,
}
use jupyter_plugin_aitermina.Notebook.Placement.{IsPlaced}
use jupyter_plugin_aitermina.Notebook.Statuses.{any-keep_other, IsServed, insert-IsServed, Fits}
use jupyter_plugin_aitermina.Protocol.{ai}
use jupyter_plugin_aitermina.Notebook.Updates.{All-imp, All-update_cell, update_cell-ids}
use jupyter_plugin_aitermina.Notebook.Ids.{snoc-insert_at}

pub append_cell-IsServed : (n : Notebook) → IsPlaced n → IsServed n → IsServed (append_cell n).0
unfolding append_cell
append_cell-IsServed n p v =
    insert-IsServed (length n.cells) ai [] n _ p
      (snoc-insert_at (fresh_cell (n.cell_counter + 1) ai []) n.cells) refl refl v

pub insert_above-IsServed : (n : Notebook) → IsPlaced n → IsServed n → IsServed (insert_above n).0
unfolding insert_above
insert_above-IsServed n p v = elim (Bool-cases (is_empty n)) [
  | inl e ↦ rw e (append_cell-IsServed n p v)
  | inr e ↦ rw e (insert-IsServed n.active ai [] n _ p refl refl refl v)
]

pub insert_below-IsServed : (n : Notebook) → IsPlaced n → IsServed n → IsServed (insert_below n).0
unfolding insert_below
insert_below-IsServed n p v = elim (Bool-cases (is_empty n)) [
  | inl e ↦ rw e (append_cell-IsServed n p v)
  | inr e ↦ rw e (insert-IsServed (n.active + 1) ai [] n _ p refl refl refl v)
]

pub prepare_retry-IsServed :
    (i : ℕ) (n : Notebook) → IsPlaced n → IsServed n → IsServed (prepare_retry i n).0
unfolding prepare_retry
prepare_retry-IsServed i n p v = elim (Option-cases (get_elem? n.cells i)) [
  | inl e ↦ rw e v
  | inr (c, e) ↦ elim (Bool-cases (truthy (trim c.source))) [
    | inl k ↦ rw (e, k) (insert-IsServed (i + 1) c.kind c.source n _ p refl refl refl v)
    | inr k ↦ rw (e, k) v
  ]
]

pub ensure_trailing_input-IsServed :
    (n : Notebook) → IsPlaced n → IsServed n → IsServed (ensure_trailing_input n).0
unfolding ensure_trailing_input
ensure_trailing_input-IsServed n p v = elim (Option-cases (last? n.cells)) [
  | inl e ↦ rw e (append_cell-IsServed n p v)
  | inr (c, e) ↦ elim (Bool-cases (is_blank_input c)) [
    | inl b ↦ rw (e, b) v
    | inr b ↦
        rw (e, b)
          (insert-IsServed (length n.cells) ai [] n _ p
            (snoc-insert_at (fresh_cell (n.cell_counter + 1) ai []) n.cells) refl refl v)
  ]
]

pub advance_after_run-IsServed :
    (n : Notebook) → IsPlaced n → IsServed n → IsServed (advance_after_run n).0
unfolding advance_after_run
advance_after_run-IsServed n p v =
    let m = if n.active + 1 == length n.cells then (ensure_trailing_input n).0 else n in
    let w : IsServed m = elim (Bool-cases (n.active + 1 == length n.cells)) [
      | inl e ↦ rw e (ensure_trailing_input-IsServed n p v)
      | inr e ↦ rw e v
    ] in
    record { fits = w.fits; owner = w.owner }

-- The cell whose requests are cancelled.
cancelled-Fits :
    (a : Option RunRequest) (q : List RunRequest) (id : Text) (c : WorkspaceCell)
    → runs_cell a id ≡ false
    → c.id ≡ id
    → Fits a q c
    → Fits a
        (keep (λ r. not (text_eq r.cell_id id)) q)
        (if status_eq c.status queued then record c { status = idle } else c)
cancelled-Fits a q id c b e v = elim (Bool-cases (status_eq c.status queued)) [
  | inl k ↦ rw k (record { is_run = rw e (sym b); is_asked = λ h. cc })
  | inr k ↦ rw k (record { is_run = v.is_run; is_asked = λ h. absurd (ground arith) })
]

other-Fits :
    (a : Option RunRequest) (q : List RunRequest) (id : Text) (c : WorkspaceCell)
    → c.id ≢ id
    → Fits a q c
    → Fits a (keep (λ r. not (text_eq r.cell_id id)) q) c
other-Fits a q id c n v = record {
  is_run = v.is_run;
  is_asked = λ h. any-keep_other c.id id q n (v.is_asked h);
}

-- A running cell keeps its status when its queued requests are cancelled.
running-Fits :
    (a : Option RunRequest) (q : List RunRequest) (id : Text) (c : WorkspaceCell)
    → runs_cell a id ≡ true
    → Fits a q c
    → Fits a (keep (λ r. not (text_eq r.cell_id id)) q) c
running-Fits a q id c b v = elim (Bool-cases (text_eq c.id id)) [
  | inl e ↦
      let same = (text_eq_iff c.id id).0 e in
      let on : status_eq c.status running ≡ true = v.is_run ∙ rw same b in
      record { is_run = v.is_run; is_asked = λ h. absurd (ground arith) }
  | inr e ↦ other-Fits a q id c (ground (arith, text_eq_iff c.id id)) v
]

pub cancel_queued_runs-IsServed :
    (id : Text) (n : Notebook) → IsPlaced n → IsServed n → IsServed (cancel_queued_runs id n)
unfolding cancel_queued_runs
cancel_queued_runs-IsServed id n p v = elim (Bool-cases (runs_cell n.active_request id)) [
  | inl e ↦ rw e (record {
    fits =
        All-imp {P = Fits n.active_request n.run_queue} (λ c. c) n.cells
          (λ c w. running-Fits n.active_request n.run_queue id c e w) v.fits;
    owner = v.owner;
  })
  | inr e ↦
      let f = λ (c : WorkspaceCell).
        if status_eq c.status queued then record c { status = idle } else c in
      rw e (record {
        fits =
            All-update_cell {P = Fits n.active_request n.run_queue} f id n.cells p.distinct v.fits
              (λ c k w. cancelled-Fits n.active_request n.run_queue id c e k w)
              (λ c k w. other-Fits n.active_request n.run_queue id c k w);
        owner = rw (update_cell-ids id f n.cells (λ c. ground arith)) v.owner;
      })
]
