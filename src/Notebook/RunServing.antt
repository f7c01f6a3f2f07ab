-- ===== src/Notebook/RunServing.antt =====
-- src/agent/notebook.ts: the queue of runs and the statuses of the cells stay in agreement from the
-- request to the end of a run.
use jupyter_plugin_aitermina.Notebook.{RunRequest, WorkspaceCell, Notebook, runs_cell, find_cell}
use jupyter_plugin_aitermina.Base.{
  Option, Text, Bool, List, ℕ, any, ◌≡◌, ◌≢◌, true, get_elem?, none, false, ◌++◌, some,
  Option-cases, All, refl, ◌∷◌, [], arith, Bool-cases, inl, ◌∙◌, text_eq_iff, is_some, subst, inr,
  sym, truthy, ◌+◌, trim, if◌then◌else◌, Distinct,
}
use jupyter_plugin_aitermina.Protocol.{WorkspaceMode, ai, command}
use jupyter_plugin_aitermina.Notebook.Runs.{
  enqueue_run, promote_loop, promote_next_run, mark_enqueued, enqueue_resolved, start_run,
  request_of, start_cell,
}
use jupyter_plugin_aitermina.Notebook.Source.{Execution}
use jupyter_plugin_aitermina.HistoryBridge.{HistoryBridgeCapsule}
use jupyter_plugin_aitermina.Notebook.Statuses.{Fits, IsServed, asks}
use jupyter_plugin_aitermina.Notebook.Ids.{ids}
use jupyter_plugin_aitermina.Notebook.Cells.{has_text}
use jupyter_plugin_aitermina.Notebook.Placement.{IsPlaced}
use jupyter_plugin_aitermina.Notebook.Updates.{
  All-update_at, update_at-ids, All-update_cell, find_cell-ids, update_cell-ids, All-others,
}

any-snoc :
    (p : RunRequest → Bool) (rs : List RunRequest) (r : RunRequest)
    → any p rs ≡ true
    → any p (rs ++ r ∷ []) ≡ true
any-snoc p [] r h = absurd (ground arith)
any-snoc p (s ∷ rs) r h = ground (arith, any-snoc p rs r)

any-last :
    (p : RunRequest → Bool) (rs : List RunRequest) (r : RunRequest)
    → p r ≡ true
    → any p (rs ++ r ∷ []) ≡ true
any-last p [] r h = rw h
any-last p (s ∷ rs) r h = ground (arith, any-last p rs r)

snoc-Fits :
    (a : Option RunRequest) (q : List RunRequest) (r : RunRequest) (c : WorkspaceCell)
    → Fits a q c
    → Fits a (q ++ r ∷ []) c
snoc-Fits a q r c v = record {
  is_run = v.is_run;
  is_asked = λ h. any-snoc (asks c.id) q r (v.is_asked h);
}

enqueued-Fits :
    (a : Option RunRequest) (q : List RunRequest) (r : RunRequest) (kind : WorkspaceMode)
    (c : WorkspaceCell)
    → r.cell_id ≡ c.id
    → Fits a q c
    → Fits a (q ++ r ∷ []) (mark_enqueued kind (runs_cell a c.id) c)
enqueued-Fits a q r ai c e v = elim (Bool-cases (runs_cell a c.id)) [
  | inl b ↦ rw b (snoc-Fits a q r c v)
  | inr b ↦ rw b (record {
    is_run = sym b;
    is_asked = λ h. any-last (asks c.id) q r ((text_eq_iff r.cell_id c.id).1 e);
  })
]
enqueued-Fits a q r command c e v = elim (Bool-cases (runs_cell a c.id)) [
  | inl b ↦
      rw b (record { is_run = v.is_run; is_asked = λ h. any-snoc (asks c.id) q r (v.is_asked h) })
  | inr b ↦ rw b (record {
    is_run = sym b;
    is_asked = λ h. any-last (asks c.id) q r ((text_eq_iff r.cell_id c.id).1 e);
  })
]

pub mark_enqueued-id :
    (kind : WorkspaceMode) (b : Bool) (c : WorkspaceCell) → (mark_enqueued kind b c).id ≡ c.id
mark_enqueued-id ai true c = refl
mark_enqueued-id ai false c = refl
mark_enqueued-id command true c = refl
mark_enqueued-id command false c = refl

enqueue_resolved-IsServed :
    (c : WorkspaceCell) (o : Option Execution) (i : ℕ) (advance : Bool)
    (bridge : Option HistoryBridgeCapsule) (n : Notebook)
    → get_elem? n.cells i ≡ some c
    → IsServed n
    → IsServed (enqueue_resolved c o i advance bridge n).0
enqueue_resolved-IsServed c none i advance bridge n e v = v
enqueue_resolved-IsServed c (some x) i advance bridge n e v =
    let r = request_of c x advance bridge n in
    let b = runs_cell n.active_request c.id in
    record {
      fits =
          All-update_at {P = Fits n.active_request n.run_queue} (mark_enqueued x.kind b) i n.cells
            v.fits
            (λ d k w.
              let same : d ≡ c = cc in
              subst (λ z. Fits n.active_request (n.run_queue ++ r ∷ []) (mark_enqueued x.kind b z))
                (sym same)
                (enqueued-Fits n.active_request n.run_queue r x.kind c refl
                  (subst (Fits n.active_request n.run_queue) same w)))
            (λ d w. snoc-Fits n.active_request n.run_queue r d w);
      owner =
          rw (update_at-ids i (mark_enqueued x.kind b) n.cells (mark_enqueued-id x.kind b)) v.owner;
    }

pub enqueue_run-IsServed :
    (i : ℕ) (advance : Bool) (bridge : Option HistoryBridgeCapsule) (n : Notebook)
    → IsServed n
    → IsServed (enqueue_run i advance bridge n).0
unfolding enqueue_run
enqueue_run-IsServed i advance bridge n v = elim (Option-cases (get_elem? n.cells i)) [
  | inl e ↦ rw e v
  | inr (c, e) ↦ elim (Bool-cases (truthy (trim c.source))) [
    | inl b ↦ rw (e, b) (enqueue_resolved-IsServed c _ i advance bridge n e v)
    | inr b ↦ rw (e, b) v
  ]
]

-- A cell that is not that of the first request, when no run is active.
behind-Fits :
    (r : RunRequest) (q : List RunRequest) (c : WorkspaceCell)
    → c.id ≢ r.cell_id
    → Fits none (r ∷ q) c
    → Fits none q c
behind-Fits r q c n v = record {
  is_run = v.is_run;
  is_asked = λ h. let k = v.is_asked h in ground (arith, text_eq_iff r.cell_id c.id);
}

started-Fits :
    (r : RunRequest) (q : List RunRequest) (c : WorkspaceCell)
    → c.id ≢ r.cell_id
    → Fits none (r ∷ q) c
    → Fits (some r) q c
started-Fits r q c n v = record {
  is_run = v.is_run ∙ ground (arith, text_eq_iff r.cell_id c.id);
  is_asked = (behind-Fits r q c n v).is_asked;
}

start_run-IsServed :
    (r : RunRequest) (q : List RunRequest) (n : Notebook)
    → Distinct (ids n.cells)
    → All (Fits none (r ∷ q)) n.cells
    → has_text r.cell_id (ids n.cells) ≡ true
    → IsServed (start_run r q n)
start_run-IsServed r q n d v h =
    let f = start_cell r.kind (n.execution_counter + 1) in
    record {
      fits =
          All-update_cell {P = Fits none (r ∷ q)} f r.cell_id n.cells d v
            (λ c e w. record {
              is_run = sym ((text_eq_iff r.cell_id c.id).1 (sym e));
              is_asked = λ k. cc;
            })
            (λ c k w. started-Fits r q c k w);
      owner = rw (update_cell-ids r.cell_id f n.cells (λ c. refl)) h;
    }

missing-others : (id : Text) (ss : List Text) → has_text id ss ≡ false → All (λ s. s ≢ id) ss
missing-others id [] h = tt
missing-others id (s ∷ ss) h = ground (arith, text_eq_iff s id, missing-others id ss)

promote_loop-IsServed :
    (q : List RunRequest) (n : Notebook)
    → Distinct (ids n.cells)
    → n.active_request ≡ none
    → All (Fits none q) n.cells
    → IsServed (promote_loop q n).0
unfolding promote_loop
promote_loop-IsServed [] n d a v = record { fits = rw a v; owner = rw a tt }
promote_loop-IsServed (r ∷ q) n d a v = elim (Bool-cases (is_some (find_cell r.cell_id n.cells))) [
  | inl e ↦ rw e (start_run-IsServed r q n d v (sym (find_cell-ids r.cell_id n.cells) ∙ e))
  | inr e ↦ rw e (
      promote_loop-IsServed q n d a (
        All-others {P = Fits none (r ∷ q)} (λ c. c) r.cell_id n.cells
          (missing-others r.cell_id (ids n.cells) (sym (find_cell-ids r.cell_id n.cells) ∙ e)) v
          (λ c k w. behind-Fits r q c k w)))
]

pub promote_free :
    (n : Notebook) → n.active_request ≡ none → promote_next_run n ≡ promote_loop n.run_queue n
unfolding promote_next_run
promote_free n e =
    subst
      (λ a.
        (if is_some a then (n, none) else promote_loop n.run_queue n) ≡ promote_loop n.run_queue n)
      (sym e) refl

promote_busy :
    (n : Notebook) {r : RunRequest} → n.active_request ≡ some r → promote_next_run n ≡ (n, none)
unfolding promote_next_run
promote_busy n e =
    subst (λ a. (if is_some a then (n, none) else promote_loop n.run_queue n) ≡ (n, none)) (sym e)
      refl

pub promote_next_run-IsServed :
    (n : Notebook) → IsPlaced n → IsServed n → IsServed (promote_next_run n).0
promote_next_run-IsServed n p v = elim (Option-cases n.active_request) [
  | inl e ↦ rw (promote_free n e) (
      promote_loop-IsServed n.run_queue n p.distinct e
        (subst (λ a. All (Fits a n.run_queue) n.cells) e v.fits))
  | inr (r, e) ↦ rw (promote_busy n e) v
]
