-- ===== src/Notebook/Commit.antt =====
-- src/agent/notebook.ts: the commit of a run's context keeps what the invariants state.

use jupyter_plugin_aitermina.Notebook.{
  RunRequest, Notebook, WorkspaceCell, update_cell, find_cell, is_ai,
}
use jupyter_plugin_aitermina.Base.{
  Option, Text, List, ℕ, ◌≡◌, some, inl, ◌⊎◌, none, Bool-cases, subst, ◌∙◌, refl, text_eq, ap, true,
  sym, All, inr, is_some, not, ◌||◌,
}
use jupyter_plugin_aitermina.Notebook.Context.{
  set_bridge_of, set_agent_context_bridge, commit_run_context, commit_with, commit_generation,
  commit_request,
}
use jupyter_plugin_aitermina.Notebook.Placement.{IsPlaced, SamePlaces-IsPlaced}
use jupyter_plugin_aitermina.Notebook.Statuses.{IsServed, Fits, HasOwner}
use jupyter_plugin_aitermina.Notebook.Updates.{All-update_cell, update_cell-ids}
use jupyter_plugin_aitermina.Notebook.Ids.{ids}
use jupyter_plugin_aitermina.Notebook.Cells.{has_text}
use jupyter_plugin_aitermina.HistoryBridge.{HistoryBridgeCapsule}

-- The fields that the invariants read are not those of the bridges.
bridge-same :
    (h : Option HistoryBridgeCapsule) (g : ℕ) (n : Notebook)
    → let m = set_bridge_of h g n in
      (m.cells ≡ n.cells)
      × (m.active ≡ n.active)
      × (m.cell_counter ≡ n.cell_counter)
      × (m.run_queue ≡ n.run_queue)
unfolding set_bridge_of set_agent_context_bridge
bridge-same none g n = (refl, refl, refl, refl)
bridge-same (some h) g n = (refl, refl, refl, refl)

-- The request of the active run is changed, not its cell.
swapped-Fits :
    (r s : RunRequest) (q : List RunRequest) (c : WorkspaceCell)
    → r.cell_id ≡ s.cell_id
    → Fits (some r) q c
    → Fits (some s) q c
swapped-Fits r s q c e v = record {
  is_run = v.is_run ∙ ap (λ z. text_eq z c.id) e;
  is_asked = v.is_asked;
}

commit_with-IsServed :
    (r : RunRequest) (g : ℕ) (n : Notebook)
    → n.active_request ≡ some r
    → IsServed n
    → IsPlaced n
    → IsServed (commit_with r g n)
commit_with-IsServed r g n e v p =
    let f = λ (c : WorkspaceCell). record c { agent_context_generation = some g } in
    let m = record n { cells = update_cell r.cell_id f n.cells } in
    let s = record r { context_committed = true } in
    let (cells, active, counter, queue) = bridge-same r.history_bridge g m in
    let old = subst (λ z. All (Fits z n.run_queue) n.cells) e v.fits in
    let new : All (Fits (some s) n.run_queue) m.cells =
      All-update_cell {P = Fits (some r) n.run_queue} f r.cell_id n.cells p.distinct old
        (λ c i w.
          let k = swapped-Fits r s n.run_queue c refl w in
          record { is_run = k.is_run; is_asked = k.is_asked })
        (λ c i w. swapped-Fits r s n.run_queue c refl w) in
    let owner : HasOwner (some r) (ids n.cells) = subst (λ z. HasOwner z (ids n.cells)) e v.owner in
    record {
      fits =
          subst (λ z. All (Fits (some s) z) (set_bridge_of r.history_bridge g m).cells) (sym queue)
            (subst (λ z. All (Fits (some s) n.run_queue) z) (sym cells) new);
      owner =
          subst (λ z. has_text r.cell_id z ≡ true)
            (sym (ap ids cells ∙ update_cell-ids r.cell_id f n.cells (λ c. refl))) owner;
    }

commit_with-IsPlaced :
    (r : RunRequest) (g : ℕ) (n : Notebook) → IsPlaced n → IsPlaced (commit_with r g n)
commit_with-IsPlaced r g n p =
    let f = λ (c : WorkspaceCell). record c { agent_context_generation = some g } in
    let m = record n { cells = update_cell r.cell_id f n.cells } in
    let (cells, active, counter, queue) = bridge-same r.history_bridge g m in
    SamePlaces-IsPlaced _ n active counter
      (ap ids cells ∙ update_cell-ids r.cell_id f n.cells (λ c. refl)) p

commit_generation_cases :
    (o : Option ℕ) (r : RunRequest) (n : Notebook)
    → ((commit_generation o r n).0 ≡ n)
      ⊎ ((g : ℕ) × ((commit_generation o r n).0 ≡ commit_with r g n))
commit_generation_cases none r n = inl refl
commit_generation_cases (some g) r n = elim (Bool-cases (is_some (find_cell r.cell_id n.cells))) [
  | inl b ↦ inr (g, rw b refl)
  | inr b ↦ inl (rw b refl)
]

-- A commit either changes nothing or is that of the active run.
commit_request_cases :
    (a : Option RunRequest) (id : Text) (n : Notebook)
    → ((commit_request a id n).0 ≡ n)
      ⊎ ((r : RunRequest) × (g : ℕ) × (a ≡ some r)
          × ((commit_request a id n).0 ≡ commit_with r g n))
commit_request_cases none id n = inl refl
commit_request_cases (some r) id n =
    elim (Bool-cases (not (text_eq r.id id) || not (is_ai r.kind) || r.context_committed)) [
      | inl b ↦ inl (rw b refl)
      | inr b ↦ elim (commit_generation_cases r.agent_context_generation r n) [
        | inl e ↦ inl (rw b e)
        | inr (g, e) ↦ inr (r, g, refl, rw b e)
      ]
    ]

pub commit_run_context-IsServed :
    (id : Text) (n : Notebook) → IsPlaced n → IsServed n → IsServed (commit_run_context id n).0
unfolding commit_run_context
commit_run_context-IsServed id n p v = elim (commit_request_cases n.active_request id n) [
  | inl e ↦ subst IsServed (sym e) v
  | inr (r, g, a, e) ↦ subst IsServed (sym e) (commit_with-IsServed r g n a v p)
]

pub commit_run_context-IsPlaced :
    (id : Text) (n : Notebook) → IsPlaced n → IsPlaced (commit_run_context id n).0
unfolding commit_run_context
commit_run_context-IsPlaced id n p = elim (commit_request_cases n.active_request id n) [
  | inl e ↦ subst IsPlaced (sym e) p
  | inr (r, g, a, e) ↦ subst IsPlaced (sym e) (commit_with-IsPlaced r g n p)
]
