-- ===== src/Notebook/Deletion.antt =====
-- src/agent/notebook.ts: the deletion of the selected cell keeps the statuses and the runs in
-- agreement.
use jupyter_plugin_aitermina.Base.{
  Option, Text, ℕ, [], List, get_elem?, some, ◌≡◌, text_eq, arith, Bool-cases, none, false, ◌∷◌,
  inl, inr, ◌∙◌, true, remove_at, ap, Option-cases, text_eq_iff, suc, if◌then◌else◌, zero, refl,
}
use jupyter_plugin_aitermina.Notebook.{
  Notebook, update_cell, WorkspaceCell, RunRequest, runs_cell, is_empty, status_eq, queued, idle,
}
use jupyter_plugin_aitermina.Notebook.Cells.{
  delete_active, cancel_queued_runs, has_text, remove_active,
}
use jupyter_plugin_aitermina.Notebook.Placement.{IsPlaced}
use jupyter_plugin_aitermina.Notebook.Statuses.{IsServed, HasOwner, Fits}
use jupyter_plugin_aitermina.Notebook.Ids.{ids, All-remove_at}
use jupyter_plugin_aitermina.Notebook.CellServing.{cancel_queued_runs-IsServed}

abbrev id_of : Option WorkspaceCell → Text
id_of none = []
id_of (some c) = c.id

-- A cell that the active run is not on can go.
has_text-remove_at :
    (s : Text) (i : ℕ) (cs : List WorkspaceCell) (c : WorkspaceCell)
    → get_elem? cs i ≡ some c
    → text_eq s c.id ≡ false
    → has_text s (ids cs) ≡ true
    → has_text s (ids (remove_at i cs)) ≡ true
has_text-remove_at s i [] c e b h = h
has_text-remove_at s zero (d ∷ cs) c e b h =
    let same : d ≡ c = cc in
    ground (
      arith,
      text_eq_iff d.id s,
      text_eq_iff s d.id,
      ap (λ (z : WorkspaceCell). text_eq s z.id) same,
    )
has_text-remove_at s (suc i) (d ∷ cs) c e b h = ground (arith, has_text-remove_at s i cs c e b)

HasOwner-remove_at :
    (r : Option RunRequest) (i : ℕ) (cs : List WorkspaceCell) (c : WorkspaceCell)
    → get_elem? cs i ≡ some c
    → runs_cell r c.id ≡ false
    → HasOwner r (ids cs)
    → HasOwner r (ids (remove_at i cs))
HasOwner-remove_at none i cs c e b h = tt
HasOwner-remove_at (some r) i cs c e b h = has_text-remove_at r.cell_id i cs c e b h

remove_active-IsServed :
    (n : Notebook) (c : WorkspaceCell)
    → get_elem? n.cells n.active ≡ some c
    → runs_cell n.active_request c.id ≡ false
    → IsServed n
    → IsServed (remove_active n)
remove_active-IsServed n c e b v = record {
  fits = All-remove_at (Fits n.active_request n.run_queue) n.active n.cells v.fits;
  owner = HasOwner-remove_at n.active_request n.active n.cells c e b v.owner;
}

get_elem?-update_cell :
    (i : ℕ) (id : Text) (f : WorkspaceCell → WorkspaceCell) (cs : List WorkspaceCell)
    (c : WorkspaceCell)
    → get_elem? cs i ≡ some c
    → ((d : WorkspaceCell) → (f d).id ≡ d.id)
    → (d : WorkspaceCell) × (get_elem? (update_cell id f cs) i ≡ some d) × (d.id ≡ c.id)
unfolding update_cell
get_elem?-update_cell i id f [] c e k = absurd (ground arith)
get_elem?-update_cell zero id f (d ∷ cs) c e k = elim (Bool-cases (text_eq d.id id)) [
  | inl b ↦ rw b (f d, refl, k d ∙ ap id_of e)
  | inr b ↦ rw b (d, refl, ap id_of e)
]
get_elem?-update_cell (suc i) id f (d ∷ cs) c e k = elim (Bool-cases (text_eq d.id id)) [
  | inl b ↦ rw b (c, e, refl)
  | inr b ↦ rw b (get_elem?-update_cell i id f cs c e k)
]

pub delete_active-IsServed : (n : Notebook) → IsPlaced n → IsServed n → IsServed (delete_active n).0
unfolding delete_active cancel_queued_runs
delete_active-IsServed n p v = elim (Bool-cases (is_empty n)) [
  | inl k ↦ rw k v
  | inr k ↦ elim (Option-cases (get_elem? n.cells n.active)) [
    | inl e ↦ rw (k, e) v
    | inr (c, e) ↦ elim (Bool-cases (runs_cell n.active_request c.id)) [
      | inl b ↦ rw (k, e, b) v
      | inr b ↦
          let f = λ (d : WorkspaceCell).
            if status_eq d.status queued then record d { status = idle } else d in
          let w = rw b at (cancel_queued_runs-IsServed c.id n p v) in
          let (d, g, same) =
            get_elem?-update_cell n.active c.id f n.cells c e (λ x. ground arith) in
          rw (k, e, b) (remove_active-IsServed _ d g (rw same b) w)
    ]
  ]
]
