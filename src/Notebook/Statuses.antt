-- ===== src/Notebook/Statuses.antt =====
-- src/agent/notebook.ts: how the statuses of the cells agree with the runs.
use jupyter_plugin_aitermina.Base.{
  ℕ, Text, Option, All, List, Bool, insert_at, some, ◌≡◌, ◌≢◌, text_eq, true, any, none, false,
  arith, keep, ◌+◌, text_eq_iff, not, suc, ◌∷◌, [], zero, refl, sym, Distinct,
}
use jupyter_plugin_aitermina.Notebook.{
  Notebook, RunRequest, WorkspaceCell, status_eq, running, update_at, runs_cell, fresh_cell, queued,
  update_cell,
}
use jupyter_plugin_aitermina.Protocol.{WorkspaceMode}
use jupyter_plugin_aitermina.Notebook.Ids.{ids, cell_id-fresh, All-insert_at, map-insert_at}
use jupyter_plugin_aitermina.Notebook.Cells.{has_text}
use jupyter_plugin_aitermina.Notebook.Placement.{IsPlaced}
use jupyter_plugin_aitermina.Notebook.Updates.{
  All-update_at, update_at-ids, All-update_cell, update_cell-ids,
}

-- A cell is running exactly when the active run is its own, and a queued cell has a request.
abbrev pub asks : Text → RunRequest → Bool
asks id r = text_eq r.cell_id id

pub record Fits (active : Option RunRequest) (queue : List RunRequest) (c : WorkspaceCell)
    : Type 0 where
  pub is_run : status_eq c.status running ≡ runs_cell active c.id
  pub is_asked : status_eq c.status queued ≡ true → any (asks c.id) queue ≡ true

-- The cell of the active run is there.
abbrev pub HasOwner : Option RunRequest → List Text → Type 0
HasOwner none ss = Unit
HasOwner (some r) ss = has_text r.cell_id ss ≡ true

pub record IsServed (n : Notebook) : Type 0 where
  pub fits : All (Fits n.active_request n.run_queue) n.cells
  pub owner : HasOwner n.active_request (ids n.cells)

-- An update that leaves the id and the status of the cell.
pub SameStatus-IsServed :
    (i : ℕ) (f : WorkspaceCell → WorkspaceCell) (n m : Notebook)
    → ((c : WorkspaceCell) → (f c).id ≡ c.id)
    → ((c : WorkspaceCell) → (f c).status ≡ c.status)
    → m.cells ≡ update_at i f n.cells
    → m.active_request ≡ n.active_request
    → m.run_queue ≡ n.run_queue
    → IsServed n
    → IsServed m
SameStatus-IsServed i f n m h k e a q v = record {
  fits =
      rw (e, a, q)
        (All-update_at {P = Fits n.active_request n.run_queue} f i n.cells v.fits
          (λ c g w. record { is_run = rw (h c, k c) w.is_run; is_asked = rw (h c, k c) w.is_asked })
          (λ c w. w));
  owner = rw (e, a, update_at-ids i f n.cells h) v.owner;
}

pub SameStatus_by_id-IsServed :
    (id : Text) (f : WorkspaceCell → WorkspaceCell) (n m : Notebook)
    → ((c : WorkspaceCell) → (f c).id ≡ c.id)
    → ((c : WorkspaceCell) → (f c).status ≡ c.status)
    → Distinct (ids n.cells)
    → m.cells ≡ update_cell id f n.cells
    → m.active_request ≡ n.active_request
    → m.run_queue ≡ n.run_queue
    → IsServed n
    → IsServed m
SameStatus_by_id-IsServed id f n m h k d e a q v = record {
  fits =
      rw (e, a, q)
        (All-update_cell {P = Fits n.active_request n.run_queue} f id n.cells d v.fits
          (λ c g w. record { is_run = rw (h c, k c) w.is_run; is_asked = rw (h c, k c) w.is_asked })
          (λ c g w. w));
  owner = rw (e, a, update_cell-ids id f n.cells h) v.owner;
}

has_text-ne :
    (s t : Text) (ss : List Text) → has_text s ss ≡ true → All (λ u. u ≢ t) ss → text_eq t s ≡ false
has_text-ne s t [] h a = cc
has_text-ne s t (u ∷ ss) h (n, a) =
    ground (arith, text_eq_iff u s, text_eq_iff t s, has_text-ne s t ss)

-- The cell of the active run is not the new one.
owner-other :
    (r : Option RunRequest) (t : Text) (ss : List Text)
    → HasOwner r ss
    → All (λ u. u ≢ t) ss
    → runs_cell r t ≡ false
owner-other none t ss h a = refl
owner-other (some r) t ss h a =
    ground (arith, text_eq_iff r.cell_id t, text_eq_iff t r.cell_id, has_text-ne r.cell_id t ss h a)

has_text-insert_at :
    (s t : Text) (i : ℕ) (ss : List Text)
    → has_text s ss ≡ true
    → has_text s (insert_at i t ss) ≡ true
has_text-insert_at s t zero ss h = ground arith
has_text-insert_at s t (suc i) [] h = cc
has_text-insert_at s t (suc i) (u ∷ ss) h = ground (arith, has_text-insert_at s t i ss)

HasOwner-insert_at :
    (r : Option RunRequest) (t : Text) (i : ℕ) (ss : List Text)
    → HasOwner r ss
    → HasOwner r (insert_at i t ss)
HasOwner-insert_at none t i ss h = tt
HasOwner-insert_at (some r) t i ss h = has_text-insert_at r.cell_id t i ss h

-- A new cell at any place.
pub insert-IsServed :
    (i : ℕ) (kind : WorkspaceMode) (source : Text) (n m : Notebook)
    → IsPlaced n
    → m.cells ≡ insert_at i (fresh_cell (n.cell_counter + 1) kind source) n.cells
    → m.active_request ≡ n.active_request
    → m.run_queue ≡ n.run_queue
    → IsServed n
    → IsServed m
insert-IsServed i kind source n m p e a q v =
    let c = fresh_cell (n.cell_counter + 1) kind source in
    let new = cell_id-fresh n.cell_counter (ids n.cells) p.below in
    record {
      fits =
          rw (e, a, q)
            (All-insert_at (Fits n.active_request n.run_queue) i c n.cells
              (record {
                is_run = sym (owner-other n.active_request c.id (ids n.cells) v.owner new);
                is_asked = λ h. cc;
              })
              v.fits);
      owner =
          rw (e, a, map-insert_at (λ (d : WorkspaceCell). d.id) i c n.cells)
            (HasOwner-insert_at n.active_request c.id i (ids n.cells) v.owner);
    }

pub any-keep_other :
    (id id' : Text) (rs : List RunRequest)
    → id ≢ id'
    → any (asks id) rs ≡ true
    → any (asks id) (keep (λ r. not (text_eq r.cell_id id')) rs) ≡ true
any-keep_other id id' [] n h = h
any-keep_other id id' (r ∷ rs) n h =
    ground (arith, text_eq_iff r.cell_id id, text_eq_iff r.cell_id id', any-keep_other id id' rs n)
