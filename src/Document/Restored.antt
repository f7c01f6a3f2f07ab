-- ===== src/Document/Restored.antt =====
-- src/agent/document.ts: what is restored of a document is a well-formed workspace.
use jupyter_plugin_aitermina.Notebook.{CellStatus, WorkspaceCell, Notebook, is_empty}
use jupyter_plugin_aitermina.Base.{
  Option, Bool, Text, ◌≤◌, ◌≡◌, false, ℕ, length, true, some, ◌-◌, refl, All, none, All-map, arith,
  Bool-cases, leb, inl, inr, ◌⊎◌,
}
use jupyter_plugin_aitermina.Document.{Workspace, WorkspaceSnapshot, CellSnapshot}
use jupyter_plugin_aitermina.Document.Restoring.{
  Restored, cell_from_snapshot, load_snapshot, failed_to_read, restored, between_cells,
  kept_generation, place_notebook, restore_snapshot, restore_notebook, Placed, place_at,
  workspace_of, restored_as, at_index, between_indices,
}
use jupyter_plugin_aitermina.Document.Normalizing.{
  persist_status, clamp, normalize_input, is_command, max_safe_integer,
}
use jupyter_plugin_aitermina.Json.{Number, whole, other, Value}
use jupyter_plugin_aitermina.Protocol.{WorkspaceMode, command, ai}
use jupyter_plugin_aitermina.Document.Inputs.{IsNormal, normalize_input-IsNormal}
use jupyter_plugin_aitermina.Notebook.Ids.{ids}
use jupyter_plugin_aitermina.Document.Ordering.{IsOrdered}
use jupyter_plugin_aitermina.Notebook.Runs.{restore_counters}
use jupyter_plugin_aitermina.Keys.{EditorMode, edit}
use jupyter_plugin_aitermina.Turn.Persistence.{Unchecked}
use jupyter_plugin_aitermina.Notebook.Counters.{max_cell-IsCounted, IsCounted, max_cell-IsCounted}
use jupyter_plugin_aitermina.Document.WellFormed.{
  IsPast, IsUnlived, IsSound, SoundResult, parse_workspace_snapshot-IsSound,
}
use jupyter_plugin_aitermina.Document.Acceptable.{IsReference, IsSession}
use jupyter_plugin_aitermina.ToolPresenter.Formats.{Doubles}
use jupyter_plugin_aitermina.Document.Reading.{ReadError}
use jupyter_plugin_aitermina.Document.Snapshots.{parse_workspace_snapshot}

-- No run waits and none is under way.
abbrev pub is_at_rest : CellStatus → Bool
is_at_rest CellStatus.running = false
is_at_rest CellStatus.queued = false
is_at_rest s = true

pub record IsRestoredCell (session : Option Text) (g : ℕ) (c : WorkspaceCell) : Type 0 where
  pub at_rest : is_at_rest c.status ≡ true
  pub normal : IsNormal c.kind c.source
  pub past : IsPast session g c.agent_context_generation

pub record IsRestored (w : Workspace) : Type 0 where
  pub counted : All (IsCounted w.notebook.cell_counter) (ids w.notebook.cells)
  pub cells :
      All
        (IsRestoredCell w.notebook.agent_session_id w.notebook.agent_context_generation)
        w.notebook.cells
  pub ordered : IsOrdered w.notebook.agent_context_generation w.notebook.agent_context_bridges
  pub reference : IsReference w.reference
  pub session : IsSession w.notebook.agent_session_id

abbrev pub GoodEnd : Restored → Type 0
GoodEnd (failed_to_read e) = Unit
GoodEnd (between_cells active w) = IsRestored w
GoodEnd (restored w) = (w.notebook.active ≤ length w.notebook.cells - 1) × IsRestored w

persist_status-at_rest : (s : CellStatus) → is_at_rest (persist_status s) ≡ true
unfolding persist_status
persist_status-at_rest CellStatus.done = refl
persist_status-at_rest CellStatus.interrupted = refl
persist_status-at_rest CellStatus.idle = refl
persist_status-at_rest CellStatus.running = refl
persist_status-at_rest CellStatus.queued = refl

none-IsUnlived : (session : Option Text) (g : ℕ) → IsUnlived session g none
none-IsUnlived none g = refl
none-IsUnlived (some s) g = tt

kept_generation-IsPast :
    (session : Option Text) (g : ℕ) (kind : WorkspaceMode) (o : Option ℕ)
    → IsPast session g o
    → IsPast session g (kept_generation kind o)
kept_generation-IsPast session g command o h = (refl, none-IsUnlived session g)
kept_generation-IsPast session g ai none h = h
kept_generation-IsPast session g ai (some n) h = elim (Bool-cases (leb n max_safe_integer)) [
  | inl e ↦ rw e h
  | inr e ↦ rw e (refl, none-IsUnlived session g)
]

module _ (doubles : Doubles) where
  cell_from_snapshot-IsRestoredCell :
      (session : Option Text) (g : ℕ) (c : CellSnapshot)
      → IsPast session g c.agent_context_generation
      → IsRestoredCell session g (cell_from_snapshot doubles c)
  unfolding cell_from_snapshot
  cell_from_snapshot-IsRestoredCell session g c h =
      let input = normalize_input c.source (is_command c.kind) in
      record {
        at_rest = persist_status-at_rest c.status;
        normal = (normalize_input-IsNormal c.source (is_command c.kind)).0;
        past = kept_generation-IsPast session g input.kind c.agent_context_generation h;
      }

  load_snapshot-cells :
      (s : WorkspaceSnapshot) (n : Notebook)
      → IsSound s
      → All
          (IsRestoredCell s.agent_session_id s.agent_context_generation)
          (load_snapshot doubles s n).cells
  unfolding load_snapshot
  load_snapshot-cells s n h =
      All-map (λ c. IsPast s.agent_session_id s.agent_context_generation c.agent_context_generation)
        (IsRestoredCell s.agent_session_id s.agent_context_generation) (cell_from_snapshot doubles)
        s.cells (cell_from_snapshot-IsRestoredCell s.agent_session_id s.agent_context_generation)
        h.past

  -- A notebook that is placed among the cells that it had.
  pub record IsPlacedFrom (n m : Notebook) : Type 0 where
    pub counted : All (IsCounted m.cell_counter) (ids m.cells)
    pub same_cells : m.cells ≡ n.cells
    pub same_session : m.agent_session_id ≡ n.agent_session_id
    pub same_generation : m.agent_context_generation ≡ n.agent_context_generation
    pub same_bridges : m.agent_context_bridges ≡ n.agent_context_bridges

  placed_at :
      (i : ℕ) (mode : EditorMode) (n : Notebook)
      → IsPlacedFrom n (restore_counters n.cells (record n { active = i; mode = mode }))
  unfolding restore_counters
  placed_at i mode n = record {
    counted = max_cell-IsCounted 0 n.cells;
    same_cells = refl;
    same_session = refl;
    same_generation = refl;
    same_bridges = refl;
  }

  abbrev pub PlacedEnd : Notebook → Placed → Type 0
  PlacedEnd n (at_index m) = (m.active ≤ length m.cells - 1) × IsPlacedFrom n m
  PlacedEnd n (between_indices active m) = IsPlacedFrom n m

  abbrev pub Bounded : Number → ℕ → Type 0
  Bounded (whole i) m = i ≤ m
  Bounded (other a b c tag) m = Unit

  clamp-Bounded : (v : Number) (m : ℕ) → Bounded (clamp doubles v m) m
  unfolding clamp
  clamp-Bounded (whole n) m = omega arith
  clamp-Bounded (other true b c tag) m = omega arith
  clamp-Bounded (other false b c tag) m = elim (Bool-cases (doubles.is_below false b c tag m)) [
    | inl e ↦ rw e tt
    | inr e ↦ rw e (omega arith)
  ]

  place_at-end :
      (v : Number) (n : Notebook) → Bounded v (length n.cells - 1) → PlacedEnd n (place_at v n)
  unfolding place_at restore_counters
  place_at-end (whole i) n h = (h, placed_at i edit n)
  place_at-end (other a b c tag) n h = placed_at n.active edit n

  place_notebook-end :
      (active : Number) (n : Notebook) → PlacedEnd n (place_notebook doubles active n)
  unfolding place_notebook restore_counters
  place_notebook-end active n = elim (Bool-cases (is_empty n)) [
    | inl e ↦ rw e (omega arith, placed_at 0 EditorMode.command n)
    | inr e ↦ rw e (
        place_at-end (clamp doubles active (length n.cells - 1)) n
          (clamp-Bounded active (length n.cells - 1)))
  ]

  placed-IsRestored :
      (k : ℕ) (s : WorkspaceSnapshot) (n m : Notebook)
      → IsSound s
      → IsPlacedFrom (load_snapshot doubles s n) m
      → IsRestored (workspace_of k s m)
  unfolding load_snapshot
  placed-IsRestored k s n m h p =
      let loaded = load_snapshot-cells s n h in
      record {
        counted = p.counted;
        cells = rw (p.same_session, p.same_generation, p.same_cells) loaded;
        ordered = rw (p.same_generation, p.same_bridges) h.ordered;
        reference = h.reference;
        session = rw p.same_session h.session;
      }

  restored_as-end :
      (k : ℕ) (s : WorkspaceSnapshot) (n : Notebook) (p : Placed)
      → IsSound s
      → PlacedEnd (load_snapshot doubles s n) p
      → GoodEnd (restored_as k s p)
  restored_as-end k s n (at_index m) h e = (e.0, placed-IsRestored k s n m h e.1)
  restored_as-end k s n (between_indices active m) h e = placed-IsRestored k s n m h e

  restore_snapshot-end :
      (k : ℕ) (s : WorkspaceSnapshot) (w : Workspace)
      → IsSound s
      → GoodEnd (restore_snapshot doubles k s w)
  unfolding restore_snapshot
  restore_snapshot-end k s w h =
      let n = load_snapshot doubles s w.notebook in
      restored_as-end k s w.notebook (place_notebook doubles s.active n) h
        (place_notebook-end s.active n)

  -- Whatever value a file holds, and whatever was in the workspace before, what `restoreNotebook` leaves
  -- when it does not throw is well formed: no cell waits or runs, the kind of each agrees with its
  -- source, no generation is past that of the notebook and without a session none is the current one,
  -- the bridges stand once per generation in their order, the session id and the session reference
  -- are acceptable ones, and the cell counter reaches the number of every id, as a double. The
  -- selection is that of a cell, or 0 without cells, unless the stored one is between two indices.
  pub restore_notebook-IsRestored :
      (unchecked : Unchecked) (text : Option Value) (w : Workspace)
      → GoodEnd (restore_notebook doubles unchecked text w)
  unfolding restore_notebook
  restore_notebook-IsRestored unchecked text w =
      ended (parse_workspace_snapshot unchecked w.standalone_cell_counter text)
        (parse_workspace_snapshot-IsSound unchecked w.standalone_cell_counter text)
    where
      ended :
          (r : ReadError ⊎ (ℕ × WorkspaceSnapshot))
          → SoundResult r
          → GoodEnd
              (elim r [ inl e ↦ failed_to_read e | inr (k, s) ↦ restore_snapshot doubles k s w ])
      ended (inl e) h = tt
      ended (inr (k, s)) h = restore_snapshot-end k s w h
