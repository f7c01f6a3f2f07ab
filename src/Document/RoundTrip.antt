-- ===== src/Document/RoundTrip.antt =====
-- src/agent/document.ts: what is saved, restored and saved again is the same.
use mathlib.Core.Option
use jupyter_plugin_aitermina.Base.{
  Option, ℕ, List, ◌≡◌, some, refl, Bool-cases, ap, [], leb, ◌∙◌, none, inl, inr, All, map, ◌∷◌,
  Bool, subst, Text, All-map,
}
use jupyter_plugin_aitermina.Notebook.{WorkspaceCell, CellStatus}
use jupyter_plugin_aitermina.Document.Normalizing.{
  persist_status, NormalInput, normalize_input, is_command, max_safe_integer,
}
use jupyter_plugin_aitermina.Turn.{
  TurnStatus, ChatTurn, turn_unchecked, turn_running, turn_done, turn_interrupted, turn_error,
}
use jupyter_plugin_aitermina.Protocol.{WorkspaceMode, ChatBlock, command, ai}
use jupyter_plugin_aitermina.Turn.Persistence.{
  settled_status, to_persisted_turn, PersistedTurn, restore_turn,
}
use jupyter_plugin_aitermina.Document.Restoring.{
  restored_turn, snapshot_from_cell, kept_generation, cell_from_snapshot, legacy_turn,
}
use jupyter_plugin_aitermina.Turn.Deriving.{derive_turn, normalize_terminal_reason, create_turn}
use jupyter_plugin_aitermina.Document.{CellSnapshot}
use jupyter_plugin_aitermina.Document.Inputs.{normalize_input-IsNormal}
use jupyter_plugin_aitermina.ToolPresenter.Formats.{Doubles}
use jupyter_plugin_aitermina.Document.Snapshots.{
  cells_of_session, bound_cells, clear_if, is_above, with_generation,
}
use jupyter_plugin_aitermina.Document.Bridges.{has_generation}

-- The turn of a cell, with the kind that the cell is stored with, comes back: its reason is one of
-- the stable ones, and where there is no turn none is made of the blocks.
abbrev pub KeepsTurn : Option ChatTurn → WorkspaceMode → List ChatBlock → Type 0
KeepsTurn (some t) kind blocks = normalize_terminal_reason t.terminal_reason ≡ t.terminal_reason
KeepsTurn none command blocks = Unit
KeepsTurn none ai blocks = blocks ≡ []

abbrev pub stored_input : WorkspaceCell → NormalInput
stored_input c = normalize_input c.source (is_command c.kind)

abbrev pub IsStorable : WorkspaceCell → Type 0
IsStorable c = KeepsTurn c.turn (stored_input c).kind c.blocks

persist_status_idem : (s : CellStatus) → persist_status (persist_status s) ≡ persist_status s
unfolding persist_status
persist_status_idem CellStatus.done = refl
persist_status_idem CellStatus.interrupted = refl
persist_status_idem CellStatus.idle = refl
persist_status_idem CellStatus.running = refl
persist_status_idem CellStatus.queued = refl

settled_status_idem : (s : TurnStatus) → settled_status (settled_status s) ≡ settled_status s
settled_status_idem turn_running = refl
settled_status_idem turn_done = refl
settled_status_idem turn_interrupted = refl
settled_status_idem turn_error = refl
settled_status_idem (turn_unchecked v) = refl

kept_generation_idem :
    (kind : WorkspaceMode) (o : Option ℕ)
    → kept_generation kind (kept_generation kind o) ≡ kept_generation kind o
kept_generation_idem command o = refl
kept_generation_idem ai none = refl
kept_generation_idem ai (some n) = elim (Bool-cases (leb n max_safe_integer)) [
  | inl e ↦ rw e (rw e refl)
  | inr e ↦ rw e refl
]

kept_generation-none : (kind : WorkspaceMode) → kept_generation kind none ≡ none
kept_generation-none command = refl
kept_generation-none ai = refl

module _ (doubles : Doubles) where
  -- A turn that is stored, restored with its blocks and stored again.
  to_persisted-derived :
      (p : PersistedTurn) (blocks : List ChatBlock)
      → settled_status p.status ≡ p.status
      → normalize_terminal_reason p.terminal_reason ≡ p.terminal_reason
      → to_persisted_turn (derive_turn doubles (restore_turn p) blocks) ≡ p
  unfolding to_persisted_turn derive_turn restore_turn create_turn
  to_persisted-derived p blocks s r =
      ap
        (λ x. record p {
          status = x;
          terminal_reason = normalize_terminal_reason p.terminal_reason;
        })
        s
      ∙ ap (λ x. record p { terminal_reason = x }) r

  restored_turn-stored :
      (s : CellSnapshot) (turn : Option ChatTurn) (kind : WorkspaceMode) (status : CellStatus)
      → s.turn ≡ Option.map to_persisted_turn turn
      → KeepsTurn turn kind s.blocks
      → Option.map to_persisted_turn (restored_turn doubles s kind status)
        ≡ Option.map to_persisted_turn turn
  unfolding restored_turn to_persisted_turn
  restored_turn-stored s (some t) kind status e h = rw e (
      ap some
        (to_persisted-derived (to_persisted_turn t) s.blocks (settled_status_idem t.status) h))
  restored_turn-stored s none command status e h = rw e (unfold legacy_turn in refl)
  restored_turn-stored s none ai status e h = rw (e, h) (unfold legacy_turn in refl)

  module _ (c : WorkspaceCell) where
    -- A snapshot of the cell with other parts.
    abbrev with_parts : NormalInput → Option PersistedTurn → CellStatus → Option ℕ → CellSnapshot
    with_parts input turn status generation = record {
      id = c.id;
      kind = input.kind;
      source = input.source;
      output = c.output;
      blocks = c.blocks;
      turn = turn;
      status = status;
      execution_count = c.execution_count;
      output_collapsed = c.output_collapsed;
      agent_context_generation = generation;
    }

    snapshot_from_cell-again :
        IsStorable c
        → snapshot_from_cell (cell_from_snapshot doubles (snapshot_from_cell c))
          ≡ snapshot_from_cell c
    unfolding snapshot_from_cell cell_from_snapshot
    snapshot_from_cell-again h =
        let i = stored_input c in
        let e : normalize_input i.source (is_command i.kind) ≡ i =
          (normalize_input-IsNormal c.source (is_command c.kind)).1 in
        let s = persist_status_idem c.status in
        let g = kept_generation_idem i.kind c.agent_context_generation in
        let turn = Option.map to_persisted_turn c.turn in
        let thrice = persist_status (persist_status (persist_status c.status)) in
        let old =
          kept_generation i.kind
            (kept_generation i.kind (kept_generation i.kind c.agent_context_generation)) in
        let t =
          restored_turn-stored (snapshot_from_cell c) c.turn i.kind
            (persist_status (persist_status c.status)) refl h in
        rw (e, e)
          (ap (λ x. with_parts i x thrice old) t
            ∙ ap (λ x. with_parts i turn x old) (ap persist_status s ∙ s)
            ∙ ap (with_parts i turn (persist_status c.status)) (ap (kept_generation i.kind) g ∙ g))

  -- A snapshot of a storable cell.
  pub record IsStored (x : CellSnapshot) : Type 0 where
    pub cell : WorkspaceCell
    pub storable : IsStorable cell
    pub taken : snapshot_from_cell cell ≡ x

  snapshot-IsStored :
      (cells : List WorkspaceCell)
      → All IsStorable cells
      → All IsStored (map snapshot_from_cell cells)
  snapshot-IsStored [] h = tt
  snapshot-IsStored (c ∷ cs) (p, h) =
      (record { cell = c; storable = p; taken = refl }, snapshot-IsStored cs h)

  -- A cleared snapshot is that of the cleared cell.
  cleared-IsStored : (x : CellSnapshot) → IsStored x → IsStored (with_generation none x)
  unfolding snapshot_from_cell
  cleared-IsStored x h =
      let cleared : WorkspaceCell = record h.cell { agent_context_generation = none } in
      let same : snapshot_from_cell cleared ≡ with_generation none (snapshot_from_cell h.cell) =
        ap (λ g. with_generation g (snapshot_from_cell h.cell))
          (kept_generation-none (stored_input h.cell).kind) in
      record {
        cell = cleared;
        storable = h.storable;
        taken = same ∙ ap (with_generation none) h.taken;
      }

  clear_if-IsStored :
      (p : Option ℕ → Bool) (x : CellSnapshot) → IsStored x → IsStored (clear_if p x)
  clear_if-IsStored p x h = elim (Bool-cases (p x.agent_context_generation)) [
    | inl e ↦ rw e (cleared-IsStored x h)
    | inr e ↦ rw e h
  ]

  cleared_cells-IsStored :
      (p : Option ℕ → Bool) (xs : List CellSnapshot)
      → All IsStored xs
      → All IsStored (map (clear_if p) xs)
  cleared_cells-IsStored p xs h = All-map IsStored IsStored (clear_if p) xs (clear_if-IsStored p) h

  cells_of_session-IsStored :
      (session : Option Text) (g : ℕ) (xs : List CellSnapshot)
      → All IsStored xs
      → All IsStored (cells_of_session session g xs)
  unfolding cells_of_session
  cells_of_session-IsStored none g xs h = cleared_cells-IsStored (λ o. has_generation o g) xs h
  cells_of_session-IsStored (some session) g xs h = h

  stored-again :
      (xs : List CellSnapshot)
      → All IsStored xs
      → map snapshot_from_cell (map (cell_from_snapshot doubles) xs) ≡ xs
  stored-again [] h = refl
  stored-again (x ∷ xs) (p, h) =
      let first : snapshot_from_cell (cell_from_snapshot doubles x) ≡ x =
        subst (λ y. snapshot_from_cell (cell_from_snapshot doubles y) ≡ y) p.taken
          (snapshot_from_cell-again p.cell p.storable) in
      ap (λ y. y ∷ map snapshot_from_cell (map (cell_from_snapshot doubles) xs)) first
      ∙ ap (◌∷◌ x) (stored-again xs h)

  -- When the turns of some cells have stable reasons, and their cells of an assistant without a turn
  -- have no blocks: after the snapshots of the cells went through the steps of `normalizeSnapshot`
  -- that clear generations past that of the notebook, and without a session the current one, the
  -- cells that are restored of them have exactly these snapshots.
  pub snapshots-again :
      (session : Option Text) (g : ℕ) (cells : List WorkspaceCell)
      → All IsStorable cells
      → let stored = cells_of_session session g (bound_cells g (map snapshot_from_cell cells)) in
        map snapshot_from_cell (map (cell_from_snapshot doubles) stored) ≡ stored
  unfolding bound_cells
  snapshots-again session g cells h =
      let bounded =
        cleared_cells-IsStored (is_above g) (map snapshot_from_cell cells)
          (snapshot-IsStored cells h) in
      stored-again (cells_of_session session g (bound_cells g (map snapshot_from_cell cells)))
        (cells_of_session-IsStored session g (bound_cells g (map snapshot_from_cell cells)) bounded)
