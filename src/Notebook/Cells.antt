-- ===== src/Notebook/Cells.antt =====
-- src/agent/notebook.ts: the methods that move the selection and change the list of cells.
use jupyter_plugin_aitermina.Base.{
  ℕ, Option, Text, get_elem?, keep, Bool, List, not, last?, some, if◌then◌else◌, truthy, text_eq,
  false, any, is_some, none, ◌+◌, leb, [], trim, remove_at, true, ◌&&◌, ◌==◌, length, insert_at,
  ◌||◌, ◌++◌, min, ltb, ◌∷◌, ◌-◌,
}
use jupyter_plugin_aitermina.Notebook.{
  Notebook, update_at, update_cell, WorkspaceCell, create_cell, is_empty, status_eq, find_cell,
  queued, idle, runs_cell, is_nil,
}
use jupyter_plugin_aitermina.Keys.{EditorMode, edit}
use jupyter_plugin_aitermina.Protocol.{command, WorkspaceMode, ai, ChatBlock}
use jupyter_plugin_aitermina.Turn.{ChatTurn}
use jupyter_plugin_aitermina.Notebook.Source.{is_shell_escape_source}

-- A negative index is refused like one past the end.
unfoldable pub select : ℕ → Notebook → Notebook
select i n =
    if is_empty n
    then record n { active = 0 }
    else if leb (length n.cells) i
    then n
    else record n { active = i }

unfoldable pub append_cell : Notebook → Notebook × WorkspaceCell
append_cell n =
    let (m, cell) = create_cell ai [] n in
    let cells = m.cells ++ cell ∷ [] in
    (record m { cells = cells; active = length cells - 1; mode = edit }, cell)

unfoldable pub insert_above : Notebook → Notebook × WorkspaceCell
unfolding append_cell
insert_above n =
    let (m, cell) = create_cell ai [] n in
    if is_empty n
    then append_cell n
    else (record m { cells = insert_at n.active cell m.cells; mode = edit }, cell)

unfoldable pub insert_below : Notebook → Notebook × WorkspaceCell
unfolding append_cell
insert_below n =
    let (m, cell) = create_cell ai [] n in
    if is_empty n then append_cell n else (
      record m {
        cells = insert_at (n.active + 1) cell m.cells;
        active = n.active + 1;
        mode = edit;
      },
      cell,
    )

abbrev pub retry_of : Option WorkspaceCell → ℕ → Notebook → Notebook × Option WorkspaceCell
retry_of none i n = (n, none)
retry_of (some source) i n =
    let (m, cell) = create_cell source.kind source.source n in
    if not (truthy (trim source.source)) then (n, none) else (
      record m { cells = insert_at (i + 1) cell m.cells; active = i + 1; mode = edit },
      some cell,
    )

unfoldable pub prepare_retry : ℕ → Notebook → Notebook × Option WorkspaceCell
prepare_retry i n = retry_of (get_elem? n.cells i) i n

unfoldable pub cancel_queued_runs : Text → Notebook → Notebook
cancel_queued_runs id n =
    let m = record n { run_queue = keep (λ r. not (text_eq r.cell_id id)) n.run_queue } in
    let reset =
      λ (c : WorkspaceCell). if status_eq c.status queued then record c { status = idle } else c in
    if runs_cell n.active_request id then m else record m { cells = update_cell id reset m.cells }

-- The rest of `deleteActive` when the runs are cancelled.
abbrev pub remove_active : Notebook → Notebook
remove_active m =
    let cells = remove_at m.active m.cells in
    let active = if length cells == 0 then 0 else min m.active (length cells - 1) in
    record m { cells = cells; mode = EditorMode.command; active = active }

abbrev pub delete_current : Option WorkspaceCell → Notebook → Notebook × Bool
delete_current none n = (n, false)
delete_current (some cell) n =
    if runs_cell n.active_request cell.id
    then (n, false)
    else (remove_active (cancel_queued_runs cell.id n), true)

-- In a notebook that is not empty `current` is the active cell.
unfoldable pub delete_active : Notebook → Notebook × Bool
unfolding cancel_queued_runs
delete_active n = if is_empty n then (n, false) else delete_current (get_elem? n.cells n.active) n

unfoldable pub enter_edit : Notebook → Notebook
enter_edit n = record n { mode = edit }

unfoldable pub exit_edit : Notebook → Notebook
exit_edit n = record n { mode = EditorMode.command }

abbrev pub has_text : Text → List Text → Bool
has_text s = any λ t. text_eq t s

-- The kind that an untracked draft gets from its source.
abbrev pub draft_kind : Text → WorkspaceMode
draft_kind source = if is_shell_escape_source source then command else ai

abbrev pub write_source : Text → List Text → WorkspaceCell → WorkspaceCell
write_source source explicit c =
    if not (is_some c.execution_count) && not (has_text c.id explicit)
    then record c { source = source; kind = draft_kind source }
    else record c { source = source }

unfoldable pub set_source : Text → Notebook → Notebook
unfolding update_at is_shell_escape_source
set_source source n = if is_empty n then n else record n {
  cells = update_at n.active (write_source source n.explicit_draft_kinds) n.cells;
}

abbrev pub draft_kind_of :
    Option WorkspaceCell → WorkspaceMode → ℕ → Notebook → Notebook × Option WorkspaceCell
draft_kind_of none kind i n = (n, none)
draft_kind_of (some c) kind i n =
    if not (status_eq c.status idle) || is_some c.execution_count then (n, none) else (
      record n {
        explicit_draft_kinds =
            if has_text c.id n.explicit_draft_kinds
            then n.explicit_draft_kinds
            else n.explicit_draft_kinds ++ c.id ∷ [];
        cells = update_at i (λ c. record c { kind = kind }) n.cells;
      },
      some (record c { kind = kind }),
    )

unfoldable pub set_draft_kind : WorkspaceMode → ℕ → Notebook → Notebook × Option WorkspaceCell
unfolding update_at
set_draft_kind kind i n = draft_kind_of (get_elem? n.cells i) kind i n

unfoldable pub set_blocks : List ChatBlock → Notebook → Notebook
unfolding update_at
set_blocks blocks n =
    if is_empty n
    then n
    else record n { cells = update_at n.active (λ c. record c { blocks = blocks }) n.cells }

unfoldable pub set_turn : Option ChatTurn → Notebook → Notebook
unfolding update_at
set_turn turn n =
    if is_empty n
    then n
    else record n { cells = update_at n.active (λ c. record c { turn = turn }) n.cells }

abbrev pub turn_of : Option WorkspaceCell → Option ChatTurn
turn_of none = none
turn_of (some c) = c.turn

abbrev pub write_turn : Option ChatTurn → Text → (ChatTurn → ChatTurn) → Notebook → Notebook × Bool
write_turn none id update n = (n, false)
write_turn (some t) id update n =
    (record n { cells = update_cell id (λ c. record c { turn = some (update t) }) n.cells }, true)

unfoldable pub update_turn : Text → (ChatTurn → ChatTurn) → Notebook → Notebook × Bool
unfolding update_cell
update_turn id update n = write_turn (turn_of (find_cell id n.cells)) id update n

unfoldable pub toggle_output_collapsed : ℕ → Notebook → Notebook
unfolding update_at
toggle_output_collapsed i n = record n {
  cells = update_at i (λ c. record c { output_collapsed = not c.output_collapsed }) n.cells;
}

abbrev pub is_blank_input : WorkspaceCell → Bool
is_blank_input c = status_eq c.status idle && is_nil c.source && is_nil c.output && is_nil c.blocks

abbrev pub trailing_of : Option WorkspaceCell → Notebook → Notebook × WorkspaceCell
trailing_of none n = append_cell n
trailing_of (some last) n =
    let (m, cell) = create_cell ai [] n in
    if is_blank_input last then (n, last) else (record m { cells = m.cells ++ cell ∷ [] }, cell)

unfoldable pub ensure_trailing_input : Notebook → Notebook × WorkspaceCell
unfolding append_cell
ensure_trailing_input n = trailing_of (last? n.cells) n

-- `cells.length - 1` is -1 in an empty notebook, which no `active` is; `current`, which throws in an
-- empty notebook, is `none` there.
unfoldable pub advance_after_run : Notebook → Notebook × Option WorkspaceCell
unfolding ensure_trailing_input
advance_after_run n =
    let m = if n.active + 1 == length n.cells then (ensure_trailing_input n).0 else n in
    let active = if ltb (m.active + 1) (length m.cells) then m.active + 1 else m.active in
    (record m { active = active; mode = edit }, get_elem? m.cells active)
