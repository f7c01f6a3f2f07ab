-- ===== src/Document/Tests.antt =====
-- src/agent/document.ts: runs on concrete documents.
use jupyter_plugin_aitermina.ToolPresenter.Formats.{Doubles, starts_with}
use jupyter_plugin_aitermina.Turn.Persistence.{Unchecked, no_metrics}
use jupyter_plugin_aitermina.Document.{Workspace}
use jupyter_plugin_aitermina.Json.{Value, obj, field, str, num, whole, get, end, arr, cons, nil}
use jupyter_plugin_aitermina.Document.Restored.{GoodEnd, restore_notebook-IsRestored}
use jupyter_plugin_aitermina.Document.Restoring.{
  Restored, restore_notebook, snapshot_from_cell, cell_from_snapshot, restored, failed_to_read,
  restore_snapshot, load_snapshot, place_notebook,
}
use jupyter_plugin_aitermina.Document.Inputs.{IsNormal, normalize_input-IsNormal}
use jupyter_plugin_aitermina.Notebook.{WorkspaceCell, new_notebook, fresh_cell, CellStatus}
use jupyter_plugin_aitermina.Turn.Deriving.{normalize_terminal_reason, create_turn}
use jupyter_plugin_aitermina.Document.References.{
  normalize_session_text, has_control_character, matches_uuid, includes_dots, reference_of,
  normalize_agent_session_id,
}
use jupyter_plugin_aitermina.Base.{
  Option, [], false, some, none, ℕ, codes, map, List, true, trim, ◌≡◌, Text, trim_end, refl,
  text_eq, trim_start, ◌∷◌, is_space, decimal, read_decimal,
}
use jupyter_plugin_aitermina.Document.Snapshots.{
  parse_workspace_snapshot, normalize_snapshot, newer_version, array_of, assemble_snapshot,
  bound_cells, cells_of_session, read_active,
}
use jupyter_plugin_aitermina.Document.Normalizing.{
  normalize_input, is_command, persist_status, clamp, normalize_generation,
  normalize_nullable_generation,
}
use jupyter_plugin_aitermina.Protocol.{ai}
use jupyter_plugin_aitermina.Document.Reading.{
  normalize_cells, normalize_cell_fields, unsupported_version, read_status,
}
use jupyter_plugin_aitermina.Document.RoundTrip.{snapshots-again}
use jupyter_plugin_aitermina.Notebook.Source.{is_shell_escape_source}
use jupyter_plugin_aitermina.Notebook.Runs.{restore_counters, max_cell, max_execution, read_cell_id}

-- An arithmetic that prints nothing, and unchecked values that are dropped.
abbrev silent_doubles : Doubles
silent_doubles = record {
  is_falsy = λ a b c tag. false;
  is_below = λ a b c tag n. false;
  print = λ a b c tag. [];
  print_rounded = λ a b c tag. [];
  print_quotient = λ v n. [];
}

abbrev dropped : Unchecked
dropped = record {
  blocks = λ items. [];
  metrics = λ v. no_metrics;
  execution_count = λ a b c tag. 0;
}

abbrev new_workspace : Workspace
new_workspace = record { notebook = new_notebook; reference = none; standalone_cell_counter = 0 }

-- A cell without an id that was running, in a document of the current version.
abbrev running_cell : Value
running_cell = obj (
    field (codes "kind") (str (codes "command")) (
      field (codes "source") (str (codes "ls")) (
        field (codes "status") (str (codes "running"))
          (field (codes "executionCount") (num (whole 7)) end))))

abbrev stored : Value
stored = obj (
    field (codes "version") (num (whole 5)) (
      field (codes "active") (num (whole 9))
        (field (codes "cells") (arr (cons running_cell (cons (obj end) nil))) end)))

restore_notebook-IsRestored_example :
    GoodEnd (restore_notebook silent_doubles dropped (some stored) new_workspace)
restore_notebook-IsRestored_example =
    restore_notebook-IsRestored silent_doubles dropped (some stored) new_workspace

abbrev of_end : Restored → Option (ℕ × ℕ × ℕ × List (Text × Text × CellStatus))
of_end (restored w) = some (
  w.notebook.active,
  w.notebook.cell_counter,
  w.notebook.execution_counter,
  map (λ (c : WorkspaceCell). (c.id, c.source, c.status)) w.notebook.cells,
)
of_end e = none

restored_cells :
    of_end (restore_notebook silent_doubles dropped (some stored) new_workspace)
    ≡ some (
      1,
      2,
      7,
      (codes "cell-1", codes "!ls", CellStatus.interrupted)
          ∷ (codes "cell-2", [], CellStatus.idle)
          ∷ [],
    )
unfolding restore_notebook parse_workspace_snapshot normalize_snapshot newer_version array_of get
    text_eq normalize_cells normalize_cell_fields normalize_input is_shell_escape_source trim_start
    is_space read_status persist_status decimal assemble_snapshot bound_cells cells_of_session
    restore_snapshot load_snapshot place_notebook cell_from_snapshot clamp restore_counters max_cell
    max_execution read_cell_id read_decimal normalize_generation normalize_nullable_generation
    normalize_agent_session_id read_active
restored_cells = refl

newer :
    restore_notebook silent_doubles dropped
      (some (obj (field (codes "version") (num (whole 6)) end)))
      new_workspace
    ≡ failed_to_read (unsupported_version 6)
unfolding restore_notebook parse_workspace_snapshot normalize_snapshot newer_version get text_eq
newer = refl

normalize_input-IsNormal_example :
    IsNormal (normalize_input (codes "ls") true).kind (normalize_input (codes "ls") true).source
    × (normalize_input
          (normalize_input (codes "ls") true).source
          (is_command (normalize_input (codes "ls") true).kind)
        ≡ normalize_input (codes "ls") true)
normalize_input-IsNormal_example = normalize_input-IsNormal (codes "ls") true

abbrev turned_cell : WorkspaceCell
turned_cell = record (fresh_cell 1 ai (codes "hi")) {
  status = CellStatus.running;
  turn = some (create_turn (codes "t"));
  agent_context_generation = some 0;
}

-- A cell of the current generation, in a notebook without a session.
snapshots-again_example :
    let stored =
      cells_of_session none 0 (bound_cells 0 (map snapshot_from_cell (turned_cell ∷ []))) in
    map snapshot_from_cell (map (cell_from_snapshot silent_doubles) stored) ≡ stored
unfolding normalize_terminal_reason create_turn
snapshots-again_example = snapshots-again silent_doubles none 0 (turned_cell ∷ []) (refl, tt)

uuid :
    normalize_session_text (codes "0123ABCD-0123-0123-0123-0123456789ab")
    ≡ some (codes "0123abcd-0123-0123-0123-0123456789ab")
unfolding normalize_session_text matches_uuid
uuid = refl

escaping :
    (reference_of (codes "../up") ≡ none)
    × (reference_of (codes "run-1") ≡ some (record { session_id = codes "run-1" }))
unfolding has_control_character includes_dots starts_with trim trim_end trim_start is_space text_eq
escaping = (refl, refl)
