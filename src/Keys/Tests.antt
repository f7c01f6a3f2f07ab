-- ===== src/Keys/Tests.antt =====
-- src/agent/keys.ts: key strokes, and the theorems about them at concrete strokes.
use jupyter_plugin_aitermina.Base.{
  ℕ, Text, codes, Bool, false, true, text_eq, ◌≡◌, index_of_from, some, last_index_of, none, ◌↔◌,
  refl,
}
use jupyter_plugin_aitermina.Keys.{
  map_history_key, KeyContext, map_workspace_key, letter_of, HistoryKeyContext, KeyStroke, notebook,
  edit, interrupt, history_previous, exit_edit, command, insert_below, run_stay, map_command_key,
  map_edit_key,
}
use jupyter_plugin_aitermina.Keys.WorkspaceKeys.{Means, map_workspace_key_iff}

keys : Unit {0}
unfolding map_history_key map_workspace_key map_command_key map_edit_key letter_of text_eq
    index_of_from last_index_of
keys = tt

abbrev stroke : Text → Bool → Bool → KeyStroke
stroke key shift ctrl = record { key = key; shift_key = shift; ctrl_key = ctrl; meta_key = false }

abbrev quiet : KeyContext
quiet = record { running = false; has_selection = false }

abbrev busy : KeyContext
busy = record { running = true; has_selection = false }

abbrev caret_at : ℕ → Text → HistoryKeyContext
caret_at i value = record { editable = true; value = value; selection_start = i; selection_end = i }

workspace_tests :
    (map_workspace_key (stroke (codes "C") false true) notebook edit true busy ≡ some interrupt)
    × (map_workspace_key (stroke (codes "c") false true) notebook edit true quiet ≡ none)
    × (map_workspace_key (stroke (codes "B") false false) notebook command false quiet
        ≡ some insert_below)
    × (map_workspace_key (stroke (codes "Enter") false true) notebook edit true quiet
        ≡ some run_stay)
unfolding keys
workspace_tests = (refl, refl, refl, refl)

history_tests :
    (map_history_key (stroke (codes "ArrowUp") false false) (caret_at 2 (codes "ls"))
      ≡ some history_previous)
    × (map_history_key (stroke (codes "ArrowDown") false false) (caret_at 1 (codes "a\nb")) ≡ none)
unfolding keys
history_tests = (refl, refl)

map_workspace_key_iff_example :
    (map_workspace_key (stroke (codes "Escape") false false) notebook edit true quiet
      ≡ some exit_edit)
    ↔ Means (stroke (codes "Escape") false false) edit true quiet exit_edit
map_workspace_key_iff_example =
    map_workspace_key_iff (stroke (codes "Escape") false false) edit true quiet exit_edit
