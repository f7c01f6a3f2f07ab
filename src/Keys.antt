-- ===== src/Keys.antt =====
-- src/agent/keys.ts: which action a key stroke stands for. `strokeFromEvent` copies four fields of
-- a DOM event and is not modelled.
pub mod HistoryKeys
pub mod WorkspaceKeys
mod Tests
use jupyter_plugin_aitermina.Base.{
  ℕ, Text, Bool, Option, true, if◌then◌else◌, ◌∷◌, ◌||◌, not, leb, false, text_eq, ◌&&◌, codes,
  ◌==◌, ◌+◌, none, some, is_some, last_index_of, ◌-◌, index_of_from, [],
}

pub record KeyStroke : Type 0 where
  pub key : Text
  pub shift_key : Bool
  pub ctrl_key : Bool
  pub meta_key : Bool

pub data WorkspaceSurface : Type 0 where
  notebook : WorkspaceSurface

pub data EditorMode : Type 0 where
  command edit : EditorMode

pub record KeyContext : Type 0 where
  pub running : Bool
  pub has_selection : Bool

pub data KeyAction : Type 0 where
  interrupt enter_edit exit_edit insert_above insert_below delete_chord run_advance run_stay :
      KeyAction

pub record HistoryKeyContext : Type 0 where
  pub editable : Bool
  pub value : Text
  pub selection_start : ℕ
  pub selection_end : ℕ

pub data HistoryKeyAction : Type 0 where
  history_previous history_next : HistoryKeyAction

abbrev pub newline : ℕ
newline = 10

-- `lastIndexOf` takes a negative start for 0, as `selection_start - 1` does here at 0.
pub map_history_key : KeyStroke → HistoryKeyContext → Option HistoryKeyAction
map_history_key stroke context =
    if not context.editable
      || stroke.shift_key
      || stroke.ctrl_key
      || stroke.meta_key
      || not (context.selection_start == context.selection_end)
    then none
    else if text_eq stroke.key (codes "ArrowUp")
        && not (is_some (last_index_of newline context.value (context.selection_start - 1)))
    then some history_previous
    else if text_eq stroke.key (codes "ArrowDown")
        && not (is_some (index_of_from newline context.value context.selection_end))
    then some history_next
    else none

-- `toLowerCase` on one code unit, for the letters that are compared: no other code unit has one of
-- `a`, `b`, `c`, `d`, `v`, `x` for its lower case.
abbrev pub lower : ℕ → ℕ
lower c = if leb b'A' c && leb c b'Z' then c + 32 else c

pub letter_of : Text → Text
letter_of (c ∷ []) = lower c ∷ []
letter_of key = key

abbrev pub is_command : EditorMode → Bool
is_command command = true
is_command edit = false

-- The keys of command mode.
pub map_command_key : KeyStroke → Bool → Text → Option KeyAction
map_command_key stroke from_editor letter =
    if text_eq stroke.key (codes "Enter")
      && not stroke.shift_key
      && not stroke.ctrl_key
      && not stroke.meta_key
    then some enter_edit
    else if from_editor || (stroke.ctrl_key || stroke.meta_key) || stroke.shift_key
    then none
    else if text_eq letter (codes "a")
    then some insert_above
    else if text_eq letter (codes "b")
    then some insert_below
    else if text_eq letter (codes "d")
    then some delete_chord
    else none

-- The keys of edit mode.
pub map_edit_key : KeyStroke → Option KeyAction
map_edit_key stroke =
    if text_eq stroke.key (codes "Escape")
    then some exit_edit
    else if text_eq stroke.key (codes "Enter") && stroke.shift_key
    then some run_advance
    else if text_eq stroke.key (codes "Enter") && (stroke.ctrl_key || stroke.meta_key)
    then some run_stay
    else none

-- The surface is always the notebook, so the test `surface !== 'notebook'` fails.
pub map_workspace_key :
    KeyStroke → WorkspaceSurface → EditorMode → Bool → KeyContext → Option KeyAction
map_workspace_key stroke notebook mode from_editor context =
    let modified = stroke.ctrl_key || stroke.meta_key in
    let letter = letter_of stroke.key in
    if modified && text_eq letter (codes "c")
    then if stroke.shift_key
      then some interrupt
      else if context.running && not context.has_selection
      then some interrupt
      else none
    else if modified
        && (text_eq letter (codes "v") || text_eq letter (codes "x") || text_eq letter (codes "a"))
    then none
    else if is_command mode
    then map_command_key stroke from_editor letter
    else map_edit_key stroke
