-- ===== src/Keys/WorkspaceKeys.antt =====
-- src/agent/keys.ts: the whole key map of a workspace.
use jupyter_plugin_aitermina.Keys.{
  KeyStroke, letter_of, map_workspace_key, EditorMode, command, KeyContext, KeyAction, edit,
  notebook, interrupt, enter_edit, exit_edit, insert_above, insert_below, delete_chord, run_advance,
  run_stay, map_command_key, map_edit_key,
}
use jupyter_plugin_aitermina.Base.{
  Text, ◌≡◌, true, false, Bool, codes, ◌⊎◌, some, ◌↔◌, arith, text_eq_iff, text_eq, ◌≢◌, refl,
}

abbrev pub IsModified : KeyStroke → Type 0
IsModified stroke = (stroke.ctrl_key ≡ true) ⊎ (stroke.meta_key ≡ true)

abbrev pub IsPlain : KeyStroke → Type 0
IsPlain stroke = (stroke.shift_key ≡ false) × (stroke.ctrl_key ≡ false) × (stroke.meta_key ≡ false)

-- A letter typed in command mode outside an editor.
abbrev pub Types : KeyStroke → EditorMode → Bool → Text → Type 0
Types stroke mode from_editor letter =
    (mode ≡ command) × (from_editor ≡ false) × IsPlain stroke × (letter_of stroke.key ≡ letter)

-- What each action asks for.
abbrev pub Means : KeyStroke → EditorMode → Bool → KeyContext → KeyAction → Type 0
Means stroke mode from_editor context interrupt =
    IsModified stroke
    × (letter_of stroke.key ≡ codes "c")
    × ((stroke.shift_key ≡ true) ⊎ ((context.running ≡ true) × (context.has_selection ≡ false)))
Means stroke mode from_editor context enter_edit =
    (mode ≡ command) × (stroke.key ≡ codes "Enter") × IsPlain stroke
Means stroke mode from_editor context exit_edit = (mode ≡ edit) × (stroke.key ≡ codes "Escape")
Means stroke mode from_editor context insert_above = Types stroke mode from_editor (codes "a")
Means stroke mode from_editor context insert_below = Types stroke mode from_editor (codes "b")
Means stroke mode from_editor context delete_chord = Types stroke mode from_editor (codes "d")
Means stroke mode from_editor context run_advance =
    (mode ≡ edit) × (stroke.key ≡ codes "Enter") × (stroke.shift_key ≡ true)
Means stroke mode from_editor context run_stay =
    (mode ≡ edit) × (stroke.key ≡ codes "Enter") × (stroke.shift_key ≡ false) × IsModified stroke

abbrev Compares : Text → Text → Type 0
Compares s t = (text_eq s t ≡ true) ↔ (s ≡ t)

letter_tests :
    (letter : Text)
    → Compares letter (codes "a")
      × Compares letter (codes "b")
      × Compares letter (codes "c")
      × Compares letter (codes "d")
      × Compares letter (codes "v")
      × Compares letter (codes "x")
letter_tests letter = (
  text_eq_iff _ _,
  text_eq_iff _ _,
  text_eq_iff _ _,
  text_eq_iff _ _,
  text_eq_iff _ _,
  text_eq_iff _ _,
)

-- The letter of a named key is the key itself.
key_tests :
    (key : Text)
    → Compares key (codes "Enter")
      × Compares key (codes "Escape")
      × (key ≡ codes "Enter" → letter_of key ≡ codes "Enter")
      × (key ≡ codes "Escape" → letter_of key ≡ codes "Escape")
unfolding letter_of
key_tests key = (text_eq_iff _ _, text_eq_iff _ _, λ e. rw e, λ e. rw e)

map_command_key_iff :
    (stroke : KeyStroke) (from_editor : Bool) (context : KeyContext) (action : KeyAction)
    → action ≢ interrupt
    → (map_command_key stroke from_editor (letter_of stroke.key) ≡ some action)
      ↔ Means stroke command from_editor context action
unfolding map_command_key
map_command_key_iff stroke from_editor context interrupt h = absurd (h refl)
map_command_key_iff stroke from_editor context action h =
    ground (arith, letter_tests (letter_of stroke.key), key_tests stroke.key)

map_command_key-ne-interrupt :
    (stroke : KeyStroke) (from_editor : Bool) (letter : Text)
    → map_command_key stroke from_editor letter ≢ some interrupt
unfolding map_command_key
map_command_key-ne-interrupt stroke from_editor letter = ground arith

map_edit_key_iff :
    (stroke : KeyStroke) (from_editor : Bool) (context : KeyContext) (action : KeyAction)
    → action ≢ interrupt
    → (map_edit_key stroke ≡ some action) ↔ Means stroke edit from_editor context action
unfolding map_edit_key
map_edit_key_iff stroke from_editor context interrupt h = absurd (h refl)
map_edit_key_iff stroke from_editor context action h =
    ground (arith, text_eq_iff stroke.key (codes "Enter"), text_eq_iff stroke.key (codes "Escape"))

map_edit_key-ne-interrupt : (stroke : KeyStroke) → map_edit_key stroke ≢ some interrupt
unfolding map_edit_key
map_edit_key-ne-interrupt stroke = ground arith

-- A stroke stands for an action exactly when it is what the action asks for.
pub map_workspace_key_iff :
    (stroke : KeyStroke) (mode : EditorMode) (from_editor : Bool) (context : KeyContext)
    (action : KeyAction)
    → (map_workspace_key stroke notebook mode from_editor context ≡ some action)
      ↔ Means stroke mode from_editor context action
unfolding map_workspace_key
map_workspace_key_iff stroke command from_editor context interrupt = ground (
  arith,
  text_eq_iff (letter_of stroke.key) (codes "c"),
  map_command_key-ne-interrupt stroke from_editor (letter_of stroke.key),
)
map_workspace_key_iff stroke edit from_editor context interrupt =
    ground (arith, text_eq_iff (letter_of stroke.key) (codes "c"), map_edit_key-ne-interrupt stroke)
map_workspace_key_iff stroke command from_editor context action = ground (
  arith,
  letter_tests (letter_of stroke.key),
  key_tests stroke.key,
  map_command_key_iff stroke from_editor context action,
)
map_workspace_key_iff stroke edit from_editor context action = ground (
  arith,
  letter_tests (letter_of stroke.key),
  key_tests stroke.key,
  map_edit_key_iff stroke from_editor context action,
)
