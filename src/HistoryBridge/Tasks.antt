-- ===== src/HistoryBridge/Tasks.antt =====
-- src/agent/history-bridge.ts: the background tasks that the blocks of an agent's cells speak of.
use jupyter_plugin_aitermina.Protocol.{ToolStatus, ToolBlock, ChatBlock, block_id, tool_block}
use jupyter_plugin_aitermina.Base.{
  true, false, Text, ℕ, Bool, Option, List, some, leb, not, codes, none, text_eq, ◌||◌, ◌∷◌,
  if◌then◌else◌, ◌==◌, [], is_some, ◌&&◌, all, truthy, length, suc, any, zero,
}
use jupyter_plugin_aitermina.Protocol.DshParse.{Enum, member, ◌>>=◌, guard}
use jupyter_plugin_aitermina.Json.{Value, get, str}
use jupyter_plugin_aitermina.HistoryBridge.{
  BackgroundTaskState, task_running, task_completed, task_failed, task_killed, task_unknown,
}
use jupyter_plugin_aitermina.Notebook.{WorkspaceCell, is_ai}
use jupyter_plugin_aitermina.Turn.Persistence.{fields_of}

pub record BackgroundTaskReference : Type 0 where
  pub cell_id : Text
  pub task_id : Text
  pub output_path : Text
  pub state : BackgroundTaskState
  pub source_block_id : Text
  pub state_block_id : Option Text

-- What follows a beginning of a text.
unfoldable pub strip_prefix : Text → Text → Option Text
strip_prefix [] s = some s
strip_prefix (c ∷ p) [] = none
strip_prefix (c ∷ p) (d ∷ s) = if c == d then strip_prefix p s else none

abbrev pub is_alphanumeric : ℕ → Bool
is_alphanumeric c = (leb 65 c && leb c 90) || (leb 97 c && leb c 122) || (leb 48 c && leb c 57)

abbrev pub is_id_unit : ℕ → Bool
is_id_unit c = is_alphanumeric c || c == 95 || c == 45

-- `/^[A-Za-z0-9][A-Za-z0-9_-]{0,63}$/`
abbrev pub is_task_id : Text → Bool
is_task_id [] = false
is_task_id (c ∷ s) = is_alphanumeric c && all is_id_unit s && leb (length s) 63

-- The longest beginning of units that pass a test, and what follows it.
unfoldable pub span : (ℕ → Bool) → Text → Text × Text
span p [] = ([], [])
span p (c ∷ s) = let (shown, rest) = span p s in if p c then (c ∷ shown, rest) else ([], c ∷ s)

abbrev pub is_path_unit : ℕ → Bool
is_path_unit c = not (c == 13 || c == 10 || c == 0)

abbrev pub notice_text : Text
notice_text = codes ". You will be notified"

-- The longest path of at most so many units after which the notice stands.
unfoldable pub path_before_notice : ℕ → Text → Option Text
unfolding strip_prefix
path_before_notice zero s = if is_some (strip_prefix notice_text s) then some [] else none
path_before_notice (suc n) [] = none
path_before_notice (suc n) (c ∷ s) =
    let here = if is_some (strip_prefix notice_text (c ∷ s)) then some [] else none in
    elim (is_path_unit c) [
      | false ↦ here
      | true ↦ elim (path_before_notice n s) [ some path ↦ some (c ∷ path) | none ↦ here ]
    ]

-- The path of the pattern: a slash and 1 to 4,095 units.
abbrev pub read_path : Text → Option Text
read_path [] = none
read_path (c ∷ s) =
    if c == 47
    then elim (path_before_notice 4095 s) [
      | none ↦ none
      | some [] ↦ none
      | some (d ∷ path) ↦ some (c ∷ d ∷ path)
    ]
    else none

-- `BACKGROUND_START_PATTERN` at the beginning of a line: the id and the path.
unfoldable pub read_start : Text → Option (Text × Text)
unfolding strip_prefix span path_before_notice
read_start line = do
  after ← strip_prefix (codes "Command running in background with ID: ") line
  let (id, rest) = span is_id_unit after
  known ← guard (is_task_id id)
  path_text ← strip_prefix (codes ". Output is being written to: ") rest
  path ← read_path path_text
  some (id, path)

abbrev pub is_line_end : ℕ → Bool
is_line_end c = c == 10 || c == 13 || c == 0x2028 || c == 0x2029

-- The first line that matches; the first argument says that a line begins here.
unfoldable pub find_start : Bool → Text → Option (Text × Text)
unfolding read_start
find_start at_line [] = none
find_start at_line (c ∷ s) = elim (if at_line then read_start (c ∷ s) else none) [
  | some found ↦ some found
  | none ↦ find_start (is_line_end c) s
]

-- `/<task_id>([^<>]+)<\/task_id>/`
abbrev pub is_tag_text : ℕ → Bool
is_tag_text c = not (c == 60 || c == 62)

unfoldable pub read_id_tag : Text → Option Text
unfolding strip_prefix span
read_id_tag s = do
  after ← strip_prefix (codes "<task_id>") s
  let (id, rest) = span is_tag_text after
  full ← guard (truthy id)
  closed ← strip_prefix (codes "</task_id>") rest
  some id

abbrev pub task_states : Enum BackgroundTaskState
task_states =
    (codes "running", task_running)
    ∷ (codes "completed", task_completed)
    ∷ (codes "failed", task_failed)
    ∷ (codes "killed", task_killed)
    ∷ (codes "unknown", task_unknown)
    ∷ []

-- `/<status>(running|completed|failed|killed|unknown)<\/status>/`
unfoldable pub read_state_tag : Text → Option BackgroundTaskState
unfolding strip_prefix span member
read_state_tag s = do
  after ← strip_prefix (codes "<status>") s
  let (name, rest) = span is_tag_text after
  state ← member name task_states
  closed ← strip_prefix (codes "</status>") rest
  some state

-- The first place at which a pattern matches.
unfoldable pub find_tag : {A : Type 0} → (Text → Option A) → Text → Option A
find_tag read [] = none
find_tag read (c ∷ s) = elim (read (c ∷ s)) [ some a ↦ some a | none ↦ find_tag read s ]

abbrev pub is_valid_output_path : Text → Bool
is_valid_output_path [] = false
is_valid_output_path (c ∷ s) =
    c == 47 && leb (length (c ∷ s)) 4096 && not (any (λ d. d == 0 || d == 10 || d == 13) (c ∷ s))

abbrev pub is_done : ToolStatus → Bool
is_done ToolStatus.done = true
is_done s = false

abbrev pub is_done_tool : ToolBlock → Text → Bool
is_done_tool b name = text_eq b.name name && is_done b.status

unfoldable pub background_task_start : Text → ChatBlock → Option BackgroundTaskReference
unfolding find_start
background_task_start cell (tool_block b) = do
  finished ← guard (is_done_tool b (codes "Bash"))
  found ← find_start true b.output
  valid ← guard (is_task_id found.0 && is_valid_output_path found.1)
  some (record {
    cell_id = cell;
    task_id = found.0;
    output_path = found.1;
    state = task_running;
    source_block_id = b.id;
    state_block_id = none;
  })
background_task_start cell b = none

abbrev pub valid_task_id : Option Value → Option Text
valid_task_id (some (str id)) = if is_task_id id then some id else none
valid_task_id v = none

unfoldable pub task_id_from_input : Value → Option Text
task_id_from_input input = valid_task_id (get (codes "task_id") (fields_of input))

unfoldable pub background_task_update : ChatBlock → Option (Text × BackgroundTaskState)
unfolding task_id_from_input find_tag read_id_tag read_state_tag
background_task_update (tool_block b) = do
  finished ← guard (is_done_tool b (codes "TaskOutput"))
  of_input ← task_id_from_input b.input
  of_output ← find_tag read_id_tag b.output
  same ← guard (text_eq of_input of_output)
  state ← find_tag read_state_tag b.output
  some (of_input, state)
background_task_update b = none

-- `references.set`, in the order of insertion.
unfoldable pub set_reference :
    BackgroundTaskReference → List BackgroundTaskReference → List BackgroundTaskReference
set_reference r [] = r ∷ []
set_reference r (q ∷ qs) = if text_eq q.task_id r.task_id then r ∷ qs else q ∷ set_reference r qs

unfoldable pub update_reference :
    Text → BackgroundTaskState → Text → List BackgroundTaskReference → List BackgroundTaskReference
update_reference id state block [] = []
update_reference id state block (q ∷ qs) =
    if text_eq q.task_id id
    then record q { state = state; state_block_id = some block } ∷ qs
    else q ∷ update_reference id state block qs

-- The body of the loop over the blocks of a cell.
unfoldable pub see_block :
    Text → ChatBlock → List BackgroundTaskReference → List BackgroundTaskReference
unfolding background_task_start background_task_update set_reference update_reference block_id
see_block cell b references = elim (background_task_start cell b) [
  | some started ↦ set_reference started references
  | none ↦ elim (background_task_update b) [
    | none ↦ references
    | some (id, state) ↦ update_reference id state (block_id b) references
  ]
]

unfoldable pub see_blocks :
    Text → List ChatBlock → List BackgroundTaskReference → List BackgroundTaskReference
unfolding see_block
see_blocks cell [] references = references
see_blocks cell (b ∷ bs) references = see_blocks cell bs (see_block cell b references)

unfoldable pub see_cells :
    List WorkspaceCell → List BackgroundTaskReference → List BackgroundTaskReference
unfolding see_blocks
see_cells [] references = references
see_cells (c ∷ cs) references =
    see_cells cs (if is_ai c.kind then see_blocks c.id c.blocks references else references)

unfoldable pub background_task_references : List WorkspaceCell → List BackgroundTaskReference
unfolding see_cells
background_task_references cells = see_cells cells []
