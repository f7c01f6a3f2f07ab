-- ===== src/HistoryBridge/Building.antt =====
-- src/agent/history-bridge.ts: the capsule that a run carries of the turns before it.
use mathlib.Core.Option
use jupyter_plugin_aitermina.Base.{
  true, false, ℕ, Option, Text, List, Bool, decimal, codes, length, ltb, none, map, trim, take_last,
  listed, keep, [], some, if◌then◌else◌, ◌+◌, ◌∷◌, is_high, leb, text_eq, not, last?, ◌-◌, ◌&&◌,
  is_low, take, ◌||◌, truthy, ◌++◌,
}
use jupyter_plugin_aitermina.Notebook.{CellStatus, WorkspaceCell, is_ai, status_eq}
use jupyter_plugin_aitermina.HistoryBridge.{
  BackgroundTaskState, HistoryBridgeTurn, HistoryBridgeTask, HistoryBridgeCapsule, task_running,
  task_completed, task_failed, task_killed, task_unknown,
}
use jupyter_plugin_aitermina.HistoryBridge.Tasks.{
  BackgroundTaskReference, background_task_references,
}
use jupyter_plugin_aitermina.ToolPresenter.Formats.{or_else}
use jupyter_plugin_aitermina.Protocol.{ChatBlock, text_block}
use jupyter_plugin_aitermina.Turn.{ChatTurn}
use jupyter_plugin_aitermina.HistoryStorage.{is_short_escape}

abbrev pub history_bridge_max_turns : ℕ
history_bridge_max_turns = 8

abbrev pub history_bridge_max_characters : ℕ
history_bridge_max_characters = 12000

abbrev pub history_bridge_max_source : ℕ
history_bridge_max_source = 1000

abbrev pub history_bridge_max_outcome : ℕ
history_bridge_max_outcome = 2400

abbrev pub history_bridge_max_task_path : ℕ
history_bridge_max_task_path = 1024

-- The code units that `JSON.stringify` prints of a unit outside a surrogate pair.
abbrev pub json_unit : ℕ → ℕ
json_unit c = if is_short_escape c then 2 else if ltb c 32 || is_high c || is_low c then 6 else 1

-- The same of a string without its quotation marks. The first argument is a high surrogate that waits.
unfoldable pub json_units : Option ℕ → Text → ℕ
json_units none [] = 0
json_units (some h) [] = 6
json_units none (c ∷ s) =
    let waiting = json_units (some c) s in
    let past = json_unit c + json_units none s in if is_high c then waiting else past
json_units (some h) (c ∷ s) =
    let pair = 2 + json_units none s in
    let waiting = 6 + json_units (some c) s in
    let past = 6 + (json_unit c + json_units none s) in
    if is_low c then pair else if is_high c then waiting else past

unfoldable pub json_string : Text → ℕ
unfolding json_units
json_string s = 2 + json_units none s

-- The length of a list with its brackets and commas, from the lengths of its elements.
abbrev pub total : List ℕ → ℕ
total [] = 0
total (n ∷ ns) = n + total ns

abbrev pub json_list : List ℕ → ℕ
json_list ns = 2 + (total ns + (length ns - 1))

abbrev pub state_text : BackgroundTaskState → Text
state_text task_running = codes "running"
state_text task_completed = codes "completed"
state_text task_failed = codes "failed"
state_text task_killed = codes "killed"
state_text task_unknown = codes "unknown"

abbrev pub status_text : Bool → Text
status_text interrupted = if interrupted then codes "interrupted" else codes "done"

unfoldable pub turn_length : HistoryBridgeTurn → ℕ
unfolding json_string
turn_length t =
    length (codes "{\"cellId\":,\"source\":,\"status\":,\"outcome\":,\"taskIds\":}")
    + json_string t.cell_id
    + json_string t.source
    + json_string (status_text t.interrupted)
    + json_string t.outcome
    + json_list (map json_string t.task_ids)

unfoldable pub task_length : HistoryBridgeTask → ℕ
unfolding json_string
task_length t =
    length (codes "{\"cellId\":,\"taskId\":,\"outputPath\":,\"state\":}")
    + json_string t.cell_id
    + json_string t.task_id
    + json_string t.output_path
    + json_string (state_text t.state)

unfoldable pub serialized_history_bridge_length : HistoryBridgeCapsule → ℕ
unfolding turn_length task_length decimal
serialized_history_bridge_length c =
    length (
      codes
        "{\"version\":1,\"turns\":,\"tasks\":,\"omittedTurnCount\":,\"omittedTaskCount\":,\"truncatedFieldCount\":}")
    + json_list (map turn_length c.turns)
    + json_list (map task_length c.tasks)
    + length (decimal c.omitted_turn_count)
    + length (decimal c.omitted_task_count)
    + length (decimal c.truncated_field_count)

abbrev pub is_too_long : HistoryBridgeCapsule → Bool
is_too_long c = ltb history_bridge_max_characters (serialized_history_bridge_length c)

unfoldable pub truncate_field : Text → ℕ → Text × Bool
truncate_field s max_length =
    if leb (length s) max_length
    then (s, false)
    else if leb max_length 1
    then (take max_length s, true)
    else (take (max_length - 1) s ++ 0x2026 ∷ [], true)

-- The last text block that is not blank, trimmed.
unfoldable pub last_text_block : List ChatBlock → Text
last_text_block [] = []
last_text_block (b ∷ bs) =
    or_else (last_text_block bs) (elim b [ text_block id shown message ↦ trim shown | _ ↦ [] ])

abbrev pub outcome_of_turn : Option ChatTurn → Text
outcome_of_turn none = []
outcome_of_turn (some t) = or_else (trim t.outcome) (trim t.result_text)

unfoldable pub canonical_outcome : WorkspaceCell → Text
unfolding last_text_block
canonical_outcome c =
    or_else (outcome_of_turn c.turn) (or_else (last_text_block c.blocks) (trim c.output))

unfoldable pub is_eligible_history_cell : WorkspaceCell → Bool
is_eligible_history_cell c =
    is_ai c.kind
    && (status_eq c.status CellStatus.done || status_eq c.status CellStatus.interrupted)
    && truthy (trim c.source)

-- The cells before the draft, and the draft itself when it is one of them; `none` without the draft.
unfoldable pub history_before : Text → List WorkspaceCell → Option (List WorkspaceCell)
unfolding is_eligible_history_cell
history_before draft [] = none
history_before draft (c ∷ cs) =
    let later = history_before draft cs in
    if text_eq c.id draft
    then some (if is_eligible_history_cell c then c ∷ [] else [])
    else Option.map
        (λ (rest : List WorkspaceCell). if is_eligible_history_cell c then c ∷ rest else rest) later

abbrev pub flag : Bool → ℕ
flag b = if b then 1 else 0

abbrev pub bridge_task : BackgroundTaskReference → HistoryBridgeTask
bridge_task r = record {
  cell_id = r.cell_id;
  task_id = r.task_id;
  output_path = (truncate_field r.output_path history_bridge_max_task_path).0;
  state = r.state;
}

abbrev pub task_ids_of : Text → List HistoryBridgeTask → List Text
task_ids_of cell tasks =
    map (λ (t : HistoryBridgeTask). t.task_id)
      (keep (λ (t : HistoryBridgeTask). text_eq t.cell_id cell) tasks)

abbrev pub bridge_turn : List HistoryBridgeTask → WorkspaceCell → HistoryBridgeTurn
bridge_turn tasks c = record {
  cell_id = c.id;
  source = (truncate_field (trim c.source) history_bridge_max_source).0;
  interrupted = status_eq c.status CellStatus.interrupted;
  outcome = (truncate_field (canonical_outcome c) history_bridge_max_outcome).0;
  task_ids = task_ids_of c.id tasks;
}

abbrev pub truncated_in_turn : WorkspaceCell → ℕ
truncated_in_turn c =
    flag (truncate_field (trim c.source) history_bridge_max_source).1
    + flag (truncate_field (canonical_outcome c) history_bridge_max_outcome).1

-- The capsule before it is cut down to size.
unfoldable pub whole_capsule : List WorkspaceCell → HistoryBridgeCapsule
unfolding background_task_references truncate_field canonical_outcome take_last
whole_capsule eligible =
    let selected = take_last history_bridge_max_turns eligible in
    let references = background_task_references selected in
    let tasks = map bridge_task references in
    record {
      turns = map (bridge_turn tasks) selected;
      tasks = tasks;
      omitted_turn_count = length eligible - history_bridge_max_turns;
      omitted_task_count = 0;
      truncated_field_count =
          total (
            map
              (λ (r : BackgroundTaskReference).
                flag (truncate_field r.output_path history_bridge_max_task_path).1)
              references)
          + total (map truncated_in_turn selected);
    }

abbrev pub is_task_among : List Text → HistoryBridgeTask → Bool
is_task_among ids t = listed t.task_id ids

-- A step of the loop that drops the oldest turn with its tasks.
abbrev pub without_turn :
    HistoryBridgeTurn → List HistoryBridgeTurn → HistoryBridgeCapsule → HistoryBridgeCapsule
without_turn removed turns c = record c {
  turns = turns;
  tasks = keep (λ t. not (is_task_among removed.task_ids t)) c.tasks;
  omitted_turn_count = c.omitted_turn_count + 1;
  omitted_task_count =
      c.omitted_task_count + length (keep (is_task_among removed.task_ids) c.tasks);
}

-- The first loop. The list is that of the turns of the capsule.
unfoldable pub drop_turns : List HistoryBridgeTurn → HistoryBridgeCapsule → HistoryBridgeCapsule
unfolding serialized_history_bridge_length
drop_turns [] c = c
drop_turns (t ∷ []) c = c
drop_turns (t ∷ u ∷ turns) c = elim (is_too_long c) [
  | true ↦ drop_turns (u ∷ turns) (without_turn t (u ∷ turns) c)
  | false ↦ c
]

abbrev pub without_task_id : Text → HistoryBridgeTurn → HistoryBridgeTurn
without_task_id id t = record t { task_ids = keep (λ i. not (text_eq i id)) t.task_ids }

abbrev pub without_task :
    HistoryBridgeTask → List HistoryBridgeTask → HistoryBridgeCapsule → HistoryBridgeCapsule
without_task removed tasks c = record c {
  turns = map (without_task_id removed.task_id) c.turns;
  tasks = tasks;
  omitted_task_count = c.omitted_task_count + 1;
}

-- The second loop. The list is that of the tasks of the capsule.
unfoldable pub drop_tasks : List HistoryBridgeTask → HistoryBridgeCapsule → HistoryBridgeCapsule
unfolding serialized_history_bridge_length
drop_tasks [] c = c
drop_tasks (t ∷ tasks) c = elim (is_too_long c) [
  | true ↦ drop_tasks tasks (without_task t tasks c)
  | false ↦ c
]

abbrev pub with_turn : HistoryBridgeTurn → HistoryBridgeCapsule → HistoryBridgeCapsule
with_turn t c = record c { turns = t ∷ [] }

abbrev pub newest_alone : HistoryBridgeTurn → HistoryBridgeCapsule → HistoryBridgeCapsule
newest_alone newest c =
    let rest = serialized_history_bridge_length (with_turn (record newest { outcome = [] }) c) in
    let (outcome, cut) =
      truncate_field newest.outcome (history_bridge_max_characters - rest - 32) in
    record (with_turn (record newest { outcome = outcome }) c) {
      truncated_field_count = c.truncated_field_count + flag cut;
    }

-- The last cut: what is left of the outcome of the newest turn.
unfoldable pub cut_outcome : HistoryBridgeCapsule → Option HistoryBridgeCapsule
unfolding serialized_history_bridge_length truncate_field
cut_outcome c = elim (is_too_long c) [
  | false ↦ some c
  | true ↦ elim (last? c.turns) [ none ↦ none | some newest ↦ some (newest_alone newest c) ]
]

unfoldable pub cut_capsule : HistoryBridgeCapsule → Option HistoryBridgeCapsule
unfolding drop_turns drop_tasks cut_outcome
cut_capsule c = let fewer = drop_turns c.turns c in cut_outcome (drop_tasks fewer.tasks fewer)

unfoldable pub capsule_of : List WorkspaceCell → Option HistoryBridgeCapsule
unfolding whole_capsule cut_capsule
capsule_of [] = none
capsule_of (c ∷ cs) = cut_capsule (whole_capsule (c ∷ cs))

unfoldable pub build_history_bridge : List WorkspaceCell → Text → Option HistoryBridgeCapsule
unfolding history_before capsule_of
build_history_bridge cells draft = elim (history_before draft cells) [
  | none ↦ none
  | some eligible ↦ capsule_of eligible
]
