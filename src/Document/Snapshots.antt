-- ===== src/Document/Snapshots.antt =====
-- src/agent/document.ts: the snapshot that is made of a document, older versions included.
use mathlib.Core.Option
use jupyter_plugin_aitermina.Base.{
  Option, ℕ, List, Bool, none, Text, map, true, not, false, some, ◌∷◌, if◌then◌else◌, ◌+◌, ltb, leb,
  is_some, ◌&&◌, ◌==◌, ◌⊎◌, [], keep, codes, inr, ◌||◌, length, inl,
}
use jupyter_plugin_aitermina.Turn.{TurnStatus, turn_done}
use jupyter_plugin_aitermina.Document.{
  CellSnapshot, WorkspaceSnapshot, AgentSessionReference, agent_workspace_version,
}
use jupyter_plugin_aitermina.Document.References.{
  normalize_agent_session_reference, normalize_agent_session_id,
}
use jupyter_plugin_aitermina.Document.Bridges.{
  normalize_context_bridges, BridgeCell, has_generation,
}
use jupyter_plugin_aitermina.Document.Normalizing.{
  normalize_generation, is_command, max_safe_integer,
}
use jupyter_plugin_aitermina.Document.Reading.{
  normalize_cells, ReadError, unsupported_version, type_error,
}
use jupyter_plugin_aitermina.Turn.Persistence.{Unchecked, PersistedTurn, fields_of}
use jupyter_plugin_aitermina.Protocol.{ai}
use jupyter_plugin_aitermina.Json.{Value, Number, Fields, Items, get, num, arr, whole}
use jupyter_plugin_aitermina.Notebook.{AgentContextBridge, status_eq, CellStatus, cell_id}

abbrev pub is_turn_done : TurnStatus → Bool
is_turn_done turn_done = true
is_turn_done s = false

abbrev pub is_trusted_turn : Option PersistedTurn → Bool
is_trusted_turn none = true
is_trusted_turn (some t) = is_turn_done t.status && not t.result_is_error

abbrev pub was_live : CellSnapshot → Bool
was_live c = not (is_command c.kind) && status_eq c.status CellStatus.done && is_trusted_turn c.turn

abbrev pub with_generation : Option ℕ → CellSnapshot → CellSnapshot
with_generation g c = record c { agent_context_generation = g }

-- The last cell that was live gets generation 0; `none` where there is none.
unfoldable pub mark_last_live : List CellSnapshot → Option (List CellSnapshot)
mark_last_live [] = none
mark_last_live (c ∷ cs) = elim (mark_last_live cs) [
  | some ds ↦ some (c ∷ ds)
  | none ↦ if was_live c then some (with_generation (some 0) c ∷ cs) else none
]

unfoldable pub migrate_legacy_context : ℕ → Option Text → List CellSnapshot → List CellSnapshot
unfolding mark_last_live
migrate_legacy_context version session cells =
    let cleared = map (with_generation none) cells in
    if not (version == 3) || not (is_some session)
    then cleared
    else Option.get_or (mark_last_live cleared) cleared

abbrev pub bridge_cell_of : CellSnapshot → BridgeCell
bridge_cell_of c = record {
  id = c.id;
  kind = c.kind;
  status = c.status;
  source = c.source;
  agent_context_generation = c.agent_context_generation;
}

abbrev pub is_above : ℕ → Option ℕ → Bool
is_above g none = false
is_above g (some n) = ltb g n

abbrev pub clear_if : (Option ℕ → Bool) → CellSnapshot → CellSnapshot
clear_if p c = if p c.agent_context_generation then with_generation none c else c

unfoldable pub read_active : Option Value → Number
read_active (some (num n)) = n
read_active v = whole 0

-- `emptySnapshot`, with the counter after its cell.
unfoldable pub empty_snapshot : ℕ → ℕ × WorkspaceSnapshot
empty_snapshot k = (
  k + 1,
  record {
    version = agent_workspace_version;
    active = whole 0;
    agent_session_id = none;
    session_reference = none;
    agent_context_generation = 0;
    agent_context_bridges = [];
    cells =
        record {
          id = cell_id (k + 1);
          kind = ai;
          source = [];
          output = [];
          blocks = [];
          turn = none;
          status = CellStatus.idle;
          execution_count = none;
          output_collapsed = false;
          agent_context_generation = none;
        }
        ∷ [];
  },
)

-- The version when it is a safe integer above the supported one.
unfoldable pub newer_version : Option Value → Option ℕ
newer_version (some (num (whole n))) =
    if leb n max_safe_integer && ltb agent_workspace_version n then some n else none
newer_version v = none

-- What `normalizeSnapshot` takes of the reference and of the bridges for the version.
unfoldable pub stored_reference : ℕ → Option Value → Option AgentSessionReference
unfolding normalize_agent_session_reference
stored_reference version v = if leb 5 version then normalize_agent_session_reference v else none

unfoldable pub stored_bridges : ℕ → Option Value → List CellSnapshot → ℕ → List AgentContextBridge
unfolding normalize_context_bridges
stored_bridges version v cells generation =
    if leb 4 version then normalize_context_bridges v (map bridge_cell_of cells) generation else []

-- Without a session id the current generation has neither cells nor bridges with cells.
unfoldable pub cells_of_session : Option Text → ℕ → List CellSnapshot → List CellSnapshot
cells_of_session session generation cells =
    if not (is_some session) then map (clear_if (λ g. has_generation g generation)) cells else cells

unfoldable pub bridges_of_session :
    Option Text → ℕ → List AgentContextBridge → List AgentContextBridge
bridges_of_session session generation bridges =
    if not (is_some session)
    then keep
        (λ (b : AgentContextBridge). not (b.generation == generation) || length b.cell_ids == 0)
        bridges
    else bridges

unfoldable pub bound_cells : ℕ → List CellSnapshot → List CellSnapshot
bound_cells generation cells = map (clear_if (is_above generation)) cells

-- The rest of `normalizeSnapshot`, with the cells read.
unfoldable pub assemble_snapshot : Fields → List CellSnapshot → WorkspaceSnapshot
unfolding normalize_generation normalize_agent_session_id stored_reference migrate_legacy_context
    stored_bridges read_active cells_of_session bridges_of_session bound_cells
assemble_snapshot fields read_cells =
    let version = normalize_generation (get (codes "version") fields) in
    let session = normalize_agent_session_id (get (codes "agentSessionId") fields) in
    let migrated =
      if ltb version 4 then migrate_legacy_context version session read_cells else read_cells in
    let generation =
      if leb 4 version
      then normalize_generation (get (codes "agentContextGeneration") fields)
      else 0 in
    let bounded = bound_cells generation migrated in
    let bridges =
      stored_bridges version (get (codes "agentContextBridges") fields) bounded generation in
    record {
      version = agent_workspace_version;
      active = read_active (get (codes "active") fields);
      agent_session_id = session;
      session_reference = stored_reference version (get (codes "sessionReference") fields);
      agent_context_generation = generation;
      agent_context_bridges = bridges_of_session session generation bridges;
      cells = cells_of_session session generation bounded;
    }

-- `Array.isArray(value)`
unfoldable pub array_of : Option Value → Option Items
array_of (some (arr items)) = some items
array_of v = none

unfoldable pub normalize_snapshot : Unchecked → ℕ → Value → ReadError ⊎ (ℕ × WorkspaceSnapshot)
unfolding newer_version array_of empty_snapshot normalize_cells assemble_snapshot
normalize_snapshot unchecked k v = elim (newer_version (get (codes "version") (fields_of v))) [
  | some n ↦ inl (unsupported_version n)
  | none ↦ elim (array_of (get (codes "cells") (fields_of v))) [
    | some items ↦ elim (normalize_cells unchecked k items) [
      | none ↦ inl type_error
      | some (after, cells) ↦ inr (after, assemble_snapshot (fields_of v) cells)
    ]
    | none ↦ inr (empty_snapshot k)
  ]
]

-- `parseWorkspaceSnapshot`: `none` stands for a blank text and for one that `JSON.parse` rejects.
unfoldable pub parse_workspace_snapshot :
    Unchecked → ℕ → Option Value → ReadError ⊎ (ℕ × WorkspaceSnapshot)
unfolding normalize_snapshot empty_snapshot
parse_workspace_snapshot unchecked k none = inr (empty_snapshot k)
parse_workspace_snapshot unchecked k (some v) = normalize_snapshot unchecked k v
