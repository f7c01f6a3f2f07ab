-- ===== src/Document/Reading.antt =====
-- src/agent/document.ts: how the text of a file becomes a snapshot. The text is represented by what
use mathlib.Core.Option
use jupyter_plugin_aitermina.Base.{
  Option, ℕ, List, none, Bool, Text, some, false, ◌∷◌, if◌then◌else◌, ◌+◌, [], text_eq, codes,
}
use jupyter_plugin_aitermina.Document.Normalizing.{
  persist_status, normalize_input, normalize_nullable_generation,
}
use jupyter_plugin_aitermina.Protocol.{WorkspaceMode, ChatBlock, ai, command}
use jupyter_plugin_aitermina.Turn.Persistence.{
  Unchecked, restore_turn_value, PersistedTurn, to_persisted_turn, truthy_value, fields_of,
}
use jupyter_plugin_aitermina.Document.{CellSnapshot}
use jupyter_plugin_aitermina.Json.{
  Value, Items, Fields, get, str, arr, num, whole, cons, other, nil, null,
}
use jupyter_plugin_aitermina.Notebook.{CellStatus, cell_id}

-- `JSON.parse` gives for it.

-- A document of a newer version with that version, and the error of reading a field of `null`.
pub data ReadError : Type 0 where
  unsupported_version : ℕ → ReadError
  type_error : ReadError

abbrev pub text_or : Option Value → Text → Text
text_or (some (str s)) fallback = s
text_or v fallback = fallback

abbrev pub is_command_value : Option Value → Bool
is_command_value (some (str s)) = text_eq s (codes "command")
is_command_value v = false

-- `persistStatus` of an unknown value.
unfoldable pub read_status : Option Value → CellStatus
unfolding persist_status
read_status (some (str s)) = persist_status (
    if text_eq s (codes "done")
    then CellStatus.done
    else if text_eq s (codes "interrupted")
    then CellStatus.interrupted
    else if text_eq s (codes "running")
    then CellStatus.running
    else if text_eq s (codes "queued")
    then CellStatus.queued
    else CellStatus.idle)
read_status v = CellStatus.idle

-- The id of a document, or one that is made, with the counter after it.
abbrev pub id_or_fresh : Option Value → ℕ → ℕ × Text
id_or_fresh (some (str (c ∷ s))) k = (k, c ∷ s)
id_or_fresh v k = (k + 1, cell_id (k + 1))

abbrev pub generation_of_kind : WorkspaceMode → Option ℕ → Option ℕ
generation_of_kind ai g = g
generation_of_kind command g = none

module _ (unchecked : Unchecked) where
  abbrev pub read_blocks : Option Value → List ChatBlock
  read_blocks (some (arr items)) = unchecked.blocks items
  read_blocks v = []

  abbrev pub read_count : Option Value → Option ℕ
  read_count (some (num (whole n))) = some n
  read_count (some (num (other a b c tag))) = some (unchecked.execution_count a b c tag)
  read_count v = none

  unfoldable pub normalize_turn : Option Value → Option PersistedTurn
  unfolding restore_turn_value to_persisted_turn
  normalize_turn none = none
  normalize_turn (some v) = Option.map to_persisted_turn (restore_turn_value unchecked v)

  unfoldable pub normalize_cell_fields : ℕ → Fields → ℕ × CellSnapshot
  unfolding normalize_input normalize_turn read_status normalize_nullable_generation
  normalize_cell_fields k fields =
      let input =
        normalize_input (text_or (get (codes "source") fields) [])
          (is_command_value (get (codes "kind") fields)) in
      let (after, id) = id_or_fresh (get (codes "id") fields) k in
      (
        after,
        record {
          id = id;
          kind = input.kind;
          source = input.source;
          output = text_or (get (codes "output") fields) [];
          blocks = read_blocks (get (codes "blocks") fields);
          turn = normalize_turn (get (codes "turn") fields);
          status = read_status (get (codes "status") fields);
          execution_count = read_count (get (codes "executionCount") fields);
          output_collapsed = truthy_value (get (codes "outputCollapsed") fields);
          agent_context_generation =
              generation_of_kind input.kind
                (normalize_nullable_generation (get (codes "agentContextGeneration") fields));
        },
      )

  -- `value.cells.map(normalizeCell)`; `none` is the error of reading a field of `null`.
  unfoldable pub normalize_cells : ℕ → Items → Option (ℕ × List CellSnapshot)
  unfolding normalize_cell_fields
  normalize_cells k nil = some (k, [])
  normalize_cells k (cons null items) = none
  normalize_cells k (cons v items) =
      let (after, cell) = normalize_cell_fields k (fields_of v) in
      Option.map (λ (r : ℕ × List CellSnapshot). (r.0, cell ∷ r.1)) (normalize_cells after items)
