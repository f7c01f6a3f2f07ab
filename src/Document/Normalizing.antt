-- ===== src/Document/Normalizing.antt =====
-- src/agent/document.ts: the input, the status and the generation that a document keeps of a cell.
use jupyter_plugin_aitermina.Base.{
  ℕ, Option, Text, Bool, some, if◌then◌else◌, true, leb, ◌||◌, none, false, min, ◌∷◌,
}
use jupyter_plugin_aitermina.Protocol.{WorkspaceMode, command, ai}
use jupyter_plugin_aitermina.Notebook.Source.{is_shell_escape_source}
use jupyter_plugin_aitermina.Notebook.{CellStatus}
use jupyter_plugin_aitermina.Json.{Value, Number, num, whole, other}
use jupyter_plugin_aitermina.ToolPresenter.Formats.{Doubles}

pub record NormalInput : Type 0 where
  pub kind : WorkspaceMode
  pub source : Text

abbrev pub is_command : WorkspaceMode → Bool
is_command command = true
is_command ai = false

-- The second argument is `kind === 'command'`.
unfoldable pub normalize_input : Text → Bool → NormalInput
unfolding is_shell_escape_source
normalize_input source of_command =
    if of_command || is_shell_escape_source source
    then record {
      kind = command;
      source = if is_shell_escape_source source then source else b'!' ∷ source;
    }
    else record { kind = ai; source = source }

unfoldable pub persist_status : CellStatus → CellStatus
persist_status CellStatus.done = CellStatus.done
persist_status CellStatus.interrupted = CellStatus.interrupted
persist_status CellStatus.idle = CellStatus.idle
persist_status CellStatus.running = CellStatus.interrupted
persist_status CellStatus.queued = CellStatus.idle

-- `Number.MAX_SAFE_INTEGER`
abbrev pub max_safe_integer : ℕ
max_safe_integer = 9007199254740991

-- `normalizeNullableGeneration` of a generation of a notebook, and of a value.
abbrev pub normal_generation : ℕ → Option ℕ
normal_generation n = if leb n max_safe_integer then some n else none

abbrev pub normal_generation? : Option ℕ → Option ℕ
normal_generation? none = none
normal_generation? (some n) = normal_generation n

unfoldable pub normalize_nullable_generation : Option Value → Option ℕ
normalize_nullable_generation (some (num (whole n))) = normal_generation n
normalize_nullable_generation v = none

abbrev pub generation_or_zero : Option ℕ → ℕ
generation_or_zero none = 0
generation_or_zero (some n) = n

unfoldable pub normalize_generation : Option Value → ℕ
unfolding normalize_nullable_generation
normalize_generation v = generation_or_zero (normalize_nullable_generation v)

-- `v < n` where the value may be no whole number.
unfoldable pub clamp : Doubles → Number → ℕ → Number
clamp doubles (whole n) max_index = whole (min n max_index)
clamp doubles (other negative finite integer tag) max_index =
    if negative
    then whole 0
    else if doubles.is_below negative finite integer tag max_index
    then other negative finite integer tag
    else whole max_index
