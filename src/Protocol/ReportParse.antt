-- ===== src/Protocol/ReportParse.antt =====
-- src/agent/protocol.ts: how an untrusted JSON value is read as a configuration report. A payload
-- error is `none`. Of a key that stands twice in an object only the last value is there.
use jupyter_plugin_aitermina.Base.{
  ℕ, List, Text, Option, codes, map, Bool, some, true, suc, [], ◌∷◌, ◌++◌, if◌then◌else◌, is_some,
  listed, none, leb, ◌&&◌,
}
use jupyter_plugin_aitermina.Protocol.DshParse.{
  Enum, member, require_enum, optional_bool, optional_number, ◌>>=◌, guard,
}
use jupyter_plugin_aitermina.Json.{
  Fields, Value, Items, get, field, num, cons, whole, arr, obj, str, nil, end,
}
use jupyter_plugin_aitermina.Protocol.Report.{
  BudgetSource, BudgetFieldName, ConfigurationState, ConfigurationCompactionState,
  BudgetProvenanceEntry, BudgetComputedSnapshot, BudgetSnapshot, of_user, is_active,
  compaction_disabled, BudgetCompactionSnapshot, of_default, compaction_enabled,
  pending_next_runtime, not_observable, derived, not_started, inherited, snapshot_unavailable,
}

abbrev pub budget_sources : Enum BudgetSource
budget_sources =
    (codes "user", of_user)
    ∷ (codes "default", of_default)
    ∷ (codes "derived", derived)
    ∷ (codes "inherited", inherited)
    ∷ []

abbrev pub budget_field_names : Enum BudgetFieldName
budget_field_names =
    (codes "context_window", BudgetFieldName.context_window)
    ∷ (codes "max_output_tokens", BudgetFieldName.max_output_tokens)
    ∷ (codes "compaction_enabled", compaction_enabled)
    ∷ (codes "threshold_ratio", BudgetFieldName.threshold_ratio)
    ∷ (codes "headroom", BudgetFieldName.headroom)
    ∷ (codes "retain_ratio", BudgetFieldName.retain_ratio)
    ∷ (codes "summary_max_tokens", BudgetFieldName.summary_max_tokens)
    ∷ (codes "message_budget", BudgetFieldName.message_budget)
    ∷ (codes "pressure", BudgetFieldName.pressure)
    ∷ (codes "threshold", BudgetFieldName.threshold)
    ∷ (codes "retain", BudgetFieldName.retain)
    ∷ []

abbrev pub configuration_states : Enum ConfigurationState
configuration_states =
    (codes "active", is_active)
    ∷ (codes "pending-next-runtime", pending_next_runtime)
    ∷ (codes "not-started", not_started)
    ∷ (codes "snapshot-unavailable", snapshot_unavailable)
    ∷ []

abbrev pub configuration_compaction_states : Enum ConfigurationCompactionState
configuration_compaction_states =
    (codes "disabled", compaction_disabled) ∷ (codes "not-observable", not_observable) ∷ []

abbrev pub budget_snapshot_keys : List Text
budget_snapshot_keys =
    codes "contextWindow"
    ∷ codes "maxOutputTokens"
    ∷ codes "compaction"
    ∷ codes "computed"
    ∷ codes "provenance"
    ∷ []

abbrev pub compaction_keys : List Text
compaction_keys =
    codes "enabled"
    ∷ codes "thresholdRatio"
    ∷ codes "headroom"
    ∷ codes "retainRatio"
    ∷ codes "summaryMaxTokens"
    ∷ []

abbrev pub computed_keys : List Text
computed_keys = codes "messageBudget" ∷ codes "pressure" ∷ codes "threshold" ∷ codes "retain" ∷ []

abbrev pub configuration_keys : List Text
configuration_keys =
    map (λ (e : Text × BudgetFieldName). e.0) budget_field_names
    ++ (budget_snapshot_keys
        ++ (compaction_keys ++ (computed_keys ++ codes "source" ∷ codes "derivedFrom" ∷ [])))

abbrev pub max_derived_from : ℕ
max_derived_from = 32

abbrev pub max_differences : ℕ
max_differences = 256

abbrev pub max_difference_depth : ℕ
max_difference_depth = 6

-- `Object.keys(value).length`
unfoldable pub count_keys : Fields → ℕ
count_keys end = 0
count_keys (field k v fs) = if is_some (get k fs) then count_keys fs else suc (count_keys fs)

-- Every key is in the set.
unfoldable pub has_only_keys : List Text → Fields → Bool
has_only_keys allowed end = true
has_only_keys allowed (field k v fs) = listed k allowed && has_only_keys allowed fs

unfoldable pub integer_of : Value → Option ℕ
integer_of (num (whole n)) = some n
integer_of v = none

-- `requireNonNegativeInteger`. An integer from 0 on is a whole number.
unfoldable pub require_non_negative_integer : Text → Fields → Option ℕ
unfolding integer_of
require_non_negative_integer key source = elim (get key source) [
  | none ↦ none
  | some v ↦ integer_of v
]

-- A field that is read when it is there.
unfoldable pub optional_integer : Text → Fields → Option (Option ℕ)
unfolding integer_of
optional_integer key source = elim (get key source) [
  | none ↦ some none
  | some v ↦ do some (some (← integer_of v))
]

unfoldable pub items_length : Items → ℕ
items_length nil = 0
items_length (cons v items) = suc (items_length items)

unfoldable pub read_names : Items → Option (List BudgetFieldName)
unfolding member
read_names nil = some []
read_names (cons (str s) items) = do
  name ← member s budget_field_names
  rest ← read_names items
  some (name ∷ rest)
read_names (cons v items) = none

unfoldable pub read_budget_field_names : Value → Option (List BudgetFieldName)
unfolding read_names items_length
read_budget_field_names (arr items) = do
  short ← guard (leb (items_length items) max_derived_from)
  read_names items
read_budget_field_names v = none

unfoldable pub read_derived_from : Option Value → Option (Option (List BudgetFieldName))
unfolding read_budget_field_names
read_derived_from none = some none
read_derived_from (some v) = do some (some (← read_budget_field_names v))

unfoldable pub read_provenance_entry : Value → Option BudgetProvenanceEntry
unfolding require_enum read_derived_from
read_provenance_entry (obj entry) = do
  source ← require_enum budget_sources (codes "source") entry
  names ← read_derived_from (get (codes "derivedFrom") entry)
  some (record { source = source; derived_from = names })
read_provenance_entry v = none

unfoldable pub read_compaction_snapshot : Value → Option BudgetCompactionSnapshot
unfolding has_only_keys optional_bool optional_number optional_integer
read_compaction_snapshot (obj entry) = do
  known ← guard (has_only_keys compaction_keys entry)
  enabled ← optional_bool (codes "enabled") entry
  ratio ← optional_number (codes "thresholdRatio") entry
  room ← optional_integer (codes "headroom") entry
  kept ← optional_number (codes "retainRatio") entry
  tokens ← optional_integer (codes "summaryMaxTokens") entry
  some (record {
    enabled = enabled;
    threshold_ratio = ratio;
    headroom = room;
    retain_ratio = kept;
    summary_max_tokens = tokens;
  })
read_compaction_snapshot v = none

unfoldable pub read_computed_snapshot : Value → Option BudgetComputedSnapshot
unfolding has_only_keys optional_integer
read_computed_snapshot (obj entry) = do
  known ← guard (has_only_keys computed_keys entry)
  budget ← optional_integer (codes "messageBudget") entry
  load ← optional_integer (codes "pressure") entry
  limit ← optional_integer (codes "threshold") entry
  kept ← optional_integer (codes "retain") entry
  some (record { message_budget = budget; pressure = load; threshold = limit; retain = kept })
read_computed_snapshot v = none

unfoldable pub read_provenance : Fields → Option (List (BudgetFieldName × BudgetProvenanceEntry))
unfolding member read_provenance_entry
read_provenance end = some []
read_provenance (field k v fs) =
    let others = read_provenance fs in
    if is_some (get k fs) then others else do
      name ← member k budget_field_names
      entry ← read_provenance_entry v
      rest ← others
      some ((name, entry) ∷ rest)

unfoldable pub provenance_of : Value → Option (List (BudgetFieldName × BudgetProvenanceEntry))
unfolding read_provenance
provenance_of (obj entries) = read_provenance entries
provenance_of v = none

-- `value[key] === undefined ? undefined : read(value[key])`
abbrev pub read_if : {A : Type 0} → (Value → Option A) → Option Value → Option (Option A)
read_if read none = some none
read_if read (some v) = do some (some (← read v))

unfoldable pub read_budget_snapshot : Value → Option BudgetSnapshot
unfolding has_only_keys optional_integer read_compaction_snapshot read_computed_snapshot
    provenance_of
read_budget_snapshot (obj entry) = do
  known ← guard (has_only_keys budget_snapshot_keys entry)
  window ← optional_integer (codes "contextWindow") entry
  tokens ← optional_integer (codes "maxOutputTokens") entry
  compaction ← read_if read_compaction_snapshot (get (codes "compaction") entry)
  computed ← read_if read_computed_snapshot (get (codes "computed") entry)
  provenance ← read_if provenance_of (get (codes "provenance") entry)
  some (record {
    context_window = window;
    max_output_tokens = tokens;
    compaction = compaction;
    computed = computed;
    provenance = provenance;
  })
read_budget_snapshot v = none
