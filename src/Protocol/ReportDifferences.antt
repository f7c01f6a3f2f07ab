-- ===== src/Protocol/ReportDifferences.antt =====
-- src/agent/protocol.ts: the differences of a configuration report, and the whole of it.
use jupyter_plugin_aitermina.Base.{
  ℕ, Text, split, Option, Bool, List, some, is_some, not, [], leb, none, truthy, length, ◌&&◌,
  if◌then◌else◌, codes, all, ◌||◌, listed, ◌==◌, suc, zero, ◌∷◌,
}
use jupyter_plugin_aitermina.Json.{
  Value, Fields, obj, str, bool, get, field, null, num, is_finite, is_negative, arr, end,
}
use jupyter_plugin_aitermina.Protocol.DshParse.{member, require_enum, ◌>>=◌, guard}
use jupyter_plugin_aitermina.Protocol.ReportParse.{
  count_keys, read_budget_snapshot, require_non_negative_integer, read_budget_field_names,
  budget_sources, max_differences, budget_field_names, configuration_states, configuration_keys,
  max_difference_depth, configuration_compaction_states,
}
use jupyter_plugin_aitermina.Protocol.Report.{
  DifferenceValue, ConfigurationDifference, BudgetSnapshot, ConfigurationReport, DifferenceFields,
  no_value, no_fields, bool_value, number_value, text_value, names_value, nested_value, one_field,
}

abbrev pub is_known_text : Text → Bool
is_known_text s = is_some (member s budget_sources) || is_some (member s budget_field_names)

-- The entries of an object, each read with the first argument.
unfoldable pub read_entries : (Value → Option DifferenceValue) → Fields → Option DifferenceFields
read_entries read end = some no_fields
read_entries read (field k v fs) =
    let others = read_entries read fs in
    if is_some (get k fs) then others else do
      known ← guard (listed k configuration_keys)
      entry ← read v
      rest ← others
      some (one_field k entry rest)

-- The objects of `readDifferenceValue`. The first argument is how many more levels of objects there
-- may be, `MAX_DIFFERENCE_DEPTH - depth` in the source.
unfoldable pub read_difference_value : ℕ → Value → Option DifferenceValue
unfolding member read_budget_field_names read_entries
read_difference_value levels null = some no_value
read_difference_value levels (bool b) = some (bool_value b)
read_difference_value levels (num n) =
    if not (is_finite n) || is_negative n then none else some (number_value n)
read_difference_value levels (str s) = if is_known_text s then some (text_value s) else none
read_difference_value levels (arr items) = do
  some (names_value (← read_budget_field_names (arr items)))
read_difference_value zero (obj fields) = none
read_difference_value (suc levels) (obj fields) = do
  some (nested_value (← read_entries (read_difference_value levels) fields))

unfoldable pub is_configuration_path : Text → Bool
unfolding split
is_configuration_path path =
    not (truthy path) || all (λ segment. listed segment configuration_keys) (split 46 path)

unfoldable pub read_difference : Value → Option ConfigurationDifference
unfolding read_difference_value count_keys
read_difference (obj entry) = do
  before ← get (codes "active") entry
  after ← get (codes "desired") entry
  two ← guard (count_keys entry == 2)
  active ← read_difference_value max_difference_depth before
  desired ← read_difference_value max_difference_depth after
  some (record { active = active; desired = desired })
read_difference v = none

unfoldable pub read_difference_entries : Fields → Option (List (Text × ConfigurationDifference))
unfolding is_configuration_path read_difference
read_difference_entries end = some []
read_difference_entries (field path v fs) =
    let others = read_difference_entries fs in
    if is_some (get path fs) then others else do
      known ← guard (is_configuration_path path)
      difference ← read_difference v
      rest ← others
      some ((path, difference) ∷ rest)

unfoldable pub read_differences : Option Value → Option (List (Text × ConfigurationDifference))
unfolding read_difference_entries count_keys
read_differences (some (obj entries)) = do
  few ← guard (leb (count_keys entries) max_differences)
  read_difference_entries entries
read_differences v = none

-- `/^[A-Za-z0-9._:-]{1,128}$/`
abbrev pub is_lifetime_unit : ℕ → Bool
is_lifetime_unit c =
    (leb 65 c && leb c 90)
    || (leb 97 c && leb c 122)
    || (leb 48 c && leb c 57)
    || c == 46
    || c == 95
    || c == 58
    || c == 45

abbrev pub is_lifetime : Text → Bool
is_lifetime s = leb 1 (length s) && leb (length s) 128 && all is_lifetime_unit s

unfoldable pub read_lifetime : Option Value → Option Text
read_lifetime (some (str s)) = if is_lifetime s then some s else none
read_lifetime v = none

abbrev pub required_bool : Option Value → Option Bool
required_bool (some (bool b)) = some b
required_bool v = none

-- `value === null ? null : readBudgetSnapshot(value)`
unfoldable pub read_nullable_snapshot : Value → Option (Option BudgetSnapshot)
unfolding read_budget_snapshot
read_nullable_snapshot null = some none
read_nullable_snapshot (obj entry) = do some (some (← read_budget_snapshot (obj entry)))
read_nullable_snapshot v = none

unfoldable pub read_configuration_report : Fields → Option ConfigurationReport
unfolding read_lifetime require_non_negative_integer require_enum read_nullable_snapshot
    read_differences
read_configuration_report raw = do
  lifetime ← read_lifetime (get (codes "runtimeLifetime") raw)
  before ← get (codes "active") raw
  after ← get (codes "desired") raw
  applied ← required_bool (get (codes "preflightApplied") raw)
  generation ← require_non_negative_integer (codes "generation") raw
  state ← require_enum configuration_states (codes "state") raw
  active ← read_nullable_snapshot before
  desired ← read_nullable_snapshot after
  differences ← read_differences (get (codes "differences") raw)
  compaction ← require_enum configuration_compaction_states (codes "compaction") raw
  some (record {
    runtime_lifetime = lifetime;
    generation = generation;
    state = state;
    active = active;
    desired = desired;
    differences = differences;
    compaction = compaction;
    preflight_applied = applied;
  })

unfoldable pub parse_configuration_report : Value → Option ConfigurationReport
unfolding read_configuration_report
parse_configuration_report (obj raw) = read_configuration_report raw
parse_configuration_report v = none
