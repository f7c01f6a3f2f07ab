-- ===== src/Protocol/ReportTests.antt =====
-- src/agent/protocol.ts: runs on concrete configuration reports.
use jupyter_plugin_aitermina.Json.{
  Value, Fields, obj, field, get, num, str, end, whole, null, bool, is_finite, is_negative,
}
use jupyter_plugin_aitermina.Protocol.Report.{
  ConfigurationReport, is_active, number_value, nested_value, one_field, text_value, no_fields,
  compaction_disabled,
}
use jupyter_plugin_aitermina.Protocol.ReportDifferences.{
  parse_configuration_report, read_configuration_report, read_lifetime, read_nullable_snapshot,
  read_differences, read_difference_entries, is_configuration_path, read_difference,
  read_difference_value, read_entries,
}
use jupyter_plugin_aitermina.Protocol.ReportSound.{IsSafeReport}
use jupyter_plugin_aitermina.Base.{codes, none, text_eq, some, true, ◌∷◌, [], split, ◌≡◌, refl}
use jupyter_plugin_aitermina.Protocol.ReportAccepted.{parse_configuration_report-IsSafe}
use jupyter_plugin_aitermina.Protocol.ReportParse.{
  require_non_negative_integer, integer_of, read_budget_snapshot, has_only_keys, optional_integer,
  count_keys,
}
use jupyter_plugin_aitermina.Protocol.DshParse.{require_enum, member}

abbrev a_difference : Value
a_difference = obj (
    field (codes "active") (num (whole 3))
      (field (codes "desired") (obj (field (codes "source") (str (codes "user")) end)) end))

abbrev report_with : Fields → Value
report_with differences = obj (
    field (codes "runtimeLifetime") (str (codes "life-1")) (
      field (codes "generation") (num (whole 2)) (
        field (codes "state") (str (codes "active")) (
          field (codes "active") null (
            field (codes "desired") (obj (field (codes "contextWindow") (num (whole 9)) end)) (
              field (codes "differences") (obj differences) (
                field (codes "compaction") (str (codes "disabled"))
                  (field (codes "preflightApplied") (bool true) end))))))))

abbrev a_report : ConfigurationReport
a_report = record {
  runtime_lifetime = codes "life-1";
  generation = 2;
  state = is_active;
  active = none;
  desired = some (record {
    context_window = some 9;
    max_output_tokens = none;
    compaction = none;
    computed = none;
    provenance = none;
  });
  differences =
      (
        codes "compaction.enabled",
        record {
          active = number_value (whole 3);
          desired = nested_value (one_field (codes "source") (text_value (codes "user")) no_fields);
        },
      )
      ∷ [];
  compaction = compaction_disabled;
  preflight_applied = true;
}

a_report_is_read :
    parse_configuration_report (report_with (field (codes "compaction.enabled") a_difference end))
    ≡ some a_report
unfolding parse_configuration_report read_configuration_report get text_eq read_lifetime
    require_non_negative_integer integer_of require_enum member read_nullable_snapshot
    read_budget_snapshot has_only_keys optional_integer read_differences count_keys
    read_difference_entries is_configuration_path split read_difference read_difference_value
    read_entries is_finite is_negative
a_report_is_read = refl

parse_configuration_report-IsSafe_example : IsSafeReport a_report
parse_configuration_report-IsSafe_example =
    parse_configuration_report-IsSafe
      (report_with (field (codes "compaction.enabled") a_difference end)) a_report a_report_is_read

unknown_path :
    parse_configuration_report (report_with (field (codes "token") a_difference end)) ≡ none
unfolding parse_configuration_report read_configuration_report get text_eq read_lifetime
    require_non_negative_integer integer_of require_enum member read_nullable_snapshot
    read_budget_snapshot has_only_keys optional_integer read_differences count_keys
    read_difference_entries is_configuration_path split read_difference read_difference_value
    read_entries is_finite is_negative
unknown_path = refl
