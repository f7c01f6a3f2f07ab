-- ===== src/Protocol/Report.antt =====
-- src/agent/protocol.ts: the data of a configuration report.
use jupyter_plugin_aitermina.Base.{Option, Bool, Text, List, ℕ}
use jupyter_plugin_aitermina.Json.{Number}

pub data BudgetSource : Type 0 where
  of_user of_default derived inherited : BudgetSource

pub data BudgetFieldName : Type 0 where
  context_window max_output_tokens compaction_enabled threshold_ratio headroom : BudgetFieldName
  retain_ratio summary_max_tokens message_budget pressure threshold retain : BudgetFieldName

pub record BudgetProvenanceEntry : Type 0 where
  pub source : BudgetSource
  pub derived_from : Option (List BudgetFieldName)

pub record BudgetCompactionSnapshot : Type 0 where
  pub enabled : Option Bool
  pub threshold_ratio : Option Number
  pub headroom : Option ℕ
  pub retain_ratio : Option Number
  pub summary_max_tokens : Option ℕ

pub record BudgetComputedSnapshot : Type 0 where
  pub message_budget : Option ℕ
  pub pressure : Option ℕ
  pub threshold : Option ℕ
  pub retain : Option ℕ

pub record BudgetSnapshot : Type 0 where
  pub context_window : Option ℕ
  pub max_output_tokens : Option ℕ
  pub compaction : Option BudgetCompactionSnapshot
  pub computed : Option BudgetComputedSnapshot
  pub provenance : Option (List (BudgetFieldName × BudgetProvenanceEntry))

-- A leaf or an object of a difference, with the text of a string.
mutual
  pub data DifferenceValue : Type 0 where
    no_value : DifferenceValue
    bool_value : Bool → DifferenceValue
    number_value : Number → DifferenceValue
    text_value : Text → DifferenceValue
    names_value : List BudgetFieldName → DifferenceValue
    nested_value : DifferenceFields → DifferenceValue

  pub data DifferenceFields : Type 0 where
    no_fields : DifferenceFields
    one_field : Text → DifferenceValue → DifferenceFields → DifferenceFields

pub record ConfigurationDifference : Type 0 where
  pub active : DifferenceValue
  pub desired : DifferenceValue

pub data ConfigurationState : Type 0 where
  is_active pending_next_runtime not_started snapshot_unavailable : ConfigurationState

pub data ConfigurationCompactionState : Type 0 where
  compaction_disabled not_observable : ConfigurationCompactionState

pub record ConfigurationReport : Type 0 where
  pub runtime_lifetime : Text
  pub generation : ℕ
  pub state : ConfigurationState
  pub active : Option BudgetSnapshot
  pub desired : Option BudgetSnapshot
  pub differences : List (Text × ConfigurationDifference)
  pub compaction : ConfigurationCompactionState
  pub preflight_applied : Bool
