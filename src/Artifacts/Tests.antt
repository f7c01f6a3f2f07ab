-- ===== src/Artifacts/Tests.antt =====
-- src/agent/artifacts.ts: the projection and the decision on concrete artifacts.
use jupyter_plugin_aitermina.Base.{
  Text, Option, codes, true, ◌∷◌, some, none, [], ◌≡◌, refl, text_eq,
}
use jupyter_plugin_aitermina.Protocol.Dsh.{
  ArtifactPhase, CapabilityManifest, RunScope, artifacts, Artifact, available,
}
use jupyter_plugin_aitermina.Artifacts.{ArtifactEvent, ArtifactRecord}
use jupyter_plugin_aitermina.Artifacts.Projection.{
  artifact_record_from_event, apply_artifacts, get_artifact, identity_of_event,
}
use jupyter_plugin_aitermina.Artifacts.Opening.{artifact_open_decision, can_open}
use jupyter_plugin_aitermina.Artifacts.SafePaths.{IsOpenable, opened_path-IsOpenable}
use jupyter_plugin_aitermina.Artifacts.Paths.{
  check_workspace_relative_path, WorkspacePathCheck, rejected_path, traversal, empty_segment,
  nested_escape, malformed_escape, scheme, absolute_path,
}
use jupyter_plugin_aitermina.Artifacts.Refinement.{apply_all_to_table, apply_artifacts-refines}

abbrev this_run : Text → RunScope
this_run runtime = record { session_id = codes "s"; runtime_id = runtime; run_id = codes "r" }

abbrev report : ArtifactPhase → Option Text → Artifact
report phase uri = record {
  artifact_id = codes "a";
  phase = phase;
  name = none;
  uri = uri;
  media_type = none;
  source = none;
  unavailable_reason = none;
}

abbrev first_report : ArtifactEvent
first_report = record {
  scope = this_run (codes "one");
  artifact = report ArtifactPhase.created (some (codes "docs/a%20b.md"));
}

-- After a reconnection, with another runtime and no locator.
abbrev later_report : ArtifactEvent
later_report = record {
  scope = this_run (codes "two");
  artifact = report ArtifactPhase.updated none;
}

abbrev merged_report : ArtifactRecord
unfolding artifact_record_from_event
merged_report = record (artifact_record_from_event later_report) {
  uri = some (codes "docs/a%20b.md");
}

-- The new runtime updates the record and keeps its locator.
reconnected : apply_artifacts (first_report ∷ later_report ∷ []) [] ≡ merged_report ∷ []
unfolding apply_artifacts artifact_record_from_event text_eq
reconnected = refl

apply_artifacts-refines_example :
    get_artifact
      (identity_of_event first_report)
      (apply_artifacts (first_report ∷ later_report ∷ []) [])
    ≡ apply_all_to_table
        (first_report ∷ later_report ∷ [])
        (λ k. get_artifact k [])
        (identity_of_event first_report)
apply_artifacts-refines_example =
    apply_artifacts-refines (first_report ∷ later_report ∷ []) [] (identity_of_event first_report)

abbrev advertised_artifacts : CapabilityManifest
advertised_artifacts = (artifacts, record { status = available; reason = none }) ∷ []

decided :
    artifact_open_decision merged_report advertised_artifacts true ≡ can_open (codes "docs/a b.md")
unfolding artifact_open_decision artifact_record_from_event text_eq
decided = refl

opened_path-IsOpenable_example :
    IsOpenable merged_report advertised_artifacts true (codes "docs/a b.md")
opened_path-IsOpenable_example =
    opened_path-IsOpenable merged_report advertised_artifacts true (codes "docs/a b.md") decided

abbrev check_text : Text → WorkspacePathCheck
unfolding check_workspace_relative_path
check_text s = check_workspace_relative_path (some s)

rejections :
    (check_text (codes "docs/%2e%2e/a") ≡ rejected_path traversal)
    × (check_text (codes "docs%2F%2Fa") ≡ rejected_path empty_segment)
    × (check_text (codes "docs/%252e%252e/a") ≡ rejected_path nested_escape)
    × (check_text (codes "docs/%C0%AF") ≡ rejected_path malformed_escape)
    × (check_text (codes "C:/a") ≡ rejected_path absolute_path)
    × (check_text (codes "http:a") ≡ rejected_path scheme)
unfolding check_workspace_relative_path text_eq
rejections = (refl, refl, refl, refl, refl, refl)
