-- ===== src/Artifacts/Projection.antt =====
-- src/agent/artifacts.ts: ArtifactProjection.
use jupyter_plugin_aitermina.Artifacts.{ArtifactEvent, ArtifactRecord, ArtifactIdentity}
use jupyter_plugin_aitermina.Protocol.Dsh.{Artifact, ArtifactPhase, deleted}
use jupyter_plugin_aitermina.Base.{
  Option, List, Bool, Text, find, keep, some, ◌∷◌, if◌then◌else◌, text_eq, is_some, none, not, true,
  [], false, ◌&&◌,
}
use jupyter_plugin_aitermina.Protocol.Blocks.{given_or}

abbrev pub identity_of_event : ArtifactEvent → ArtifactIdentity
identity_of_event e = record {
  session_id = e.scope.session_id;
  run_id = e.scope.run_id;
  artifact_id = e.artifact.artifact_id;
}

abbrev pub identity_of_record : ArtifactRecord → ArtifactIdentity
identity_of_record r = record {
  session_id = r.session_id;
  run_id = r.run_id;
  artifact_id = r.artifact_id;
}

-- `key === key`
unfoldable pub same_identity : ArtifactIdentity → ArtifactIdentity → Bool
same_identity a b =
    text_eq a.session_id b.session_id
    && (text_eq a.run_id b.run_id && text_eq a.artifact_id b.artifact_id)

unfoldable pub artifact_record_from_event : ArtifactEvent → ArtifactRecord
artifact_record_from_event e = record {
  session_id = e.scope.session_id;
  runtime_id = e.scope.runtime_id;
  run_id = e.scope.run_id;
  artifact_id = e.artifact.artifact_id;
  phase = e.artifact.phase;
  name = e.artifact.name;
  source = e.artifact.source;
  media_type = e.artifact.media_type;
  uri = e.artifact.uri;
  unavailable_reason = e.artifact.unavailable_reason;
}

-- A field of the previous record, if there is one.
abbrev pub previous {ℓ} :
    {A : Type ℓ} → (ArtifactRecord → Option A) → Option ArtifactRecord → Option A
previous part none = none
previous part (some r) = part r

abbrev pub merged_reason : Artifact → Option ArtifactRecord → Option Text
merged_reason a before =
    given_or a.unavailable_reason
      (if is_some a.uri then none else previous (λ r. r.unavailable_reason) before)

abbrev pub merged_uri : Option Text → Artifact → Option ArtifactRecord → Option Text
merged_uri (some reason) a before = none
merged_uri none a before = given_or a.uri (previous (λ r. r.uri) before)

-- The record of an event that is no deletion, with the record before it.
unfoldable pub merge_artifact : ArtifactEvent → Option ArtifactRecord → ArtifactRecord
unfolding artifact_record_from_event
merge_artifact e before =
    let reason = merged_reason e.artifact before in
    record (artifact_record_from_event e) {
      name = given_or e.artifact.name (previous (λ r. r.name) before);
      source = given_or e.artifact.source (previous (λ r. r.source) before);
      media_type = given_or e.artifact.media_type (previous (λ r. r.media_type) before);
      uri = merged_uri reason e.artifact before;
      unavailable_reason = reason;
    }

-- `records.get(key)`
unfoldable pub get_artifact : ArtifactIdentity → List ArtifactRecord → Option ArtifactRecord
unfolding same_identity
get_artifact id = find λ r. same_identity (identity_of_record r) id

-- `records.set(key, record)`: a new key goes to the end.
unfoldable pub set_artifact : ArtifactRecord → List ArtifactRecord → List ArtifactRecord
unfolding same_identity
set_artifact r [] = r ∷ []
set_artifact r (q ∷ qs) =
    if same_identity (identity_of_record q) (identity_of_record r)
    then r ∷ qs
    else q ∷ set_artifact r qs

-- `records.delete(key)`. There is at most one record with a key.
unfoldable pub delete_artifact : ArtifactIdentity → List ArtifactRecord → List ArtifactRecord
unfolding same_identity
delete_artifact id = keep λ r. not (same_identity (identity_of_record r) id)

abbrev pub is_deleted : ArtifactPhase → Bool
is_deleted deleted = true
is_deleted phase = false

-- `apply`: the records after an event, and what it returns.
unfoldable pub apply_artifact :
    ArtifactEvent → List ArtifactRecord → List ArtifactRecord × Option ArtifactRecord
unfolding get_artifact set_artifact delete_artifact merge_artifact
apply_artifact e records =
    let merged = merge_artifact e (get_artifact (identity_of_event e) records) in
    if is_deleted e.artifact.phase
    then (delete_artifact (identity_of_event e) records, none)
    else (set_artifact merged records, some merged)

-- The records after a sequence of events.
unfoldable pub apply_artifacts : List ArtifactEvent → List ArtifactRecord → List ArtifactRecord
unfolding apply_artifact
apply_artifacts [] records = records
apply_artifacts (e ∷ es) records = apply_artifacts es (apply_artifact e records).0
