-- ===== src/Artifacts/Opening.antt =====
-- src/agent/artifacts.ts: whether an artifact may be handed to the host.
use mathlib.Core.Option
use jupyter_plugin_aitermina.Protocol.Dsh.{artifacts, CapabilityName}
use jupyter_plugin_aitermina.Base.{
  Option, Text, Bool, none, some, if◌then◌else◌, true, not, false, is_some, ◌∷◌, [],
}
use jupyter_plugin_aitermina.Protocol.Dsh.{
  CapabilityManifest, CapabilityStatus, not_available, available,
}
use jupyter_plugin_aitermina.Artifacts.Paths.{
  WorkspacePathCheck, check_workspace_relative_path, rejected_path, accepted_path,
}
use jupyter_plugin_aitermina.Artifacts.{ArtifactRecord}
use jupyter_plugin_aitermina.Artifacts.Projection.{is_deleted}

pub data ArtifactOpenBlockCode : Type 0 where
  blocked_deleted no_uri unavailable_artifact unsafe_path : ArtifactOpenBlockCode
  capability_unavailable capability_unverified missing_host : ArtifactOpenBlockCode

-- The code of a refusal; its text is not kept.
pub data ArtifactOpenDecision : Type 0 where
  can_open : Text → ArtifactOpenDecision
  cannot_open : ArtifactOpenBlockCode → ArtifactOpenDecision

abbrev pub is_artifacts : CapabilityName → Bool
is_artifacts artifacts = true
is_artifacts name = false

-- `context.capabilities.artifacts?.status`; in the manifest a name stands once.
unfoldable pub artifact_status : CapabilityManifest → Option CapabilityStatus
artifact_status [] = none
artifact_status (entry ∷ rest) =
    if is_artifacts entry.0 then some entry.1.status else artifact_status rest

-- `isCapabilityAvailable(context, 'artifacts')`
abbrev pub is_available : Option CapabilityStatus → Bool
is_available (some available) = true
is_available status = false

abbrev pub capability_block : Option CapabilityStatus → ArtifactOpenBlockCode
capability_block (some not_available) = capability_unavailable
capability_block status = capability_unverified

-- The gates after the path. The last argument says that the host has the callback.
unfoldable pub open_path : Text → CapabilityManifest → Bool → ArtifactOpenDecision
unfolding artifact_status
open_path path manifest has_host =
    if not (is_available (artifact_status manifest))
    then cannot_open (capability_block (artifact_status manifest))
    else if not has_host
    then cannot_open missing_host
    else can_open path

abbrev pub open_checked : WorkspacePathCheck → CapabilityManifest → Bool → ArtifactOpenDecision
open_checked (rejected_path reason) manifest has_host = cannot_open unsafe_path
open_checked (accepted_path path) manifest has_host = open_path path manifest has_host

unfoldable pub artifact_open_decision :
    ArtifactRecord → CapabilityManifest → Bool → ArtifactOpenDecision
unfolding check_workspace_relative_path open_path
artifact_open_decision r manifest has_host =
    if is_deleted r.phase
    then cannot_open blocked_deleted
    else if is_some r.unavailable_reason
    then cannot_open unavailable_artifact
    else if not (is_some r.uri)
    then cannot_open no_uri
    else open_checked (check_workspace_relative_path r.uri) manifest has_host

unfoldable pub artifact_display_name : ArtifactRecord → Text
artifact_display_name r = Option.get_or r.name r.artifact_id
