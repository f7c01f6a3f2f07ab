-- ===== src/Artifacts.antt =====
-- src/agent/artifacts.ts: the artifacts of a session, as events report them.
pub mod Projection
pub mod Refinement
pub mod Decoding
pub mod Paths
pub mod SafePaths
pub mod Opening
mod Tests
use jupyter_plugin_aitermina.Base.{Text, Option}
use jupyter_plugin_aitermina.Protocol.Dsh.{RunScope, ArtifactPhase, Artifact, ArtifactSource}

pub record ArtifactRecord : Type 0 where
  pub session_id : Text
  pub runtime_id : Text
  pub run_id : Text
  pub artifact_id : Text
  pub phase : ArtifactPhase
  pub name : Option Text
  pub source : Option ArtifactSource
  pub media_type : Option Text
  pub uri : Option Text
  pub unavailable_reason : Option Text

-- The parts of `artifactIdentityKey`. The JSON text of the three is one-to-one with them.
pub record ArtifactIdentity : Type 0 where
  pub session_id : Text
  pub run_id : Text
  pub artifact_id : Text

-- An event of an artifact, with its scope.
pub record ArtifactEvent : Type 0 where
  pub scope : RunScope
  pub artifact : Artifact
