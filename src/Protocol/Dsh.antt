-- ===== src/Protocol/Dsh.antt =====
-- src/agent/protocol.ts: the product events of the namespace `dsh`, version 1.
use jupyter_plugin_aitermina.Base.{Option, List, Text, Bool}
use jupyter_plugin_aitermina.Json.{Number}

pub data CapabilityName : Type 0 where
  text_stream tool_events artifacts questions approvals cancel session_resume jobs subagents :
      CapabilityName

pub data CapabilityStatus : Type 0 where
  available not_available unverified : CapabilityStatus

pub record Capability : Type 0 where
  pub status : CapabilityStatus
  pub reason : Option Text

-- `Partial<Record<DshCapabilityName, DshCapability>>`, each name at most once.
abbrev pub CapabilityManifest : Type 0
CapabilityManifest = List (CapabilityName × Capability)

pub data ConnectionPhase : Type 0 where
  connected disconnected reconnecting replaced : ConnectionPhase

pub data SessionPhase : Type 0 where
  attached phase_resumed detached : SessionPhase

pub data RunStatus : Type 0 where
  run_completed failed_run run_cancelled : RunStatus

pub data ActivityPhase : Type 0 where
  activity_started activity_updated activity_finished : ActivityPhase

pub data ActivityStatus : Type 0 where
  activity_ok activity_error : ActivityStatus

pub data ArtifactPhase : Type 0 where
  created updated deleted : ArtifactPhase

pub data ArtifactSource : Type 0 where
  presented workspace_change : ArtifactSource

pub data InteractionKind : Type 0 where
  question approval : InteractionKind

pub data InteractionResolution : Type 0 where
  answered approved rejected : InteractionResolution

pub record SessionScope : Type 0 where
  pub session_id : Text
  pub runtime_id : Text

pub record RunScope : Type 0 where
  pub session_id : Text
  pub runtime_id : Text
  pub run_id : Text

pub record Activity : Type 0 where
  pub activity_id : Text
  pub phase : ActivityPhase
  pub tool_call_id : Option Text
  pub label : Option Text
  pub tool_name : Option Text
  pub status : Option ActivityStatus
  pub output_summary : Option Text
  pub duration_ms : Option Number

pub record Artifact : Type 0 where
  pub artifact_id : Text
  pub phase : ArtifactPhase
  pub name : Option Text
  pub uri : Option Text
  pub media_type : Option Text
  pub source : Option ArtifactSource
  pub unavailable_reason : Option Text

pub record InteractionOption : Type 0 where
  pub id : Text
  pub label : Text

pub record Request : Type 0 where
  pub request_id : Text
  pub kind : InteractionKind
  pub tool_call_id : Option Text
  pub prompt : Text
  pub options : Option (List InteractionOption)
  pub allow_free_text : Option Bool
  pub action : Option Text
  pub target : Option Text

-- The scope of an event comes first.
pub data ProductEvent : Type 0 where
  text_snapshot : SessionScope → Option Text → Text → Text → ProductEvent
  text_delta : RunScope → Text → Text → ProductEvent
  activity : RunScope → Activity → ProductEvent
  artifact : RunScope → Artifact → ProductEvent
  interaction_requested : RunScope → Request → ProductEvent
  interaction_resolved : RunScope → Text → InteractionResolution → ProductEvent
  interaction_cancelled : RunScope → Text → ProductEvent
  run_started : RunScope → ProductEvent
  run_finished : RunScope → RunStatus → ProductEvent
  connection : Text → ConnectionPhase → ProductEvent
  session : SessionScope → SessionPhase → ProductEvent
  capabilities : Text → CapabilityManifest → ProductEvent

pub data ParseFailureReason : Type 0 where
  not_object unknown_namespace unsupported_version unknown_event invalid_payload :
      ParseFailureReason

pub data ParseResult : Type 0 where
  parsed : ProductEvent → ParseResult
  refused : ParseFailureReason → ParseResult
