-- ===== src/Protocol/DshParse.antt =====
-- src/agent/protocol.ts: how an untrusted JSON value is read as a product event. A payload error is
-- `none`; its key is not looked at.
use jupyter_plugin_aitermina.Base.{
  Option, Text, List, none, Bool, codes, some, any, text_eq, ◌∷◌, if◌then◌else◌, not, [], ◌++◌,
  ◌||◌, true, false,
}
use jupyter_plugin_aitermina.Protocol.Dsh.{
  CapabilityName, CapabilityStatus, ConnectionPhase, SessionPhase, RunStatus, ActivityPhase,
  ActivityStatus, ArtifactPhase, ArtifactSource, InteractionKind, InteractionResolution,
  InteractionOption, Capability, CapabilityManifest, text_stream, available, connected, attached,
  run_completed, activity_started, activity_ok, created, presented, question, answered, tool_events,
  not_available, disconnected, phase_resumed, failed_run, activity_updated, activity_error, updated,
  workspace_change, approval, approved, artifacts, unverified, reconnecting, detached,
  run_cancelled, activity_finished, deleted, rejected, questions, replaced, approvals, cancel,
  session_resume, jobs, subagents,
}
use jupyter_plugin_aitermina.Json.{
  Value, Fields, get, Number, Items, str, num, bool, arr, obj, cons, is_finite, nil, is_negative,
}

infixl 5 ◌>>=◌
abbrev pub ◌>>=◌ {ℓ κ} : {A : Type ℓ} {B : Type κ} → Option A → (A → Option B) → Option B
none >>= f = none
some a >>= f = f a

abbrev pub guard : Bool → Option (Unit {0})
guard true = some tt
guard false = none

unfoldable pub require_string : Text → Fields → Option Text
require_string key source = elim (get key source) [ some (str (c ∷ s)) ↦ some (c ∷ s) | _ ↦ none ]

-- `undefined` gives `some none`.
unfoldable pub optional_string : Text → Fields → Option (Option Text)
optional_string key source = elim (get key source) [
  | none ↦ some none
  | some (str (c ∷ s)) ↦ some (some (c ∷ s))
  | _ ↦ none
]

-- An enumeration is the list of its spellings with their values.
abbrev pub Enum : Type 0 → Type 0
Enum A = List (Text × A)

unfoldable pub member {ℓ} : {A : Type ℓ} → Text → List (Text × A) → Option A
member s [] = none
member s ((t, a) ∷ es) = if text_eq t s then some a else member s es

unfoldable pub require_enum : {A : Type 0} → Enum A → Text → Fields → Option A
require_enum allowed key source = elim (get key source) [
  | some (str s) ↦ member s allowed
  | _ ↦ none
]

unfoldable pub optional_enum : {A : Type 0} → Enum A → Text → Fields → Option (Option A)
optional_enum allowed key source = elim (get key source) [
  | none ↦ some none
  | some (str s) ↦ elim (member s allowed) [ some a ↦ some (some a) | none ↦ none ]
  | _ ↦ none
]

unfoldable pub optional_number : Text → Fields → Option (Option Number)
optional_number key source = elim (get key source) [
  | none ↦ some none
  | some (num n) ↦ if not (is_finite n) || is_negative n then none else some (some n)
  | _ ↦ none
]

unfoldable pub optional_bool : Text → Fields → Option (Option Bool)
optional_bool key source = elim (get key source) [
  | none ↦ some none
  | some (bool b) ↦ some (some b)
  | _ ↦ none
]

abbrev pub capability_names : Enum CapabilityName
capability_names =
    (codes "text_stream", text_stream)
    ∷ (codes "tool_events", tool_events)
    ∷ (codes "artifacts", artifacts)
    ∷ (codes "questions", questions)
    ∷ (codes "approval", approvals)
    ∷ (codes "cancel", cancel)
    ∷ (codes "session_resume", session_resume)
    ∷ (codes "jobs", jobs)
    ∷ (codes "subagents", subagents)
    ∷ []

abbrev pub capability_statuses : Enum CapabilityStatus
capability_statuses =
    (codes "available", available)
    ∷ (codes "unavailable", not_available)
    ∷ (codes "unverified", unverified)
    ∷ []

abbrev pub connection_phases : Enum ConnectionPhase
connection_phases =
    (codes "connected", connected)
    ∷ (codes "disconnected", disconnected)
    ∷ (codes "reconnecting", reconnecting)
    ∷ (codes "replaced", replaced)
    ∷ []

abbrev pub session_phases : Enum SessionPhase
session_phases =
    (codes "attached", attached)
    ∷ (codes "resumed", phase_resumed)
    ∷ (codes "detached", detached)
    ∷ []

abbrev pub run_statuses : Enum RunStatus
run_statuses =
    (codes "completed", run_completed)
    ∷ (codes "failed", failed_run)
    ∷ (codes "cancelled", run_cancelled)
    ∷ []

abbrev pub activity_phases : Enum ActivityPhase
activity_phases =
    (codes "started", activity_started)
    ∷ (codes "updated", activity_updated)
    ∷ (codes "finished", activity_finished)
    ∷ []

abbrev pub activity_statuses : Enum ActivityStatus
activity_statuses = (codes "ok", activity_ok) ∷ (codes "error", activity_error) ∷ []

abbrev pub artifact_phases : Enum ArtifactPhase
artifact_phases =
    (codes "created", created) ∷ (codes "updated", updated) ∷ (codes "deleted", deleted) ∷ []

abbrev pub artifact_sources : Enum ArtifactSource
artifact_sources =
    (codes "presented", presented) ∷ (codes "workspace_change", workspace_change) ∷ []

abbrev pub interaction_kinds : Enum InteractionKind
interaction_kinds = (codes "question", question) ∷ (codes "approval", approval) ∷ []

abbrev pub interaction_resolutions : Enum InteractionResolution
interaction_resolutions =
    (codes "answered", answered) ∷ (codes "approved", approved) ∷ (codes "rejected", rejected) ∷ []

-- `seen.has(id)` of `parseInteractionOptions`.
abbrev pub has_id : Text → List InteractionOption → Bool
has_id id = any λ o. text_eq o.id id

-- The loop of `parseInteractionOptions`, with the options read so far.
unfoldable pub parse_options_from : List InteractionOption → Items → Option (List InteractionOption)
parse_options_from options nil = some options
parse_options_from options (cons (obj entry) items) = do
  id ← require_string (codes "id") entry
  label ← require_string (codes "label") entry
  let option : InteractionOption = record { id = id; label = label }
  let rest = parse_options_from (options ++ option ∷ []) items
  if has_id id options then none else rest
parse_options_from options (cons _ items) = none

unfoldable pub parse_interaction_options : Value → Option (List InteractionOption)
unfolding parse_options_from
parse_interaction_options (arr (cons v vs)) = parse_options_from [] (cons v vs)
parse_interaction_options _ = none

unfoldable pub optional_options : Fields → Option (Option (List InteractionOption))
unfolding parse_interaction_options
optional_options source = elim (get (codes "options") source) [
  | none ↦ some none
  | some v ↦ do some (some (← parse_interaction_options v))
]

unfoldable pub parse_capability : Value → Option Capability
parse_capability (obj entry) = do
  status ← require_enum capability_statuses (codes "status") entry
  reason ← optional_string (codes "reason") entry
  some (record { status = status; reason = reason })
parse_capability _ = none

-- The loop of `parseCapabilities` over the known names; other names are ignored.
unfoldable pub parse_capabilities_from : Enum CapabilityName → Fields → Option CapabilityManifest
unfolding parse_capability
parse_capabilities_from [] source = some []
parse_capabilities_from ((key, name) ∷ names) source = elim (get key source) [
  | none ↦ parse_capabilities_from names source
  | some v ↦ do
    capability ← parse_capability v
    rest ← parse_capabilities_from names source
    some ((name, capability) ∷ rest)
]

unfoldable pub parse_capabilities : Option Value → Option CapabilityManifest
unfolding parse_capabilities_from
parse_capabilities (some (obj source)) = parse_capabilities_from capability_names source
parse_capabilities _ = none
