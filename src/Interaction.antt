-- ===== src/Interaction.antt =====
-- src/agent/interaction.ts: the data of an interaction, the check of a decision and the reason why a
-- kind of interaction is blocked.
pub mod Entries
pub mod Coordinator
pub mod Legality
pub mod Delivery
pub mod Requests
mod Tests
use jupyter_plugin_aitermina.Base.{
  Option, Text, some, Bool, codes, none, [], false, List, true, ◌++◌, if◌then◌else◌, truthy, trim,
  text_eq, any, is_some, ◌∷◌, not, length, ◌||◌, ◌&&◌, ◌==◌,
}
use jupyter_plugin_aitermina.Protocol.Dsh.{
  RunScope, InteractionKind, CapabilityManifest, Request, CapabilityName, CapabilityStatus,
  approval, InteractionOption, question, available, unverified, questions, approvals, not_available,
}

pub record InteractionInput : Type 0 where
  pub option_id : Option Text
  pub text : Option Text

pub data InteractionPhase : Type 0 where
  phase_requested phase_sending phase_awaiting phase_resolved phase_cancelled phase_failed :
      InteractionPhase

abbrev pub approval_allow_once_option_id : Text
approval_allow_once_option_id = codes "approved"

abbrev pub approval_reject_option_id : Text
approval_reject_option_id = codes "rejected"

-- The session, the run and the request id, with the character 0 between them.
abbrev pub interaction_key : RunScope → Text → Text
interaction_key scope request = scope.session_id ++ 0 ∷ (scope.run_id ++ 0 ∷ request)

abbrev pub names_kind : InteractionKind → CapabilityName → Bool
names_kind question questions = true
names_kind approval approvals = true
names_kind _ _ = false

abbrev pub capability_for : InteractionKind → CapabilityManifest → Option CapabilityStatus
capability_for kind [] = none
capability_for kind ((name, c) ∷ cs) =
    if names_kind kind name then some c.status else capability_for kind cs

abbrev pub subject : InteractionKind → Text
subject question = codes "Questions are"
subject approval = codes "Approval is"

unfoldable pub capability_block_message : CapabilityManifest → InteractionKind → Option Text
capability_block_message capabilities kind = elim (capability_for kind capabilities) [
  | some available ↦ none
  | some unverified ↦ some (subject kind ++ codes " not verified for this runtime.")
  | some not_available ↦ some (subject kind ++ codes " not supported by this runtime.")
  | none ↦ some (subject kind ++ codes " not available in this runtime.")
]

-- A text that is given and not empty.
abbrev pub truthy_of : Option Text → Option Text
truthy_of none = none
truthy_of (some s) = if truthy s then some s else none

-- `text?.trim() ?? ''`
abbrev pub trimmed : Option Text → Text
trimmed none = []
trimmed (some s) = trim s

abbrev pub is_decision : Option Text → Bool
is_decision none = false
is_decision (some s) =
    text_eq s approval_allow_once_option_id || text_eq s approval_reject_option_id

abbrev pub options_of : Request → List InteractionOption
options_of r = elim r.options [ none ↦ [] | some os ↦ os ]

abbrev pub allows_text : Request → Bool
allows_text r = elim r.allow_free_text [ none ↦ false | some b ↦ b ]

unfoldable pub validate_approval : Option Text → Text → Option Text
validate_approval option text =
    if truthy text
    then some (codes "Approval decisions use the allow-once or reject button.")
    else if not (is_decision option)
    then some (codes "Approval must be either allow once or reject.")
    else none

abbrev pub validate_choice : Option Text → Text → Request → Option Text
validate_choice (some o) text r =
    if any (λ (p : InteractionOption). text_eq p.id o) (options_of r)
    then none
    else some (codes "That answer option is not available.")
validate_choice none text r =
    if truthy text
    then none
    else if length (options_of r) == 0 && not (allows_text r)
    then some (codes "No answer option is available for this request.")
    else some (codes "Choose an option or enter an answer.")

unfoldable pub validate_question : Option Text → Text → Request → Option Text
validate_question option text r =
    if truthy text && not (allows_text r)
    then some (codes "Free-text answers are not allowed for this request.")
    else validate_choice option text r

abbrev pub validate_kind : InteractionKind → InteractionInput → Request → Option Text
validate_kind approval input r = validate_approval input.option_id (trimmed input.text)
validate_kind question input r =
    validate_question (truthy_of input.option_id) (trimmed input.text) r

unfoldable pub validate_interaction_resolution : Request → InteractionInput → Option Text
unfolding validate_approval validate_question
validate_interaction_resolution r input =
    if is_some (truthy_of input.option_id) && truthy (trimmed input.text)
    then some (codes "Choose an option or enter text, not both.")
    else validate_kind r.kind input r

unfoldable pub normalize_resolution : InteractionInput → InteractionInput
normalize_resolution input = record {
  option_id = truthy_of input.option_id;
  text = truthy_of (some (trimmed input.text));
}

abbrev pub is_terminal : InteractionPhase → Bool
is_terminal phase_resolved = true
is_terminal phase_cancelled = true
is_terminal _ = false
