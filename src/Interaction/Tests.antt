-- ===== src/Interaction/Tests.antt =====
-- src/agent/interaction.ts: runs on a concrete request.
use jupyter_plugin_aitermina.Interaction.Entries.{
  react_all, Entry, react, EntryEvent, new_entry, submit, submits, promised, fails, returned,
  after_host, resolves, mark_awaiting, fail, resolve, cancel,
}
use jupyter_plugin_aitermina.Protocol.Dsh.{
  RunScope, Request, CapabilityManifest, approvals, approval, available, approved,
}
use jupyter_plugin_aitermina.Base.{
  Text, List, length, All, ◌≡◌, codes, [], arith, some, false, ◌≤◌, refl, ◌∷◌, none, text_eq, trim,
  trim_start, trim_end, is_space,
}
use jupyter_plugin_aitermina.Interaction.Coordinator.{
  handle_requested, submit_entry, submit_at, set_entry,
}
use jupyter_plugin_aitermina.Interaction.Requests.{NoZero, interaction_key-injective}
use jupyter_plugin_aitermina.Interaction.{
  InteractionInput, phase_resolved, phase_cancelled, capability_block_message,
  validate_interaction_resolution, validate_approval, validate_question, normalize_resolution,
}
use jupyter_plugin_aitermina.Interaction.Legality.{IsLegal, delivered-IsLegal}
use jupyter_plugin_aitermina.Interaction.Delivery.{terminal_stays, delivered_at_most_once}

compute : Unit {0}
unfolding react_all react submit submit_entry submit_at set_entry after_host mark_awaiting fail
    resolve cancel capability_block_message validate_interaction_resolution validate_approval
    validate_question normalize_resolution handle_requested text_eq trim trim_start trim_end
    is_space
compute = tt

abbrev here : RunScope
here = record { session_id = codes "s"; runtime_id = codes "r"; run_id = codes "n" }

abbrev asking : Request
asking = record {
  request_id = codes "q";
  kind = approval;
  tool_call_id = none;
  prompt = codes "Run?";
  options = none;
  allow_free_text = none;
  action = none;
  target = none;
}

abbrev able : CapabilityManifest
able = (approvals, record { status = available; reason = none }) ∷ []

abbrev choose : Text → InteractionInput
choose id = record { option_id = some id; text = none }

-- The first decision fails on the way, the second is refused, and the runtime has the last word.
abbrev told : List EntryEvent
told =
    submits false able (choose (codes "approved")) promised
    ∷ fails false (codes "closed")
    ∷ submits false able (choose (codes "rejected")) returned
    ∷ resolves approved
    ∷ []

told_once : (react_all told (new_entry here asking)).1 ≡ choose (codes "approved") ∷ []
unfolding compute
told_once = refl

told_phase : (react_all told (new_entry here asking)).0.phase ≡ phase_resolved
unfolding compute
told_phase = refl

delivered_at_most_once_example : length (react_all told (new_entry here asking)).1 ≤ 1
delivered_at_most_once_example = delivered_at_most_once told (new_entry here asking)

delivered-IsLegal_example : All (IsLegal asking) (react_all told (new_entry here asking)).1
delivered-IsLegal_example = delivered-IsLegal told (new_entry here asking)

abbrev closed : Entry
closed = record (new_entry here asking) { phase = phase_cancelled }

terminal_stays_example : react_all told closed ≡ (closed, [])
terminal_stays_example = terminal_stays told closed refl

NoZero-session : NoZero here.session_id
NoZero-session = (λ e. omega (arith, e), tt)

NoZero-run : NoZero here.run_id
NoZero-run = (λ e. omega (arith, e), tt)

interaction_key-injective_example :
    (here.session_id ≡ here.session_id) × (here.run_id ≡ here.run_id) × (codes "q" ≡ codes "q")
interaction_key-injective_example =
    interaction_key-injective here here (codes "q") (codes "q") NoZero-session NoZero-session
      NoZero-run NoZero-run refl
