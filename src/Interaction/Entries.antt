-- ===== src/Interaction/Entries.antt =====
-- src/agent/interaction.ts: what happens to one entry of the coordinator. The host's answer to a
-- decision is an argument, and so are whether the coordinator is disposed and its capabilities. A
-- view is an observer: it does not call back while it is updated.
use jupyter_plugin_aitermina.Protocol.Dsh.{
  RunScope, InteractionResolution, Request, CapabilityManifest,
}
use jupyter_plugin_aitermina.Base.{
  Text, Bool, false, Option, List, true, if◌then◌else◌, truthy, none, some, ◌∷◌, ◌||◌, codes, not,
  [],
}
use jupyter_plugin_aitermina.Interaction.{
  InteractionPhase, InteractionInput, phase_requested, is_terminal, phase_sending, phase_failed,
  phase_resolved, phase_cancelled, phase_awaiting, capability_block_message,
  validate_interaction_resolution, normalize_resolution,
}

pub record Entry : Type 0 where
  pub scope : RunScope
  pub request : Request
  pub phase : InteractionPhase
  pub resolution : Option InteractionResolution
  pub error : Option Text
  pub last_input : Option InteractionInput
  pub delivery_unknown : Bool

abbrev pub new_entry : RunScope → Request → Entry
new_entry scope request = record {
  scope = scope;
  request = request;
  phase = phase_requested;
  resolution = none;
  error = none;
  last_input = none;
  delivery_unknown = false;
}

-- What the call of the host does: it throws an error with a message, returns, or gives a promise.
pub data HostAnswer : Type 0 where
  threw : Text → HostAnswer
  returned promised : HostAnswer

abbrev pub error_message : Text → Text
error_message message = if truthy message then message else codes "The decision could not be sent."

abbrev pub is_sending : InteractionPhase → Bool
is_sending phase_sending = true
is_sending _ = false

unfoldable pub mark_awaiting : Bool → Entry → Entry
mark_awaiting disposed e =
    if disposed || not (is_sending e.phase)
    then e
    else record e { phase = phase_awaiting; error = none }

unfoldable pub fail : Bool → Text → Entry → Entry
fail disposed message e = if disposed || is_terminal e.phase then e else record e {
  phase = phase_failed;
  error = some (error_message message);
  delivery_unknown = true;
}

abbrev pub may_submit : InteractionPhase → Bool
may_submit phase_requested = true
may_submit phase_failed = true
may_submit _ = false

unfoldable pub after_host : HostAnswer → Entry → Entry
unfolding fail mark_awaiting
after_host (threw message) e = fail false message e
after_host returned e = mark_awaiting false e
after_host promised e = e

-- `submit`, with what the host is handed.
unfoldable pub submit :
    Bool
    → CapabilityManifest
    → InteractionInput
    → HostAnswer
    → Entry
    → Entry × Option InteractionInput
unfolding after_host
submit disposed capabilities raw answer e =
    if disposed || e.delivery_unknown || not (may_submit e.phase)
    then (e, none)
    else elim (capability_block_message capabilities e.request.kind) [
      | some message ↦ (record e { error = some message }, none)
      | none ↦ elim (validate_interaction_resolution e.request raw) [
        | some message ↦ (record e { error = some message }, none)
        | none ↦ (
          after_host answer (record e {
            last_input = some (normalize_resolution raw);
            phase = phase_sending;
            error = none;
            delivery_unknown = false;
          }),
          some (normalize_resolution raw),
        )
      ]
    ]

unfoldable pub resolve : InteractionResolution → Entry → Entry × Bool
resolve resolution e =
    if is_terminal e.phase
    then (e, false)
    else (record e { phase = phase_resolved; resolution = some resolution; error = none }, true)

unfoldable pub cancel : Entry → Entry × Bool
cancel e =
    if is_terminal e.phase
    then (e, false)
    else (record e { phase = phase_cancelled; error = none }, true)

-- What can happen to an entry, in any order: a view submits a decision, the host's promise is
-- fulfilled or rejected, the runtime resolves or cancels the request.
pub data EntryEvent : Type 0 where
  submits : Bool → CapabilityManifest → InteractionInput → HostAnswer → EntryEvent
  confirms : Bool → EntryEvent
  fails : Bool → Text → EntryEvent
  resolves : InteractionResolution → EntryEvent
  cancels : EntryEvent

unfoldable pub react : EntryEvent → Entry → Entry × Option InteractionInput
unfolding submit mark_awaiting fail resolve cancel
react (submits disposed capabilities raw answer) e = submit disposed capabilities raw answer e
react (confirms disposed) e = (mark_awaiting disposed e, none)
react (fails disposed message) e = (fail disposed message e, none)
react (resolves r) e = ((resolve r e).0, none)
react cancels e = ((cancel e).0, none)

abbrev pub hand_over : Option InteractionInput → List InteractionInput → List InteractionInput
hand_over none is = is
hand_over (some i) is = i ∷ is

-- The entry after the events, and the decisions that the host was handed, the first one first.
unfoldable pub react_all : List EntryEvent → Entry → Entry × List InteractionInput
unfolding react
react_all [] e = (e, [])
react_all (v ∷ vs) e =
    let (d, i) = react v e in let (last, is) = react_all vs d in (last, hand_over i is)
