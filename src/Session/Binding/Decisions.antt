-- ===== src/Session/Binding/Decisions.antt =====
-- src/agent/session.ts: which events a session accepts, and under which identity a decision leaves.
use jupyter_plugin_aitermina.Protocol.Dsh.{
  ProductEvent, text_snapshot, text_delta, activity, connection, artifact, capabilities,
  interaction_requested, session, interaction_resolved, interaction_cancelled, run_started,
  run_finished, SessionScope, InteractionResolution,
}
use jupyter_plugin_aitermina.Base.{
  Option, Text, List, ◌≡◌, true, false, some, ◌↔◌, arith, none, text_eq_iff, refl, Bool,
}
use jupyter_plugin_aitermina.Session.Binding.{
  accept_dsh_event, Binding, equals, contains, accept_execution, execution_scope, replace_runtime,
  same, accept_scoped, is_live,
}
use jupyter_plugin_aitermina.Session.Binding.Invariant.{IsBound, FreshIf, contains_iff}
use jupyter_plugin_aitermina.Session.Binding.Resolution.{
  resolve_interaction, DecisionScope, ResolveMessage, sent, conflicts,
}

abbrev pub runtime_of : ProductEvent → Text
runtime_of (text_snapshot s run message text) = s.runtime_id
runtime_of (text_delta s message delta) = s.runtime_id
runtime_of (activity s a) = s.runtime_id
runtime_of (artifact s a) = s.runtime_id
runtime_of (interaction_requested s r) = s.runtime_id
runtime_of (interaction_resolved s id resolution) = s.runtime_id
runtime_of (interaction_cancelled s id) = s.runtime_id
runtime_of (run_started s) = s.runtime_id
runtime_of (run_finished s status) = s.runtime_id
runtime_of (connection runtime phase) = runtime
runtime_of (session s phase) = s.runtime_id
runtime_of (capabilities runtime manifest) = runtime

equals_iff : (o : Option Text) (s : Text) → (equals o s ≡ true) ↔ (o ≡ some s)
equals_iff none s = ground arith
equals_iff (some t) s = ground (arith, text_eq_iff t s)

not_current :
    (o : Option Text) (s : Text) (xs : List Text)
    → FreshIf o xs
    → contains xs s ≡ true
    → equals o s ≡ false
not_current none s xs h e = refl
not_current (some t) s xs h e = ground (arith, text_eq_iff t s, contains_iff xs t)

abbrev RuntimeIs : Text → Option SessionScope → Type 0
RuntimeIs r none = Unit
RuntimeIs r (some scope) = scope.runtime_id ≡ r

scoped_is_ignored :
    (scope : Option SessionScope) (r : Text) (b : Binding)
    → IsBound b
    → contains b.retired r ≡ true
    → RuntimeIs r scope
    → accept_scoped scope b ≡ (b, false)
unfolding accept_execution
scoped_is_ignored none r b v h e = refl
scoped_is_ignored (some scope) r b v h e =
    ground (arith, not_current b.runtime r b.retired v.current)

-- A runtime that is still remembered as retired has no effect any more: each of its events is
-- refused and changes nothing.
pub retired_is_ignored :
    (e : ProductEvent) (b : Binding)
    → IsBound b
    → contains b.retired (runtime_of e) ≡ true
    → accept_dsh_event e b ≡ (b, false)
unfolding accept_dsh_event
retired_is_ignored (connection id phase) b v h = ground arith
retired_is_ignored (capabilities id manifest) b v h =
    ground (arith, not_current b.runtime id b.retired v.current)
retired_is_ignored (session s phase) b v h = ground arith
retired_is_ignored e b v h = scoped_is_ignored (execution_scope e) (runtime_of e) b v h refl

-- An event that is refused changes nothing.
pub refused_changes_nothing :
    (e : ProductEvent) (b : Binding)
    → (accept_dsh_event e b).1 ≡ false
    → (accept_dsh_event e b).0 ≡ b
unfolding accept_dsh_event
refused_changes_nothing (connection id phase) b h = ground arith
refused_changes_nothing (capabilities id manifest) b h = ground arith
refused_changes_nothing (session s phase) b h = ground arith
refused_changes_nothing e b h = refl

pub replace_session :
    (old : Option Text) (id : Text) (b : Binding)
    → (replace_runtime old id b).session_id ≡ b.session_id
unfolding replace_runtime
replace_session none id b = refl
replace_session (some old) id b = ground arith

-- No event switches a session that is bound.
pub session_is_kept :
    (e : ProductEvent) (b : Binding) (s : Text)
    → b.session_id ≡ some s
    → (accept_dsh_event e b).0.session_id ≡ some s
unfolding accept_dsh_event
session_is_kept (connection id phase) b s h = ground (arith, replace_session b.runtime id b)
session_is_kept (capabilities id manifest) b s h = ground arith
session_is_kept (session scope phase) b s h = ground (arith, text_eq_iff s scope.session_id)
session_is_kept e b s h = h

same_iff : (o p : Option Text) → (same o p ≡ true) ↔ (o ≡ p)
same_iff none none = ground arith
same_iff none (some s) = ground arith
same_iff (some t) none = ground arith
same_iff (some t) (some s) = ground (arith, text_eq_iff t s)

accepted_scope :
    (o : Option SessionScope) (scope : SessionScope) (b : Binding)
    → o ≡ some scope
    → (accept_scoped o b).1 ≡ true
    → (b.session_id ≡ some scope.session_id)
      × (b.runtime ≡ some scope.runtime_id)
      × (b.attached_runtime ≡ some scope.runtime_id)
      × (is_live b.phase ≡ true)
unfolding accept_execution
accepted_scope none scope b h k = cc
accepted_scope (some s) scope b h k = ground (
  arith,
  equals_iff b.session_id s.session_id,
  equals_iff b.runtime s.runtime_id,
  same_iff b.attached_runtime b.runtime,
)

-- An event that belongs to a run or a text is accepted only from the bound session and the current
-- runtime, while that runtime is attached in the phase `attached` or `resumed`.
pub accepted_is_current :
    (e : ProductEvent) (scope : SessionScope) (b : Binding)
    → execution_scope e ≡ some scope
    → (accept_dsh_event e b).1 ≡ true
    → (b.session_id ≡ some scope.session_id)
      × (b.runtime ≡ some scope.runtime_id)
      × (b.attached_runtime ≡ some scope.runtime_id)
      × (is_live b.phase ≡ true)
unfolding accept_dsh_event
accepted_is_current (connection id phase) scope b h k = cc
accepted_is_current (capabilities id manifest) scope b h k = cc
accepted_is_current (session s phase) scope b h k = cc
accepted_is_current e scope b h k = accepted_scope (execution_scope e) scope b h k

-- A decision is sent only on an open socket and for the bound session and the attached runtime,
-- which it carries; a scope that names another session or runtime is not sent.
pub sent_is_current :
    (socket_open : Bool) (b : Binding) (request : Text) (resolution : InteractionResolution)
    (scope : DecisionScope) (message : ResolveMessage)
    → resolve_interaction socket_open b request resolution scope ≡ sent message
    → (socket_open ≡ true)
      × (b.session_id ≡ some message.scope_session)
      × (b.runtime ≡ some message.scope_runtime)
      × (b.attached_runtime ≡ some message.scope_runtime)
      × (is_live b.phase ≡ true)
      × (conflicts scope.session_id message.scope_session ≡ false)
      × (conflicts scope.runtime_id message.scope_runtime ≡ false)
      × (message.request_id ≡ request)
      × (message.resolution ≡ resolution)
unfolding resolve_interaction
sent_is_current socket_open b request resolution scope message h =
    ground (arith, same_iff b.attached_runtime b.runtime)
