-- ===== src/Session/Binding/History.antt =====
-- src/agent/session.ts: the handshake that stands before an accepted event and a sent decision.
-- The binding after a history of events and calls, the latest first.
use jupyter_plugin_aitermina.Base.{
  List, Text, Bool, Option, false, ◌≡◌, text_eq, some, ◌∷◌, ◌||◌, true, arith, [], ◌&&◌, none,
  text_eq_iff, refl,
}
use jupyter_plugin_aitermina.Session.Binding.{
  replace_runtime, accept_dsh_event, attach_of, configure_dsh_session, Binding, reconnect, unbound,
  reset_context, execution_scope, is_live, dispose,
}
use jupyter_plugin_aitermina.Protocol.Dsh.{
  SessionPhase, ProductEvent, SessionScope, InteractionResolution, session, connection,
  capabilities, attached, phase_resumed, detached,
}
use jupyter_plugin_aitermina.Session.Binding.Invariant.{
  act, Action, receives, configures, connects, resets, disposes,
}
use jupyter_plugin_aitermina.Session.Binding.Resolution.{
  DecisionScope, ResolveMessage, resolve_interaction, sent,
}
use jupyter_plugin_aitermina.Session.Binding.Decisions.{
  accepted_is_current, sent_is_current, replace_session,
}

abbrev pub binding_after : List Action → Binding
binding_after [] = unbound
binding_after (a ∷ earlier) = act a (binding_after earlier)

-- An event by which a session attaches or resumes with a runtime.
abbrev pub is_handshake_of : Text → Text → ProductEvent → Bool
is_handshake_of s r (session scope phase) =
    text_eq scope.session_id s && text_eq scope.runtime_id r && is_live (some phase)
is_handshake_of s r e = false

-- Such an event arrived since the last call that begins a connection or ends one. A configuration
-- that is refused, since there is a socket, does neither.
unfoldable pub has_handshake : Text → Text → List Action → Bool
has_handshake s r [] = false
has_handshake s r (receives e ∷ earlier) = is_handshake_of s r e || has_handshake s r earlier
has_handshake s r (configures true id ∷ earlier) = has_handshake s r earlier
has_handshake s r (a ∷ earlier) = false

-- What is attached was attached by such an event, or `k` holds.
abbrev IsShaken : Text → Text → Bool → Binding → Type 0
IsShaken s r k b = b.session_id ≡ some s → b.attached_runtime ≡ some r → k ≡ true

replace_attached :
    (old : Option Text) (id r : Text) (b : Binding)
    → (replace_runtime old id b).attached_runtime ≡ some r
    → b.attached_runtime ≡ some r
unfolding replace_runtime
replace_attached none id r b h = h
replace_attached (some old) id r b h = ground arith

attach_of-live :
    (phase : SessionPhase) (id r : Text)
    → attach_of phase id ≡ some r
    → (id ≡ r) × (is_live (some phase) ≡ true)
attach_of-live attached id r h = (cc, refl)
attach_of-live phase_resumed id r h = (cc, refl)
attach_of-live detached id r h = cc

event-IsShaken :
    (s r : Text) (k : Bool) (e : ProductEvent) (b : Binding)
    → IsShaken s r k b
    → IsShaken s r (is_handshake_of s r e || k) (accept_dsh_event e b).0
unfolding accept_dsh_event
event-IsShaken s r k (connection id phase) b h p q =
    h (ground (arith, replace_session b.runtime id b))
      (ground (arith, replace_attached b.runtime id r b))
event-IsShaken s r k (capabilities id manifest) b h p q = h (ground arith) (ground arith)
event-IsShaken s r k (session scope phase) b h p q = ground (
  arith,
  h,
  text_eq_iff scope.session_id s,
  text_eq_iff scope.runtime_id r,
  attach_of-live phase scope.runtime_id r,
)
event-IsShaken s r k e b h p q = h p q

history-IsShaken :
    (s r : Text) (h : List Action) → IsShaken s r (has_handshake s r h) (binding_after h)
unfolding has_handshake act configure_dsh_session reconnect reset_context dispose
history-IsShaken s r [] p q = cc
history-IsShaken s r (receives e ∷ h) p q =
    event-IsShaken s r (has_handshake s r h) e (binding_after h) (history-IsShaken s r h) p q
history-IsShaken s r (configures true id ∷ h) p q = history-IsShaken s r h p q
history-IsShaken s r (configures false id ∷ h) p q = cc
history-IsShaken s r (connects ∷ h) p q = cc
history-IsShaken s r (resets ∷ h) p q = cc
history-IsShaken s r (disposes ∷ h) p q = cc

-- After any history, an event that belongs to a run or a text is accepted only if, since the last call
-- that begins or ends a connection, its session attached or resumed with its runtime.
pub accepted_has_handshake :
    (h : List Action) (e : ProductEvent) (scope : SessionScope)
    → execution_scope e ≡ some scope
    → (accept_dsh_event e (binding_after h)).1 ≡ true
    → has_handshake scope.session_id scope.runtime_id h ≡ true
accepted_has_handshake h e scope is_execution accepted =
    let (bound, _, attach, _) =
      accepted_is_current e scope (binding_after h) is_execution accepted in
    history-IsShaken scope.session_id scope.runtime_id h bound attach

-- After any history, a decision is sent only if, since the last call that begins or ends a connection,
-- the session that it names attached or resumed with the runtime that it names.
pub sent_has_handshake :
    (h : List Action) (socket_open : Bool) (request : Text) (resolution : InteractionResolution)
    (scope : DecisionScope) (message : ResolveMessage)
    → resolve_interaction socket_open (binding_after h) request resolution scope ≡ sent message
    → has_handshake message.scope_session message.scope_runtime h ≡ true
sent_has_handshake h socket_open request resolution scope message e =
    let (_, bound, _, attach, _, _, _, _, _) =
      sent_is_current socket_open (binding_after h) request resolution scope message e in
    history-IsShaken message.scope_session message.scope_runtime h bound attach
