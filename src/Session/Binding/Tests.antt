-- ===== src/Session/Binding/Tests.antt =====
-- src/agent/session.ts: runs of a binding, and its theorems at concrete bindings.
use jupyter_plugin_aitermina.Session.Binding.Invariant.{
  act_all, IsBound, act, Action, receives, binding-IsBound, connects,
}
use jupyter_plugin_aitermina.Base.{
  Text, List, ◌≡◌, true, some, none, codes, ◌++◌, ◌∷◌, [], false, text_eq, refl,
}
use jupyter_plugin_aitermina.Session.Binding.{
  Binding, accept_dsh_event, unbound, configure_dsh_session, reconnect, reset_context,
  retire_dsh_runtime,
}
use jupyter_plugin_aitermina.Protocol.Dsh.{
  ProductEvent, SessionScope, run_started, connection, session, connected, attached, approved,
  phase_resumed,
}
use jupyter_plugin_aitermina.Session.Binding.Decisions.{retired_is_ignored}
use jupyter_plugin_aitermina.Session.Binding.Resolution.{
  resolve_interaction, DecisionScope, ResolveMessage,
}
use jupyter_plugin_aitermina.Session.Binding.History.{
  has_handshake, accepted_has_handshake, sent_has_handshake,
}

binding : Unit {0}
unfolding act_all act accept_dsh_event configure_dsh_session reconnect reset_context
    retire_dsh_runtime resolve_interaction text_eq
binding = tt

abbrev scope_of : Text → SessionScope
scope_of runtime = record { session_id = codes "s1"; runtime_id = runtime }

-- The runtime r1 attaches, and r2 replaces it.
abbrev replaced_runtime : List Action
replaced_runtime =
    receives (connection (codes "r1") connected)
    ∷ receives (session (scope_of (codes "r1")) attached)
    ∷ receives (connection (codes "r2") connected)
    ∷ []

abbrev attached_again : List Action
attached_again = replaced_runtime ++ receives (session (scope_of (codes "r2")) phase_resumed) ∷ []

abbrev live : Binding
live = act_all attached_again unbound

live_fields :
    (live.runtime ≡ some (codes "r2"))
    × (live.retired ≡ codes "r1" ∷ [])
    × (live.attached_runtime ≡ some (codes "r2"))
unfolding binding
live_fields = (refl, refl, refl)

abbrev started : ProductEvent
started =
    run_started (record { session_id = codes "s1"; runtime_id = codes "r2"; run_id = codes "run" })

binding-IsBound_example : IsBound (act_all attached_again unbound)
binding-IsBound_example = binding-IsBound attached_again

retired_is_ignored_example :
    accept_dsh_event (connection (codes "r1") connected) live ≡ (live, false)
unfolding binding
retired_is_ignored_example =
    retired_is_ignored (connection (codes "r1") connected) live (binding-IsBound attached_again)
      refl

-- The same, the latest first.
abbrev history : List Action
history =
    receives (session (scope_of (codes "r2")) phase_resumed)
    ∷ receives (connection (codes "r2") connected)
    ∷ receives (session (scope_of (codes "r1")) attached)
    ∷ receives (connection (codes "r1") connected)
    ∷ []

accepted_has_handshake_example : has_handshake (codes "s1") (codes "r2") history ≡ true
unfolding binding
accepted_has_handshake_example =
    accepted_has_handshake history started (scope_of (codes "r2")) refl refl

-- A new connection asks for a new handshake.
no_handshake : has_handshake (codes "s1") (codes "r2") (connects ∷ history) ≡ false
unfolding has_handshake
no_handshake = refl

abbrev no_scope : DecisionScope
no_scope = record { session_id = none; runtime_id = none; run_id = none }

abbrev decision : ResolveMessage
decision = record {
  request_id = codes "q";
  resolution = approved;
  scope_session = codes "s1";
  scope_runtime = codes "r2";
  scope_run = none;
}

sent_has_handshake_example : has_handshake (codes "s1") (codes "r2") history ≡ true
unfolding binding
sent_has_handshake_example =
    sent_has_handshake history true (codes "q") approved no_scope decision refl
