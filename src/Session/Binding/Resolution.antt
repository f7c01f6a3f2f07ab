-- ===== src/Session/Binding/Resolution.antt =====
-- src/agent/session.ts: `resolveInteraction`, by which a decision leaves. Whether the socket is open
-- is an argument.
use jupyter_plugin_aitermina.Base.{
  Option, none, Text, Bool, false, some, is_some, ◌∷◌, if◌then◌else◌, not, text_eq, ◌||◌,
}
use jupyter_plugin_aitermina.Protocol.Dsh.{InteractionResolution}
use jupyter_plugin_aitermina.Session.Binding.{Binding, same, is_live}

pub record DecisionScope : Type 0 where
  pub session_id : Option Text
  pub runtime_id : Option Text
  pub run_id : Option Text

pub record ResolveMessage : Type 0 where
  pub request_id : Text
  pub resolution : InteractionResolution
  pub scope_session : Text
  pub scope_runtime : Text
  pub scope_run : Option Text

-- The three errors with which the promise rejects.
pub data Undelivered : Type 0 where
  not_connected different_session retired_runtime : Undelivered

pub data Delivery : Type 0 where
  sent : ResolveMessage → Delivery
  rejected_with : Undelivered → Delivery

-- `scope.x != null && scope.x !== y`
abbrev pub conflicts : Option Text → Text → Bool
conflicts none s = false
conflicts (some t) s = not (text_eq t s)

-- An empty run id is left out.
abbrev pub run_of : Option Text → Option Text
run_of (some (c ∷ s)) = some (c ∷ s)
run_of _ = none

unfoldable pub deliver :
    Option Text → Option Text → Binding → Text → InteractionResolution → DecisionScope → Delivery
deliver (some bound) (some runtime) b request resolution scope =
    if conflicts scope.session_id bound
    then rejected_with different_session
    else if conflicts scope.runtime_id runtime
    then rejected_with retired_runtime
    else sent (record {
      request_id = request;
      resolution = resolution;
      scope_session = bound;
      scope_runtime = runtime;
      scope_run = run_of scope.run_id;
    })
deliver _ _ b request resolution scope = rejected_with not_connected

unfoldable pub resolve_interaction :
    Bool → Binding → Text → InteractionResolution → DecisionScope → Delivery
unfolding deliver
resolve_interaction socket_open b request resolution scope =
    if not socket_open
      || not (is_some b.session_id)
      || not (is_some b.runtime)
      || not (same b.attached_runtime b.runtime)
      || not (is_live b.phase)
    then rejected_with not_connected
    else deliver b.session_id b.runtime b request resolution scope
