-- ===== src/Session/Binding.antt =====
-- src/agent/session.ts: the fields `dsh…` of a session, and the methods that change them.
pub mod Invariant
pub mod Resolution
pub mod Decisions
pub mod History
mod Tests
use jupyter_plugin_aitermina.Base.{
  ℕ, Option, none, List, Text, Bool, [], false, true, any, some, is_some, ◌∷◌, if◌then◌else◌, not,
  text_eq, ltb, ◌++◌, ◌&&◌, length, ◌||◌,
}
use jupyter_plugin_aitermina.Protocol.Dsh.{
  ConnectionPhase, SessionPhase, SessionScope, RunScope, ProductEvent, CapabilityManifest,
  InteractionResolution, text_snapshot, connection, text_delta, capabilities, connected, detached,
  attached, activity, session, reconnecting, phase_resumed, artifact, interaction_requested,
  interaction_resolved, interaction_cancelled, run_started, run_finished,
}

-- A set of runtime ids in the order of insertion, as a JavaScript `Set` keeps it.
pub record Binding : Type 0 where
  pub runtime : Option Text
  pub session_id : Option Text
  pub phase : Option SessionPhase
  pub attached_runtime : Option Text
  pub manifest : Option CapabilityManifest
  pub retired : List Text

abbrev pub max_retired_runtimes : ℕ
max_retired_runtimes = 64

abbrev pub unbound : Binding
unbound = record {
  runtime = none;
  session_id = none;
  phase = none;
  attached_runtime = none;
  manifest = none;
  retired = [];
}

-- `o !== null && o !== s`
abbrev pub differs : Option Text → Text → Bool
differs none s = false
differs (some t) s = not (text_eq t s)

-- `o === s`
abbrev pub equals : Option Text → Text → Bool
equals none s = false
equals (some t) s = text_eq t s

abbrev pub same : Option Text → Option Text → Bool
same none none = true
same none (some s) = false
same (some t) none = false
same (some t) (some s) = text_eq t s

abbrev pub contains : List Text → Text → Bool
contains xs s = any (λ x. text_eq x s) xs

-- The loop of `retireDshRuntime`: the oldest ids go while there are too many.
pub drop_oldest : List Text → List Text
drop_oldest [] = []
drop_oldest (x ∷ xs) = if ltb max_retired_runtimes (length (x ∷ xs)) then drop_oldest xs else x ∷ xs

pub retire_dsh_runtime : Text → List Text → List Text
unfolding drop_oldest
retire_dsh_runtime r retired =
    drop_oldest (if contains retired r then retired else retired ++ r ∷ [])

-- A new generation retires the old runtime and drops what the old handshake set.
pub replace_runtime : Option Text → Text → Binding → Binding
replace_runtime none id b = b
replace_runtime (some old) id b = if text_eq old id then b else record b {
  retired = retire_dsh_runtime old b.retired;
  attached_runtime = none;
  phase = none;
  manifest = none;
}

abbrev pub is_handshake : ConnectionPhase → Bool
is_handshake connected = true
is_handshake reconnecting = true
is_handshake _ = false

pub accept_connection : Text → ConnectionPhase → Binding → Binding × Bool
unfolding replace_runtime
accept_connection id phase b =
    if is_handshake phase
    then if contains b.retired id
      then (b, false)
      else (record (replace_runtime b.runtime id b) { runtime = some id }, true)
    else if contains b.retired id
    then (b, false)
    else (b, not (differs b.runtime id))

pub accept_capabilities : Text → CapabilityManifest → Binding → Binding × Bool
accept_capabilities id manifest b =
    if not (equals b.runtime id)
    then (b, false)
    else if contains b.retired id
    then (b, false)
    else (record b { manifest = some manifest }, true)

-- `detached` clears the attach; the other phases set it.
abbrev pub attach_of : SessionPhase → Text → Option Text
attach_of detached id = none
attach_of _ id = some id

pub accept_session : SessionScope → SessionPhase → Binding → Binding × Bool
accept_session scope phase b =
    if differs b.session_id scope.session_id
    then (b, false)
    else if contains b.retired scope.runtime_id
    then (b, false)
    else if differs b.runtime scope.runtime_id
    then (b, false)
    else (
      record b {
        runtime = some scope.runtime_id;
        attached_runtime = attach_of phase scope.runtime_id;
        session_id = some scope.session_id;
        phase = some phase;
      },
      true,
    )

abbrev pub is_live : Option SessionPhase → Bool
is_live (some attached) = true
is_live (some phase_resumed) = true
is_live _ = false

-- The last test of `acceptDshEvent`.
pub accept_execution : SessionScope → Binding → Bool
accept_execution scope b =
    is_some b.runtime
    && is_some b.session_id
    && equals b.session_id scope.session_id
    && equals b.runtime scope.runtime_id
    && same b.attached_runtime b.runtime
    && is_live b.phase

abbrev pub to_session : RunScope → SessionScope
to_session s = record { session_id = s.session_id; runtime_id = s.runtime_id }

-- The scope of an execution event; a handshake event has none.
abbrev pub execution_scope : ProductEvent → Option SessionScope
execution_scope (text_snapshot s run message text) = some s
execution_scope (text_delta s message delta) = some (to_session s)
execution_scope (activity s a) = some (to_session s)
execution_scope (artifact s a) = some (to_session s)
execution_scope (interaction_requested s r) = some (to_session s)
execution_scope (interaction_resolved s id resolution) = some (to_session s)
execution_scope (interaction_cancelled s id) = some (to_session s)
execution_scope (run_started s) = some (to_session s)
execution_scope (run_finished s status) = some (to_session s)
execution_scope (connection runtime phase) = none
execution_scope (session s phase) = none
execution_scope (capabilities runtime manifest) = none

abbrev pub accept_scoped : Option SessionScope → Binding → Binding × Bool
accept_scoped none b = (b, false)
accept_scoped (some scope) b = (b, accept_execution scope b)

pub accept_dsh_event : ProductEvent → Binding → Binding × Bool
unfolding accept_connection accept_capabilities accept_session accept_execution
accept_dsh_event (connection id phase) b = accept_connection id phase b
accept_dsh_event (capabilities id manifest) b = accept_capabilities id manifest b
accept_dsh_event (session scope phase) b = accept_session scope phase b
accept_dsh_event e b = accept_scoped (execution_scope e) b

-- `configureDshSession`; with a socket it throws, which is `none`.
pub configure_dsh_session : Bool → Option Text → Binding → Option Binding
configure_dsh_session has_socket id b =
    if has_socket
    then none
    else some (record b { session_id = id; phase = none; attached_runtime = none })

-- What `connect` does to the binding when it opens a socket.
pub reconnect : Binding → Binding
reconnect b = record b { attached_runtime = none; phase = none; manifest = none }

-- What `resetContext` does to the binding, its `connect` included.
pub reset_context : Binding → Binding
unfolding reconnect
reset_context b = reconnect (record b {
  runtime = none;
  session_id = none;
  phase = none;
  attached_runtime = none;
  manifest = none;
})

-- What `dispose` does to the binding.
pub dispose : Binding → Binding
dispose b = unbound
