-- ===== src/Session/Binding/Invariant.antt =====
-- src/agent/session.ts: what always holds between the fields of a binding, and that every event and
-- method keeps it.
use jupyter_plugin_aitermina.Base.{
  Text, Option, List, All, length, Bool, some, ◌≢◌, ◌≡◌, ◌∷◌, false, Bool-cases, arith, ◌≤◌, none,
  [], true, ltb, text_eq_iff, inl, ◌↔◌, is_some, inr, refl, All-append, if◌then◌else◌, ◌++◌,
}
use jupyter_plugin_aitermina.Session.Binding.{
  Binding, drop_oldest, retire_dsh_runtime, replace_runtime, accept_connection, accept_capabilities,
  accept_session, accept_dsh_event, configure_dsh_session, is_live, contains, reconnect, unbound,
  reset_context, dispose,
}
use jupyter_plugin_aitermina.Protocol.Dsh.{
  ProductEvent, ConnectionPhase, CapabilityManifest, SessionScope, connection, SessionPhase,
  capabilities, session,
}

abbrev pub Fresh : Text → List Text → Type 0
Fresh s = All λ x. x ≢ s

abbrev pub FreshIf : Option Text → List Text → Type 0
FreshIf none xs = Unit
FreshIf (some s) xs = Fresh s xs

abbrev pub AttachFits : Option Text → Binding → Type 0
AttachFits none b = is_live b.phase ≡ false
AttachFits (some r) b =
    (b.runtime ≡ some r) × (is_live b.phase ≡ true) × (is_some b.session_id ≡ true)

pub record IsBound (b : Binding) : Type 0 where
  pub current : FreshIf b.runtime b.retired
  pub bounded : length b.retired ≤ 64
  pub attach : AttachFits b.attached_runtime b

pub contains_iff : (xs : List Text) (s : Text) → (contains xs s ≡ false) ↔ Fresh s xs
contains_iff [] s = ground arith
contains_iff (x ∷ xs) s = ground (arith, contains_iff xs s, text_eq_iff x s)

length-drop_oldest : (xs : List Text) → length (drop_oldest xs) ≤ 64
unfolding drop_oldest
length-drop_oldest [] = omega arith
length-drop_oldest (x ∷ xs) = ground (arith, length-drop_oldest xs)

drop_oldest-All : (P : Text → Type 0) (xs : List Text) → All P xs → All P (drop_oldest xs)
unfolding drop_oldest
drop_oldest-All P [] h = tt
drop_oldest-All P (x ∷ xs) (p, h) = elim (Bool-cases (ltb 64 (length (x ∷ xs)))) [
  | inl e ↦ rw e (drop_oldest-All P xs h)
  | inr e ↦ rw e (p, h)
]

length-retire : (r : Text) (xs : List Text) → length (retire_dsh_runtime r xs) ≤ 64
unfolding retire_dsh_runtime
length-retire r xs = length-drop_oldest (if contains xs r then xs else xs ++ r ∷ [])

retire-Fresh :
    (r s : Text) (xs : List Text) → r ≢ s → Fresh s xs → Fresh s (retire_dsh_runtime r xs)
unfolding retire_dsh_runtime
retire-Fresh r s xs n h = elim (Bool-cases (contains xs r)) [
  | inl e ↦ rw e (drop_oldest-All (λ x. x ≢ s) xs h)
  | inr e ↦ rw e (drop_oldest-All (λ x. x ≢ s) _ (All-append (λ x. x ≢ s) xs (r ∷ []) h (n, tt)))
]

replace-IsBound :
    (old : Option Text) (id : Text) (b : Binding)
    → b.runtime ≡ old
    → IsBound b
    → Fresh id b.retired
    → IsBound (record (replace_runtime old id b) { runtime = some id })
unfolding replace_runtime
replace-IsBound none id b e v h = ground arith
replace-IsBound (some old) id b e v h =
    ground (arith, text_eq_iff old id, length-retire old b.retired, retire-Fresh old id b.retired)

accept_connection-IsBound :
    (id : Text) (phase : ConnectionPhase) (b : Binding)
    → IsBound b
    → IsBound (accept_connection id phase b).0
unfolding accept_connection
accept_connection-IsBound id phase b v =
    ground (arith, contains_iff b.retired id, replace-IsBound b.runtime id b refl v)

accept_capabilities-IsBound :
    (id : Text) (manifest : CapabilityManifest) (b : Binding)
    → IsBound b
    → IsBound (accept_capabilities id manifest b).0
unfolding accept_capabilities
accept_capabilities-IsBound id manifest b v = ground arith

accept_session-IsBound :
    (scope : SessionScope) (phase : SessionPhase) (b : Binding)
    → IsBound b
    → IsBound (accept_session scope phase b).0
unfolding accept_session
accept_session-IsBound scope phase b v = ground (arith, contains_iff b.retired scope.runtime_id)

accept_dsh_event-IsBound :
    (e : ProductEvent) (b : Binding) → IsBound b → IsBound (accept_dsh_event e b).0
unfolding accept_dsh_event
accept_dsh_event-IsBound (connection id phase) b v = accept_connection-IsBound id phase b v
accept_dsh_event-IsBound (capabilities id manifest) b v =
    accept_capabilities-IsBound id manifest b v
accept_dsh_event-IsBound (session scope phase) b v = accept_session-IsBound scope phase b v
accept_dsh_event-IsBound e b v = v

-- What happens to a binding: events of the socket and calls of the methods.
pub data Action : Type 0 where
  receives : ProductEvent → Action
  configures : Bool → Option Text → Action
  connects resets disposes : Action

abbrev pub or_same : Option Binding → Binding → Binding
or_same none b = b
or_same (some c) b = c

unfoldable pub act : Action → Binding → Binding
act (receives e) b = (accept_dsh_event e b).0
act (configures has_socket id) b = or_same (configure_dsh_session has_socket id b) b
act connects b = reconnect b
act resets b = reset_context b
act disposes b = dispose b

unfoldable pub act_all : List Action → Binding → Binding
act_all [] b = b
act_all (a ∷ as') b = act_all as' (act a b)

act-IsBound : (a : Action) (b : Binding) → IsBound b → IsBound (act a b)
unfolding act configure_dsh_session reconnect reset_context dispose
act-IsBound (receives e) b v = accept_dsh_event-IsBound e b v
act-IsBound (configures has_socket id) b v = ground arith
act-IsBound connects b v = ground arith
act-IsBound resets b v = ground arith
act-IsBound disposes b v = ground arith

act_all-IsBound : (as' : List Action) (b : Binding) → IsBound b → IsBound (act_all as' b)
unfolding act_all
act_all-IsBound [] b v = v
act_all-IsBound (a ∷ as') b v = act_all-IsBound as' (act a b) (act-IsBound a b v)

-- After any events and calls from the start: the current runtime is not a retired one, at most 64
-- retired runtimes are kept, and a runtime is attached only while it is the current one, with a
-- session, in the phase `attached` or `resumed`; without an attach the phase is neither.
pub binding-IsBound : (as' : List Action) → IsBound (act_all as' unbound)
binding-IsBound as' = act_all-IsBound as' unbound (ground arith)
