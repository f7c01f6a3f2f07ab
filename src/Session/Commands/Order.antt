-- ===== src/Session/Commands/Order.antt =====
-- src/agent/session.ts: the order in which the promises of exec are settled.
-- The numbers of the calls that are settled, then of those that wait.
use jupyter_plugin_aitermina.Base.{
  ℕ, Text, Option, List, none, [], ◌≡◌, ◌∙◌, map, false, ap, suc, ◌∷◌, refl, ◌++◌, sym, some, zero,
  codes,
}
use jupyter_plugin_aitermina.Session.Commands.{
  Transport, ExecAnswer, reject_exec, send, handle_exec_event, on_close, exec, on_open, act_on,
  act_on_all, SocketState, ClientMessage, TransportAction, settle_first, send_over, connect,
  with_socket, call_exec, refused, answered, interrupt, command_interrupt, is_open, command,
  call_send, connecting, other, closing, received, closed, call_connect, call_close,
  call_reset_context, call_interrupt, call_interrupt_exec, opened, failed, ended, starts_closing,
  reset_transport, on_message, hand_over, call_hand_over,
}
use jupyter_plugin_aitermina.Protocol.{ServerEvent, exec_done, exec_error, ready}
use mathlib.Core.List.{append_assoc}

abbrev pub tickets_of : Transport → List ℕ
tickets_of t = map (λ x. x.0) t.settled ++ t.waiters

-- The numbers of the first calls.
unfoldable pub tickets : ℕ → List ℕ
tickets zero = []
tickets (suc n) = tickets n ++ (n ∷ [])

abbrev Keeps : Transport → Transport → Type 0
Keeps t u = (tickets_of u ≡ tickets_of t) × (u.issued ≡ t.issued)

first_settles :
    (answer : ExecAnswer) (w : ℕ) (ws : List ℕ) (s : List (ℕ × ExecAnswer))
    → map (λ x. x.0) (s ++ ((w, answer) ∷ [])) ++ ws ≡ map (λ x. x.0) s ++ (w ∷ ws)
first_settles answer w ws [] = refl
first_settles answer w ws (x ∷ s) = ap (λ r. x.0 ∷ r) (first_settles answer w ws s)

all_settle :
    (message : Text) (ws : List ℕ) (s : List (ℕ × ExecAnswer))
    → map (λ x. x.0) (s ++ map (λ w. (w, refused message)) ws) ++ [] ≡ map (λ x. x.0) s ++ ws
all_settle message [] [] = refl
all_settle message (w ∷ ws) [] = ap (λ r. w ∷ r) (all_settle message ws [])
all_settle message ws (x ∷ s) = ap (λ r. x.0 ∷ r) (all_settle message ws s)

settle_first-Keeps :
    (answer : ExecAnswer) (ws : List ℕ) (t : Transport)
    → t.waiters ≡ ws
    → Keeps t (settle_first answer ws t)
settle_first-Keeps answer [] t e = (refl, refl)
settle_first-Keeps answer (w ∷ ws) t e =
    (first_settles answer w ws t.settled ∙ ap (λ r. map (λ x. x.0) t.settled ++ r) (sym e), refl)

reject_exec-Keeps : (message : Text) (t : Transport) → Keeps t (reject_exec message t)
unfolding reject_exec
reject_exec-Keeps message t = (all_settle message t.waiters t.settled, refl)

send_over-Keeps :
    (state : Option SocketState) (m : ClientMessage) (t : Transport) → Keeps t (send_over state m t)
unfolding send_over reject_exec
send_over-Keeps (some is_open) m t = (refl, refl)
send_over-Keeps (some connecting) m t = (refl, refl)
send_over-Keeps (some closing) m t = reject_exec-Keeps _ t
send_over-Keeps (some closed) m t = reject_exec-Keeps _ t
send_over-Keeps none m t = reject_exec-Keeps _ t

send-Keeps : (m : ClientMessage) (t : Transport) → Keeps t (send m t)
unfolding send
send-Keeps m t = send_over-Keeps (connect t).socket m (connect t)

handle_exec_event-Keeps : (e : ServerEvent) (t : Transport) → Keeps t (handle_exec_event e t)
unfolding handle_exec_event
handle_exec_event-Keeps (exec_done d) t =
    settle_first-Keeps (answered d) t.waiters
      (record t { exec_cwd = some d.cwd; exec_output = d.output }) refl
handle_exec_event-Keeps (exec_error message) t =
    settle_first-Keeps (refused message) t.waiters t refl
handle_exec_event-Keeps e t = (refl, refl)

on_message-Keeps : (e : ServerEvent) (t : Transport) → Keeps t (on_message e t)
unfolding on_message
on_message-Keeps (ready r) t =
    handle_exec_event-Keeps (ready r) (record t { exec_cwd = some r.cwd })
on_message-Keeps e t = handle_exec_event-Keeps e t

hand_over-Keeps :
    (state : Option SocketState) (m : ClientMessage) (t : Transport) → Keeps t (hand_over state m t)
hand_over-Keeps (some is_open) m t = (refl, refl)
hand_over-Keeps state m t = (refl, refl)

on_close-Keeps : (t : Transport) → Keeps t (on_close t)
unfolding on_close
on_close-Keeps t = reject_exec-Keeps _ (record t { socket = none; connected = false })

with_socket-Keeps :
    (f : Transport → Transport) (state : Option SocketState) (t : Transport)
    → Keeps t (f t)
    → Keeps t (with_socket f state t)
with_socket-Keeps f none t h = (refl, refl)
with_socket-Keeps f (some state) t h = h

abbrev pub IsOrdered : Transport → Type 0
IsOrdered t = tickets_of t ≡ tickets t.issued

kept-IsOrdered : (t u : Transport) → IsOrdered t → Keeps t u → IsOrdered u
kept-IsOrdered t u h k = k.0 ∙ h ∙ ap tickets (sym k.1)

with_socket-IsOrdered :
    (f : Transport → Transport) (t : Transport)
    → IsOrdered t
    → Keeps t (f t)
    → IsOrdered (with_socket f t.socket t)
with_socket-IsOrdered f t h k =
    kept-IsOrdered t (with_socket f t.socket t) h (with_socket-Keeps f t.socket t k)

exec-IsOrdered : (s : Text) (t : Transport) → IsOrdered t → IsOrdered (exec s t)
unfolding exec tickets
exec-IsOrdered s t h =
    let u = record t {
      exec_output = [];
      waiters = t.waiters ++ (t.issued ∷ []);
      issued = suc t.issued;
    } in
    let ordered : IsOrdered u =
      sym (append_assoc (map (λ x. x.0) t.settled) t.waiters (t.issued ∷ []))
      ∙ ap (λ r. r ++ (t.issued ∷ [])) h in
    kept-IsOrdered u (exec s t) ordered (send-Keeps (command s) u)

on_open-Keeps : (t : Transport) → Keeps t (on_open t)
unfolding on_open
on_open-Keeps t = (refl, refl)

reset_transport-IsOrdered : (t : Transport) → IsOrdered t → IsOrdered (reset_transport t)
unfolding reset_transport
reset_transport-IsOrdered t h = h

act_on-IsOrdered : (a : TransportAction) (t : Transport) → IsOrdered t → IsOrdered (act_on a t)
unfolding act_on
act_on-IsOrdered (call_exec s) t h = exec-IsOrdered s t h
act_on-IsOrdered call_connect t h = h
act_on-IsOrdered call_close t h = kept-IsOrdered t (on_close t) h (on_close-Keeps t)
act_on-IsOrdered call_reset_context t h = reset_transport-IsOrdered t h
act_on-IsOrdered call_interrupt t h = kept-IsOrdered t (send interrupt t) h (send-Keeps interrupt t)
act_on-IsOrdered call_interrupt_exec t h =
    kept-IsOrdered t (send command_interrupt t) h (send-Keeps command_interrupt t)
act_on-IsOrdered (call_send s) t h = kept-IsOrdered t (send (other s) t) h (send-Keeps (other s) t)
act_on-IsOrdered (call_hand_over s) t h =
    kept-IsOrdered t (hand_over t.socket (other s) t) h (hand_over-Keeps t.socket (other s) t)
act_on-IsOrdered opened t h = with_socket-IsOrdered on_open t h (on_open-Keeps t)
act_on-IsOrdered failed t h =
    with_socket-IsOrdered (reject_exec (codes "Agent Workspace could not reach the server.")) t h
      (reject_exec-Keeps _ t)
act_on-IsOrdered ended t h = with_socket-IsOrdered on_close t h (on_close-Keeps t)
act_on-IsOrdered starts_closing t h =
    with_socket-IsOrdered (λ u. record u { socket = some closing }) t h (refl, refl)
act_on-IsOrdered (received e) t h = with_socket-IsOrdered (on_message e) t h (on_message-Keeps e t)

-- From any state in which the calls of exec that are settled, followed by those that wait, are all
-- calls in the order in which they were made, every sequence of calls and socket events leads to
-- such a state again: no call is settled twice, before an earlier one, or lost.
pub act_on_all-IsOrdered :
    (as' : List TransportAction) (t : Transport) → IsOrdered t → IsOrdered (act_on_all as' t)
unfolding act_on_all
act_on_all-IsOrdered [] t h = h
act_on_all-IsOrdered (a ∷ as') t h = act_on_all-IsOrdered as' (act_on a t) (act_on-IsOrdered a t h)
