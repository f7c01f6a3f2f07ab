-- ===== src/Session/Commands.antt =====
-- src/agent/session.ts: what AgentSession sends over its socket, and the commands of exec that wait
-- for their answer.
pub mod Order
pub mod Stale
mod Tests
use mathlib.Core.Option
use jupyter_plugin_aitermina.Base.{
  Text, Option, none, List, some, codes, Bool, false, ℕ, [], true, ◌++◌, ◌∷◌, map, ◌+◌, suc,
}
use jupyter_plugin_aitermina.Protocol.{
  ExecDone, ServerEvent, exec_output, exec_done, exec_error, ready,
}

-- `readyState`
pub data SocketState : Type 0 where
  connecting is_open closing closed : SocketState

-- A message to the server. `other` is a message of another method, such as sendUser.
pub data ClientMessage : Type 0 where
  command : Text → ClientMessage
  command_interrupt interrupt shutdown : ClientMessage
  other : Text → ClientMessage

-- How a promise of exec is settled.
pub data ExecAnswer : Type 0 where
  answered : ExecDone → ExecAnswer
  refused : Text → ExecAnswer

-- The fields that have to do with sending and with exec. A promise of exec is the number of its
-- call. `sent` and `settled` are what is observed: the messages that a socket was handed, and the
-- promises in the order in which they were settled.
pub record Transport : Type 0 where
  pub socket : Option SocketState
  pub connected : Bool
  pub pending : List ClientMessage
  pub sent : List ClientMessage
  pub waiters : List ℕ
  pub issued : ℕ
  pub settled : List (ℕ × ExecAnswer)
  pub exec_output : Text
  pub exec_cwd : Option Text

abbrev pub fresh_transport : Transport
fresh_transport = record {
  socket = none;
  connected = false;
  pending = [];
  sent = [];
  waiters = [];
  issued = 0;
  settled = [];
  exec_output = [];
  exec_cwd = none;
}

-- `this.execWaiters.shift()` and its settlement.
abbrev pub settle_first : ExecAnswer → List ℕ → Transport → Transport
settle_first answer [] t = t
settle_first answer (w ∷ ws) t = record t {
  waiters = ws;
  settled = t.settled ++ ((w, answer) ∷ []);
}

unfoldable pub reject_exec : Text → Transport → Transport
reject_exec message t = record t {
  waiters = [];
  settled = t.settled ++ map (λ w. (w, refused message)) t.waiters;
}

-- A new socket is connecting.
abbrev pub connect : Transport → Transport
connect t = record t { socket = some (Option.get_or t.socket connecting) }

unfoldable pub send_over : Option SocketState → ClientMessage → Transport → Transport
unfolding reject_exec
send_over (some is_open) m t = record t { sent = t.sent ++ (m ∷ []) }
send_over (some connecting) m t = record t { pending = t.pending ++ (m ∷ []) }
send_over state m t = reject_exec (codes "Agent session is not connected.") t

unfoldable pub send : ClientMessage → Transport → Transport
unfolding send_over
send m t = send_over (connect t).socket m (connect t)

unfoldable pub exec : Text → Transport → Transport
unfolding send
exec text t =
    send (command text)
      (record t { exec_output = []; waiters = t.waiters ++ (t.issued ∷ []); issued = suc t.issued })

unfoldable pub handle_exec_event : ServerEvent → Transport → Transport
handle_exec_event (exec_output text) t = record t { exec_output = t.exec_output ++ text }
handle_exec_event (exec_done d) t =
    settle_first (answered d) t.waiters (record t { exec_cwd = some d.cwd; exec_output = d.output })
handle_exec_event (exec_error message) t = settle_first (refused message) t.waiters t
handle_exec_event e t = t

abbrev pub take_ready : ServerEvent → Transport → Transport
take_ready (ready r) t = record t { exec_cwd = some r.cwd }
take_ready e t = t

-- `onmessage`, for an event of the server.
unfoldable pub on_message : ServerEvent → Transport → Transport
unfolding handle_exec_event
on_message e t = handle_exec_event e (take_ready e t)

-- A message that is sent only over an open socket and never queued, as requestConfiguration and
-- resolveInteraction do.
abbrev pub hand_over : Option SocketState → ClientMessage → Transport → Transport
hand_over (some is_open) m t = record t { sent = t.sent ++ (m ∷ []) }
hand_over state m t = t

-- `onopen`
unfoldable pub on_open : Transport → Transport
on_open t = record t {
  socket = some is_open;
  connected = true;
  sent = t.sent ++ t.pending;
  pending = [];
}

-- `onclose`, and the effect of `close` on these fields.
unfoldable pub on_close : Transport → Transport
unfolding reject_exec
on_close t =
    reject_exec (codes "Agent session closed.") (record t { socket = none; connected = false })

abbrev pub farewell : Option SocketState → List ClientMessage
farewell (some is_open) = shutdown ∷ []
farewell state = []

unfoldable pub reset_transport : Transport → Transport
reset_transport t = record t {
  socket = some connecting;
  connected = false;
  sent = t.sent ++ farewell t.socket;
  pending = [];
}

-- The methods and the events of the current socket. What an earlier socket says is dropped.
pub data TransportAction : Type 0 where
  call_connect call_close call_reset_context call_interrupt call_interrupt_exec : TransportAction
  call_exec : Text → TransportAction
  call_send call_hand_over : Text → TransportAction
  opened failed ended starts_closing : TransportAction
  received : ServerEvent → TransportAction

-- An event of a socket needs a socket.
abbrev pub with_socket : (Transport → Transport) → Option SocketState → Transport → Transport
with_socket f none t = t
with_socket f (some state) t = f t

unfoldable pub act_on : TransportAction → Transport → Transport
unfolding send exec on_message on_open on_close reset_transport reject_exec
act_on call_connect t = connect t
act_on call_close t = on_close t
act_on call_reset_context t = reset_transport t
act_on call_interrupt t = send interrupt t
act_on call_interrupt_exec t = send command_interrupt t
act_on (call_exec s) t = exec s t
act_on (call_send s) t = send (other s) t
act_on (call_hand_over s) t = hand_over t.socket (other s) t
act_on opened t = with_socket on_open t.socket t
act_on failed t =
    with_socket (reject_exec (codes "Agent Workspace could not reach the server.")) t.socket t
act_on ended t = with_socket on_close t.socket t
act_on starts_closing t = with_socket (λ u. record u { socket = some closing }) t.socket t
act_on (received e) t = with_socket (on_message e) t.socket t

unfoldable pub act_on_all : List TransportAction → Transport → Transport
unfolding act_on
act_on_all [] t = t
act_on_all (a ∷ as') t = act_on_all as' (act_on a t)
