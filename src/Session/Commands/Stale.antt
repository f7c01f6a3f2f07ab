-- ===== src/Session/Commands/Stale.antt =====
-- src/agent/session.ts: a message that stays in `pending` when its socket is closed.
use jupyter_plugin_aitermina.Session.Commands.{
  act_on_all, send, send_over, exec, on_close, on_open, reject_exec, handle_exec_event, act_on,
  Transport, connecting, call_exec, ended, opened, received, command, refused, answered, on_message,
}
use jupyter_plugin_aitermina.Base.{Text, ◌≡◌, some, [], ◌∷◌, ◌++◌, codes, suc, refl}
use jupyter_plugin_aitermina.Protocol.{ExecDone, exec_done}

-- When a socket is connecting and no other command waits, a command a whose socket ends before it
-- opens is refused and stays pending: when the next command b connects again both are sent, and the
-- first answer that arrives settles the promise of b.
pub stale_command_is_answered :
    (t : Transport) (a b : Text) (d : ExecDone)
    → t.socket ≡ some connecting
    → t.waiters ≡ []
    → let u =
        act_on_all (call_exec a ∷ ended ∷ call_exec b ∷ opened ∷ received (exec_done d) ∷ []) t in
      (u.sent ≡ t.sent ++ ((t.pending ++ (command a ∷ [])) ++ (command b ∷ [])))
      × (u.settled
          ≡ (t.settled ++ ((t.issued, refused (codes "Agent session closed.")) ∷ []))
            ++ ((suc t.issued, answered d) ∷ []))
      × (u.waiters ≡ [])
unfolding act_on_all send send_over exec on_close on_open reject_exec handle_exec_event on_message
    act_on
stale_command_is_answered t a b d h k = rw (h, k) (refl, refl, refl)
