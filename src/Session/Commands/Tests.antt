-- ===== src/Session/Commands/Tests.antt =====
-- src/agent/session.ts: commands at concrete sessions.
use jupyter_plugin_aitermina.Protocol.{ExecDone, exec_done, exec_error}
use jupyter_plugin_aitermina.Session.Commands.{
  Transport, act_on_all, connect, call_connect, call_exec, fresh_transport, opened, starts_closing,
  ended, received, refused, command, answered,
}
use jupyter_plugin_aitermina.Session.Commands.Order.{tickets, IsOrdered, act_on_all-IsOrdered}
use jupyter_plugin_aitermina.Base.{codes, map, ◌∷◌, [], ◌≡◌, refl}
use jupyter_plugin_aitermina.Json.{whole}
use jupyter_plugin_aitermina.Session.Commands.Stale.{stale_command_is_answered}

abbrev pwd_done : ExecDone
pwd_done = record { output = codes "/home"; returncode = whole 0; cwd = codes "/home" }

abbrev connecting_transport : Transport
connecting_transport = connect fresh_transport

-- Both commands wait for the socket; their answers come in order.
answers_in_order :
    map
      (λ x. x.0)
      (act_on_all
        (call_exec (codes "pwd")
          ∷ call_exec (codes "ls")
          ∷ opened
          ∷ received (exec_done pwd_done)
          ∷ received (exec_error (codes "no"))
          ∷ [])
        fresh_transport).settled
    ≡ 0 ∷ 1 ∷ []
unfolding act_on_all
answers_in_order = refl

-- A command that is called while the socket is closing is refused at once.
closing_refuses :
    (act_on_all
      (call_connect ∷ starts_closing ∷ call_exec (codes "pwd") ∷ [])
      fresh_transport).settled
    ≡ (0, refused (codes "Agent session is not connected.")) ∷ []
unfolding act_on_all
closing_refuses = refl

act_on_all-IsOrdered_example : IsOrdered (
    act_on_all
      (call_exec (codes "pwd") ∷ opened ∷ received (exec_done pwd_done) ∷ [])
      connecting_transport)
unfolding tickets
act_on_all-IsOrdered_example =
    act_on_all-IsOrdered (call_exec (codes "pwd") ∷ opened ∷ received (exec_done pwd_done) ∷ [])
      connecting_transport refl

stale_command_is_answered_example :
    let u =
      act_on_all
        (call_exec (codes "ls")
          ∷ ended
          ∷ call_exec (codes "pwd")
          ∷ opened
          ∷ received (exec_done pwd_done)
          ∷ [])
        connecting_transport in
    (u.sent ≡ command (codes "ls") ∷ command (codes "pwd") ∷ [])
    × (u.settled ≡ (0, refused (codes "Agent session closed.")) ∷ (1, answered pwd_done) ∷ [])
    × (u.waiters ≡ [])
stale_command_is_answered_example =
    stale_command_is_answered connecting_transport (codes "ls") (codes "pwd") pwd_done refl refl
