-- ===== src/Turn/Keeping.antt =====
-- src/agent/turn.ts: what a turn keeps while events arrive.
use mathlib.Core.Option
use jupyter_plugin_aitermina.Base.{
  List, All, ◌≡◌, ◌∷◌, some, true, Bool-cases, Option-cases, inl, inr, true-ne-false, none, sym, [],
  refl, Bool, ◌∙◌, ◌≤◌, ap, false, subst, arith,
}
use jupyter_plugin_aitermina.Turn.{
  ChatTurn, TurnStatus, turn_error, turn_interrupted, turn_running, turn_done, turn_unchecked,
}
use jupyter_plugin_aitermina.Protocol.{
  text, ChatBlock, ServerEvent, result, thinking, tool_start, tool_end, install, denied, ready,
  accepted, exec_output, exec_done, exec_error, configuration, unexpected, configuration_error,
}
use jupyter_plugin_aitermina.Turn.Deriving.{
  apply_turn_event, derive_turn, resume_status, turn_of_event, is_of_other_turn, event_turn_id,
}
use jupyter_plugin_aitermina.ToolPresenter.Formats.{Doubles}

-- A sequence of events of any turns, each with the blocks as they are after it.
unfoldable pub apply_turn_events :
    Doubles → ChatTurn → List (List ChatBlock × ServerEvent) → ChatTurn
unfolding apply_turn_event
apply_turn_events doubles t [] = t
apply_turn_events doubles t ((blocks, e) ∷ rest) =
    apply_turn_events doubles (apply_turn_event doubles t blocks e) rest

abbrev pub is_result : ServerEvent → Bool
is_result (result turn r) = true
is_result e = false

abbrev pub is_over : TurnStatus → Bool
is_over turn_error = true
is_over turn_interrupted = true
is_over s = false

-- What a turn keeps while no result arrives.
abbrev pub KeepsResult : ChatTurn → ChatTurn → Type 0
KeepsResult t u =
    (u.id ≡ t.id)
    × (u.result_text ≡ t.result_text)
    × (u.terminal_reason ≡ t.terminal_reason)
    × (u.presentation ≡ t.presentation)
    × (t.revision ≤ u.revision)
    × (is_over t.status ≡ true → is_over u.status ≡ true)

KeepsResult-refl : (t : ChatTurn) → KeepsResult t t
KeepsResult-refl t = (refl, refl, refl, refl, omega arith, λ h. h)

KeepsResult-trans : (t u v : ChatTurn) → KeepsResult t u → KeepsResult u v → KeepsResult t v
KeepsResult-trans t u v (a, b, c, d, e, f) (a', b', c', d', e', f') =
    (a' ∙ a, b' ∙ b, c' ∙ c, d' ∙ d, omega arith, λ h. f' (f h))

resume_status-is_over : (s : TurnStatus) → is_over s ≡ true → is_over (resume_status s) ≡ true
unfolding resume_status
resume_status-is_over turn_error h = refl
resume_status-is_over turn_interrupted h = refl
resume_status-is_over turn_running h = h
resume_status-is_over turn_done h = h
resume_status-is_over (turn_unchecked v) h = absurd (true-ne-false (sym h))

resumed : (t : ChatTurn) → KeepsResult t (record t { status = resume_status t.status })
resumed t = (refl, refl, refl, refl, omega arith, resume_status-is_over t.status)

kept :
    (e : ServerEvent) (t : ChatTurn)
    → is_result e ≡ false
    → KeepsResult t (Option.get_or (turn_of_event e t) t)
unfolding turn_of_event
kept (result turn r) t h = absurd (true-ne-false h)
kept (ServerEvent.error turn code message) t h = (refl, refl, refl, refl, omega arith, λ k. refl)
kept (text turn message s) t h = resumed t
kept (thinking turn id s) t h = resumed t
kept (tool_start turn s) t h = resumed t
kept (tool_end turn s) t h = resumed t
kept (install turn id s d) t h = resumed t
kept (denied turn c r) t h = resumed t
kept (ready r) t h = KeepsResult-refl t
kept (accepted turn k) t h = KeepsResult-refl t
kept (exec_output s) t h = KeepsResult-refl t
kept (exec_done d) t h = KeepsResult-refl t
kept (exec_error s) t h = KeepsResult-refl t
kept (configuration v) t h = KeepsResult-refl t
kept configuration_error t h = KeepsResult-refl t
kept (unexpected turn) t h = KeepsResult-refl t

turn_of_event-keeps :
    (e : ServerEvent) (t next : ChatTurn)
    → is_result e ≡ false
    → turn_of_event e t ≡ some next
    → KeepsResult t next
turn_of_event-keeps e t next h k =
    subst (KeepsResult t) (ap (λ o. Option.get_or o t) k) (kept e t h)

module _ (doubles : Doubles) where
  module _ (t : ChatTurn) (blocks : List ChatBlock) (e : ServerEvent) where
    apply_other :
        is_of_other_turn (event_turn_id e) t ≡ true → apply_turn_event doubles t blocks e ≡ t
    unfolding apply_turn_event
    apply_other k = rw k refl

    apply_none :
        is_of_other_turn (event_turn_id e) t ≡ false
        → turn_of_event e t ≡ none
        → apply_turn_event doubles t blocks e ≡ t
    unfolding apply_turn_event
    apply_none k j = rw k (rw j refl)

    apply_some :
        (next : ChatTurn)
        → is_of_other_turn (event_turn_id e) t ≡ false
        → turn_of_event e t ≡ some next
        → apply_turn_event doubles t blocks e ≡ derive_turn doubles next blocks
    unfolding apply_turn_event
    apply_some next k j = rw k (rw j refl)

  derive_turn-keeps :
      (t next : ChatTurn) (blocks : List ChatBlock)
      → KeepsResult t next
      → KeepsResult t (derive_turn doubles next blocks)
  unfolding derive_turn
  derive_turn-keeps t next blocks (a, b, c, d, f, g) = (a, b, c, d, omega arith, g)

  apply_turn_event-keeps :
      (t : ChatTurn) (blocks : List ChatBlock) (e : ServerEvent)
      → is_result e ≡ false
      → KeepsResult t (apply_turn_event doubles t blocks e)
  apply_turn_event-keeps t blocks e h = elim (Bool-cases (is_of_other_turn (event_turn_id e) t)) [
    | inl k ↦ subst (KeepsResult t) (sym (apply_other t blocks e k)) (KeepsResult-refl t)
    | inr k ↦ elim (Option-cases (turn_of_event e t)) [
      | inl j ↦ subst (KeepsResult t) (sym (apply_none t blocks e k j)) (KeepsResult-refl t)
      | inr (next, j) ↦
          subst (KeepsResult t) (sym (apply_some t blocks e next k j))
            (derive_turn-keeps t next blocks (turn_of_event-keeps e t next h j))
    ]
  ]

  -- While no result arrives, whatever else the server sends, to this turn or another, a turn keeps its
  -- result text, its reason and the user's switches, its revision does not fall, and it does not run
  -- again once it has failed or was interrupted.
  pub apply_turn_events-keeps :
      (t : ChatTurn) (events : List (List ChatBlock × ServerEvent))
      → All (λ e. is_result e.1 ≡ false) events
      → KeepsResult t (apply_turn_events doubles t events)
  unfolding apply_turn_events
  apply_turn_events-keeps t [] h = KeepsResult-refl t
  apply_turn_events-keeps t ((blocks, e) ∷ rest) (p, h) =
      KeepsResult-trans t (apply_turn_event doubles t blocks e)
        (apply_turn_events doubles (apply_turn_event doubles t blocks e) rest)
        (apply_turn_event-keeps t blocks e p)
        (apply_turn_events-keeps (apply_turn_event doubles t blocks e) rest h)
