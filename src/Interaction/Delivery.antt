-- ===== src/Interaction/Delivery.antt =====
-- src/agent/interaction.ts: how often an entry hands a decision to the host, and what a terminal
-- entry still does.
use jupyter_plugin_aitermina.Interaction.Entries.{
  Entry, submit, after_host, react, react_all, may_submit, mark_awaiting, EntryEvent, fail, submits,
  HostAnswer, resolve, confirms, cancel, fails, threw, resolves, returned, cancels, promised,
}
use jupyter_plugin_aitermina.Base.{
  Bool, Option, List, length, ◌&&◌, ◌≡◌, not, [], some, true, ◌≤◌, false, none, Bool-cases, arith,
  ◌∷◌, Option-cases, refl, ◌||◌, inl, inr,
}
use jupyter_plugin_aitermina.Protocol.Dsh.{CapabilityManifest}
use jupyter_plugin_aitermina.Interaction.{
  InteractionInput, is_terminal, phase_sending, capability_block_message,
  validate_interaction_resolution,
}

-- No decision is taken any more.
abbrev pub IsLocked : Entry → Type 0
IsLocked e = (may_submit e.phase && not e.delivery_unknown) ≡ false

-- A submission that is refused at the entry's state.
submit_locked :
    (disposed : Bool) (m : CapabilityManifest) (raw : InteractionInput) (a : HostAnswer) (e : Entry)
    → IsLocked e
    → submit disposed m raw a e ≡ (e, none)
unfolding submit
submit_locked disposed m raw a e h = ground arith

after_host-IsLocked :
    (a : HostAnswer) (e : Entry) → e.phase ≡ phase_sending → IsLocked (after_host a e)
unfolding after_host mark_awaiting fail
after_host-IsLocked (threw message) e h = ground arith
after_host-IsLocked returned e h = ground arith
after_host-IsLocked promised e h = rw h refl

abbrev pub IsSent : Entry × Option InteractionInput → Type 0
IsSent (e, none) = Unit
IsSent (e, some i) = IsLocked e

-- An entry that has handed over a decision is locked.
submit-IsSent :
    (disposed : Bool) (m : CapabilityManifest) (raw : InteractionInput) (a : HostAnswer) (e : Entry)
    → IsSent (submit disposed m raw a e)
unfolding submit
submit-IsSent disposed m raw a e =
    elim (Bool-cases (disposed || e.delivery_unknown || not (may_submit e.phase))) [
      | inl k ↦ rw k tt
      | inr k ↦ elim (Option-cases (capability_block_message m e.request.kind)) [
        | inr (message, b) ↦ rw (k, b) tt
        | inl b ↦ elim (Option-cases (validate_interaction_resolution e.request raw)) [
          | inr (message, v) ↦ rw (k, b, v) tt
          | inl v ↦ rw (k, b, v) (after_host-IsLocked a _ refl)
        ]
      ]
    ]

-- A locked entry stays locked, whatever happens, and hands nothing over.
react-IsLocked :
    (v : EntryEvent) (e : Entry) → IsLocked e → IsLocked (react v e).0 × ((react v e).1 ≡ none)
unfolding react mark_awaiting fail resolve cancel
react-IsLocked (submits disposed m raw a) e h = rw (submit_locked disposed m raw a e h) (h, refl)
react-IsLocked (confirms disposed) e h = ground arith
react-IsLocked (fails disposed message) e h = ground arith
react-IsLocked (resolves r) e h = ground arith
react-IsLocked cancels e h = ground arith

react-IsSent : (v : EntryEvent) (e : Entry) → IsSent (react v e)
unfolding react
react-IsSent (submits disposed m raw a) e = submit-IsSent disposed m raw a e
react-IsSent (confirms disposed) e = tt
react-IsSent (fails disposed message) e = tt
react-IsSent (resolves r) e = tt
react-IsSent cancels e = tt

silent : (vs : List EntryEvent) (e : Entry) → IsLocked e → (react_all vs e).1 ≡ []
unfolding react_all
silent [] e h = refl
silent (v ∷ vs) e h =
    let (locked, nothing) = react-IsLocked v e h in rw nothing (silent vs (react v e).0 locked)

sent-IsLocked :
    (r : Entry × Option InteractionInput) (i : InteractionInput)
    → r.1 ≡ some i
    → IsSent r
    → IsLocked r.0
sent-IsLocked (e, none) i k h = cc
sent-IsLocked (e, some j) i k h = h

react_terminal : (v : EntryEvent) (e : Entry) → is_terminal e.phase ≡ true → react v e ≡ (e, none)
unfolding react mark_awaiting fail resolve cancel
react_terminal (submits disposed m raw a) e h = submit_locked disposed m raw a e (ground arith)
react_terminal (confirms disposed) e h = ground arith
react_terminal (fails disposed message) e h = ground arith
react_terminal (resolves r) e h = ground arith
react_terminal cancels e h = ground arith

-- Whatever happens to an entry, in any order and with any answers of the host, the host is handed at
-- most one decision.
pub delivered_at_most_once : (vs : List EntryEvent) (e : Entry) → length (react_all vs e).1 ≤ 1
unfolding react_all
delivered_at_most_once [] e = omega arith
delivered_at_most_once (v ∷ vs) e = elim (Option-cases (react v e).1) [
  | inl k ↦ rw k (delivered_at_most_once vs (react v e).0)
  | inr (i, k) ↦
      let locked = sent-IsLocked (react v e) i k (react-IsSent v e) in
      rw k (rw (silent vs (react v e).0 locked) (omega arith))
]

-- A resolved or cancelled request is never reopened: nothing changes it, and nothing is handed over.
pub terminal_stays :
    (vs : List EntryEvent) (e : Entry) → is_terminal e.phase ≡ true → react_all vs e ≡ (e, [])
unfolding react_all
terminal_stays [] e h = refl
terminal_stays (v ∷ vs) e h = rw (react_terminal v e h) (rw (terminal_stays vs e h) refl)
