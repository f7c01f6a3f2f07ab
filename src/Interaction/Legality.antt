-- ===== src/Interaction/Legality.antt =====
-- src/agent/interaction.ts: every decision that the host is handed is one that the request allows.
use jupyter_plugin_aitermina.Interaction.{
  InteractionInput, validate_approval, validate_question, validate_interaction_resolution,
  normalize_resolution, truthy_of, approval_allow_once_option_id, trimmed,
  approval_reject_option_id, options_of, validate_kind, capability_block_message, allows_text,
}
use jupyter_plugin_aitermina.Protocol.Dsh.{
  Request, InteractionKind, approval, CapabilityManifest, question, InteractionOption,
}
use jupyter_plugin_aitermina.Base.{
  Option, Text, is_some, Bool, List, some, ◌≡◌, none, trim, any, arith, Bool-cases, All, ◌&&◌,
  truthy, trim_idem, ◌⊎◌, ◌∷◌, ◌||◌, text_eq, false, not, subst, inl, refl, ap, inr, Option-cases,
  true, text_eq_iff, [], ◌≢◌,
}
use jupyter_plugin_aitermina.Interaction.Entries.{
  submit, react, after_host, react_all, EntryEvent, mark_awaiting, Entry, fail, HostAnswer, resolve,
  submits, cancel, confirms, threw, fails, returned, may_submit, resolves, promised, cancels,
}

-- Allow once or reject, without a text.
abbrev pub LegalApproval : InteractionInput → Type 0
LegalApproval i =
    (i.text ≡ none)
    × ((i.option_id ≡ some approval_allow_once_option_id)
        ⊎ (i.option_id ≡ some approval_reject_option_id))

-- One of the options without a text, or, where free text is allowed, a trimmed text that is not empty.
abbrev pub LegalAnswer : Request → InteractionInput → Type 0
LegalAnswer r i =
    ((i.text ≡ none)
      × (o : Text) × (i.option_id ≡ some o)
      × (any (λ (p : InteractionOption). text_eq p.id o) (options_of r) ≡ true))
    ⊎ ((i.option_id ≡ none)
        × (allows_text r ≡ true)
        × (t : Text) × (i.text ≡ some t)
        × (trim t ≡ t)
        × (t ≢ []))

abbrev pub LegalFor : InteractionKind → Request → InteractionInput → Type 0
LegalFor approval r i = LegalApproval i
LegalFor question r i = LegalAnswer r i

abbrev pub IsLegal : Request → InteractionInput → Type 0
IsLegal r i = LegalFor r.kind r i

abbrev normal : Option Text → Text → InteractionInput
normal o t = record { option_id = truthy_of o; text = truthy_of (some t) }

approval-Legal :
    (o : Option Text) (t : Text) → validate_approval o t ≡ none → LegalApproval (normal o t)
unfolding validate_approval
approval-Legal none t h = absurd (ground arith)
approval-Legal (some s) (c ∷ t) h = cc
approval-Legal (some s) [] h = elim (Bool-cases (text_eq s approval_allow_once_option_id)) [
  | inl e ↦
      (refl, inl (ap (λ z. truthy_of (some z)) ((text_eq_iff s approval_allow_once_option_id).0 e)))
  | inr e ↦ elim (Bool-cases (text_eq s approval_reject_option_id)) [
    | inl k ↦
        (refl, inr (ap (λ z. truthy_of (some z)) ((text_eq_iff s approval_reject_option_id).0 k)))
    | inr k ↦ absurd (ground arith)
  ]
]

answer-Legal :
    (o : Option Text) (t : Text) (r : Request)
    → (is_some (truthy_of o) && truthy t) ≡ false
    → trim t ≡ t
    → validate_question (truthy_of o) t r ≡ none
    → LegalAnswer r (normal o t)
unfolding validate_question
answer-Legal none (c ∷ t) r b e h = inr (refl, ground arith, c ∷ t, refl, e, λ k. cc)
answer-Legal none [] r b e h = absurd (ground arith)
answer-Legal (some []) (c ∷ t) r b e h = inr (refl, ground arith, c ∷ t, refl, e, λ k. cc)
answer-Legal (some []) [] r b e h = absurd (ground arith)
answer-Legal (some (d ∷ s)) (c ∷ t) r b e h = cc
answer-Legal (some (d ∷ s)) [] r b e h = inl (refl, d ∷ s, refl, ground arith)

trim-trimmed : (t : Option Text) → trim (trimmed t) ≡ trimmed t
trim-trimmed none = unfold trim in refl
trim-trimmed (some s) = trim_idem s

kind-Legal :
    (kind : InteractionKind) (r : Request) (i : InteractionInput)
    → (is_some (truthy_of i.option_id) && truthy (trimmed i.text)) ≡ false
    → validate_kind kind i r ≡ none
    → LegalFor kind r (normal i.option_id (trimmed i.text))
kind-Legal approval r i b h = approval-Legal i.option_id (trimmed i.text) h
kind-Legal question r i b h = answer-Legal i.option_id (trimmed i.text) r b (trim-trimmed i.text) h

validate-IsLegal :
    (r : Request) (i : InteractionInput)
    → validate_interaction_resolution r i ≡ none
    → IsLegal r (normalize_resolution i)
unfolding validate_interaction_resolution normalize_resolution
validate-IsLegal r i h =
    elim (Bool-cases (is_some (truthy_of i.option_id) && truthy (trimmed i.text))) [
      | inl b ↦ absurd (ground arith)
      | inr b ↦ kind-Legal r.kind r i b (rw b at h)
    ]

abbrev IsLegalIf : Request → Option InteractionInput → Type 0
IsLegalIf r none = Unit
IsLegalIf r (some i) = IsLegal r i

submit-IsLegalIf :
    (disposed : Bool) (m : CapabilityManifest) (raw : InteractionInput) (a : HostAnswer) (e : Entry)
    → IsLegalIf e.request (submit disposed m raw a e).1
unfolding submit
submit-IsLegalIf disposed m raw a e =
    elim (Bool-cases (disposed || e.delivery_unknown || not (may_submit e.phase))) [
      | inl k ↦ rw k tt
      | inr k ↦ elim (Option-cases (capability_block_message m e.request.kind)) [
        | inr (message, b) ↦ rw (k, b) tt
        | inl b ↦ elim (Option-cases (validate_interaction_resolution e.request raw)) [
          | inr (message, v) ↦ rw (k, b, v) tt
          | inl v ↦ rw (k, b, v) (validate-IsLegal e.request raw v)
        ]
      ]
    ]

react-IsLegalIf : (v : EntryEvent) (e : Entry) → IsLegalIf e.request (react v e).1
unfolding react
react-IsLegalIf (submits disposed m raw a) e = submit-IsLegalIf disposed m raw a e
react-IsLegalIf (confirms disposed) e = tt
react-IsLegalIf (fails disposed message) e = tt
react-IsLegalIf (resolves r) e = tt
react-IsLegalIf cancels e = tt

after_host-request : (a : HostAnswer) (e : Entry) → (after_host a e).request ≡ e.request
unfolding after_host mark_awaiting fail
after_host-request (threw message) e = ground arith
after_host-request returned e = ground arith
after_host-request promised e = refl

react-request : (v : EntryEvent) (e : Entry) → (react v e).0.request ≡ e.request
unfolding react submit mark_awaiting fail resolve cancel
react-request (submits disposed m raw a) e = ground (arith, after_host-request a)
react-request (confirms disposed) e = ground arith
react-request (fails disposed message) e = ground arith
react-request (resolves r) e = ground arith
react-request cancels e = ground arith

-- Every decision that the host is handed is legal for the request: an approval is allow once or
-- reject without a text; an answer is one of the options without a text, or, where free text is
-- allowed, a trimmed text that is not empty.
pub delivered-IsLegal :
    (vs : List EntryEvent) (e : Entry) → All (IsLegal e.request) (react_all vs e).1
unfolding react_all
delivered-IsLegal [] e = tt
delivered-IsLegal (v ∷ vs) e =
    let rest =
      subst (λ r. All (IsLegal r) (react_all vs (react v e).0).1) (react-request v e)
        (delivered-IsLegal vs (react v e).0) in
    elim (Option-cases (react v e).1) [
      | inl k ↦ rw k rest
      | inr (i, k) ↦ rw k (rw k at (react-IsLegalIf v e), rest)
    ]
