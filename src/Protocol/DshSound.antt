-- ===== src/Protocol/DshSound.antt =====
-- src/agent/protocol.ts: what a consumer may rely on in a product event, and what the readers of its
-- fields guarantee.
use jupyter_plugin_aitermina.Base.{
  Text, Option, List, some, ◌≢◌, ◌∷◌, [], All, arith, none, ◌≡◌, true, false, ◌++◌, codes,
  text_eq_iff, All-append, sym, inr, ◌⊎◌, inl, refl, Option-cases,
}
use jupyter_plugin_aitermina.Protocol.Dsh.{
  InteractionOption, RunScope, SessionScope, ProductEvent, text_snapshot, text_delta, activity,
  artifact, interaction_requested, interaction_resolved, interaction_cancelled, run_started,
  run_finished, connection, session, capabilities, CapabilityManifest,
}
use jupyter_plugin_aitermina.Protocol.DshParse.{
  require_string, optional_string, optional_number, has_id, parse_options_from,
  parse_interaction_options, optional_options,
}
use jupyter_plugin_aitermina.Json.{
  Number, Value, Fields, is_finite, is_negative, arr, obj, null, Items, cons, nil, get,
}
use jupyter_plugin_aitermina.Protocol.DshEvents.{has_locator, run_scope, session_scope}

abbrev pub Full : Text → Type 0
Full s = s ≢ []

-- What holds of a value that is given.
abbrev pub HoldsIf : {A : Type 0} → (A → Type 0) → Option A → Type 0
HoldsIf P none = Unit
HoldsIf P (some a) = P a

abbrev pub FullIf : Option Text → Type 0
FullIf = HoldsIf Full

abbrev pub FullIfIf : Option (Option Text) → Type 0
FullIfIf = HoldsIf FullIf

abbrev pub Countable : Option Number → Type 0
Countable none = Unit
Countable (some n) = (is_finite n ≡ true) × (is_negative n ≡ false)

abbrev pub CountableIf : Option (Option Number) → Type 0
CountableIf = HoldsIf Countable

-- A choice list: not empty, with full ids and labels, no id twice.
abbrev pub DistinctIds : List InteractionOption → Type 0
DistinctIds [] = Unit
DistinctIds (o ∷ os) = All (λ p. p.id ≢ o.id) os × DistinctIds os

abbrev pub IsChoice : InteractionOption → Type 0
IsChoice o = Full o.id × Full o.label

abbrev pub ChoicesIf : Option (List InteractionOption) → Type 0
ChoicesIf none = Unit
ChoicesIf (some os) = (os ≢ []) × All IsChoice os × DistinctIds os

abbrev pub ChoicesIfIf : Option (Option (List InteractionOption)) → Type 0
ChoicesIfIf = HoldsIf ChoicesIf

abbrev pub IsScope : RunScope → Type 0
IsScope s = Full s.session_id × Full s.runtime_id × Full s.run_id

abbrev pub IsSessionScope : SessionScope → Type 0
IsSessionScope s = Full s.session_id × Full s.runtime_id

-- What a consumer may rely on in an event.
abbrev pub HaveFullReasons : CapabilityManifest → Type 0
HaveFullReasons = All λ entry. FullIf entry.1.reason

abbrev pub IsSound : ProductEvent → Type 0
IsSound (text_snapshot s run message text) =
    IsSessionScope s × FullIf run × Full message × Full text
IsSound (text_delta s message delta) = IsScope s × Full message × Full delta
IsSound (activity s a) =
    IsScope s
    × Full a.activity_id
    × FullIf a.tool_call_id
    × FullIf a.label
    × FullIf a.tool_name
    × FullIf a.output_summary
    × Countable a.duration_ms
IsSound (artifact s a) =
    IsScope s
    × Full a.artifact_id
    × FullIf a.name
    × FullIf a.uri
    × FullIf a.media_type
    × FullIf a.unavailable_reason
    × (has_locator a.phase a.uri a.unavailable_reason ≡ true)
IsSound (interaction_requested s r) =
    IsScope s
    × Full r.request_id
    × FullIf r.tool_call_id
    × Full r.prompt
    × ChoicesIf r.options
    × FullIf r.action
    × FullIf r.target
IsSound (interaction_resolved s id resolution) = IsScope s × Full id
IsSound (interaction_cancelled s id) = IsScope s × Full id
IsSound (run_started s) = IsScope s
IsSound (run_finished s status) = IsScope s
IsSound (connection runtime phase) = Full runtime
IsSound (session s phase) = IsSessionScope s
IsSound (capabilities runtime manifest) = Full runtime × HaveFullReasons manifest

abbrev pub SoundIf : Option ProductEvent → Type 0
SoundIf = HoldsIf IsSound

pub require_string-Full : (k : Text) (p : Fields) → FullIf (require_string k p)
unfolding require_string
require_string-Full k p = ground arith

pub optional_string-Full : (k : Text) (p : Fields) → FullIfIf (optional_string k p)
unfolding optional_string
optional_string-Full k p = ground arith

pub optional_number-Countable : (k : Text) (p : Fields) → CountableIf (optional_number k p)
unfolding optional_number
optional_number-Countable k p = ground arith

abbrev IsScopeIf : Option RunScope → Type 0
IsScopeIf = HoldsIf IsScope

abbrev IsSessionScopeIf : Option SessionScope → Type 0
IsSessionScopeIf = HoldsIf IsSessionScope

pub run_scope-IsScope : (p : Fields) → IsScopeIf (run_scope p)
unfolding run_scope
run_scope-IsScope p = ground (
  arith,
  require_string-Full (codes "sessionId") p,
  require_string-Full (codes "runtimeId") p,
  require_string-Full (codes "runId") p,
)

pub session_scope-IsSessionScope : (p : Fields) → IsSessionScopeIf (session_scope p)
unfolding session_scope
session_scope-IsSessionScope p =
    ground
      (arith, require_string-Full (codes "sessionId") p, require_string-Full (codes "runtimeId") p)

has_id-false :
    (id : Text) (os : List InteractionOption) → has_id id os ≡ false → All (λ o. o.id ≢ id) os
has_id-false id [] e = tt
has_id-false id (o ∷ os) e = ground (arith, has_id-false id os, text_eq_iff o.id id)

DistinctIds-append :
    (os : List InteractionOption) (o : InteractionOption)
    → DistinctIds os
    → All (λ p. p.id ≢ o.id) os
    → DistinctIds (os ++ o ∷ [])
DistinctIds-append [] o d h = (tt, tt)
DistinctIds-append (q ∷ os) o (a, d) (n, h) = (
  All-append (λ p. p.id ≢ q.id) os (o ∷ []) a ((λ e. n (sym e)), tt),
  DistinctIds-append os o d h,
)

append-ne-nil {ℓ} : {A : Type ℓ} (xs : List A) (x : A) → xs ++ x ∷ [] ≢ []
append-ne-nil [] x = λ e. cc
append-ne-nil (y ∷ xs) x = λ e. cc

parse_options_from-Choices :
    (os : List InteractionOption) (items : Items)
    → All IsChoice os
    → DistinctIds os
    → (os ≢ []) ⊎ (items ≢ nil)
    → ChoicesIf (parse_options_from os items)
unfolding parse_options_from
parse_options_from-Choices os nil a d (inl h) = (h, a, d)
parse_options_from-Choices os nil a d (inr h) = absurd (h refl)
parse_options_from-Choices os (cons (obj entry) items) a d h =
    elim (Option-cases (require_string (codes "id") entry)) [
      | inl e ↦ rw e tt
      | inr (id, e) ↦ elim (Option-cases (require_string (codes "label") entry)) [
        | inl k ↦ rw (e, k) tt
        | inr (label, k) ↦
            let o : InteractionOption = record { id = id; label = label } in
            let full : IsChoice o = (
              rw e at (require_string-Full (codes "id") entry),
              rw k at (require_string-Full (codes "label") entry),
            ) in
            rw (e, k)
              (ground (
                arith,
                has_id-false id os,
                parse_options_from-Choices (os ++ o ∷ []) items
                    (All-append IsChoice os (o ∷ []) a (full, tt)),
                DistinctIds-append os o d,
                append-ne-nil os o,
              ))
      ]
    ]
parse_options_from-Choices os (cons _ items) a d h = tt

parse_interaction_options-Choices : (v : Value) → ChoicesIf (parse_interaction_options v)
unfolding parse_interaction_options
parse_interaction_options-Choices (arr (cons v vs)) =
    parse_options_from-Choices [] (cons v vs) tt tt (inr (λ e. cc))
parse_interaction_options-Choices (arr nil) = tt
parse_interaction_options-Choices null = tt
parse_interaction_options-Choices _ = tt

pub optional_options-Choices : (p : Fields) → ChoicesIfIf (optional_options p)
unfolding optional_options
optional_options-Choices p = elim (Option-cases (get (codes "options") p)) [
  | inl e ↦ rw (e, optional_options) tt
  | inr (v, e) ↦ rw (e, optional_options) (ground (arith, parse_interaction_options-Choices v))
]
