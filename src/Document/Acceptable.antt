-- ===== src/Document/Acceptable.antt =====
-- src/agent/document.ts: the references and session ids that are read are acceptable ones.
use jupyter_plugin_aitermina.Base.{
  Option, Text, Bool, map, Bool-cases, some, length, ◌≡◌, if◌then◌else◌, true, none, inl, ◌∷◌, ◌==◌,
  arith, inr, ◌&&◌, false, ap, length-map, ◌∙◌, [], refl, codes,
}
use jupyter_plugin_aitermina.Document.References.{
  normalize_agent_session_reference, normalize_session_text, normalize_agent_session_id,
  reference_of, is_acceptable, reference_of_value, to_lower, matches_uuid, is_dsh,
}
use jupyter_plugin_aitermina.Document.{AgentSessionReference}
use jupyter_plugin_aitermina.Json.{Value, bool, num, str, arr, obj, null, get}

abbrev pub IsReference : Option AgentSessionReference → Type 0
IsReference none = Unit
IsReference (some r) = is_acceptable r.session_id ≡ true

abbrev pub IsSession : Option Text → Type 0
IsSession none = Unit
IsSession (some s) = normalize_session_text s ≡ some s

reference_of-IsReference : (id : Text) → IsReference (reference_of id)
reference_of-IsReference id = elim (Bool-cases (is_acceptable id)) [
  | inl e ↦ rw e e
  | inr e ↦ rw e tt
]

reference_of_value-IsReference : (v : Option Value) → IsReference (reference_of_value v)
reference_of_value-IsReference none = tt
reference_of_value-IsReference (some null) = tt
reference_of_value-IsReference (some (bool b)) = tt
reference_of_value-IsReference (some (num n)) = tt
reference_of_value-IsReference (some (str id)) = reference_of-IsReference id
reference_of_value-IsReference (some (arr items)) = tt
reference_of_value-IsReference (some (obj fields)) = tt

pub if-IsReference :
    (b : Bool) (r : Option AgentSessionReference)
    → IsReference r
    → IsReference (if b then r else none)
if-IsReference true r h = h
if-IsReference false r h = tt

pub normalize_agent_session_reference-IsReference :
    (v : Option Value) → IsReference (normalize_agent_session_reference v)
unfolding normalize_agent_session_reference
normalize_agent_session_reference-IsReference none = tt
normalize_agent_session_reference-IsReference (some null) = tt
normalize_agent_session_reference-IsReference (some (bool b)) = tt
normalize_agent_session_reference-IsReference (some (num n)) = tt
normalize_agent_session_reference-IsReference (some (str id)) = tt
normalize_agent_session_reference-IsReference (some (arr items)) = tt
normalize_agent_session_reference-IsReference (some (obj fields)) =
    if-IsReference (is_dsh (get (codes "engine") fields)) _
      (reference_of_value-IsReference (get (codes "sessionId") fields))

to_lower_idem : (s : Text) → map to_lower (map to_lower s) ≡ map to_lower s
to_lower_idem [] = refl
to_lower_idem (c ∷ s) =
    let here : to_lower (to_lower c) ≡ to_lower c = ground arith in
    ap (λ d. d ∷ map to_lower (map to_lower s)) here ∙ ap (◌∷◌ (to_lower c)) (to_lower_idem s)

normalize_session_text-IsSession : (s : Text) → IsSession (normalize_session_text s)
unfolding normalize_session_text
normalize_session_text-IsSession s =
    elim (Bool-cases (length s == 36 && matches_uuid 0 (map to_lower s))) [
      | inl e ↦
          let again : (length (map to_lower s) == 36
                && matches_uuid 0 (map to_lower (map to_lower s)))
              ≡ true =
            ap (λ n. n == 36 && matches_uuid 0 (map to_lower (map to_lower s)))
              (length-map to_lower s)
            ∙ ap (λ t. length s == 36 && matches_uuid 0 t) (to_lower_idem s)
            ∙ e in
          rw e (rw again (ap some (to_lower_idem s)))
      | inr e ↦ rw e tt
    ]

pub normalize_agent_session_id-IsSession :
    (v : Option Value) → IsSession (normalize_agent_session_id v)
unfolding normalize_agent_session_id
normalize_agent_session_id-IsSession none = tt
normalize_agent_session_id-IsSession (some null) = tt
normalize_agent_session_id-IsSession (some (bool b)) = tt
normalize_agent_session_id-IsSession (some (num n)) = tt
normalize_agent_session_id-IsSession (some (str s)) = normalize_session_text-IsSession s
normalize_agent_session_id-IsSession (some (arr items)) = tt
normalize_agent_session_id-IsSession (some (obj fields)) = tt
