-- ===== src/Interaction/Requests.antt =====
-- src/agent/interaction.ts: repeated requests and the keys of the entries.
use jupyter_plugin_aitermina.Interaction.Entries.{Entry, new_entry}
use jupyter_plugin_aitermina.Interaction.Coordinator.{
  handle_requested, InteractionCoordinator, has_key,
}
use jupyter_plugin_aitermina.Base.{
  Text, Bool, All, ◌++◌, List, ◌≢◌, ◌≡◌, ◌∷◌, find, Bool-cases, none, inl, true, inr, [],
  Option-cases, some, refl, arith, Option, false, subst, text_eq_refl,
}
use jupyter_plugin_aitermina.Protocol.Dsh.{RunScope, Request}
use jupyter_plugin_aitermina.Interaction.{interaction_key}

find-snoc :
    (p : Entry → Bool) (es : List Entry) (e : Entry)
    → find p es ≡ none
    → p e ≡ true
    → find p (es ++ e ∷ []) ≡ some e
find-snoc p [] e h k = rw k
find-snoc p (d ∷ es) e h k = ground (arith, find-snoc p es e)

abbrev entry_for : RunScope → Text → InteractionCoordinator → Option Entry
entry_for scope id c = find (has_key (interaction_key scope id)) c.entries

requested_disposed :
    (scope : RunScope) (r : Request) (c : InteractionCoordinator)
    → c.disposed ≡ true
    → handle_requested scope r c ≡ (c, none)
unfolding handle_requested
requested_disposed scope r c d = ground arith

requested_old :
    (scope : RunScope) (r : Request) (c : InteractionCoordinator) (e : Entry)
    → c.disposed ≡ false
    → entry_for scope r.request_id c ≡ some e
    → handle_requested scope r c ≡ (c, some e)
unfolding handle_requested
requested_old scope r c e d k = ground arith

requested_new :
    (scope : RunScope) (r : Request) (c : InteractionCoordinator)
    → c.disposed ≡ false
    → entry_for scope r.request_id c ≡ none
    → handle_requested scope r c
      ≡ (record c { entries = c.entries ++ new_entry scope r ∷ [] }, some (new_entry scope r))
unfolding handle_requested
requested_new scope r c d k = ground arith

-- A request that is repeated, whatever it says the second time, changes nothing and gives the entry
-- that the first one gave.
pub repeated_request :
    (scope : RunScope) (r s : Request) (c : InteractionCoordinator)
    → r.request_id ≡ s.request_id
    → handle_requested scope s (handle_requested scope r c).0 ≡ handle_requested scope r c
repeated_request scope r s c same = elim (Bool-cases c.disposed) [
  | inl d ↦ rw (requested_disposed scope r c d) (requested_disposed scope s c d)
  | inr d ↦ elim (Option-cases (entry_for scope r.request_id c)) [
    | inr (e, k) ↦
        let again = subst (λ id. entry_for scope id c ≡ some e) same k in
        rw (requested_old scope r c e d k) (requested_old scope s c e d again)
    | inl k ↦
        let e = new_entry scope r in
        let m = record c { entries = c.entries ++ e ∷ [] } in
        let found =
          find-snoc (has_key (interaction_key scope r.request_id)) c.entries e k
            (text_eq_refl (interaction_key scope r.request_id)) in
        let again = subst (λ id. entry_for scope id m ≡ some e) same found in
        rw (requested_new scope r c d k) (requested_old scope s m e d again)
  ]
]

abbrev pub NoZero : Text → Type 0
NoZero = All λ c. c ≢ 0

split_at_zero : (a b x y : Text) → NoZero a → NoZero b → a ++ 0 ∷ x ≡ b ++ 0 ∷ y → (a ≡ b) × (x ≡ y)
split_at_zero [] [] x y h k e = (refl, cc)
split_at_zero [] (d ∷ b) x y h (n, k) e = absurd (n cc)
split_at_zero (c ∷ a) [] x y (n, h) k e = absurd (n cc)
split_at_zero (c ∷ a) (d ∷ b) x y (n, h) (m, k) e =
    let head : c ≡ d = cc in
    let tail : a ++ 0 ∷ x ≡ b ++ 0 ∷ y = cc in
    let (first, second) = split_at_zero a b x y h k tail in (cc, second)

-- The key of a request determines its session, its run and its id, when the ids of the session and
-- of the run do not contain the character 0.
pub interaction_key-injective :
    (s t : RunScope) (i j : Text)
    → NoZero s.session_id
    → NoZero t.session_id
    → NoZero s.run_id
    → NoZero t.run_id
    → interaction_key s i ≡ interaction_key t j
    → (s.session_id ≡ t.session_id) × (s.run_id ≡ t.run_id) × (i ≡ j)
interaction_key-injective s t i j a b c d e =
    let (session, rest) =
      split_at_zero s.session_id t.session_id (s.run_id ++ 0 ∷ i) (t.run_id ++ 0 ∷ j) a b e in
    let (run, id) = split_at_zero s.run_id t.run_id i j c d rest in (session, run, id)
