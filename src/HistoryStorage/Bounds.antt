-- ===== src/HistoryStorage/Bounds.antt =====
-- src/agent/history-storage.ts: what the bounded entries are.
use jupyter_plugin_aitermina.Base.{
  Text, List, take_last, trim, All, truthy, length, ℕ, All-drop, ◌≡◌, ◌≤◌, ◌∷◌, true, Bool-cases,
  arith, ◌≢◌, ◌-◌, [], ltb, length-take_last, inl, trim_idem, inr,
}
use jupyter_plugin_aitermina.Json.{Value, Items, nil, bool, num, obj, null}
use jupyter_plugin_aitermina.HistoryStorage.{
  inputs, shrink, bounded_entries, utf8_length, push_input, max_input_history_entries, cons,
  max_input_history_bytes, str, comma_bytes, arr,
}

abbrev pub IsInput : Text → Type 0
IsInput s = (trim s ≡ s) × (s ≢ [])

pub record IsBounded (entries : List Text) : Type 0 where
  pub inputs_only : All IsInput entries
  pub few : length entries ≤ max_input_history_entries
  pub short : utf8_length entries ≤ max_input_history_bytes

truthy-ne-nil : (s : Text) → truthy s ≡ true → s ≢ []
truthy-ne-nil [] h = absurd (ground arith)
truthy-ne-nil (c ∷ s) h = λ e. cc

push-All : (v : Value) (rest : List Text) → All IsInput rest → All IsInput (push_input v rest)
push-All (str s) rest h = elim (Bool-cases (truthy (trim s))) [
  | inl e ↦ rw e ((trim_idem s, truthy-ne-nil (trim s) e), h)
  | inr e ↦ rw e h
]
push-All null rest h = h
push-All (bool b) rest h = h
push-All (num n) rest h = h
push-All (arr a) rest h = h
push-All (obj o) rest h = h

inputs-All : (vs : Items) → All IsInput (inputs vs)
unfolding inputs
inputs-All nil = tt
inputs-All (cons v vs) = push-All v (inputs vs) (inputs-All vs)

shrink-All : (P : Text → Type 0) (es : List Text) → All P es → All P (shrink es)
unfolding shrink
shrink-All P [] h = tt
shrink-All P (e ∷ es) (p, h) =
    elim (Bool-cases (ltb max_input_history_bytes (utf8_length (e ∷ es)))) [
      | inl k ↦ rw k (shrink-All P es h)
      | inr k ↦ rw k (p, h)
    ]

length-shrink : (es : List Text) → length (shrink es) ≤ length es
unfolding shrink
length-shrink [] = omega arith
length-shrink (e ∷ es) = ground (arith, length-shrink es)

utf8_length-shrink : (es : List Text) → utf8_length (shrink es) ≤ max_input_history_bytes
unfolding shrink
utf8_length-shrink [] = unfold utf8_length comma_bytes in omega arith
utf8_length-shrink (e ∷ es) =
    elim (Bool-cases (ltb max_input_history_bytes (utf8_length (e ∷ es)))) [
      | inl k ↦ rw k (utf8_length-shrink es)
      | inr k ↦ rw k (ground arith)
    ]

take_last-All : (n : ℕ) (es : List Text) → All IsInput es → All IsInput (take_last n es)
unfolding take_last
take_last-All n es h = All-drop IsInput (length es - n) es h

-- Whatever was stored or is to be saved, the bounded entries are trimmed and not empty, at most 200,
-- and take at most 65536 bytes as JSON.
pub bounded_entries-IsBounded : (vs : Items) → IsBounded (bounded_entries vs)
unfolding bounded_entries
bounded_entries-IsBounded vs =
    let last = take_last max_input_history_entries (inputs vs) in
    record {
      inputs_only =
          shrink-All IsInput last
            (take_last-All max_input_history_entries (inputs vs) (inputs-All vs));
      few =
          omega (arith, length-shrink last, length-take_last max_input_history_entries (inputs vs));
      short = utf8_length-shrink last;
    }
