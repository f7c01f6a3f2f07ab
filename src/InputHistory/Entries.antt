-- ===== src/InputHistory/Entries.antt =====
-- src/agent/history.ts: what the entries of a history are, whatever is added to it.
use jupyter_plugin_aitermina.Base.{
  List, Text, Option, trim, ℕ, All, truthy, Bool-cases, ◌∷◌, some, inr, ◌≢◌, ◌≡◌, [], false, true,
  inl, ◌<◌, length, All-append, ◌++◌, arith, trim_idem, text_eq_iff, ◌==◌, refl,
}
use jupyter_plugin_aitermina.InputHistory.{
  InputHistory, add, is_last, add_all, restore, go_back, reset_navigation, previous, next, empty,
  go_on,
}
use mathlib.Core.List.{[]}
use mathlib.Core.Option.{none}

-- No entry repeats the one before it.
abbrev pub NoRepeat : List Text → Type 0
NoRepeat [] = Unit
NoRepeat (e ∷ []) = Unit
NoRepeat (e ∷ f ∷ es) = (e ≢ f) × NoRepeat (f ∷ es)

abbrev pub IsInput : Text → Type 0
IsInput e = (trim e ≡ e) × (e ≢ [])

abbrev pub CursorFits : Option ℕ → List Text → Type 0
CursorFits none es = Unit
CursorFits (some i) es = i < length es

pub record IsValid (h : InputHistory) : Type 0 where
  pub inputs : All IsInput h.entries
  pub distinct : NoRepeat h.entries
  pub inside : CursorFits h.cursor h.entries

NoRepeat-append :
    (es : List Text) (input : Text)
    → NoRepeat es
    → is_last input es ≡ false
    → NoRepeat (es ++ input ∷ [])
NoRepeat-append [] input h k = tt
NoRepeat-append (e ∷ []) input h k = (λ same. ground (arith, text_eq_iff e input), tt)
NoRepeat-append (e ∷ f ∷ es) input (n, h) k = (n, NoRepeat-append (f ∷ es) input h k)

truthy-ne-nil : (s : Text) → truthy s ≡ true → s ≢ []
truthy-ne-nil [] h = cc
truthy-ne-nil (c ∷ s) h = λ e. cc

add-IsValid : (source : Text) (h : InputHistory) → IsValid h → IsValid (add source h).0
unfolding add
add-IsValid source h v = elim (Bool-cases (truthy (trim source))) [
  | inr blank ↦ rw (blank, add) v
  | inl full ↦ elim (Bool-cases (is_last (trim source) h.entries)) [
    | inl again ↦
        rw (full, add)
          (rw (again, add) (record { inputs = v.inputs; distinct = v.distinct; inside = tt }))
    | inr new ↦
        rw (full, add)
          (rw (new, add)
            (record {
              inputs =
                  All-append IsInput h.entries _ v.inputs
                    ((trim_idem source, truthy-ne-nil _ full), tt);
              distinct = NoRepeat-append h.entries (trim source) v.distinct new;
              inside = tt;
            }))
  ]
]

add_all-IsValid : (es : List Text) (h : InputHistory) → IsValid h → IsValid (add_all es h)
unfolding add_all
add_all-IsValid [] h v = v
add_all-IsValid (e ∷ es) h v = add_all-IsValid es (add e h).0 (add-IsValid e h v)

restore-IsValid : (es : List Text) (h : InputHistory) → IsValid (restore es h)
unfolding restore
restore-IsValid es h = add_all-IsValid es _ (record { inputs = tt; distinct = tt; inside = tt })

go_back-inside :
    (c : Option ℕ) (draft : Text) (h : InputHistory)
    → CursorFits c h.entries
    → 0 < length h.entries
    → let r = go_back c draft h in CursorFits r.0.cursor h.entries × (r.0.entries ≡ h.entries)
go_back-inside none draft h f k = ground arith
go_back-inside (some i) draft h f k = ground arith

go_on-inside :
    (c : Option ℕ) (h : InputHistory)
    → h.cursor ≡ c
    → CursorFits c h.entries
    → let r = go_on c h in CursorFits r.0.cursor h.entries × (r.0.entries ≡ h.entries)
unfolding reset_navigation
go_on-inside none h e f = rw e (tt, refl)
go_on-inside (some i) h e f = ground arith

previous-IsValid : (draft : Text) (h : InputHistory) → IsValid h → IsValid (previous draft h).0
unfolding previous
previous-IsValid draft h v = elim (Bool-cases (length h.entries == 0)) [
  | inl e ↦ rw (e, previous) v
  | inr e ↦
      let (inside, same) = go_back-inside h.cursor draft h v.inside (ground arith) in
      rw (e, previous)
        (record {
          inputs = rw same v.inputs;
          distinct = rw same v.distinct;
          inside = rw same inside;
        })
]

next-IsValid : (h : InputHistory) → IsValid h → IsValid (next h).0
unfolding next
next-IsValid h v =
    let (inside, same) = go_on-inside h.cursor h refl v.inside in
    record { inputs = rw same v.inputs; distinct = rw same v.distinct; inside = rw same inside }

-- The calls that a workspace makes.
pub data Call : Type 0 where
  adds : Text → Call
  restores : List Text → Call
  goes_back : Text → Call
  goes_on : Call
  resets : Call

unfoldable pub perform : Call → InputHistory → InputHistory
perform (adds source) h = (add source h).0
perform (restores es) h = restore es h
perform (goes_back draft) h = (previous draft h).0
perform goes_on h = (next h).0
perform resets h = reset_navigation h

unfoldable pub perform_all : List Call → InputHistory → InputHistory
perform_all [] h = h
perform_all (c ∷ cs) h = perform_all cs (perform c h)

perform-IsValid : (c : Call) (h : InputHistory) → IsValid h → IsValid (perform c h)
unfolding perform reset_navigation
perform-IsValid (adds source) h v = add-IsValid source h v
perform-IsValid (restores es) h v = restore-IsValid es h
perform-IsValid (goes_back draft) h v = previous-IsValid draft h v
perform-IsValid goes_on h v = next-IsValid h v
perform-IsValid resets h v = record { inputs = v.inputs; distinct = v.distinct; inside = tt }

perform_all-IsValid : (cs : List Call) (h : InputHistory) → IsValid h → IsValid (perform_all cs h)
unfolding perform_all
perform_all-IsValid [] h v = v
perform_all-IsValid (c ∷ cs) h v = perform_all-IsValid cs _ (perform-IsValid c h v)

-- After any calls on a new history, each entry is trimmed and not empty, no entry repeats the one
-- before it, and the cursor points to an entry.
pub history-IsValid : (cs : List Call) → IsValid (perform_all cs empty)
history-IsValid cs =
    perform_all-IsValid cs empty (record { inputs = tt; distinct = tt; inside = tt })
