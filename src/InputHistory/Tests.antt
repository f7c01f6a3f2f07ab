-- ===== src/InputHistory/Tests.antt =====
-- src/agent/history.ts: runs of the history, and its theorems at concrete histories.
use jupyter_plugin_aitermina.InputHistory.Entries.{
  perform_all, IsValid, perform, Call, adds, history-IsValid, goes_back, goes_on,
}
use jupyter_plugin_aitermina.InputHistory.{InputHistory, add, empty, restore, previous, next}
use jupyter_plugin_aitermina.Base.{
  List, codes, none, ◌≡◌, ◌∷◌, [], some, false, true, trim, is_space, arith, text_eq, refl,
}
use jupyter_plugin_aitermina.InputHistory.Walk.{backs, forwards, backs-eq, forwards-backs}

input_history : Unit {0}
unfolding perform_all perform add restore previous next trim is_space text_eq
input_history = tt

abbrev two : InputHistory
two = record { entries = codes "ls" ∷ codes "pwd" ∷ []; cursor = none; draft = [] }

add_tests :
    ((add (codes " ls ") empty).0.entries ≡ codes "ls" ∷ [])
    × ((add (codes "pwd") two).1 ≡ false)
    × ((add (codes "  ") two).1 ≡ false)
    × ((restore (codes "a" ∷ codes " a" ∷ codes "" ∷ codes "b" ∷ []) two).entries
        ≡ codes "a" ∷ codes "b" ∷ [])
unfolding input_history
add_tests = (refl, refl, refl, refl)

calls : List Call
calls = adds (codes "ls") ∷ goes_back (codes "x") ∷ adds (codes "ls ") ∷ goes_on ∷ []

history-IsValid_example : IsValid (perform_all calls empty)
history-IsValid_example = history-IsValid calls

backs-eq_example : backs 1 (codes "dr") (two, none) ≡ (
  record { entries = two.entries; cursor = some 1; draft = codes "dr" },
  some (record { source = some (codes "pwd"); browsing = true }),
)
backs-eq_example = backs-eq 1 (codes "dr") two none refl (omega arith) (omega arith)

forwards-backs_example :
    forwards 2 (backs 5 (codes "dr") (two, none))
    ≡ (two, some (record { source = some (codes "dr"); browsing = false }))
forwards-backs_example = forwards-backs 5 (codes "dr") two none refl (omega arith) (omega arith)
