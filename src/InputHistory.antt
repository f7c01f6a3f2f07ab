-- ===== src/InputHistory.antt =====
-- src/agent/history.ts: the history of submitted inputs and the walk through it.
pub mod Walk
pub mod Entries
mod Tests
use Prim.Native.Nat.{ℕ}
use jupyter_plugin_aitermina.Base.{
  Option, List, [], Bool, none, Text, ℕ, is_some, last?, trim, get_elem?, some, length,
  if◌then◌else◌, false, not, true, ltb, ◌==◌, ◌-◌, text_eq, truthy, ◌+◌, ◌++◌, ◌∷◌,
}

pub record HistoryNavigation : Type 0 where
  pub source : Option Text
  pub browsing : Bool

pub record InputHistory : Type 0 where
  pub entries : List Text
  pub cursor : Option ℕ
  pub draft : Text

abbrev pub empty : InputHistory
empty = record { entries = []; cursor = none; draft = [] }

abbrev pub browsing : InputHistory → Bool
browsing h = is_some h.cursor

pub reset_navigation : InputHistory → InputHistory
reset_navigation h = record h { cursor = none; draft = [] }

-- `entries[entries.length - 1] === input`
abbrev pub is_last : Text → List Text → Bool
is_last input entries = elim (last? entries) [ none ↦ false | some e ↦ text_eq e input ]

pub add : Text → InputHistory → InputHistory × Bool
unfolding reset_navigation
add source h =
    let input = trim source in
    if not (truthy input)
    then (h, false)
    else if is_last input h.entries
    then (reset_navigation h, false)
    else (reset_navigation (record h { entries = h.entries ++ input ∷ [] }), true)

-- The `forEach` of `restore`.
pub add_all : List Text → InputHistory → InputHistory
add_all [] h = h
add_all (e ∷ es) h = add_all es (add e h).0

pub restore : List Text → InputHistory → InputHistory
unfolding reset_navigation add_all
restore entries h = add_all entries (reset_navigation (record h { entries = [] }))

-- A read past the end, `undefined` in the source, is `none`.
abbrev pub at : InputHistory → ℕ → HistoryNavigation
at h i = record { source = get_elem? h.entries i; browsing = true }

abbrev pub visit : ℕ → InputHistory → InputHistory × Option HistoryNavigation
visit i h = (record h { cursor = some i }, some (at h i))

abbrev pub go_back : Option ℕ → Text → InputHistory → InputHistory × Option HistoryNavigation
go_back none draft h = visit (length h.entries - 1) (record h { draft = draft })
go_back (some i) draft h = if ltb 0 i then visit (i - 1) h else visit i h

pub previous : Text → InputHistory → InputHistory × Option HistoryNavigation
previous draft h = if length h.entries == 0 then (h, none) else go_back h.cursor draft h

-- Here `i` is below `entries.length - 1` as signed numbers.
abbrev pub go_on : Option ℕ → InputHistory → InputHistory × Option HistoryNavigation
go_on none h = (h, none)
go_on (some i) h =
    if ltb (i + 1) (length h.entries)
    then visit (i + 1) h
    else (reset_navigation h, some (record { source = some h.draft; browsing = false }))

pub next : InputHistory → InputHistory × Option HistoryNavigation
unfolding reset_navigation
next h = go_on h.cursor h
