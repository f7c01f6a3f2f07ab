-- ===== src/HistoryStorage.antt =====
-- src/agent/history-storage.ts: the input history in the browser's storage. A stored text is
-- represented by the JSON value that it parses to, `none` where `JSON.parse` throws.
pub mod Bounds
pub mod RoundTrip
mod Tests
use jupyter_plugin_aitermina.Base.{
  ℕ, Option, List, Bool, Text, ◌*◌, if◌then◌else◌, leb, ltb, [], take_last, some, not, ◌==◌, ◌∷◌,
  ◌+◌, none, truthy, ◌&&◌, ◌||◌, ◌-◌, trim, is_high, is_low,
}
use jupyter_plugin_aitermina.Json.{Value, Items, nil, str, cons, arr}

abbrev pub max_input_history_entries : ℕ
max_input_history_entries = 200

abbrev pub max_input_history_bytes : ℕ
max_input_history_bytes = 64 * 1024

-- A quotation mark, a backslash, and the controls with a short escape.
abbrev pub is_short_escape : ℕ → Bool
is_short_escape c = c == 34 || c == 92 || (leb 8 c && leb c 10) || c == 12 || c == 13

-- The UTF-8 bytes of a code unit in a JSON string that is no part of a surrogate pair. A lone
-- surrogate is escaped.
unfoldable pub unit_bytes : ℕ → ℕ
unit_bytes c =
    if is_short_escape c
    then 2
    else if ltb c 32
    then 6
    else if ltb c 128
    then 1
    else if ltb c 2048
    then 2
    else if is_high c || is_low c
    then 6
    else 3

-- The first argument is a high surrogate that waits for its partner.
unfoldable pub string_bytes : Option ℕ → Text → ℕ
unfolding unit_bytes
string_bytes none [] = 0
string_bytes (some h) [] = unit_bytes h
string_bytes none (c ∷ s) =
    let waiting = string_bytes (some c) s in
    let past = unit_bytes c + string_bytes none s in if is_high c then waiting else past
string_bytes (some h) (c ∷ s) =
    let pair = 4 + string_bytes none s in
    let waiting = unit_bytes h + string_bytes (some c) s in
    let past = unit_bytes h + (unit_bytes c + string_bytes none s) in
    if is_low c then pair else if is_high c then waiting else past

-- The strings with their quotation marks, each with a comma before it.
unfoldable pub comma_bytes : List Text → ℕ
unfolding string_bytes
comma_bytes [] = 0
comma_bytes (t ∷ ts) = 3 + string_bytes none t + comma_bytes ts

-- `utf8Length(JSON.stringify(entries))`: the first string has no comma.
unfoldable pub utf8_length : List Text → ℕ
unfolding comma_bytes
utf8_length entries = 2 + (comma_bytes entries - 1)

-- The `forEach` of `boundedEntries`.
abbrev pub push_input : Value → List Text → List Text
push_input (str s) rest = if truthy (trim s) then trim s ∷ rest else rest
push_input _ rest = rest

unfoldable pub inputs : Items → List Text
inputs nil = []
inputs (cons v vs) = push_input v (inputs vs)

-- The loop that shifts entries out.
unfoldable pub shrink : List Text → List Text
unfolding utf8_length
shrink [] = []
shrink (e ∷ es) =
    let rest = shrink es in
    if ltb max_input_history_bytes (utf8_length (e ∷ es)) then rest else e ∷ es

unfoldable pub bounded_entries : Items → List Text
unfolding inputs shrink
bounded_entries source = shrink (take_last max_input_history_entries (inputs source))

abbrev pub items_of : List Text → Items
items_of [] = nil
items_of (e ∷ es) = cons (str e) (items_of es)

unfoldable pub parse_entries : Option Value → List Text
unfolding bounded_entries
parse_entries (some (arr items)) = bounded_entries items
parse_entries _ = []

-- The browser's storage for one workspace: what stands under the unified and the legacy key, and
-- whether `getItem` and `setItem` succeed.
pub record BrowserStorage : Type 0 where
  pub unified : Option (Option Value)
  pub legacy : Option (Option Value)
  pub readable : Bool
  pub writable : Bool

abbrev pub set_item : List Text → BrowserStorage → BrowserStorage
set_item entries s =
    if s.writable then record s { unified = some (some (arr (items_of entries))) } else s

abbrev pub load_legacy : Option (Option Value) → BrowserStorage → BrowserStorage × List Text
load_legacy none s = (s, [])
load_legacy (some raw) s = (set_item (parse_entries raw) s, parse_entries raw)

abbrev pub load_unified : Option (Option Value) → BrowserStorage → BrowserStorage × List Text
load_unified (some raw) s = (s, parse_entries raw)
load_unified none s = load_legacy s.legacy s

-- `none` is an object without a storage.
abbrev pub load_from : BrowserStorage → BrowserStorage × List Text
load_from s = if not s.readable then (s, []) else load_unified s.unified s

unfoldable pub load : Option BrowserStorage → Option BrowserStorage × List Text
unfolding parse_entries
load none = (none, [])
load (some s) = (some (load_from s).0, (load_from s).1)

unfoldable pub save : List Text → Option BrowserStorage → Option BrowserStorage
unfolding bounded_entries
save entries none = none
save entries (some s) = some (set_item (bounded_entries (items_of entries)) s)
