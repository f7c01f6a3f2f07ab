-- ===== src/ToolPresenter/Formats.antt =====
-- src/agent/tool-presenter.ts: the parts of a presentation.
use mathlib.Core.Option
use jupyter_plugin_aitermina.Base.{
  Option, ℕ, Bool, Text, List, true, codes, split, length, keep, join, [], some, if◌then◌else◌, ◌∷◌,
  drop, ltb, false, any, index_of, not, truthy, leb, decimal, none, ◌-◌, ◌||◌, ◌&&◌, ◌==◌, ◌+◌,
  ◌++◌, take, take_last, is_some, map, trim, is_high, suc, ◌*◌, add_to_set, is_low, zero,
}
use jupyter_plugin_aitermina.ToolPresenter.{ToolChange}
use jupyter_plugin_aitermina.Json.{Value, Number, Fields, whole, obj, str, end, other}
use jupyter_plugin_aitermina.Protocol.{ToolBlock}

-- What the double arithmetic of the language says of numbers whose value the model does not carry,
-- and of the divisions of all numbers: `!v`, `v < n`, `${v}`, `Math.max(0, Math.round(v))` as it is
-- printed, and `(v / n).toFixed(1)`.
pub record Doubles : Type 0 where
  pub is_falsy : Bool → Bool → Bool → ℕ → Bool
  pub is_below : Bool → Bool → Bool → ℕ → ℕ → Bool
  pub print : Bool → Bool → Bool → ℕ → Text
  pub print_rounded : Bool → Bool → Bool → ℕ → Text
  pub print_quotient : Number → ℕ → Text

abbrev pub preview_line_limit : ℕ
preview_line_limit = 12

abbrev pub preview_character_limit : ℕ
preview_character_limit = 4000

abbrev pub summary_length_limit : ℕ
summary_length_limit = 96

pub record Preview : Type 0 where
  pub preview : Text
  pub hidden_line_count : ℕ
  pub hidden_character_count : ℕ

-- The lines of a preview, and the code units of it.
unfoldable pub select_lines : Bool → List Text → List Text
select_lines prefer_tail lines =
    if prefer_tail
    then drop (length lines - preview_line_limit) lines
    else take preview_line_limit lines

unfoldable pub select_units : Bool → Text → Text
select_units prefer_tail line_preview =
    if ltb preview_character_limit (length line_preview)
    then (if prefer_tail
        then take_last preview_character_limit line_preview
        else take preview_character_limit line_preview)
    else line_preview

unfoldable pub make_preview : Text → Bool → Preview
unfolding select_lines select_units
make_preview [] prefer_tail = record {
  preview = [];
  hidden_line_count = 0;
  hidden_character_count = 0;
}
make_preview (c ∷ s) prefer_tail =
    let lines = split 10 (c ∷ s) in
    let selected = select_lines prefer_tail lines in
    let shown = select_units prefer_tail (join (10 ∷ []) selected) in
    record {
      preview = shown;
      hidden_line_count = length lines - length selected;
      hidden_character_count = length (c ∷ s) - length shown;
    }

-- `s.startsWith(p)`
unfoldable pub starts_with : Text → Text → Bool
starts_with [] s = true
starts_with (c ∷ p) [] = false
starts_with (c ∷ p) (d ∷ s) = c == d && starts_with p s

abbrev pub is_header : Text → Bool
is_header line = starts_with (codes "+++ ") line || starts_with (codes "--- ") line

abbrev pub is_marked : ℕ → Text → Bool
is_marked marker line =
    starts_with (marker ∷ []) line && not (starts_with (marker ∷ marker ∷ marker ∷ 32 ∷ []) line)

unfoldable pub count_diff_lines : Text → ℕ → Option ℕ
unfolding starts_with
count_diff_lines output marker =
    let lines = split 10 output in
    if any is_header lines then some (length (keep (is_marked marker) lines)) else none

-- The files of `/^([^:]+):/` that the lines begin with, added to the first argument.
unfoldable pub grep_files : List Text → List Text → List Text
grep_files files [] = files
grep_files files (line ∷ lines) = elim (index_of 58 line) [
  | none ↦ grep_files files lines
  | some zero ↦ grep_files files lines
  | some (suc i) ↦ grep_files (add_to_set (take (suc i) line) files) lines
]

unfoldable pub count_grep_files : List Text → ℕ
unfolding grep_files
count_grep_files lines = length (grep_files [] lines)

abbrev pub count_or_zero : Option ℕ → ℕ
count_or_zero none = 0
count_or_zero (some n) = n

unfoldable pub format_change : ToolChange → Text
format_change change =
    if not (is_some change.additions) && not (is_some change.deletions)
    then []
    else codes "+"
      ++ (decimal (count_or_zero change.additions)
          ++ (codes " -" ++ decimal (count_or_zero change.deletions)))

-- `asRecord`
abbrev pub as_record : Value → Fields
as_record (obj fields) = fields
as_record v = end

-- `stringValue(source[key])`
abbrev pub string_value : Option Value → Text
string_value (some (str s)) = s
string_value v = []

-- `s || fallback`
abbrev pub or_else : Text → Text → Text
or_else s fallback = if truthy s then s else fallback

-- `path.split(/[\\/]/)`: a backslash separates as a slash does.
abbrev pub to_slash : ℕ → ℕ
to_slash c = if c == 92 then 47 else c

unfoldable pub compact_path : Text → Text
compact_path path =
    let parts = keep truthy (split 47 (map to_slash path)) in
    if leb (length parts) 2 then path else codes ".../" ++ join (47 ∷ []) (take_last 2 parts)

abbrev pub first_line : Text → Text
first_line s = elim (split 10 s) [ [] ↦ [] | line ∷ lines ↦ line ]

unfoldable pub truncate : Text → Text
truncate s =
    if leb (length s) summary_length_limit
    then s
    else take (summary_length_limit - 3) s ++ codes "..."

unfoldable pub count_lines : Text → ℕ
count_lines s = if truthy s then length (split 10 s) else 0

unfoldable pub non_empty_lines : Text → List Text
non_empty_lines s = keep (λ line. truthy (trim line)) (split 10 s)

-- The UTF-8 bytes of a code unit that is no part of a surrogate pair; a lone surrogate becomes
-- U+FFFD.
abbrev pub unit_utf8 : ℕ → ℕ
unit_utf8 c = if ltb c 128 then 1 else if ltb c 2048 then 2 else 3

-- `new TextEncoder().encode(s).byteLength`. The first argument is a high surrogate that waits for
-- its partner.
unfoldable pub utf8_bytes : Option ℕ → Text → ℕ
utf8_bytes none [] = 0
utf8_bytes (some h) [] = 3
utf8_bytes none (c ∷ s) =
    let waiting = utf8_bytes (some c) s in
    let past = unit_utf8 c + utf8_bytes none s in if is_high c then waiting else past
utf8_bytes (some h) (c ∷ s) =
    let pair = 4 + utf8_bytes none s in
    let waiting = 3 + utf8_bytes (some c) s in
    let past = 3 + (unit_utf8 c + utf8_bytes none s) in
    if is_low c then pair else if is_high c then waiting else past

-- `[a, b, ...].filter(Boolean).join(' | ')`
abbrev pub join_given : List Text → Text
join_given parts = join (codes " | ") (keep truthy parts)

abbrev pub is_one : Number → Bool
is_one (whole n) = n == 1
is_one v = false

module _ (doubles : Doubles) where
  abbrev pub number_is_falsy : Number → Bool
  number_is_falsy (whole n) = n == 0
  number_is_falsy (other a b c tag) = doubles.is_falsy a b c tag

  abbrev pub number_is_below : Number → ℕ → Bool
  number_is_below (whole n) m = ltb n m
  number_is_below (other a b c tag) m = doubles.is_below a b c tag m

  abbrev pub print_number : Number → Text
  print_number (whole n) = decimal n
  print_number (other a b c tag) = doubles.print a b c tag

  abbrev pub print_rounded_number : Number → Text
  print_rounded_number (whole n) = decimal n
  print_rounded_number (other a b c tag) = doubles.print_rounded a b c tag

  unfoldable pub format_bytes : Number → Text
  format_bytes v =
      if number_is_falsy v
      then []
      else if number_is_below v 1024
      then print_number v ++ codes " B"
      else if number_is_below v (1024 * 1024)
      then doubles.print_quotient v 1024 ++ codes " KB"
      else doubles.print_quotient v (1024 * 1024) ++ codes " MB"

  unfoldable pub format_duration : Option Number → Text
  format_duration none = []
  format_duration (some v) =
      if number_is_below v 1000
      then print_rounded_number v ++ codes " ms"
      else doubles.print_quotient v 1000 ++ codes " s"

  unfoldable pub format_line_count : Number → Text
  format_line_count v =
      if number_is_falsy v
      then []
      else print_number v ++ (codes " line" ++ (if is_one v then [] else codes "s"))

  unfoldable pub output_meta : ToolBlock → Text
  unfolding count_lines utf8_bytes format_line_count format_bytes format_duration
  output_meta b =
      let line_count = Option.get_or b.line_count (whole (count_lines b.output)) in
      let byte_count = Option.get_or b.byte_count (whole (utf8_bytes none b.output)) in
      join_given (
        format_line_count line_count ∷ format_bytes byte_count ∷ format_duration b.duration_ms ∷ [])
