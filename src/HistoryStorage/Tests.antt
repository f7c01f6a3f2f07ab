-- ===== src/HistoryStorage/Tests.antt =====
-- src/agent/history-storage.ts: runs on a concrete storage.
use jupyter_plugin_aitermina.HistoryStorage.{
  BrowserStorage, bounded_entries, load, inputs, save, items_of, shrink, utf8_length, comma_bytes,
  string_bytes, unit_bytes,
}
use jupyter_plugin_aitermina.Base.{
  List, none, Text, true, codes, some, ◌≡◌, ◌∷◌, [], refl, take_last, trim, trim_start, trim_end,
  is_space,
}
use jupyter_plugin_aitermina.HistoryStorage.Bounds.{IsBounded, bounded_entries-IsBounded}
use jupyter_plugin_aitermina.HistoryStorage.RoundTrip.{load-save}

abbrev blank : BrowserStorage
blank = record { unified = none; legacy = none; readable = true; writable = true }

abbrev typed : List Text
typed = codes " ls " ∷ codes "  " ∷ codes "cd" ∷ []

bounded_typed : bounded_entries (items_of typed) ≡ codes "ls" ∷ codes "cd" ∷ []
unfolding bounded_entries inputs shrink utf8_length comma_bytes string_bytes unit_bytes take_last
    trim trim_start trim_end is_space
bounded_typed = refl

load-save_example :
    load (save typed (some blank)) ≡ (save typed (some blank), bounded_entries (items_of typed))
load-save_example = load-save typed blank refl refl

bounded_entries-IsBounded_example : IsBounded (bounded_entries (items_of typed))
bounded_entries-IsBounded_example = bounded_entries-IsBounded (items_of typed)
