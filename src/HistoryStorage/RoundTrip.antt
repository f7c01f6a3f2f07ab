-- ===== src/HistoryStorage/RoundTrip.antt =====
-- src/agent/history-storage.ts: what is saved is loaded again.
use jupyter_plugin_aitermina.Base.{
  ℕ, take_last, List, Text, ◌≡◌, All, drop, length, true, suc, ◌≤◌, arith, some, ◌∷◌, ◌-◌, ap, zero,
  [], refl,
}
use jupyter_plugin_aitermina.HistoryStorage.{
  inputs, shrink, bounded_entries, load, save, parse_entries, utf8_length, BrowserStorage, items_of,
  max_input_history_bytes, max_input_history_entries,
}
use jupyter_plugin_aitermina.HistoryStorage.Bounds.{IsBounded, IsInput, bounded_entries-IsBounded}

inputs-items_of : (es : List Text) → All IsInput es → inputs (items_of es) ≡ es
unfolding inputs
inputs-items_of [] h = refl
inputs-items_of ([] ∷ es) ((t, n), h) = absurd (n refl)
inputs-items_of ((c ∷ s) ∷ es) ((t, n), h) = rw t (ap (◌∷◌ (c ∷ s)) (inputs-items_of es h))

drop-none : {A : Type 0} (n : ℕ) (xs : List A) → n ≡ 0 → drop n xs ≡ xs
drop-none zero xs e = refl
drop-none (suc n) xs e = absurd (omega (arith, e))

take_last-all : (n : ℕ) (es : List Text) → length es ≤ n → take_last n es ≡ es
unfolding take_last
take_last-all n es h = drop-none (length es - n) es (omega (arith, h))

shrink_short : (es : List Text) → utf8_length es ≤ max_input_history_bytes → shrink es ≡ es
unfolding shrink
shrink_short [] h = refl
shrink_short (e ∷ es) h = ground arith

-- Bounded entries are not changed by bounding them again.
bounded-again : (es : List Text) → IsBounded es → bounded_entries (items_of es) ≡ es
unfolding bounded_entries
bounded-again es b =
    rw (inputs-items_of es b.inputs_only)
      (rw (take_last-all max_input_history_entries es b.few) (shrink_short es b.short))

-- Where the storage can be read and written, loading after a save gives the bounded entries that
-- were saved, and leaves the storage as it is.
pub load-save :
    (entries : List Text) (s : BrowserStorage)
    → s.readable ≡ true
    → s.writable ≡ true
    → load (save entries (some s)) ≡ (save entries (some s), bounded_entries (items_of entries))
unfolding load save parse_entries
load-save entries s r w =
    let b = bounded_entries (items_of entries) in
    let same = bounded-again b (bounded_entries-IsBounded (items_of entries)) in
    ground (arith, same)
