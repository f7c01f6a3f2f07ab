-- ===== src/InputHistory/Walk.antt =====
-- src/agent/history.ts: walking back through the entries and forward to the draft.
use jupyter_plugin_aitermina.Base.{
  ℕ, List, Text, Option, some, ◌<◌, length, suc, ◌≡◌, zero, ◌-◌, arith, none, ◌+◌, get_elem?, min,
  ◌≤◌, [], true, false, refl,
}
use jupyter_plugin_aitermina.InputHistory.{
  previous, InputHistory, HistoryNavigation, at, next, reset_navigation,
}

-- The state and the last answer after a number of calls of `previous` and of `next`.
pub backs :
    ℕ → Text → InputHistory × Option HistoryNavigation → InputHistory × Option HistoryNavigation
backs zero draft r = r
backs (suc n) draft r = backs n draft (previous draft r.0)

pub forwards : ℕ → InputHistory × Option HistoryNavigation → InputHistory × Option HistoryNavigation
forwards zero r = r
forwards (suc n) r = forwards n (next r.0)

-- The history while it shows entry `i`, over a draft.
abbrev showing : List Text → Text → ℕ → InputHistory
showing es draft i = record { entries = es; cursor = some i; draft = draft }

abbrev shown : List Text → Text → ℕ → InputHistory × Option HistoryNavigation
shown es draft i = (showing es draft i, some (at (showing es draft i) i))

previous-showing :
    (es : List Text) (draft d : Text) (i : ℕ)
    → 0 < length es
    → previous d (showing es draft i) ≡ shown es draft (i - 1)
unfolding previous
previous-showing es draft d i h = ground arith

backs-shown :
    (n : ℕ) (es : List Text) (draft : Text) (i : ℕ)
    → 0 < length es
    → backs n draft (shown es draft i) ≡ shown es draft (i - n)
unfolding backs
backs-shown zero es draft i h = let e : i - 0 ≡ i = omega arith in rw e
backs-shown (suc n) es draft i h =
    let e : i - suc n ≡ i - 1 - n = omega arith in
    rw (e, previous-showing es draft draft i h) (backs-shown n es draft (i - 1) h)

next-showing :
    (es : List Text) (draft : Text) (i : ℕ)
    → i + 1 < length es
    → next (showing es draft i) ≡ shown es draft (i + 1)
unfolding next
next-showing es draft i h = ground arith

next-showing_end :
    (es : List Text) (draft : Text) (i : ℕ)
    → length es ≤ i + 1
    → next (showing es draft i) ≡ (
      record { entries = es; cursor = none; draft = [] },
      some (record { source = some draft; browsing = false }),
    )
unfolding next reset_navigation
next-showing_end es draft i h = ground arith

forwards-shown :
    (n : ℕ) (es : List Text) (draft : Text) (i : ℕ)
    → i + n < length es
    → forwards n (shown es draft i) ≡ shown es draft (i + n)
unfolding forwards
forwards-shown zero es draft i h = let e : i + 0 ≡ i = omega arith in rw e
forwards-shown (suc n) es draft i h =
    let e : i + suc n ≡ i + 1 + n = omega arith in
    rw (e, next-showing es draft i (omega arith)) (forwards-shown n es draft (i + 1) (omega arith))

forwards-suc :
    (n : ℕ) (r : InputHistory × Option HistoryNavigation)
    → forwards (suc n) r ≡ next (forwards n r).0
unfolding forwards
forwards-suc zero r = refl
forwards-suc (suc n) r = forwards-suc n (next r.0)

-- Going back n times from a draft shows the n-th entry from the end, and stops at the oldest; the
-- draft is kept.
pub backs-eq :
    (n : ℕ) (draft : Text) (h : InputHistory) (r : Option HistoryNavigation)
    → h.cursor ≡ none
    → 0 < length h.entries
    → 0 < n
    → let shows = record h { cursor = some (length h.entries - n); draft = draft } in
      backs n draft (h, r) ≡ (
        shows,
        some (record { source = get_elem? h.entries (length h.entries - n); browsing = true }),
      )
unfolding backs previous
backs-eq zero draft h r e k p = absurd (omega arith)
backs-eq (suc n) draft h r e k p =
    let first : previous draft h ≡ shown h.entries draft (length h.entries - 1) = ground arith in
    let m : length h.entries - suc n ≡ length h.entries - 1 - n = omega arith in
    rw (m, first) (backs-shown n h.entries draft (length h.entries - 1) k)

-- Going forward as often as entries were shown ends the walk with the draft, with the entries as
-- they were.
pub forwards-backs :
    (n : ℕ) (draft : Text) (h : InputHistory) (r : Option HistoryNavigation)
    → h.cursor ≡ none
    → 0 < length h.entries
    → 0 < n
    → forwards (min n (length h.entries)) (backs n draft (h, r)) ≡ (
      record { entries = h.entries; cursor = none; draft = [] },
      some (record { source = some draft; browsing = false }),
    )
forwards-backs n draft h r e k p =
    let len = length h.entries in
    let i = len - n in
    let m = min n len - 1 in
    let first : backs n draft (h, r) ≡ shown h.entries draft i = backs-eq n draft h r e k p in
    let count : min n len ≡ suc m = omega arith in
    rw (count, first, forwards-suc m (shown h.entries draft i))
      (rw (forwards-shown m h.entries draft i (omega arith))
        (next-showing_end h.entries draft (i + m) (omega arith)))
